-- ===== src/Jos/Console/Tests.antt =====
-- The console on concrete devices: a color adapter, a key, and two lines of output.
use duke_operatingsystems.Common.{
  [], arith, bit_and, bit_xor, false, if◌then◌else◌, refl, true, ℕ, ◌%◌, ◌++◌, ◌/◌, ◌==◌, ◌^◌, ◌∷◌,
  ◌≡◌,
}
use duke_operatingsystems.Jos.Console.Keymap.{shiftcode, togglecode}
use duke_operatingsystems.Jos.Console.Strokes.{typed, stroke, key, typed-stroke}
use duke_operatingsystems.Jos.Console.Screen.{Screen}
use duke_operatingsystems.Jos.Console.Devices.{Ports}
use duke_operatingsystems.Jos.Console.Setup.{Video, IsAdapter, cga_init, cga_init_lem, cga_base}
use duke_operatingsystems.Jos.Printf.{Formatter, each, cprintf}
use duke_operatingsystems.Jos.Printf.Wire.{IsApart}
use duke_operatingsystems.Jos.Printf.Printed.{HasPrinted, cprintf_lem}

-- The first cell, the cursor and the register that is selected.
record Adapter : Type 0 where
  first_cell : ℕ
  cursor_at : ℕ
  register : ℕ

abbrev ports : Ports Adapter
ports = record {
  inb = λ port d.
      ((if d.register == 14 then d.cursor_at % 2 ^ 16 / 256 else d.cursor_at % 2 ^ 16 % 256), d);
  outb = λ port v d. record d { register = v };
  cprintf = λ fmt d. d;
}

abbrev video : Video Adapter
video = record {
  load = λ a d. (d.first_cell % 2 ^ 16, d);
  store = λ a v d. record d { first_cell = v };
}

abbrev color_adapter : IsAdapter ports video true cga_base
color_adapter = record {
  cell = λ d. d.first_cell % 2 ^ 16;
  cursor = λ d. d.cursor_at % 2 ^ 16;
  cell-lt = λ d. omega arith;
  cursor-lt = λ d. omega arith;
  kept = λ e d. (refl, refl);
  stored = λ e v d lt. omega (arith, lt);
  deaf = λ e d. absurd (ground (arith, e));
  load-cursor = λ d. refl;
  store-cursor = λ v d. refl;
  high = λ d. refl;
  low = λ d. refl;
  selected = λ i d. (refl, refl);
}

abbrev powered_on : Adapter
powered_on = record { first_cell = 0x0741; cursor_at = 480; register = 0 }

cga_init_lem_example :
    ((cga_init ports video powered_on).0.addr_6845 ≡ 0x3D4)
    × ((cga_init ports video powered_on).0.crt_buf ≡ 0xB8000)
    × ((cga_init ports video powered_on).0.crt_pos ≡ 480)
    × (true ≡ true → (cga_init ports video powered_on).1.first_cell % 2 ^ 16 ≡ 0x0741)
cga_init_lem_example = cga_init_lem ports video true color_adapter powered_on

caps_lock-up : bit_and 1 (shiftcode (key false 0x3A)) ≡ 0
unfolding shiftcode
caps_lock-up = refl

-- Caps Lock, with Shift held.
typed-stroke_example :
    (typed (stroke false 0x3A) 1 ≡ bit_xor 1 (togglecode (key false 0x3A)))
    × (typed (stroke false 0x3A ++ stroke false 0x3A) 1 ≡ 1)
typed-stroke_example =
    typed-stroke false 0x3A 1 (omega arith) (λ e. absurd (omega (arith, e))) (omega arith)
      caps_lock-up

-- A formatter that prints "hi" and a tab for every format.
abbrev greeting : Formatter
greeting = record {
  vprintfmt = λ putch fmt ap s. each putch (104 ∷ 105 ∷ 9 ∷ []) s;
  chars = λ fmt ap. 104 ∷ 105 ∷ 9 ∷ [];
  vprintfmt-each = λ putch fmt ap s. refl;
}

abbrev screen : Screen
screen = record { crt_buf = λ i. 0x0741; crt_pos = 1998; addr_6845 = 0x3D4; out = [] }

screen-IsApart : IsApart screen
screen-IsApart = ((λ e. absurd (omega (arith, e))), (λ e. absurd (omega (arith, e))))

cprintf_lem_example :
    ((cprintf greeting "hi\t" [] screen).0 ≡ 0)
    × HasPrinted screen (104 ∷ 105 ∷ 9 ∷ []) (cprintf greeting "hi\t" [] screen).1
cprintf_lem_example = cprintf_lem greeting "hi\t" [] screen screen-IsApart (omega arith)
