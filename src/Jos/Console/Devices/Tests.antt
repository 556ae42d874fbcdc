-- ===== src/Jos/Console/Devices/Tests.antt =====
-- A serial port with two characters, and a key that is pressed and released.
use duke_operatingsystems.Common.{
  List, [], arith, if◌then◌else◌, inl, refl, some, true, ℕ, ◌==◌, ◌∷◌, ◌≡◌, ◌⊎◌,
}
use duke_operatingsystems.Jos.Console.Keyboard.{kbd_proc_data}
use duke_operatingsystems.Jos.Console.Ring.{IsRing, contents}
use duke_operatingsystems.Jos.Console.Devices.{
  Ports, Console, serial_proc_data, kbd_poll, console_getc,
}
use duke_operatingsystems.Jos.Console.Devices.Polling.{Gives, console_getc-contents}

-- The bytes that the two devices have left.
abbrev Left : Type 0
Left = List ℕ × List ℕ

abbrev any_of : List ℕ → ℕ
any_of [] = 0
any_of (c ∷ cs) = 1

abbrev next_of : List ℕ → ℕ × List ℕ
next_of [] = (0, [])
next_of (c ∷ cs) = (c, cs)

abbrev read_port : ℕ → Left → ℕ × Left
read_port port (serial, keys) =
    if port == 0x3FD
    then (any_of serial, (serial, keys))
    else (if port == 0x3F8
        then ((next_of serial).0, ((next_of serial).1, keys))
        else (if port == 0x64
            then (any_of keys, (serial, keys))
            else ((next_of keys).0, (serial, (next_of keys).1))))

abbrev two_devices : Ports Left
two_devices = record { inb = read_port; outb = λ port v d. d; cprintf = λ fmt d. d }

abbrev before : Console Left
before = record {
  device = (104 ∷ 105 ∷ [], 0x1E ∷ 0x9E ∷ []);
  shift = 0;
  serial_exists = true;
  cons = record { buf = λ i. 33; rpos = 511; wpos = 0 };
}

serial-Gives :
    Gives (serial_proc_data two_devices) (104 ∷ 105 ∷ []) before.device ([], 0x1E ∷ 0x9E ∷ [])
unfolding serial_proc_data
serial-Gives = ((105 ∷ [], 0x1E ∷ 0x9E ∷ []), refl, (([], 0x1E ∷ 0x9E ∷ []), refl, refl))

kbd-Gives : Gives (kbd_poll two_devices) (97 ∷ 0 ∷ []) (([], 0x1E ∷ 0x9E ∷ []), 0) (([], []), 0)
unfolding kbd_poll kbd_proc_data
kbd-Gives = ((([], 0x9E ∷ []), 0), refl, ((([], []), 0), refl, refl))

abbrev waiting : List ℕ
waiting = 33 ∷ 104 ∷ 105 ∷ 97 ∷ []

console_getc-contents_example :
    (c : ℕ) × (k' : Console Left) × (console_getc two_devices 3 before ≡ some (c, k'))
    × IsRing k'.cons
    × ((c ∷ contents k'.cons ≡ waiting) ⊎ ((waiting ≡ []) × (c ≡ 0) × (contents k'.cons ≡ [])))
console_getc-contents_example =
    console_getc-contents two_devices (104 ∷ 105 ∷ []) (97 ∷ 0 ∷ []) 3 before ([], 0x1E ∷ 0x9E ∷ [])
      ([], []) 0 (omega arith) (omega arith) (inl (refl, serial-Gives)) kbd-Gives
      record { read_in = omega arith; write_in = omega arith } (omega arith)
