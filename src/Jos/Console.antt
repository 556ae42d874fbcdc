-- ===== src/Jos/Console.antt =====
-- kern/console.c: the input ring that the keyboard and the serial port feed.
pub mod Keymap
pub mod Keyboard
pub mod Strokes
pub mod Ring
pub mod Screen
pub mod Devices
pub mod Setup
mod Tests
use duke_operatingsystems.Common.{
  Bool, List, [], if◌then◌else◌, u32, u8, update, ℕ, ◌+◌, ◌-◌, ◌/◌, ◌==◌, ◌∷◌,
}

abbrev pub consbufsize : ℕ
consbufsize = 512

-- `cons`; the two positions are uint32_t, and stay below the buffer's size.
pub record Cons : Type 0 where
  pub buf : ℕ → ℕ
  pub rpos : ℕ
  pub wpos : ℕ

-- One round of the loop of `cons_intr`, with a character other than 0.
unfoldable pub cons_put : ℕ → Cons → Cons
cons_put c s =
    let w = u32 (s.wpos + 1) in
    record s { buf = update s.buf s.wpos (u8 c); wpos = (if w == consbufsize then 0 else w) }

-- `cons_intr`: the list is what `proc` returns before it returns -1.
unfoldable pub cons_intr : List ℕ → Cons → Cons
cons_intr [] s = s
cons_intr (c ∷ cs) s = cons_intr cs (if c == 0 then s else cons_put c s)

-- Behind the two polls of `cons_getc`.
unfoldable pub cons_take : Cons → ℕ × Cons
cons_take s =
    if s.rpos == s.wpos
    then (0, s)
    else (let r = u32 (s.rpos + 1) in
        (s.buf s.rpos, record s { rpos = (if r == consbufsize then 0 else r) }))

-- `cons_getc`: what the serial port has, if it exists, then what the keyboard has.
unfoldable pub cons_getc : Bool → (serial kbd : List ℕ) → Cons → ℕ × Cons
cons_getc serial_exists serial kbd s =
    cons_take (cons_intr kbd (if serial_exists then cons_intr serial s else s))
