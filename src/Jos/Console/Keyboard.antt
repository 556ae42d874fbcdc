-- ===== src/Jos/Console/Keyboard.antt =====
-- kern/console.c: `kbd_proc_data`, one poll of the keyboard controller. The byte `data` is `scan` here.
use duke_operatingsystems.Common.{
  Bool, Option, bit_and, bit_or, bit_xor, false, if◌then◌else◌, leb, none, not, some, ℕ, ◌&&◌, ◌+◌,
  ◌-◌, ◌==◌, ◌||◌,
}
use duke_operatingsystems.Jos.Console.Keymap.{
  charcode, normalmap, capslock_bit, shiftcode, shiftmap, e0esc_bit, ctlmap, togglecode,
}

-- What a poll gives: `none` stands for -1. `rebooted` says that the reset line was pulled.
pub record Poll : Type 0 where
  pub result : Option ℕ
  pub shift : ℕ
  pub rebooted : Bool

-- The uint8_t read through the port, and the modifier state, of which seven bits are ever set.
abbrev pub clear : ℕ → ℕ → ℕ
clear mask n = bit_and n (bit_xor 0xff mask)

abbrev pub key_del : ℕ
key_del = 0xE9

-- Behind the lookup: Caps Lock swaps the case of letters.
unfoldable pub swap_case : ℕ → ℕ → ℕ
swap_case shift c =
    if bit_and shift capslock_bit == 0
    then c
    else if leb b'a' c && leb c b'z'
    then c - 32
    else if leb b'A' c && leb c b'Z'
    then c + 32
    else c

-- A key press: `scan` is `data`, the scan code, with 0x80 set if it was escaped.
unfoldable pub key_pressed : ℕ → ℕ → Poll
unfolding charcode normalmap shiftmap ctlmap shiftcode togglecode swap_case
key_pressed scan shift =
    let shift' = bit_xor (bit_or shift (shiftcode scan)) (togglecode scan) in
    let c = swap_case shift' (charcode (bit_and shift' 3) scan) in
    record { result = some c; shift = shift'; rebooted = (bit_and shift' 6 == 6) && (c == key_del) }

unfoldable pub kbd_proc_data : (stat scan shift : ℕ) → Poll
unfolding key_pressed shiftcode
kbd_proc_data stat scan shift =
    if (bit_and stat 0x01 == 0) || not (bit_and stat 0x20 == 0)
    then record { result = none; shift = shift; rebooted = false }
    else if scan == 0xE0
    then record { result = some 0; shift = bit_or shift e0esc_bit; rebooted = false }
    else if not (bit_and scan 0x80 == 0)
    then (let code = if bit_and shift e0esc_bit == 0 then bit_and scan 0x7F else scan in
        record {
          result = some 0;
          shift = clear (bit_or (shiftcode code) e0esc_bit) shift;
          rebooted = false;
        })
    else if not (bit_and shift e0esc_bit == 0)
    then key_pressed (bit_or scan 0x80) (clear e0esc_bit shift)
    else key_pressed scan shift
