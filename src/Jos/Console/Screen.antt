-- ===== src/Jos/Console/Screen.antt =====
-- kern/console.c: output on the CGA screen, the serial port and the parallel port.
pub mod Bounds
use duke_operatingsystems.Common.{
  List, [], bit_or, if◌then◌else◌, leb, ltb, u16, u8, update, ℕ, ◌%◌, ◌++◌, ◌+◌, ◌-◌, ◌/◌, ◌==◌,
  ◌^◌, ◌∷◌,
}

abbrev pub crt_cols : ℕ
crt_cols = 80

abbrev pub crt_size : ℕ
crt_size = 2000

-- The screen's cells, the cursor, the controller's port, and the bytes that went out through ports.
pub record Screen : Type 0 where
  pub crt_buf : ℕ → ℕ
  pub crt_pos : ℕ
  pub addr_6845 : ℕ
  pub out : List (ℕ × ℕ)

-- outb(port, v): the byte is cut off.
unfoldable pub outb : ℕ → ℕ → Screen → Screen
outb port v s = record s { out = s.out ++ ((port, u8 v) ∷ []) }

-- `serial_putc` behind its wait of at most 12800 rounds
unfoldable pub serial_putc : ℕ → Screen → Screen
unfolding outb
serial_putc c s = outb 0x3F8 c s

unfoldable pub lpt_putc : ℕ → Screen → Screen
unfolding outb
lpt_putc c s = outb 0x37A 0x08 (outb 0x37A (0x08 + 0x04 + 0x01) (outb 0x378 c s))

-- A character with no attribute is white on black.
unfoldable pub with_attribute : ℕ → ℕ
with_attribute c = if c / 256 == 0 then bit_or c 0x0700 else c

-- The switch of `cga_putc`, but for the tab.
unfoldable pub cga_type : ℕ → Screen → Screen
cga_type c s =
    let ch = c % 256 in
    if ch == 8
    then (if s.crt_pos == 0 then s else record s {
      crt_pos = s.crt_pos - 1;
      crt_buf = update s.crt_buf (s.crt_pos - 1) (u16 (c - ch + b' '));
    })
    else if ch == 10
    then (let p = u16 (s.crt_pos + crt_cols) in record s { crt_pos = p - p % crt_cols })
    else if ch == 13
    then record s { crt_pos = s.crt_pos - s.crt_pos % crt_cols }
    else record s { crt_buf = update s.crt_buf s.crt_pos (u16 c); crt_pos = u16 (s.crt_pos + 1) }

-- The cells after the screen has moved up by a row: a blank last row.
unfoldable pub scrolled : (ℕ → ℕ) → ℕ → ℕ
scrolled buf i =
    if ltb i (crt_size - crt_cols)
    then buf (i + crt_cols)
    else if ltb i crt_size
    then 0x0700 + b' '
    else buf i

unfoldable pub scroll : Screen → Screen
scroll s =
    if leb crt_size s.crt_pos
    then record s { crt_buf = scrolled s.crt_buf; crt_pos = s.crt_pos - crt_cols }
    else s

-- move that little blinky thing
unfoldable pub move_cursor : Screen → Screen
move_cursor s =
    let s1 = outb s.addr_6845 14 s in
    let s2 = outb (s.addr_6845 + 1) (s.crt_pos / 2 ^ 8) s1 in
    let s3 = outb s.addr_6845 15 s2 in outb (s.addr_6845 + 1) s.crt_pos s3

-- The end of `cga_putc`, behind the switch.
unfoldable pub finish : Screen → Screen
finish s = move_cursor (scroll s)

-- `cga_putc` and `cons_putc` of a character other than a tab.
unfoldable pub cga_char : ℕ → Screen → Screen
cga_char c s = finish (cga_type (with_attribute c) s)

unfoldable pub cons_char : ℕ → Screen → Screen
cons_char c s = cga_char c (lpt_putc c (serial_putc c s))

-- A tab is five blanks through `cons_putc`.
unfoldable pub cga_putc : ℕ → Screen → Screen
cga_putc c s =
    let blank = cons_char b' ' in
    if c % 256 == 9 then finish (blank (blank (blank (blank (blank s))))) else cga_char c s

unfoldable pub cons_putc : ℕ → Screen → Screen
cons_putc c s = cga_putc c (lpt_putc c (serial_putc c s))

unfoldable pub cputchar : ℕ → Screen → Screen
cputchar c s = cons_putc c s
