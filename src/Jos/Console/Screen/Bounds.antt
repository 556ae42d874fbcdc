-- ===== src/Jos/Console/Screen/Bounds.antt =====
-- The cursor stays on the screen.
use duke_operatingsystems.Common.{
  ==→eq, true_below, true_below_at, arith, bit_or, if_intro, if◌then◌else◌, refl, true, ℕ, ◌%◌, ◌+◌,
  ◌-◌, ◌<◌, ◌==◌, ◌∙◌, ◌≡◌, ◌≤◌,
}
use duke_operatingsystems.Jos.Console.Screen.{
  Screen, cga_type, finish, crt_size, scroll, crt_cols, scrolled, move_cursor, outb, cga_char,
  cga_putc, cons_char, with_attribute, serial_putc, lpt_putc,
}

abbrev pub OnScreen : Screen → Type 0
OnScreen s = s.crt_pos < crt_size

-- The switch leaves the cursor within a row behind the screen, and writes on the screen alone.
cga_type-bounds :
    (c : ℕ) (s : Screen)
    → OnScreen s
    → ((cga_type c s).crt_pos < crt_size + crt_cols)
      × ((i : ℕ) → crt_size ≤ i → (cga_type c s).crt_buf i ≡ s.crt_buf i)
unfolding cga_type
cga_type-bounds c s on = (ground arith, λ i le. ground arith)

finish-bounds :
    (s : Screen)
    → s.crt_pos < crt_size + crt_cols
    → OnScreen (finish s) × ((i : ℕ) → crt_size ≤ i → (finish s).crt_buf i ≡ s.crt_buf i)
unfolding finish scroll scrolled move_cursor outb
finish-bounds s on = (ground arith, λ i le. ground arith)

-- What every way to put a character keeps: a cursor on the screen, and the memory behind it.
abbrev pub Kept : Screen → Screen → Type 0
Kept s s' = OnScreen s' × ((i : ℕ) → crt_size ≤ i → s'.crt_buf i ≡ s.crt_buf i)

cga_char-bounds : (c : ℕ) (s : Screen) → OnScreen s → Kept s (cga_char c s)
unfolding cga_char
cga_char-bounds c s on =
    let (near, same) = cga_type-bounds (with_attribute c) s on in
    let (back, kept) = finish-bounds (cga_type (with_attribute c) s) near in
    (back, λ i le. kept i le ∙ same i le)

cons_char-bounds : (c : ℕ) (s : Screen) → OnScreen s → Kept s (cons_char c s)
unfolding cons_char serial_putc lpt_putc outb
cons_char-bounds c s on = cga_char-bounds c (lpt_putc c (serial_putc c s)) on

pub Kept-trans : (s t u : Screen) → Kept s t → Kept t u → Kept s u
Kept-trans s t u h k = (k.0, λ i le. k.1 i le ∙ h.1 i le)

blank-bounds : (s t : Screen) → Kept s t → Kept s (cons_char b' ' t)
blank-bounds s t h = Kept-trans s t (cons_char b' ' t) h (cons_char-bounds b' ' t h.0)

tab-bounds :
    (s : Screen)
    → OnScreen s
    → let blank = cons_char b' ' in Kept s (finish (blank (blank (blank (blank (blank s))))))
tab-bounds s on =
    let s1 = cons_char b' ' s in
    let s2 = cons_char b' ' s1 in
    let s3 = cons_char b' ' s2 in
    let s4 = cons_char b' ' s3 in
    let s5 = cons_char b' ' s4 in
    let k2 = blank-bounds s s1 (cons_char-bounds b' ' s on) in
    let k5 = blank-bounds s s4 (blank-bounds s s3 (blank-bounds s s2 k2)) in
    Kept-trans s s5 (finish s5) k5 (finish-bounds s5 (omega (arith, k5.0)))

-- `cga_putc` of any character, a tab included, leaves the cursor on the screen and writes no cell
-- outside it.
pub cga_putc-bounds :
    (c : ℕ) (s : Screen)
    → OnScreen s
    → (cga_putc c s).crt_pos < crt_size
      × ((i : ℕ) → crt_size ≤ i → (cga_putc c s).crt_buf i ≡ s.crt_buf i)
unfolding cga_putc
cga_putc-bounds c s on =
    if_intro (Kept s) (c % 256 == 9) (λ _. tab-bounds s on) (λ _. cga_char-bounds c s on)

attribute_table : true_below (λ c. bit_or c 0x0700 == c + 0x0700) 256 ≡ true
unfolding true_below
attribute_table = refl

attribute-add : (c : ℕ) → c < 256 → bit_or c 0x0700 ≡ c + 0x0700
attribute-add c lt = ==→eq _ _ (true_below_at _ c 256 lt attribute_table)

-- A newline on the last row moves every row up by one, blanks the last and puts the cursor at its
-- beginning.
pub cga_putc-scroll :
    (s : Screen)
    → OnScreen s
    → crt_size - crt_cols ≤ s.crt_pos
    → ((cga_putc 10 s).crt_pos ≡ crt_size - crt_cols)
      × ((i : ℕ) → i < crt_size - crt_cols → (cga_putc 10 s).crt_buf i ≡ s.crt_buf (i + crt_cols))
      × ((i : ℕ) → crt_size - crt_cols ≤ i → i < crt_size → (cga_putc 10 s).crt_buf i ≡ 0x0720)
unfolding cga_putc cga_char cga_type finish scroll scrolled move_cursor outb with_attribute
cga_putc-scroll s on last = (ground arith, λ i lt. ground arith, λ i le lt. ground arith)

-- A printing character on any cell but the last goes there, white on black, and the cursor moves on by
-- one; no other cell changes.
pub cga_putc-print :
    (c : ℕ) (s : Screen)
    → 32 ≤ c
    → c < 256
    → s.crt_pos + 1 < crt_size
    → ((cga_putc c s).crt_pos ≡ s.crt_pos + 1)
      × ((i : ℕ)
          → (cga_putc c s).crt_buf i ≡ (if s.crt_pos == i then bit_or c 0x0700 else s.crt_buf i))
unfolding cga_putc cga_char cga_type finish scroll scrolled move_cursor outb with_attribute
cga_putc-print c s lo hi room =
    (ground (arith, attribute-add c hi), λ i. ground (arith, attribute-add c hi))
