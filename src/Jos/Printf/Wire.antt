-- ===== src/Jos/Printf/Wire.antt =====
-- What a call of `cprintf` sends over the serial port, and where it leaves the screen.
use duke_operatingsystems.Common.{
  Bool, Bool-cases, List, [], ap, arith, false, if_intro, if◌then◌else◌, inl, inr, leb, ne→==, refl,
  suc, sym, true, u8, zero, ℕ, ◌%◌, ◌++◌, ◌+◌, ◌/◌, ◌==◌, ◌^◌, ◌∙◌, ◌∷◌, ◌≡◌, ◌≢◌,
}
use mathlib.Core.Path.{subst}
use mathlib.Core.List.{append_assoc, append-nil}
use duke_operatingsystems.Jos.Console.Screen.{
  Screen, cputchar, cons_putc, cga_putc, cga_char, cons_char, cga_type, with_attribute, finish,
  scroll, move_cursor, outb, serial_putc, lpt_putc, crt_size,
}
use duke_operatingsystems.Jos.Console.Screen.Bounds.{OnScreen, Kept, cga_putc-bounds}

-- The bytes that went to the serial port, among all that went out.
abbrev pub wire : List (ℕ × ℕ) → List ℕ
wire [] = []
wire ((port, v) ∷ l) = if port == 0x3F8 then v ∷ wire l else wire l

if-append :
    (b : Bool) (v : ℕ) (l m : List ℕ)
    → (if b then v ∷ (l ++ m) else l ++ m) ≡ (if b then v ∷ l else l) ++ m
if-append true v l m = refl
if-append false v l m = refl

wire-append : (xs ys : List (ℕ × ℕ)) → wire (xs ++ ys) ≡ wire xs ++ wire ys
wire-append [] ys = refl
wire-append ((port, v) ∷ xs) ys =
    ap (λ l. if port == 0x3F8 then v ∷ l else l) (wire-append xs ys)
    ∙ if-append (port == 0x3F8) v (wire xs) (wire ys)

-- `s'` has sent `xs` more than `s`, and has the same screen controller.
abbrev pub Sends : Screen → List ℕ → Screen → Type 0
Sends s xs s' = (s'.addr_6845 ≡ s.addr_6845) × (wire s'.out ≡ wire s.out ++ xs)

pub Sends-nil : (s : Screen) → Sends s [] s
Sends-nil s = (refl, sym (append-nil (wire s.out)))

pub Sends-append :
    (s t u : Screen) (xs ys : List ℕ) → Sends s xs t → Sends t ys u → Sends s (xs ++ ys) u
Sends-append s t u xs ys (a, h) (b, k) =
    (b ∙ a, k ∙ ap (λ l. l ++ ys) h ∙ append_assoc (wire s.out) xs ys)

outb-serial : (v : ℕ) (s : Screen) → Sends s (u8 v ∷ []) (outb 0x3F8 v s)
unfolding outb
outb-serial v s = (refl, wire-append s.out ((0x3F8, u8 v) ∷ []))

outb-other : (port v : ℕ) (s : Screen) → port ≢ 0x3F8 → Sends s [] (outb port v s)
unfolding outb
outb-other port v s ne = (
  refl,
  wire-append s.out ((port, u8 v) ∷ [])
      ∙ ap (λ b. wire s.out ++ (if b then u8 v ∷ [] else [])) (ne→== port 0x3F8 ne),
)

-- The screen's controller is not the serial port.
abbrev pub IsApart : Screen → Type 0
IsApart s = (s.addr_6845 ≢ 0x3F8) × (s.addr_6845 + 1 ≢ 0x3F8)

lpt_putc-Sends : (c : ℕ) (s : Screen) → Sends s [] (lpt_putc c s)
unfolding lpt_putc
lpt_putc-Sends c s =
    let s1 = outb 0x378 c s in
    let s2 = outb 0x37A (0x08 + 0x04 + 0x01) s1 in
    Sends-append s s2 (outb 0x37A 0x08 s2) [] []
      (Sends-append s s1 s2 [] [] (outb-other 0x378 c s (λ e. omega (arith, e)))
        (outb-other 0x37A (0x08 + 0x04 + 0x01) s1 (λ e. omega (arith, e))))
      (outb-other 0x37A 0x08 s2 (λ e. omega (arith, e)))

cga_type-Sends : (c : ℕ) (s : Screen) → Sends s [] (cga_type c s)
unfolding cga_type
cga_type-Sends c s =
    if_intro (Sends s []) (c % 256 == 8)
      (λ _. if_intro (Sends s []) (s.crt_pos == 0) (λ _. Sends-nil s) (λ _. Sends-nil s))
      (λ _.
        if_intro (Sends s []) (c % 256 == 10) (λ _. Sends-nil s)
          (λ _. if_intro (Sends s []) (c % 256 == 13) (λ _. Sends-nil s) (λ _. Sends-nil s)))

scroll-Sends : (s : Screen) → Sends s [] (scroll s)
unfolding scroll
scroll-Sends s =
    if_intro (Sends s []) (leb crt_size s.crt_pos) (λ _. Sends-nil s) (λ _. Sends-nil s)

move_cursor-Sends : (s : Screen) → IsApart s → Sends s [] (move_cursor s)
unfolding move_cursor
move_cursor-Sends s (ne, ne') =
    let s1 = outb s.addr_6845 14 s in
    let s2 = outb (s.addr_6845 + 1) (s.crt_pos / 2 ^ 8) s1 in
    let s3 = outb s.addr_6845 15 s2 in
    let s4 = outb (s.addr_6845 + 1) s.crt_pos s3 in
    Sends-append s s2 s4 [] []
      (Sends-append s s1 s2 [] [] (outb-other s.addr_6845 14 s ne)
        (outb-other (s.addr_6845 + 1) (s.crt_pos / 2 ^ 8) s1 ne'))
      (Sends-append s2 s3 s4 [] [] (outb-other s.addr_6845 15 s2 ne)
        (outb-other (s.addr_6845 + 1) s.crt_pos s3 ne'))

pub IsApart-Sends : (s t : Screen) (xs : List ℕ) → IsApart s → Sends s xs t → IsApart t
IsApart-Sends s t xs (ne, ne') (same, _) =
    ((λ e. ne (sym same ∙ e)), (λ e. ne' (omega (arith, same, e))))

finish-Sends : (s : Screen) → IsApart s → Sends s [] (finish s)
unfolding finish
finish-Sends s apart =
    let quiet = scroll-Sends s in
    Sends-append s (scroll s) (finish s) [] [] quiet
      (move_cursor-Sends (scroll s) (IsApart-Sends s (scroll s) [] apart quiet))

cga_char-Sends : (c : ℕ) (s : Screen) → IsApart s → Sends s [] (cga_char c s)
unfolding cga_char
cga_char-Sends c s apart =
    let t = cga_type (with_attribute c) s in
    let quiet = cga_type-Sends (with_attribute c) s in
    Sends-append s t (finish t) [] [] quiet (finish-Sends t (IsApart-Sends s t [] apart quiet))

-- The serial and the parallel port get the character as it is.
ports-Sends : (c : ℕ) (s : Screen) → Sends s (u8 c ∷ []) (lpt_putc c (serial_putc c s))
unfolding serial_putc
ports-Sends c s =
    Sends-append s (serial_putc c s) (lpt_putc c (serial_putc c s)) (u8 c ∷ []) [] (outb-serial c s)
      (lpt_putc-Sends c (serial_putc c s))

cons_char-Sends : (c : ℕ) (s : Screen) → IsApart s → Sends s (u8 c ∷ []) (cons_char c s)
unfolding cons_char
cons_char-Sends c s apart =
    let t = lpt_putc c (serial_putc c s) in
    let sends = ports-Sends c s in
    Sends-append s t (cga_char c t) (u8 c ∷ []) [] sends
      (cga_char-Sends c t (IsApart-Sends s t (u8 c ∷ []) apart sends))

abbrev blanks : ℕ → List ℕ
blanks zero = []
blanks (suc n) = b' ' ∷ blanks n

-- n blanks through `cons_putc`
blanked : ℕ → Screen → Screen
blanked zero s = s
blanked (suc n) s = blanked n (cons_char b' ' s)

blanked-Sends : (n : ℕ) (s : Screen) → IsApart s → Sends s (blanks n) (blanked n s)
unfolding blanked
blanked-Sends zero s apart = Sends-nil s
blanked-Sends (suc n) s apart =
    let t = cons_char b' ' s in
    let sends = cons_char-Sends b' ' s apart in
    Sends-append s t (blanked n t) (b' ' ∷ []) (blanks n) sends
      (blanked-Sends n t (IsApart-Sends s t (b' ' ∷ []) apart sends))

cga_putc-Sends :
    (c : ℕ) (s : Screen)
    → IsApart s
    → Sends s (if c % 256 == 9 then blanks 5 else []) (cga_putc c s)
unfolding cga_putc blanked
cga_putc-Sends c s apart = elim (Bool-cases (c % 256 == 9)) [
  | inl t ↦
      let sends = blanked-Sends 5 s apart in
      let done =
        finish-Sends (blanked 5 s) (IsApart-Sends s (blanked 5 s) (blanks 5) apart sends) in
      subst
        (λ b.
          Sends s (if b then blanks 5 else []) (if b then finish (blanked 5 s) else cga_char c s))
        (sym t) (Sends-append s (blanked 5 s) (finish (blanked 5 s)) (blanks 5) [] sends done)
  | inr f ↦
      subst
        (λ b.
          Sends s (if b then blanks 5 else []) (if b then finish (blanked 5 s) else cga_char c s))
        (sym f) (cga_char-Sends c s apart)
]

-- The bytes of one character: a tab is followed by the five blanks that stand for it on the screen.
abbrev pub sent : ℕ → List ℕ
sent c = u8 c ∷ (if c % 256 == 9 then blanks 5 else [])

abbrev pub all_sent : List ℕ → List ℕ
all_sent [] = []
all_sent (c ∷ cs) = sent c ++ all_sent cs

pub cputchar-Sends : (c : ℕ) (s : Screen) → IsApart s → Sends s (sent c) (cputchar c s)
unfolding cputchar cons_putc
cputchar-Sends c s apart =
    let t = lpt_putc c (serial_putc c s) in
    let sends = ports-Sends c s in
    Sends-append s t (cga_putc c t) (u8 c ∷ []) (if c % 256 == 9 then blanks 5 else []) sends
      (cga_putc-Sends c t (IsApart-Sends s t (u8 c ∷ []) apart sends))

pub cputchar-Kept : (c : ℕ) (s : Screen) → OnScreen s → Kept s (cputchar c s)
unfolding cputchar cons_putc serial_putc lpt_putc outb
cputchar-Kept c s on = cga_putc-bounds c (lpt_putc c (serial_putc c s)) on
