-- ===== src/Jos/Console/Ring.antt =====
-- The input ring as a queue of the characters that wait, oldest first.
use mathlib.Core.List.{append-nil, append_assoc}
use mathlib.Core.Path.{ap₂}
use duke_operatingsystems.Common.{
  Bool-cases, List, [], ap, arith, if_intro, if_ne, if◌then◌else◌, inl, inr, length, length-append,
  refl, suc, sym, u32, u8, update, zero, ℕ, ◌%◌, ◌++◌, ◌+◌, ◌-◌, ◌<◌, ◌==◌, ◌∙◌, ◌∷◌, ◌≡◌, ◌⊎◌,
}
use duke_operatingsystems.Jos.Console.{Cons, cons_put, cons_take, cons_intr}

-- `n` characters from index `r` on, going round at 512
abbrev window : (ℕ → ℕ) → ℕ → ℕ → List ℕ
window buf r zero = []
window buf r (suc n) = buf r ∷ window buf ((r + 1) % 512) n

abbrev pub pending : Cons → ℕ
pending s = (s.wpos + 512 - s.rpos) % 512

abbrev pub contents : Cons → List ℕ
contents s = window s.buf s.rpos (pending s)

pub record IsRing (s : Cons) : Type 0 where
  pub read_in : s.rpos < 512
  pub write_in : s.wpos < 512

-- Writing just past a window extends it.
window-update :
    (buf : ℕ → ℕ) (c n r w : ℕ)
    → r < 512
    → n < 511
    → w ≡ (r + n) % 512
    → window (update buf w c) r (suc n) ≡ window buf r n ++ (c ∷ [])
window-update buf c zero r w hr hn e = ap (λ x. x ∷ []) (ground arith)
window-update buf c (suc n) r w hr hn e =
    ap₂ ◌∷◌ (if_ne w r _ _ (omega arith))
      (window-update buf c n ((r + 1) % 512) w (omega arith) (omega arith) (omega arith))

-- The position behind `i`, as the code and as the window count it.
abbrev step : ℕ → ℕ
step i = if u32 (i + 1) == 512 then 0 else u32 (i + 1)

step-mod : (i : ℕ) → i < 512 → step i ≡ (i + 1) % 512
step-mod i h = ground arith

window-step :
    (buf : ℕ → ℕ) (r n m : ℕ) → r < 512 → n ≡ suc m → window buf r n ≡ buf r ∷ window buf (step r) m
window-step buf r n m h e =
    ap (window buf r) e ∙ ap (λ k. buf r ∷ window buf k m) (sym (step-mod r h))

-- A character is appended to the waiting ones, as a byte, while fewer than 511 wait.
pub cons_put-contents :
    (c : ℕ) (s : Cons)
    → IsRing s
    → pending s < 511
    → IsRing (cons_put c s) × (contents (cons_put c s) ≡ contents s ++ (u8 c ∷ []))
unfolding cons_put
cons_put-contents c s v room =
    let next = step-mod s.wpos v.write_in in
    (
      omega arith,
      ap (window (update s.buf s.wpos (u8 c)) s.rpos) {y = suc (pending s)} (omega arith)
          ∙ window-update s.buf (u8 c) (pending s) s.rpos s.wpos v.read_in room (omega arith),
    )

-- With 511 characters waiting one more empties the ring: all that waited is lost.
pub cons_put-overflow :
    (c : ℕ) (s : Cons) → IsRing s → pending s ≡ 511 → contents (cons_put c s) ≡ []
unfolding cons_put
cons_put-overflow c s v full =
    let next = step-mod s.wpos v.write_in in
    ap (window (update s.buf s.wpos (u8 c)) s.rpos) {y = 0} (omega arith)

-- `cons_getc` takes the oldest character, and gives 0 and changes nothing if none waits.
pub cons_take-contents :
    (s : Cons)
    → IsRing s
    → IsRing (cons_take s).1
      × (((cons_take s).0 ∷ contents (cons_take s).1 ≡ contents s)
          ⊎ ((contents s ≡ []) × (cons_take s ≡ (0, s))))
unfolding cons_take
cons_take-contents s v =
    let next = step-mod s.rpos v.read_in in
    if_intro
      (λ (r : ℕ × Cons).
        IsRing r.1 × ((r.0 ∷ contents r.1 ≡ contents s) ⊎ ((contents s ≡ []) × (r ≡ (0, s)))))
      (s.rpos == s.wpos) (λ e. (v, inr (ap (window s.buf s.rpos) {y = 0} (ground arith), refl)))
      (λ e.
        (ground arith, inl (sym (window-step s.buf s.rpos (pending s) _ v.read_in (ground arith)))))

-- The characters among what a device returns: the zeros are skipped, the others are bytes.
abbrev pub character : ℕ → List ℕ
character c = if c == 0 then [] else u8 c ∷ []

abbrev pub characters : List ℕ → List ℕ
characters [] = []
characters (c ∷ cs) = character c ++ characters cs

length-window : (buf : ℕ → ℕ) (r n : ℕ) → length (window buf r n) ≡ n
length-window buf r zero = refl
length-window buf r (suc n) = ap suc (length-window buf ((r + 1) % 512) n)

length-contents : (s : Cons) → length (contents s) ≡ pending s
length-contents s = length-window s.buf s.rpos (pending s)

-- One round of the loop of `cons_intr`.
round-contents :
    (c : ℕ) (s : Cons)
    → IsRing s
    → length (contents s ++ character c) < 512
    → let s' = if c == 0 then s else cons_put c s in
      IsRing s' × (contents s' ≡ contents s ++ character c)
round-contents c s v room = elim (Bool-cases (c == 0)) [
  | inl skip ↦ rw skip (v, sym (append-nil (contents s)))
  | inr keep ↦ rw keep (
      cons_put-contents c s v (
        omega
          (arith, rw keep at room, length-append {0} (contents s) (u8 c ∷ []), length-contents s)))
]

-- A device's interrupt appends its characters in order, while all of them fit the ring.
pub cons_intr-contents :
    (cs : List ℕ) (s : Cons)
    → IsRing s
    → length (contents s ++ characters cs) < 512
    → IsRing (cons_intr cs s) × (contents (cons_intr cs s) ≡ contents s ++ characters cs)
unfolding cons_intr
cons_intr-contents [] s v room = (v, sym (append-nil (contents s)))
cons_intr-contents (c ∷ cs) s v room =
    let whole : length ((contents s ++ character c) ++ characters cs) < 512 =
      rw append_assoc room in
    let (v', e) =
      round-contents c s v
        (omega (arith, length-append {0} (contents s ++ character c) (characters cs))) in
    let (w, f) = cons_intr-contents cs (if c == 0 then s else cons_put c s) v' (rw e whole) in
    (
      w,
      f ∙ ap (λ l. l ++ characters cs) e ∙ append_assoc (contents s) (character c) (characters cs),
    )
