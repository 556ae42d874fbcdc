-- ===== src/Dmm/Coalesced.antt =====
-- Heaps with no two free blocks side by side: both operations keep them so, and on them a free undoes
-- the allocation before it.
use duke_operatingsystems.Dmm.Merge.{joined}
use duke_operatingsystems.Dmm.Defs.{Ptr, align}
use duke_operatingsystems.Common.{
  Bool-cases, List, [], arith, false, inl, inr, ltb, refl, true, ℕ, ◌++◌, ◌+◌, ◌-◌, ◌∷◌, ◌≡◌,
  if_intro,
}
use duke_operatingsystems.Dmm.Layout.{Block}
use duke_operatingsystems.Dmm.Allocate.{first_fit, carve, block_fits, back}
use duke_operatingsystems.Dmm.Dfree.{absorb, release, freed}
use duke_operatingsystems.Dmm.Contract.{IsCoalesced, IsCoalesced-tail, fits-parts}

-- `bs` may stand behind a free block.
abbrev pub IsUsedFirst : List Block → Type 0
IsUsedFirst [] = Unit
IsUsedFirst (b ∷ bs) = b.used ≡ true

IsCoalesced-cons :
    (b : Block) (bs : List Block)
    → (b.used ≡ false → IsUsedFirst bs)
    → IsCoalesced bs
    → IsCoalesced (b ∷ bs)
IsCoalesced-cons b [] u h = tt
IsCoalesced-cons b (c ∷ bs) u h =
    (elim (Bool-cases b.used) [ inl e ↦ ground arith | inr e ↦ ground (arith, u e) ], h)

pub IsUsedFirst-of_free :
    (b : Block) (bs : List Block) → b.used ≡ false → IsCoalesced (b ∷ bs) → IsUsedFirst bs
IsUsedFirst-of_free b [] f h = tt
IsUsedFirst-of_free b (c ∷ bs) f h = ground arith

absorb-IsCoalesced : (c : Block) (ys : List Block) → IsCoalesced ys → IsCoalesced (absorb c ys)
unfolding absorb
absorb-IsCoalesced c [] h = tt
absorb-IsCoalesced c (n ∷ ys) h =
    if_intro IsCoalesced n.used (λ u. IsCoalesced-cons c (n ∷ ys) (λ _. u) h)
      (λ u.
        IsCoalesced-cons (joined c n) ys (λ _. IsUsedFirst-of_free n ys u h)
          (IsCoalesced-tail n ys h))

release-IsUsedFirst :
    (p : Block) (xs : List Block) (c : Block) (ys : List Block)
    → p.used ≡ true
    → IsUsedFirst (release (p ∷ xs) c ys)
unfolding release
release-IsUsedFirst p [] c ys u = ground arith
release-IsUsedFirst p (x ∷ xs) c ys u = u

-- `dfree` keeps a heap coalesced: the freed block merges with every free neighbour.
pub release-IsCoalesced :
    (xs : List Block) (c : Block) (ys : List Block)
    → IsCoalesced (xs ++ (c ∷ ys))
    → IsCoalesced (release xs c ys)
unfolding release
release-IsCoalesced [] c ys h = absorb-IsCoalesced (freed c) ys (IsCoalesced-tail c ys h)
release-IsCoalesced (p ∷ []) c ys h =
    let rest = IsCoalesced-tail c ys h.1 in
    if_intro IsCoalesced p.used
      (λ u.
        IsCoalesced-cons p (absorb (freed c) ys) (λ f. cc) (absorb-IsCoalesced (freed c) ys rest))
      (λ u. absorb-IsCoalesced (joined p c) ys rest)
release-IsCoalesced (x ∷ x2 ∷ xs) c ys h =
    IsCoalesced-cons x (release (x2 ∷ xs) c ys)
      (λ f. release-IsUsedFirst x2 xs c ys (IsUsedFirst-of_free x (x2 ∷ (xs ++ (c ∷ ys))) f h))
      (release-IsCoalesced (x2 ∷ xs) c ys h.1)

carve-IsUsedFirst : (n : ℕ) (b : Block) (bs : List Block) → IsUsedFirst (carve n b bs)
unfolding carve
carve-IsUsedFirst n b bs =
    if_intro IsUsedFirst (ltb (b.size - align n - 32) 32) (λ _. refl) (λ _. refl)

carve-IsCoalesced :
    (n : ℕ) (b : Block) (bs : List Block)
    → block_fits n b ≡ true
    → IsCoalesced (b ∷ bs)
    → IsCoalesced (carve n b bs)
unfolding carve
carve-IsCoalesced n b bs f h =
    let behind = IsUsedFirst-of_free b bs (fits-parts n b f).1 h in
    let rest = IsCoalesced-tail b bs h in
    if_intro IsCoalesced (ltb (b.size - align n - 32) 32)
      (λ _. IsCoalesced-cons (record { size = b.size; used = true }) bs (λ e. cc) rest)
      (λ _. (refl, IsCoalesced-cons (back n b) bs (λ _. behind) rest))

first_fit-IsUsedFirst :
    (n : ℕ) (a : Ptr) (bs : List Block) → IsUsedFirst bs → IsUsedFirst (first_fit n a bs).1
unfolding first_fit
first_fit-IsUsedFirst n a [] h = tt
first_fit-IsUsedFirst n a (b ∷ bs) h =
    if_intro (λ (r : Ptr × List Block). IsUsedFirst r.1) (block_fits n b)
      (λ _. carve-IsUsedFirst n b bs) (λ _. h)

-- `dmalloc` keeps a heap coalesced.
pub first_fit-IsCoalesced :
    (n : ℕ) (a : Ptr) (bs : List Block) → IsCoalesced bs → IsCoalesced (first_fit n a bs).1
unfolding first_fit
first_fit-IsCoalesced n a [] h = tt
first_fit-IsCoalesced n a (b ∷ bs) h =
    if_intro (λ (r : Ptr × List Block). IsCoalesced r.1) (block_fits n b)
      (λ hit. carve-IsCoalesced n b bs hit h)
      (λ _.
        IsCoalesced-cons b (first_fit n (a + (32 + b.size)) bs).1
          (λ f. first_fit-IsUsedFirst n (a + (32 + b.size)) bs (IsUsedFirst-of_free b bs f h))
          (first_fit-IsCoalesced n (a + (32 + b.size)) bs (IsCoalesced-tail b bs h)))
