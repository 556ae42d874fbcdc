-- ===== src/Dmm/RoundTrip.antt =====
-- `dfree` of what `dmalloc` has just returned gives the heap's blocks back as they were.
use duke_operatingsystems.Dmm.Release.{dfree-release}
use duke_operatingsystems.Dmm.Dmalloc.{dmalloc-first_fit}
use duke_operatingsystems.Dmm.Free.{dfree}
use duke_operatingsystems.Dmm.Contract.{fits-parts, IsCoalesced, IsCoalesced-tail}
use duke_operatingsystems.Dmm.Defs.{Ptr, align, Heap, null, dmalloc, returned}
use duke_operatingsystems.Dmm.Coalesced.{IsUsedFirst, IsUsedFirst-of_free}
use duke_operatingsystems.Common.{
  Bool-cases, List, [], ap, arith, false, inl, inr, length, ltb, refl, sym, true, ℕ, ◌++◌, ◌+◌, ◌-◌,
  ◌<◌, ◌∙◌, ◌∷◌, ◌≡◌, ◌≢◌, if_intro,
}
use mathlib.Core.Path.{subst₂, subst}
use duke_operatingsystems.Dmm.Layout.{Block, end_of, IsHeap}
use duke_operatingsystems.Dmm.Allocate.{
  first_fit, carve, block_fits, front, back, IsSmall, IsSmall-NoWrap,
}
use duke_operatingsystems.Dmm.Dfree.{absorb, release, freed}

-- The pointer `r.0` is the payload of a block of `r.1` whose release leaves `bs`.
record IsUndone (a : Ptr) (bs : List Block) (r : Ptr × List Block) : Type 0 where
  before : List Block
  block : Block
  behind : List Block
  blocks : r.1 ≡ before ++ (block ∷ behind)
  place : r.0 ≡ end_of a before + 32
  undo : release before block behind ≡ bs

absorb-used : (c : Block) (ys : List Block) → IsUsedFirst ys → absorb c ys ≡ c ∷ ys
unfolding absorb
absorb-used c [] u = refl
absorb-used c (n ∷ ys) u = ground arith

IsUndone-carve :
    (n : ℕ) (a : Ptr) (b : Block) (bs : List Block)
    → block_fits n b ≡ true
    → IsUsedFirst bs
    → IsUndone a (b ∷ bs) (a + 32, carve n b bs)
unfolding carve release absorb
IsUndone-carve n a b bs f u =
    let (fit, free) = fits-parts n b f in
    if_intro (λ l. IsUndone a (b ∷ bs) (a + 32, l)) (ltb (b.size - align n - 32) 32)
      (λ _. record {
        before = [];
        block = record { size = b.size; used = true };
        behind = bs;
        blocks = refl;
        place = refl;
        undo = absorb-used _ bs u ∙ ground arith;
      })
      (λ _. record {
        before = [];
        block = front n;
        behind = back n b ∷ bs;
        blocks = refl;
        place = refl;
        undo = ap (λ k. k ∷ bs) (ground arith);
      })

not-IsUsedFirst-absorb : (c : Block) (ys : List Block) → ¬ IsUsedFirst (absorb (freed c) ys)
unfolding absorb
not-IsUsedFirst-absorb c [] u = cc
not-IsUsedFirst-absorb c (n ∷ ys) u = ground arith

release-cons :
    (b : Block) (xs : List Block) (c : Block) (ys bs : List Block)
    → release xs c ys ≡ bs
    → (b.used ≡ false → IsUsedFirst bs)
    → release (b ∷ xs) c ys ≡ b ∷ bs
unfolding release
release-cons b [] c ys bs e u =
    if_intro (λ l. l ≡ b ∷ bs) b.used (λ _. ap (λ l. b ∷ l) e)
      (λ free. absurd (not-IsUsedFirst-absorb c ys (subst IsUsedFirst (sym e) (u free))))
release-cons b (x ∷ xs) c ys bs e u = ap (λ l. b ∷ l) e

first_fit-IsUndone :
    (n : ℕ) (a : Ptr) (bs : List Block)
    → IsCoalesced bs
    → (first_fit n a bs).0 ≢ null
    → IsUndone a bs (first_fit n a bs)
unfolding first_fit
first_fit-IsUndone n a [] h ne = absurd (ne refl)
first_fit-IsUndone n a (b ∷ bs) h ne = elim (Bool-cases (block_fits n b)) [
  | inl hit ↦
      rw hit (IsUndone-carve n a b bs hit (IsUsedFirst-of_free b bs (fits-parts n b hit).1 h))
  | inr miss ↦
      let r =
        first_fit-IsUndone n (a + (32 + b.size)) bs (IsCoalesced-tail b bs h) (rw miss at ne) in
      rw miss (record {
        before = b ∷ r.before;
        block = r.block;
        behind = r.behind;
        blocks = ap (λ l. b ∷ l) r.blocks;
        place = r.place;
        undo =
            release-cons b r.before r.block r.behind bs r.undo (λ f. IsUsedFirst-of_free b bs f h);
      })
]

-- On a well-formed heap with no two free blocks side by side, a request that `dmalloc` serves and
-- `dfree` of its result leave exactly the blocks that were there before, at their places.
pub dfree-dmalloc :
    (max slab fuel n : ℕ) (h : Heap) (base : Ptr) (b : Block) (bs : List Block)
    → IsHeap h base (b ∷ bs)
    → IsCoalesced (b ∷ bs)
    → 0 < n
    → IsSmall n
    → length (b ∷ bs) < fuel
    → (first_fit n base (b ∷ bs)).0 ≢ null
    → (p : Ptr) × (h' : Heap) × (dmalloc max slab fuel n h ≡ returned p h')
      × (p ≢ null)
      × IsHeap (dfree p h') base (b ∷ bs)
dfree-dmalloc max slab fuel n h base b bs is merged pos small enough ne =
    let (h', run, heap, _) =
      dmalloc-first_fit max slab fuel n h base b bs is pos (IsSmall-NoWrap n small) enough in
    let r = first_fit-IsUndone n base (b ∷ bs) merged ne in
    let back =
      (dfree-release h' base r.before r.block r.behind (subst (IsHeap h' base) r.blocks heap)).0 in
    (
      (first_fit n base (b ∷ bs)).0,
      h',
      run,
      ne,
      subst₂ (λ p. IsHeap (dfree p h') base) (sym r.place) r.undo back,
    )
