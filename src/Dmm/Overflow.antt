-- ===== src/Dmm/Overflow.antt =====
-- Requests near 2^64: the rounding in ALIGN wraps round, and the request is granted.
use mathlib.Core.Path.{subst}
use duke_operatingsystems.Dmm.Dmalloc.{dmalloc-first_fit}
use duke_operatingsystems.Dmm.Allocate.{first_fit, block_fits, carve}
use duke_operatingsystems.Dmm.Defs.{align, Heap, Ptr, dmalloc, returned, Metadata}
use duke_operatingsystems.Common.{
  List, ap, arith, false, length, true, ℕ, ◌+◌, ◌-◌, ◌<◌, ◌^◌, ◌∙◌, ◌∷◌, ◌≡◌, ◌≤◌,
}
use duke_operatingsystems.Dmm.Layout.{Block, IsHeap}

align_huge : (n : ℕ) → 2 ^ 64 - 7 ≤ n → n < 2 ^ 64 → align n ≡ 0
unfolding align
align_huge n lo hi = omega arith

carve_huge :
    (n : ℕ) (a : Ptr) (b : Block) (bs : List Block)
    → align n ≡ 0
    → b.used ≡ false
    → 64 ≤ b.size
    → first_fit n a (b ∷ bs) ≡ (
      a + 32,
      record { size = 0; used = true } ∷ record { size = b.size - 32; used = false } ∷ bs,
    )
unfolding first_fit block_fits carve
carve_huge n a b bs z free room = ground arith

-- On a well-formed heap whose first block is free and holds two headers, `dmalloc` of a size in the
-- last seven below 2^64 does not fail. It returns the payload of a block of size 0, and that pointer
-- is the address of the next block's header.
pub dmalloc_huge :
    (max slab fuel n : ℕ) (h : Heap) (base : Ptr) (b : Block) (bs : List Block)
    → IsHeap h base (b ∷ bs)
    → b.used ≡ false
    → 64 ≤ b.size
    → 2 ^ 64 - 7 ≤ n
    → n < 2 ^ 64
    → length (b ∷ bs) < fuel
    → (h' : Heap) × (dmalloc max slab fuel n h ≡ returned (base + 32) h')
      × ((h'.mem base).size ≡ 0)
      × ((h'.mem base).next ≡ base + 32)
dmalloc_huge max slab fuel n h base b bs is free room lo hi enough =
    let z = align_huge n lo hi in
    let e = carve_huge n base b bs z free room in
    let (h', run, heap, _) =
      dmalloc-first_fit max slab fuel n h base b bs is (omega arith) (omega arith) enough in
    let first = (subst (IsHeap h' base) (ap (λ (r : Ptr × List Block). r.1) e) heap).chain.0 in
    (
      h',
      run ∙ ap (λ (r : Ptr × List Block). returned r.0 h') e,
      ap (λ (k : Metadata). k.size) first,
      ap (λ (k : Metadata). k.next) first ∙ omega arith,
    )
