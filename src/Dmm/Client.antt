-- ===== src/Dmm/Client.antt =====
-- `dmalloc` and `dfree` as a client sees them: the contract on the blocks, for the code.
use duke_operatingsystems.Dmm.Coalesced.{first_fit-IsCoalesced, release-IsCoalesced}
use duke_operatingsystems.Dmm.Release.{dfree-release}
use duke_operatingsystems.Dmm.Dfree.{release}
use duke_operatingsystems.Dmm.Dmalloc.{dmalloc-first_fit}
use duke_operatingsystems.Dmm.Free.{dfree}
use duke_operatingsystems.Dmm.Allocate.{NoWrap, IsSmall, first_fit, IsSmall-NoWrap}
use duke_operatingsystems.Dmm.Contract.{
  IsFresh, IsCoalesced, Holds, Holds-first_fit, first_fit-IsFresh,
}
use duke_operatingsystems.Dmm.Layout.{Block, IsHeap, end_of}
use duke_operatingsystems.Dmm.Defs.{Heap, Ptr, dmalloc, null, returned}
use duke_operatingsystems.Common.{List, length, true, ℕ, ◌++◌, ◌+◌, ◌<◌, ◌∷◌, ◌≡◌, ◌≢◌}

-- On a well-formed heap, a positive request of at most 2^64 - 40 bytes that a free block can hold gets a pointer to a block that was
-- free, is in use afterwards, has at least the bytes asked for, and reaches no further than the free
-- block did.
pub dmalloc-IsFresh :
    (max slab fuel n : ℕ) (h : Heap) (base : Ptr) (b : Block) (bs : List Block)
    → IsHeap h base (b ∷ bs)
    → 0 < n
    → IsSmall n
    → length (b ∷ bs) < fuel
    → (first_fit n base (b ∷ bs)).0 ≢ null
    → (p : Ptr) × (h' : Heap) × (bs' : List Block) × (dmalloc max slab fuel n h ≡ returned p h')
      × IsHeap h' base bs'
      × IsFresh n base (b ∷ bs) bs' p
dmalloc-IsFresh max slab fuel n h base b bs is pos small enough ne =
    let r = first_fit n base (b ∷ bs) in
    let (h', run, heap, _) =
      dmalloc-first_fit max slab fuel n h base b bs is pos (IsSmall-NoWrap n small) enough in
    (r.0, h', r.1, run, heap, first_fit-IsFresh n base (b ∷ bs) small ne)

-- On a well-formed heap, a block in use stays at its place with its size when `dmalloc` serves, or
-- refuses, another request that does not wrap round 2^64.
pub dmalloc-Holds :
    (max slab fuel n : ℕ) (h : Heap) (base : Ptr) (b : Block) (bs : List Block) (q : Ptr)
    (c : Block)
    → IsHeap h base (b ∷ bs)
    → 0 < n
    → NoWrap n
    → length (b ∷ bs) < fuel
    → c.used ≡ true
    → Holds base (b ∷ bs) q c
    → (p : Ptr) × (h' : Heap) × (bs' : List Block) × (dmalloc max slab fuel n h ≡ returned p h')
      × IsHeap h' base bs'
      × Holds base bs' q c
dmalloc-Holds max slab fuel n h base b bs q c is pos small enough used at =
    let r = first_fit n base (b ∷ bs) in
    let (h', run, heap, _) = dmalloc-first_fit max slab fuel n h base b bs is pos small enough in
    (r.0, h', r.1, run, heap, Holds-first_fit n base (b ∷ bs) q c used at)

-- On a well-formed heap with no two free blocks side by side, `dmalloc` leaves such a heap.
pub dmalloc-IsCoalesced :
    (max slab fuel n : ℕ) (h : Heap) (base : Ptr) (b : Block) (bs : List Block)
    → IsHeap h base (b ∷ bs)
    → IsCoalesced (b ∷ bs)
    → 0 < n
    → NoWrap n
    → length (b ∷ bs) < fuel
    → (p : Ptr) × (h' : Heap) × (bs' : List Block) × (dmalloc max slab fuel n h ≡ returned p h')
      × IsHeap h' base bs'
      × IsCoalesced bs'
dmalloc-IsCoalesced max slab fuel n h base b bs is merged pos small enough =
    let r = first_fit n base (b ∷ bs) in
    let (h', run, heap, _) = dmalloc-first_fit max slab fuel n h base b bs is pos small enough in
    (r.0, h', r.1, run, heap, first_fit-IsCoalesced n base (b ∷ bs) merged)

-- On a well-formed heap with no two free blocks side by side, `dfree` of the payload of any block leaves
-- such a heap: the freed block is joined with every free neighbour.
pub dfree-IsCoalesced :
    (h : Heap) (base : Ptr) (xs : List Block) (c : Block) (ys : List Block)
    → IsHeap h base (xs ++ (c ∷ ys))
    → IsCoalesced (xs ++ (c ∷ ys))
    → (bs : List Block) × IsHeap (dfree (end_of base xs + 32) h) base bs × IsCoalesced bs
dfree-IsCoalesced h base xs c ys is merged =
    (release xs c ys, (dfree-release h base xs c ys is).0, release-IsCoalesced xs c ys merged)
