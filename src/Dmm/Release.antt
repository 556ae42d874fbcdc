-- ===== src/Dmm/Release.antt =====
-- `dfree` on a well-formed heap, wherever the block stands; blocks in use; coalesced heaps.
use duke_operatingsystems.Dmm.Free.{coalesce, dfree}
use duke_operatingsystems.Dmm.Merge.{joined}
use duke_operatingsystems.Dmm.Defs.{Memory, Ptr, set_fille, Heap, null}
use duke_operatingsystems.Common.{
  List, [], ap, arith, false, refl, sub64, sym, ◌++◌, ◌+◌, ◌<◌, ◌^◌, ◌∙◌, ◌∷◌, ◌≡◌, ◌≤◌,
}
use duke_operatingsystems.Dmm.Layout.{
  Block, total, Chain, link, end_of, fill-Chain, IsHeap, SameBelow, end_of-total, header,
  total-append,
}
use duke_operatingsystems.Dmm.Dfree.{absorb, release, freed, Merged, coalesce-inner, coalesce-first}

link-absorb : (z : Ptr) (c : Block) (ys : List Block) → link z (absorb c ys) ≡ z
unfolding absorb
link-absorb z c [] = refl
link-absorb z c (n ∷ ys) = ground arith

link-release :
    (z : Ptr) (xs : List Block) (c : Block) (ys : List Block) → link z (release xs c ys) ≡ z
unfolding release
link-release z [] c ys = link-absorb z (freed c) ys
link-release z (p ∷ []) c ys = ground (arith, link-absorb z (joined p c) ys)
link-release z (x ∷ x2 ∷ xs) c ys = refl

total-absorb : (c : Block) (ys : List Block) → total (absorb c ys) ≡ total (c ∷ ys)
unfolding absorb
total-absorb c [] = refl
total-absorb c (n ∷ ys) = ground arith

pub total-release :
    (xs : List Block) (c : Block) (ys : List Block)
    → total (release xs c ys) ≡ total (xs ++ (c ∷ ys))
unfolding release
total-release [] c ys = total-absorb (freed c) ys
total-release (p ∷ []) c ys =
    ground (arith, total-absorb (joined p c) ys, total-absorb (freed c) ys)
total-release (x ∷ x2 ∷ xs) c ys = omega (arith, total-release (x2 ∷ xs) c ys)

-- The pass behind a prefix: `a` is where the prefix begins.
release-inner :
    (m : Memory) (prev a : Ptr) (x : Block) (xs : List Block) (c : Block) (ys : List Block)
    → 0 < a
    → a + total ((x ∷ xs) ++ (c ∷ ys)) ≤ 2 ^ 64
    → Chain m prev a ((x ∷ xs) ++ (c ∷ ys))
    → let p = end_of a (x ∷ xs) in
      Merged m prev a (coalesce p (set_fille m p false)) (release (x ∷ xs) c ys)
unfolding release
release-inner m prev a p [] c ys above room k =
    let x = a + (32 + p.size) in
    let (filled, kept) = fill-Chain m a x c false ys k.1 in
    let (chain, below) =
      coalesce-inner (set_fille m x false) prev a p c ys above room
        (kept a (omega arith) ∙ k.0, filled) in
    (chain, λ y lt. below y lt ∙ kept y (omega arith))
release-inner m prev a x (x2 ∷ xs) c ys above room k =
    let (chain, below) =
      release-inner m a (a + (32 + x.size)) x2 xs c ys (omega arith) (omega arith) k.1 in
    release_cons chain below
  where
    release_cons :
        {m' : Memory}
        → Chain m' a (a + (32 + x.size)) (release (x2 ∷ xs) c ys)
        → SameBelow (a + (32 + x.size)) m m'
        → Merged m prev a m' (release (x ∷ x2 ∷ xs) c ys)
    release_cons chain below = (
      (
        below a (omega arith)
            ∙ k.0
            ∙ ap (λ q. header x q prev) (sym (link-release _ (x2 ∷ xs) c ys)),
        chain,
      ),
      λ y lt. below y (omega arith),
    )

-- `dfree` of the payload of any block keeps the heap well-formed over the same slab. The block
-- becomes free and is joined with its free neighbours, and the other blocks are as before.
pub dfree-release :
    (h : Heap) (base : Ptr) (xs : List Block) (c : Block) (ys : List Block)
    → IsHeap h base (xs ++ (c ∷ ys))
    → IsHeap (dfree (end_of base xs + 32) h) base (release xs c ys)
      × (total (release xs c ys) ≡ total (xs ++ (c ∷ ys)))
unfolding dfree release absorb
dfree-release h base xs c ys is = rw here (
  record {
    chain = (merged xs is.chain is.fits).0;
    first = is.first;
    apart = is.apart;
    above = is.above;
    fits = omega (arith, total-release xs c ys, is.fits);
  },
  total-release xs c ys,
)
  where
    here : sub64 (end_of base xs + 32) 32 ≡ end_of base xs
    here = omega (arith, end_of-total base xs, total-append xs (c ∷ ys), is.fits)

    merged :
        (xs : List Block)
        → Chain h.mem null base (xs ++ (c ∷ ys))
        → base + total (xs ++ (c ∷ ys)) ≤ 2 ^ 64
        → Merged h.mem null base
            (coalesce (end_of base xs) (set_fille h.mem (end_of base xs) false))
            (release xs c ys)
    merged [] k room =
        let (filled, kept) = fill-Chain h.mem null base c false ys k in
        let (chain, below) =
          coalesce-first (set_fille h.mem base false) base c ys is.above room filled in
        (chain, λ y lt. below y lt ∙ kept y lt)
    merged (x ∷ xs) k room = release-inner h.mem null base x xs c ys is.above room k
