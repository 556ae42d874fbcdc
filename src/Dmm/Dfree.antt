-- ===== src/Dmm/Dfree.antt =====
-- `dfree` on a well-formed heap joins the freed block with its free neighbours.
use duke_operatingsystems.Dmm.Merge.{
  joined, merge_next-last, merge_last_lem, merge_both-last, merge_prev_lem, merge_next-inner,
  merge_both-inner,
}
use duke_operatingsystems.Dmm.Defs.{Memory, Ptr, null}
use duke_operatingsystems.Common.{
  true, false, false, List, ◌∷◌, ◌∷◌, if◌then◌else◌, if◌then◌else◌, ◌<◌, ◌<◌, ◌+◌, ◌+◌, ◌+◌, ◌+◌,
  ◌+◌, ◌≤◌, ◌≤◌, ◌≤◌, [], ◌^◌, ◌^◌, ◌^◌, ◌^◌, arith, ◌∙◌, ◌∙◌, ◌∙◌, ◌∙◌, if_self, ap, if_ne, refl,
  ◌≡◌, ◌≡◌, ◌≢◌, ◌≢◌, ◌≢◌, Bool,
}
use duke_operatingsystems.Dmm.Layout.{Block, total, Chain, SameBelow, header, Chain-relink}
use duke_operatingsystems.Dmm.Free.{merge_last, merge_next, merge_prev, merge_both, coalesce}

-- The block `c`, which is free now, joined with the block behind it if that is free.
unfoldable pub absorb : Block → List Block → List Block
absorb c [] = c ∷ []
absorb c (n ∷ ys) = if n.used then c ∷ n ∷ ys else joined c n ∷ ys

abbrev pub freed : Block → Block
freed c = record { size = c.size; used = false }

-- The blocks after the free of `c`, which stands behind `xs` and before `ys`.
unfoldable pub release : List Block → Block → List Block → List Block
unfolding absorb
release [] c ys = absorb (freed c) ys
release (p ∷ []) c ys = if p.used then p ∷ absorb (freed c) ys else absorb (joined p c) ys
release (x ∷ x2 ∷ xs) c ys = x ∷ release (x2 ∷ xs) c ys

merge_next-Chain :
    (m : Memory) (prev x : Ptr) (c n : Block) (ys : List Block)
    → 0 < x
    → x + total (c ∷ n ∷ ys) ≤ 2 ^ 64
    → Chain m prev x (c ∷ n ∷ ys)
    → Chain (merge_next x m) prev x (joined c n ∷ ys) × SameBelow x m (merge_next x m)
merge_next-Chain m prev x c n [] above room k =
    let at = merge_next-last m prev x c n above k.0 k.1.0 (omega arith) in
    ((at x ∙ if_self x _ _, tt), λ y lt. at y ∙ if_ne x y _ _ (omega arith))
merge_next-Chain m prev x c n (r ∷ rs) above room k =
    let z = x + (32 + c.size) + (32 + n.size) in
    let at = merge_next-inner m prev x c n above z refl k.0 k.1.0 (omega arith) in
    (
      (
        at x ∙ if_self x _ _ ∙ ap (λ q. header (joined c n) q prev) (omega arith),
        Chain-relink m _ _ x z _ (r ∷ rs) (omega arith) (λ y le. at y ∙ if_ne x y _ _ (omega arith))
            k.1.1,
      ),
      λ y lt. at y ∙ if_ne x y _ _ (omega arith) ∙ if_ne z y _ _ (omega arith),
    )

module _ (m : Memory) (prev a : Ptr) (p c : Block) (above : 0 < a) where
  abbrev x : Ptr
  x = a + (32 + p.size)

  merge_last-Chain :
      a + total (p ∷ c ∷ []) ≤ 2 ^ 64
      → Chain m prev a (p ∷ c ∷ [])
      → Chain (merge_last x m) prev a (joined p c ∷ []) × SameBelow a m (merge_last x m)
  merge_last-Chain room k =
      let at = merge_last_lem m prev a p c c above k.0 k.1.0 (omega arith) in
      ((at a ∙ if_self a _ _, tt), λ y lt. at y ∙ if_ne a y _ _ (omega arith))

  merge_prev-Chain :
      (r : Block) (rs : List Block)
      → a + total (p ∷ c ∷ r ∷ rs) ≤ 2 ^ 64
      → Chain m prev a (p ∷ c ∷ r ∷ rs)
      → Chain (merge_prev x m) prev a (joined p c ∷ r ∷ rs) × SameBelow a m (merge_prev x m)
  merge_prev-Chain r rs room k =
      let z = x + (32 + c.size) in
      let at = merge_prev_lem m prev a p c c above z refl k.0 k.1.0 (omega arith) in
      (
        (
          at a ∙ if_self a _ _ ∙ ap (λ q. header (joined p c) q prev) (omega arith),
          Chain-relink m _ _ a z _ (r ∷ rs) (omega arith)
              (λ y le. at y ∙ if_ne a y _ _ (omega arith)) k.1.1,
        ),
        λ y lt. at y ∙ if_ne a y _ _ (omega arith) ∙ if_ne z y _ _ (omega arith),
      )

  merge_both-Chain :
      (n : Block) (ys : List Block)
      → a + total (p ∷ c ∷ n ∷ ys) ≤ 2 ^ 64
      → Chain m prev a (p ∷ c ∷ n ∷ ys)
      → Chain (merge_both x m) prev a (joined (joined p c) n ∷ ys) × SameBelow a m (merge_both x m)
  merge_both-Chain n [] room k =
      let at = merge_both-last m prev a p c n above k.0 k.1.0 k.1.1.0 (omega arith) in
      ((at a ∙ if_self a _ _, tt), λ y lt. at y ∙ if_ne a y _ _ (omega arith))
  merge_both-Chain n (r ∷ rs) room k =
      let z = x + (32 + c.size) + (32 + n.size) in
      let at = merge_both-inner m prev a p c n above z refl k.0 k.1.0 k.1.1.0 (omega arith) in
      (
        (
          at a ∙ if_self a _ _ ∙ ap (λ q. header (joined (joined p c) n) q prev) (omega arith),
          Chain-relink m _ _ a z _ (r ∷ rs) (omega arith)
              (λ y le. at y ∙ if_ne a y _ _ (omega arith)) k.1.1.1,
        ),
        λ y lt. at y ∙ if_ne a y _ _ (omega arith) ∙ if_ne z y _ _ (omega arith),
      )

-- What a merge has done to the blocks at `a`, and that it wrote nothing below.
abbrev pub Merged : Memory → Ptr → Ptr → Memory → List Block → Type 0
Merged m prev a m' bs = Chain m' prev a bs × SameBelow a m m'

-- Two choices by one test.
if_both :
    (P : Memory → List Block → Type 0) (u : Bool) (m1 m2 : Memory) (l1 l2 : List Block)
    → P m1 l1
    → P m2 l2
    → P (if u then m1 else m2) (if u then l1 else l2)
if_both P true m1 m2 l1 l2 h k = h
if_both P false m1 m2 l1 l2 h k = k

-- Which merge the ladder of `dfree` takes, by the headers of the block and its neighbours.
module _ (m : Memory) (x : Ptr) (c : Block) where
  ladder-only : m x ≡ header c null null → coalesce x m ≡ m
  unfolding coalesce
  ladder-only h = ground arith

  ladder-first :
      (n : Block) (z q : Ptr)
      → z ≢ null
      → m x ≡ header c z null
      → m z ≡ header n q x
      → coalesce x m ≡ (if n.used then m else merge_next x m)
  unfolding coalesce
  ladder-first n z q e h k = ground arith

  ladder-last :
      (p : Block) (a q : Ptr)
      → a ≢ null
      → m x ≡ header c null a
      → m a ≡ header p x q
      → coalesce x m ≡ (if p.used then m else merge_last x m)
  unfolding coalesce
  ladder-last p a q e h k = ground arith

  ladder-inner :
      (p n : Block) (a z q r : Ptr)
      → a ≢ null
      → z ≢ null
      → m x ≡ header c z a
      → m a ≡ header p x q
      → m z ≡ header n r x
      → coalesce x m ≡ (
          if p.used
          then (if n.used then m else merge_next x m)
          else (if n.used then merge_prev x m else merge_both x m))
  unfolding coalesce
  ladder-inner p n a z q r d e h k l = ground arith

pub coalesce-first :
    (m : Memory) (a : Ptr) (c : Block) (ys : List Block)
    → 0 < a
    → a + total (c ∷ ys) ≤ 2 ^ 64
    → Chain m null a (freed c ∷ ys)
    → Merged m null a (coalesce a m) (absorb (freed c) ys)
unfolding absorb
coalesce-first m a c [] above room k = rw (ladder-only m a (freed c) k.0) (k, λ y lt. refl)
coalesce-first m a c (n ∷ ys) above room k =
    rw (ladder-first m a (freed c) n _ _ (omega arith) k.0 k.1.0) (
      if_both (Merged m null a) n.used m _ _ _ (k, λ y lt. refl)
        (merge_next-Chain m null a (freed c) n ys above room k))

pub coalesce-inner :
    (m : Memory) (prev a : Ptr) (p c : Block) (ys : List Block)
    → 0 < a
    → a + total (p ∷ c ∷ ys) ≤ 2 ^ 64
    → Chain m prev a (p ∷ freed c ∷ ys)
    → Merged m prev a (coalesce (a + (32 + p.size)) m) (release (p ∷ []) c ys)
unfolding absorb release
coalesce-inner m prev a p c [] above room k =
    rw (ladder-last m _ (freed c) p a _ (omega arith) k.1.0 k.0) (
      if_both (Merged m prev a) p.used m _ _ _ (k, λ y lt. refl)
        (merge_last-Chain m prev a p (freed c) above room k))
coalesce-inner m prev a p c (n ∷ ys) above room k =
    let x = a + (32 + p.size) in
    let behind = merge_next-Chain m a x (freed c) n ys (omega arith) (omega arith) k.1 in
    rw (ladder-inner m _ (freed c) p n a _ _ _ (omega arith) (omega arith) k.1.0 k.0 k.1.1.0) (
      if_both (Merged m prev a) p.used _ _ _ _
        (if_both (λ m' bs. Merged m prev a m' (p ∷ bs)) n.used m _ _ _ (k, λ y lt. refl)
          ((behind.1 a (omega arith) ∙ k.0, behind.0), λ y lt. behind.1 y (omega arith)))
        (if_both (Merged m prev a) n.used _ _ _ _
          (merge_prev-Chain m prev a p (freed c) above n ys room k)
          (merge_both-Chain m prev a p (freed c) above n ys room k)))
