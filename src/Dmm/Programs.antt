-- ===== src/Dmm/Programs.antt =====
-- A program that uses the heap manager: any sequence of `dmalloc` and of `dfree` of what it has got.
pub mod Requests
pub mod Reached
use duke_operatingsystems.Common.{
  List, [], arith, eq→==, if_ne, if_self, if◌then◌else◌, length, ne→==, refl, sym, true, update, ℕ,
  ◌<◌, ◌==◌, ◌∙◌, ◌∷◌, ◌≡◌, ◌≢◌, ◌≤◌, if_intro, ap,
}
use mathlib.Core.Path.{subst}
use duke_operatingsystems.Dmm.Defs.{
  Ptr, Heap, null, dmalloc, dmalloc_init, returned, align, map_failed, Outcome, abort, hang,
}
use duke_operatingsystems.Dmm.Free.{dfree}
use duke_operatingsystems.Dmm.Layout.{Block, total, IsHeap}
use duke_operatingsystems.Dmm.Allocate.{first_fit, IsSmall, IsSmall-NoWrap}
use duke_operatingsystems.Dmm.Dmalloc.{dmalloc-first_fit, dmalloc_init-IsHeap}
use duke_operatingsystems.Dmm.Release.{dfree-release}
use duke_operatingsystems.Dmm.Dfree.{release}
use duke_operatingsystems.Dmm.Coalesced.{first_fit-IsCoalesced, release-IsCoalesced}
use duke_operatingsystems.Dmm.Contract.{Holds, IsCoalesced, Holds-first_fit, first_fit-IsFresh}
use duke_operatingsystems.Dmm.Holding.{
  Holds-bounds, Holds-apart, Holds-split, first_fit-Holds_back, release-Holds, release-Holds_back,
  all_free, Holds-same,
}

-- What the program has asked for at each pointer that it has got and not freed, and 0 elsewhere.
abbrev pub Grants : Type 0
Grants = Ptr → ℕ

abbrev pub granted : Ptr → ℕ → Grants → Grants
granted p n live = if p == null then live else update live p n

-- What a program reaches, from `dmalloc_init` on.
pub data HeapReaches (max slab fuel : ℕ) : Heap → Grants → Type 0 where
  set_up :
      (h : Heap) → h.testit ≡ null → HeapReaches max slab fuel (dmalloc_init max slab h).1 (λ q. 0)
  allocated :
      (h h' : Heap) (live : Grants) (n : ℕ) (p : Ptr)
      → HeapReaches max slab fuel h live
      → 0 < n
      → IsSmall n
      → dmalloc max slab fuel n h ≡ returned p h'
      → HeapReaches max slab fuel h' (granted p n live)
  released :
      (h : Heap) (live : Grants) (p : Ptr)
      → HeapReaches max slab fuel h live
      → live p ≢ 0
      → HeapReaches max slab fuel (dfree p h) (update live p 0)

-- The blocks in use are those that were granted.
pub record IsServed (size slab : ℕ) (h : Heap) (live : Grants) : Type 0 where
  pub first : Block
  pub rest : List Block
  pub heap : IsHeap h slab (first ∷ rest)
  pub merged : IsCoalesced (first ∷ rest)
  pub whole : total (first ∷ rest) ≡ size
  pub served :
      (q : Ptr)
      → live q ≢ 0
      → (c : Block) × Holds slab (first ∷ rest) q c × (c.used ≡ true) × (live q ≤ c.size)
  pub recorded : (q : Ptr) (c : Block) → Holds slab (first ∷ rest) q c → c.used ≡ true → live q ≢ 0

pub length-le-total : (bs : List Block) → length bs ≤ total bs
length-le-total [] = omega arith
length-le-total (b ∷ bs) = omega (arith, length-le-total bs)

-- The same, with the blocks as one list that is not empty.
pub serves :
    (size slab : ℕ) (h : Heap) (live : Grants) (bs : List Block)
    → 0 < size
    → IsHeap h slab bs
    → IsCoalesced bs
    → total bs ≡ size
    → ((q : Ptr)
        → live q ≢ 0
        → (c : Block) × Holds slab bs q c × (c.used ≡ true) × (live q ≤ c.size))
    → ((q : Ptr) (c : Block) → Holds slab bs q c → c.used ≡ true → live q ≢ 0)
    → IsServed size slab h live
serves size slab h live [] pos heap merged whole served recorded =
    absurd (omega (arith, pos, whole))
serves size slab h live (b ∷ bs) pos heap merged whole served recorded = record {
  first = b;
  rest = bs;
  heap = heap;
  merged = merged;
  whole = whole;
  served = served;
  recorded = recorded;
}

pub granted-null :
    (p : Ptr) (n : ℕ) (live : Grants) (q : Ptr) → p ≡ null → granted p n live q ≡ live q
granted-null p n live q e = ap (λ b. (if b then live else update live p n) q) (eq→== p 0 e)

pub granted_self : (p : Ptr) (n : ℕ) (live : Grants) → p ≢ null → granted p n live p ≡ n
granted_self p n live ne =
    ap (λ b. (if b then live else update live p n) p) (ne→== p 0 ne) ∙ if_self p n (live p)

pub granted_other :
    (p : Ptr) (n : ℕ) (live : Grants) (q : Ptr) → q ≢ p → granted p n live q ≡ live q
granted_other p n live q ne =
    if_intro (λ (f : Grants). f q ≡ live q) (p == 0) (λ _. refl)
      (λ _. if_ne p q n (live q) (λ e. ne (sym e)))
