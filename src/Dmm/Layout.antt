-- ===== src/Dmm/Layout.antt =====
-- The abstract heap: the blocks in address order, and what it means that memory holds them.
use mathlib.Core.Path.{subst}
use duke_operatingsystems.Common.{
  sym, ◌==◌, if◌then◌else◌, ℕ, ◌+◌, ◌≤◌, ◌<◌, ◌≡◌, Bool, List, [], ◌∷◌, ◌++◌, ◌∙◌, arith, ◌^◌,
  if_self, ap, if_ne,
}
use duke_operatingsystems.Dmm.Defs.{
  Ptr, null, Metadata, Memory, Heap, metadata_t_aligned, set_fille,
}

-- One block as its header tells it: the payload's size, and whether it is allocated.
pub record Block : Type 0 where
  pub size : ℕ
  pub used : Bool

-- bytes of the slab that the blocks fill, headers included
abbrev pub total : List Block → ℕ
total [] = 0
total (b ∷ bs) = metadata_t_aligned + b.size + total bs

-- the address of the first of the blocks `bs`, if they begin at `a`
abbrev pub link : Ptr → List Block → Ptr
link a [] = null
link a (_ ∷ _) = a

abbrev pub header : Block → Ptr → Ptr → Metadata
header b next prev = record { size = b.size; next = next; prev = prev; fille = b.used }

-- Memory holds the blocks `bs` from address `a` on, the first behind the block at `prev`: they
-- touch one another, and each header names its neighbours.
abbrev pub Chain : Memory → Ptr → Ptr → List Block → Type 0
Chain m prev a [] = Unit
Chain m prev a (b ∷ bs) =
    (m a ≡ header b (link (a + (metadata_t_aligned + b.size)) bs) prev)
    × Chain m a (a + (metadata_t_aligned + b.size)) bs

-- The blocks fill a slab that begins at `base` and ends at or below 2^64.
pub record IsHeap (h : Heap) (base : Ptr) (bs : List Block) : Type 0 where
  pub chain : Chain h.mem null base bs
  pub first : h.freelist ≡ base
  pub apart : h.testit ≡ null
  pub above : 0 < base
  pub fits : base + total bs ≤ 2 ^ 64

-- the address behind the blocks `xs`
abbrev pub end_of : Ptr → List Block → Ptr
end_of a [] = a
end_of a (b ∷ bs) = end_of (a + (metadata_t_aligned + b.size)) bs

pub end_of-total : (a : Ptr) (xs : List Block) → end_of a xs ≡ a + total xs
end_of-total a [] = omega arith
end_of-total a (b ∷ bs) = omega (arith, end_of-total (a + (32 + b.size)) bs)

pub total-append : (xs ys : List Block) → total (xs ++ ys) ≡ total xs + total ys
total-append [] ys = omega arith
total-append (b ∷ bs) ys = omega (arith, total-append bs ys)

-- Writes below the first block, or at its end, change none of them.
pub Chain-frame :
    (m m' : Memory) (prev a : Ptr) (bs : List Block)
    → ((x : Ptr) → a ≤ x → m' x ≡ m x)
    → Chain m prev a bs
    → Chain m' prev a bs
Chain-frame m m' prev a [] same c = tt
Chain-frame m m' prev a (b ∷ bs) same c = (
  same a (omega arith) ∙ c.0,
  Chain-frame m m' a (a + (32 + b.size)) bs (λ x le. same x (omega arith)) c.1,
)

-- A write of the first block's `prev`, and of nothing behind it.
pub Chain-relink :
    (m m' : Memory) (prev prev' a a' : Ptr) (bs : List Block)
    → a' ≡ a
    → ((y : Ptr) → a ≤ y → m' y ≡ (if a == y then record (m a) { prev = prev' } else m y))
    → Chain m prev a bs
    → Chain m' prev' a' bs
Chain-relink m m' prev prev' a a' [] e same c = tt
Chain-relink m m' prev prev' a a' (b ∷ bs) e same c =
    subst (λ x. Chain m' prev' x (b ∷ bs)) (sym e)
      (
        same a (omega arith) ∙ ground (arith, c.0),
        Chain-frame m m' a (a + (32 + b.size)) bs (λ y le. same y (omega arith) ∙ ground arith) c.1,
      )

-- `m'` is `m` below the address `a`.
abbrev pub SameBelow : Ptr → Memory → Memory → Type 0
SameBelow a m m' = (y : Ptr) → y < a → m' y ≡ m y

-- A write of one block's `fille`.
pub fill-Chain :
    (m : Memory) (prev a : Ptr) (b : Block) (v : Bool) (bs : List Block)
    → Chain m prev a (b ∷ bs)
    → Chain (set_fille m a v) prev a (record { size = b.size; used = v } ∷ bs)
      × SameBelow a m (set_fille m a v)
fill-Chain m prev a b v bs c = (
  (
    if_self a _ _ ∙ ap (λ (k : Metadata). record k { fille = v }) c.0,
    Chain-frame m _ a _ bs (λ y le. if_ne a y _ _ (omega arith)) c.1,
  ),
  λ y lt. if_ne a y _ _ (omega arith),
)
