-- ===== src/Dmm/Allocate.antt =====
-- `dmalloc` on a well-formed heap is first fit on the list of its blocks.
use duke_operatingsystems.Common.{
  ℕ, ◌+◌, ◌-◌, ◌%◌, ◌^◌, ◌≤◌, ◌<◌, ◌≡◌, Bool, true, false, not, ◌&&◌, List, [], ◌∷◌, arith, ltb,
  leb, ◌==◌, if◌then◌else◌,
}
use duke_operatingsystems.Dmm.Defs.{
  Ptr, null, Memory, metadata_t_aligned, align, fits, leftover, new_block, split,
}
use duke_operatingsystems.Dmm.Layout.{Block, header}

-- A request that `align` and the header do not carry past 2^64.
abbrev pub IsSmall : ℕ → Type 0
IsSmall n = n ≤ 2 ^ 64 - 40

pub align_bounds :
    (n : ℕ)
    → IsSmall n
    → (n ≤ align n) × (align n ≤ n + 7) × (align n % 8 ≡ 0) × (align n + 32 < 2 ^ 64)
unfolding align
align_bounds n s = omega arith

-- Neither the rounding nor the header carries the aligned size past 2^64.
abbrev pub NoWrap : ℕ → Type 0
NoWrap n = align n + metadata_t_aligned < 2 ^ 64

pub IsSmall-NoWrap : (n : ℕ) → IsSmall n → NoWrap n
IsSmall-NoWrap n s = omega (arith, align_bounds n s)

-- First fit over the blocks: the payload's address, and the blocks afterwards.
unfoldable pub block_fits : ℕ → Block → Bool
block_fits n b = leb (align n + metadata_t_aligned) b.size && not b.used

-- the two blocks that a split makes
abbrev pub front : ℕ → Block
front n = record { size = align n; used = true }

abbrev pub back : ℕ → Block → Block
back n b = record { size = b.size - align n - metadata_t_aligned; used = false }

unfoldable pub carve : ℕ → Block → List Block → List Block
carve n b bs =
    if ltb (b.size - align n - metadata_t_aligned) metadata_t_aligned
    then record { size = b.size; used = true } ∷ bs
    else front n ∷ back n b ∷ bs

unfoldable pub first_fit : ℕ → Ptr → List Block → Ptr × List Block
unfolding block_fits carve
first_fit n a [] = (null, [])
first_fit n a (b ∷ bs) =
    let rest = first_fit n (a + (metadata_t_aligned + b.size)) bs in
    if block_fits n b then (a + metadata_t_aligned, carve n b bs) else (rest.0, b ∷ rest.1)

module _ (n : ℕ) (small : NoWrap n) (m : Memory) (prev a : Ptr) (b : Block) (above : 0 < a) where
  pub fits_lem : (x : Ptr) → m a ≡ header b x prev → fits n (m a) ≡ block_fits n b
  unfolding fits block_fits
  fits_lem x e = rw e (ground (arith))

  pub leftover_lem :
      (x : Ptr)
      → m a ≡ header b x prev
      → block_fits n b ≡ true
      → b.size < 2 ^ 64
      → leftover n (m a) ≡ b.size - align n - 32
  unfolding leftover block_fits
  leftover_lem x e f s = rw e (ground (arith))

  pub new_block_lem :
      a + (32 + b.size) ≤ 2 ^ 64 → block_fits n b ≡ true → new_block n a ≡ a + (32 + align n)
  unfolding new_block block_fits
  new_block_lem s f = ground (arith)

  module _ (f : block_fits n b ≡ true) (room : a + (32 + b.size) ≤ 2 ^ 64) (x : Ptr)
      (e : m a ≡ header b x prev) where
    -- The writes of a split, address by address.
    pub split-last :
        x ≡ null
        → (y : Ptr)
        → split n a m y ≡ (
            if a == y
            then header (front n) (a + (32 + align n)) prev
            else if a + (32 + align n) == y
            then header (back n b) null a
            else m y)
    unfolding split
    split-last z y = ground (arith, new_block_lem room f, leftover_lem x e f)

    pub split-inner :
        x ≡ a + (32 + b.size)
        → (y : Ptr)
        → split n a m y ≡ (
            if a == y
            then header (front n) (a + (32 + align n)) prev
            else if a + (32 + align n) == y
            then header (back n b) x a
            else if x == y
            then record (m x) { prev = a + (32 + align n) }
            else m y)
    unfolding split block_fits
    split-inner z y = ground (arith, new_block_lem room f, leftover_lem x e f)
