-- ===== src/Dmm/Merge.antt =====
-- The merges of `dfree`, address by address, and on chains of blocks.
use duke_operatingsystems.Dmm.Free.{merge_last, merge_next, merge_prev, merge_both}
use duke_operatingsystems.Dmm.Defs.{Memory, metadata_t_aligned, Ptr, null}
use duke_operatingsystems.Common.{
  ◌+◌, ◌<◌, ◌<◌, false, ◌≡◌, ◌≡◌, ◌≡◌, ◌≡◌, ◌≡◌, ◌≡◌, ◌^◌, ◌^◌, ◌^◌, if◌then◌else◌, if◌then◌else◌,
  if◌then◌else◌, if◌then◌else◌, if◌then◌else◌, if◌then◌else◌, ◌==◌, ◌==◌, ◌==◌, ◌==◌, ◌==◌, ◌==◌,
  arith,
}
use duke_operatingsystems.Dmm.Layout.{Block, header}

-- one free block over the bytes of two neighbours
abbrev pub joined : Block → Block → Block
joined b c = record { size = b.size + c.size + metadata_t_aligned; used = false }

module _ (m : Memory) (prev x : Ptr) (c n : Block) (above : 0 < x) where
  pub merge_next-last :
      m x ≡ header c (x + (32 + c.size)) prev
      → m (x + (32 + c.size)) ≡ header n null x
      → c.size + n.size + 32 < 2 ^ 64
      → (y : Ptr) → merge_next x m y ≡ (if x == y then header (joined c n) null prev else m y)
  unfolding merge_next
  merge_next-last e f s y = ground arith

  pub merge_next-inner :
      (z : Ptr)
      → z ≡ x + (32 + c.size) + (32 + n.size)
      → m x ≡ header c (x + (32 + c.size)) prev
      → m (x + (32 + c.size)) ≡ header n z x
      → c.size + n.size + 32 < 2 ^ 64
      → (y : Ptr)
      → merge_next x m y ≡ (
          if x == y
          then header (joined c n) z prev
          else if z == y
          then record (m z) { prev = x }
          else m y)
  unfolding merge_next
  merge_next-inner z d e f s y = ground arith

module _ (m : Memory) (prev a : Ptr) (p c n : Block) (above : 0 < a) where
  abbrev pub x : Ptr
  x = a + (32 + p.size)

  pub merge_last_lem :
      m a ≡ header p x prev
      → m x ≡ header c null a
      → p.size + c.size + 32 < 2 ^ 64
      → (y : Ptr) → merge_last x m y ≡ (if a == y then header (joined p c) null prev else m y)
  unfolding merge_last
  merge_last_lem e f s y = ground arith

  pub merge_prev_lem :
      (z : Ptr)
      → z ≡ x + (32 + c.size)
      → m a ≡ header p x prev
      → m x ≡ header c z a
      → p.size + c.size + 32 < 2 ^ 64
      → (y : Ptr)
      → merge_prev x m y ≡ (
          if a == y
          then header (joined p c) z prev
          else if z == y
          then record (m z) { prev = a }
          else m y)
  unfolding merge_prev
  merge_prev_lem z d e f s y = ground arith

  pub merge_both-last :
      m a ≡ header p x prev
      → m x ≡ header c (x + (32 + c.size)) a
      → m (x + (32 + c.size)) ≡ header n null x
      → p.size + c.size + n.size + 64 < 2 ^ 64
      → (y : Ptr)
      → merge_both x m y ≡ (if a == y then header (joined (joined p c) n) null prev else m y)
  unfolding merge_both
  merge_both-last e f g s y = ground arith

  pub merge_both-inner :
      (z : Ptr)
      → z ≡ x + (32 + c.size) + (32 + n.size)
      → m a ≡ header p x prev
      → m x ≡ header c (x + (32 + c.size)) a
      → m (x + (32 + c.size)) ≡ header n z x
      → p.size + c.size + n.size + 64 < 2 ^ 64
      → (y : Ptr)
      → merge_both x m y ≡ (
          if a == y
          then header (joined (joined p c) n) z prev
          else if z == y
          then record (m z) { prev = a }
          else m y)
  unfolding merge_both
  merge_both-inner z d e f g s y = ground arith
