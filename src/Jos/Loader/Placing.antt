-- ===== src/Jos/Loader/Placing.antt =====
-- A memory that holds an image: its headers, and `load_segment` of one of them.
use duke_operatingsystems.Jos.Elf.{Bytes, word, within, Holds, word-Holds}
use duke_operatingsystems.Jos.Syscalls.{ustacktop}
use duke_operatingsystems.Common.{
  Bool-cases, arith, false, if◌then◌else◌, inl, inr, lt→leb, ne→==, none, same_or_not, some, true,
  u32, ℕ, ◌+◌, ◌-◌, ◌<◌, ◌∙◌, ◌≡◌, ◌≤◌, ◌⊎◌, eq→==, ap, refl, lt→ltb, le→ltb,
}
use duke_operatingsystems.Jos.Loader.{Copying, Segment, segment, elf_prog_load, load_segment}
use duke_operatingsystems.Jos.Loader.Image.{IsCopying, placed, IsPlaceable}

module _ (image mem : Bytes) (binary size : ℕ) (holds : Holds image binary size mem) where
  word_on : (a i d : ℕ) → a ≡ binary + i → i + d + 4 ≤ size → word mem (a + d) ≡ word image (i + d)
  word_on a i d e le =
      ap (word mem) (omega (arith, e)) ∙ word-Holds image mem binary size holds (i + d) le

  pub segment-Holds : (a i : ℕ) → a ≡ binary + i → i + 32 ≤ size → segment mem a ≡ segment image i
  segment-Holds a i e le =
      let t : word mem a ≡ word image i =
        ap (word mem) e ∙ word-Holds image mem binary size holds i (omega (arith, le)) in
      rw
        (
          t,
          word_on a i 4 e (omega (arith, le)),
          word_on a i 8 e (omega (arith, le)),
          word_on a i 16 e (omega (arith, le)),
          word_on a i 20 e (omega (arith, le)),
        )
        refl

within-below : (x start n : ℕ) → x < start → within x start n ≡ false
within-below x start n lt = rw (lt→leb start x lt) refl

within-bounds : (a start n : ℕ) → within a start n ≡ true → (start ≤ a) × (a < start + n)
within-bounds a start n h = ground (arith, h)

module _ (copying : Copying) (is : IsCopying copying) (image : Bytes) (binary size : ℕ)
    (low : binary + size ≤ 0x800000) where
  pub load_segment-outside :
      (seg : Segment) (mem : Bytes)
      → seg.p_type ≡ elf_prog_load
      → (seg.p_va < 0x800000) ⊎ (ustacktop < seg.p_va)
      → load_segment copying binary seg mem ≡ none
  unfolding load_segment
  load_segment-outside seg mem e (inl lt) =
      rw (eq→== seg.p_type elf_prog_load e, lt→ltb seg.p_va 0x800000 lt) refl
  load_segment-outside seg mem e (inr lt) =
      rw
        (
          eq→== seg.p_type elf_prog_load e,
          le→ltb seg.p_va 0x800000 (omega (arith, lt)),
          lt→ltb ustacktop seg.p_va lt,
        )
        refl

  -- One segment, in a memory that holds the image.
  pub load_segment_lem :
      (seg : Segment) (mem : Bytes)
      → Holds image binary size mem
      → (seg.p_type ≡ elf_prog_load → IsPlaceable size seg)
      → (mem' : Bytes) × (load_segment copying binary seg mem ≡ some mem')
        × ((a : ℕ) → mem' a ≡ placed image seg (mem a) a)
        × Holds image binary size mem'
  unfolding load_segment
  load_segment_lem seg mem holds ok = elim (same_or_not seg.p_type elf_prog_load) [
    | inr ne ↦ (
      mem,
      rw (ne→== seg.p_type elf_prog_load ne) refl,
      (λ a. rw (ne→== seg.p_type elf_prog_load ne) refl),
      holds,
    )
    | inl e ↦
        let k = ok e in
        let set_ = copying.memset seg.p_va 0 seg.p_memsz mem in
        let wrap : u32 (binary + seg.p_offset) ≡ binary + seg.p_offset =
          omega (arith, k.in_image) in
        let mem' = copying.memcpy seg.p_va (binary + seg.p_offset) seg.p_filesz set_ in
        let zeros : (a : ℕ) → set_ a ≡ (if within a seg.p_va seg.p_memsz then 0 else mem a) =
          λ a. is.memset_at seg.p_va 0 seg.p_memsz mem a k.ends_in in
        let low_read : (x : ℕ) → x < size → set_ (binary + x) ≡ image x = λ x lt.
          zeros (binary + x)
          ∙ rw (within-below (binary + x) seg.p_va seg.p_memsz (omega (arith, lt, low, k.from_low)))
              (holds x lt) in
        let copied : (a : ℕ)
            → mem' a ≡ (
                if within a seg.p_va seg.p_filesz
                then set_ (binary + seg.p_offset + (a - seg.p_va))
                else set_ a) =
          λ a.
            is.memcpy_at seg.p_va (binary + seg.p_offset) seg.p_filesz set_ a
              (omega (arith, k.ends_in, k.fits_in)) (inl (omega (arith, k.in_image, k.from_low))) in
        (
          mem',
          rw
              (
                eq→== seg.p_type elf_prog_load e,
                le→ltb seg.p_va 0x800000 k.from_low,
                le→ltb ustacktop seg.p_va k.to_high,
                wrap,
              )
              refl,
          (λ a.
              copied a
              ∙ rw (eq→== seg.p_type elf_prog_load e)
                  (elim (Bool-cases (within a seg.p_va seg.p_filesz)) [
                    | inl t ↦
                        let (from, to) = within-bounds a seg.p_va seg.p_filesz t in
                        rw t (
                          ap set_ (omega arith)
                          ∙ low_read (seg.p_offset + (a - seg.p_va))
                              (omega (arith, from, to, k.in_image)))
                    | inr f ↦ rw f (zeros a)
                  ])),
          (λ i lt.
              copied (binary + i)
              ∙ rw
                  (within-below (binary + i) seg.p_va seg.p_filesz
                    (omega (arith, lt, low, k.from_low)))
                  (low_read i lt)),
        )
  ]
