-- ===== src/Jos/Loader/Loading.antt =====
-- `load_code` puts a program where its image says.
use duke_operatingsystems.Jos.Elf.{
  Bytes, elf_magic, word, half, e_magic, e_entry, e_phoff, e_phnum, Holds, half-Holds, word-Holds,
}
use duke_operatingsystems.Jos.Loader.Placing.{load_segment_lem, load_segment-outside, segment-Holds}
use duke_operatingsystems.Jos.Syscalls.{ustacktop}
use duke_operatingsystems.Common.{
  arith, eq→==, false, le→ltb, ltb, lt→ltb, none, refl, some, suc, true, u32, zero, ℕ, ◌*◌, ◌+◌,
  ◌-◌, ◌<◌, ◌∙◌, ◌≡◌, ◌≤◌, ◌⊎◌, ap,
}
use duke_operatingsystems.Jos.Loader.{
  Copying, Segment, segment, elf_prog_load, load_segment, load_loop, load_code, entry, Loaded,
  panicked, outside_region,
}
use duke_operatingsystems.Jos.Loader.Image.{IsCopying, table, placed_all, IsImage}

module _ (copying : Copying) (is : IsCopying copying) (image : Bytes) (binary size : ℕ)
    (low : binary + size ≤ 0x800000) where
  load_loop-ends :
      (fuel ph i : ℕ) (mem : Bytes)
      → ltb i (e_phnum mem binary) ≡ false
      → load_loop copying (suc fuel) binary ph i mem ≡ entry (e_entry mem binary) mem
  unfolding load_loop
  load_loop-ends fuel ph i mem h = rw h refl

  load_loop-turns :
      (fuel ph i : ℕ) (mem : Bytes) (seg : Segment)
      → ltb i (e_phnum mem binary) ≡ true
      → segment mem (u32 (ph + 32 * i)) ≡ seg
      → load_loop copying (suc fuel) binary ph i mem ≡ (elim (load_segment copying binary seg mem) [
        | none ↦ panicked outside_region
        | some mem' ↦ load_loop copying fuel binary ph (suc i) mem'
      ])
  unfolding load_loop
  load_loop-turns fuel ph i mem seg h e = rw h (ap goes_on e)
    where
      goes_on : Segment → Loaded
      goes_on x = elim (load_segment copying binary x mem) [
        | none ↦ panicked outside_region
        | some mem' ↦ load_loop copying fuel binary ph (suc i) mem'
      ]

  load_code-starts :
      (fuel : ℕ) (mem : Bytes)
      → e_magic mem binary ≡ elf_magic
      → load_code copying fuel binary mem
        ≡ load_loop copying fuel binary (u32 (binary + e_phoff mem binary)) 0 mem
  unfolding load_code
  load_code-starts fuel mem h = rw (eq→== (e_magic mem binary) elf_magic h) refl

  module _ (count : ℕ) (ok : IsImage image size count) where
    phnum_at : (mem : Bytes) → Holds image binary size mem → e_phnum mem binary ≡ half image 44
    phnum_at mem holds = half-Holds image mem binary size holds 44 (omega (arith, ok.header_in))

    header_at :
        (i : ℕ) (mem : Bytes)
        → i < half image 44
        → Holds image binary size mem
        → segment mem (u32 (binary + word image 28 + 32 * i))
          ≡ segment image (word image 28 + 32 * i)
    header_at i mem lt holds =
        let wrap : u32 (binary + word image 28 + 32 * i) ≡ binary + word image 28 + 32 * i =
          omega (arith, ok.table_in, lt, low) in
        ap (segment mem) wrap
        ∙ segment-Holds image mem binary size holds (binary + word image 28 + 32 * i)
            (word image 28 + 32 * i) (omega arith) (omega (arith, ok.table_in, lt))

    -- The loop over k headers that can be loaded, from number i on.
    load_loop_lem :
        (rest k i : ℕ) (mem : Bytes)
        → i + k ≤ count
        → Holds image binary size mem
        → (mem' : Bytes) × (load_loop copying (k + rest) binary (binary + word image 28) i mem
            ≡ load_loop copying rest binary (binary + word image 28) (i + k) mem')
          × ((a : ℕ) → mem' a ≡ placed_all image (table image (word image 28) i k) (mem a) a)
          × Holds image binary size mem'
    load_loop_lem rest zero i mem le holds =
        let none_of : 0 + rest ≡ rest = omega arith in
        let here : i + 0 ≡ i = omega arith in (mem, rw (none_of, here) refl, (λ a. refl), holds)
    load_loop_lem rest (suc k) i mem le holds =
        let lt : i < half image 44 = omega (arith, le, ok.count_in) in
        let seg = segment image (word image 28 + 32 * i) in
        let (mem1, run1, bytes1, holds1) =
          load_segment_lem copying is image binary size low seg mem holds
            (ok.placeable i (omega (arith, le))) in
        let (mem', run, bytes, holds') =
          load_loop_lem rest k (suc i) mem1 (omega (arith, le)) holds1 in
        let more_of : suc k + rest ≡ suc (k + rest) = omega arith in
        let there : i + suc k ≡ suc i + k = omega arith in
        let turn =
          load_loop-turns (k + rest) (binary + word image 28) i mem seg
            (rw (phnum_at mem holds) (lt→ltb i (half image 44) lt)) (header_at i mem lt holds) in
        (
          mem',
          rw (more_of, there) (turn ∙ rw run1 run),
          (λ a.
              bytes a
              ∙ ap (λ old. placed_all image (table image (word image 28) (suc i) k) old a)
                  (bytes1 a)),
          holds',
        )

    load_code-good :
        (rest k : ℕ) (mem : Bytes)
        → k ≤ count
        → Holds image binary size mem
        → (mem' : Bytes) × (load_code copying (k + rest) binary mem
            ≡ load_loop copying rest binary (binary + word image 28) k mem')
          × ((a : ℕ) → mem' a ≡ placed_all image (table image (word image 28) 0 k) (mem a) a)
          × Holds image binary size mem'
    load_code-good rest k mem le holds =
        let (mem', run, bytes, holds') = load_loop_lem rest k 0 mem (omega (arith, le)) holds in
        let magic = word-Holds image mem binary size holds 0 (omega (arith, ok.header_in)) in
        let phoff = word-Holds image mem binary size holds 28 (omega (arith, ok.header_in)) in
        let wrap : u32 (binary + word image 28) ≡ binary + word image 28 =
          omega (arith, ok.table_in, low) in
        let here : 0 + k ≡ k = omega arith in
        let starts =
          load_code-starts (k + rest) mem (ap (word mem) (omega arith) ∙ magic ∙ ok.magic) in
        (
          mem',
          starts
              ∙ ap (λ ph. load_loop copying (k + rest) binary ph 0 mem)
                  (ap (λ x. u32 (binary + x)) phoff ∙ wrap)
              ∙ run
              ∙ ap (λ n. load_loop copying rest binary (binary + word image 28) n mem') here,
          bytes,
          holds',
        )

    -- When the image lies below 8MB, its first headers can be loaded and the next is that of a segment to load
    -- that begins outside of the region, `load_code` with fuel for them panics.
    pub load_code-outside :
        (fuel : ℕ) (mem : Bytes)
        → count < half image 44
        → count < fuel
        → Holds image binary size mem
        → (segment image (word image 28 + 32 * count)).p_type ≡ elf_prog_load
        → ((segment image (word image 28 + 32 * count)).p_va < 0x800000)
          ⊎ (ustacktop < (segment image (word image 28 + 32 * count)).p_va)
        → load_code copying fuel binary mem ≡ panicked outside_region
    load_code-outside fuel mem lt enough holds loads bad =
        let seg = segment image (word image 28 + 32 * count) in
        let rest = fuel - suc count in
        let (mem', run, bytes, holds') = load_code-good (suc rest) count mem (omega arith) holds in
        let sum : fuel ≡ count + suc rest = omega (arith, enough) in
        let turn =
          load_loop-turns rest (binary + word image 28) count mem' seg
            (rw (phnum_at mem' holds') (lt→ltb count (half image 44) lt))
            (header_at count mem' lt holds') in
        ap (λ f. load_code copying f binary mem) sum
        ∙ run
        ∙ turn
        ∙ rw (load_segment-outside copying is image binary size low seg mem' loads bad) refl

  -- With fuel for the headers: `load_code` on memory that holds a good image below 8MB ends with the
  -- entry point, and every byte of memory is what the segments of the image say.
  pub load_code_lem :
      (fuel : ℕ) (mem : Bytes)
      → IsImage image size (half image 44)
      → half image 44 < fuel
      → Holds image binary size mem
      → (mem' : Bytes) × (load_code copying fuel binary mem ≡ entry (word image 24) mem')
        × ((a : ℕ)
            → mem' a ≡ placed_all image (table image (word image 28) 0 (half image 44)) (mem a) a)
  load_code_lem fuel mem ok enough holds =
      let n = half image 44 in
      let rest = fuel - suc n in
      let (mem', run, bytes, holds') = load_code-good n ok (suc rest) n mem (omega arith) holds in
      let sum : fuel ≡ n + suc rest = omega (arith, enough) in
      let ends =
        load_loop-ends rest (binary + word image 28) n mem'
          (rw (phnum_at n ok mem' holds') (le→ltb n n (omega arith))) in
      (
        mem',
        ap (λ f. load_code copying f binary mem) sum
            ∙ run
            ∙ ends
            ∙ ap (λ e. entry e mem')
                (word-Holds image mem' binary size holds' 24 (omega (arith, ok.header_in))),
        bytes,
      )
