-- ===== src/Jos/Boot/Kernel.antt =====
-- boot/main.c: `bootmain` on a disk that holds a kernel.
use mathlib.Core.Path.{subst}
use duke_operatingsystems.Common.{
  Bool-cases, arith, if◌then◌else◌, inl, inr, le→ltb, lt→ltb, refl, some, suc, u32, zero, ℕ, ◌%◌,
  ◌*◌, ◌+◌, ◌-◌, ◌/◌, ◌<◌, ◌^◌, ◌∙◌, ◌≡◌, ◌≤◌, ◌⊎◌, ap,
}
use duke_operatingsystems.Jos.Elf.{
  Bytes, elf_magic, word, half, p_pa, p_memsz, p_offset, within, Holds, word-Holds,
}
use duke_operatingsystems.Jos.Ide.{Controller}
use duke_operatingsystems.Jos.Ide.Protocol.{IsDisk}
use duke_operatingsystems.Jos.Boot.{readseg, load_segments, elfhdr}
use duke_operatingsystems.Jos.Boot.Segments.{readseg_lem, IsLoaded}

-- The image that the disk holds from sector 1 on.
abbrev pub kernel_image : Bytes → Bytes
kernel_image disk a = disk (512 + a)

-- The sectors that a segment reaches into.
abbrev pub sectors : (pa count : ℕ) → ℕ
sectors pa count = (pa % 512 + count + 511) / 512

abbrev pub first_byte : Bytes → ℕ → ℕ
first_byte image ph = p_pa image ph - p_pa image ph % 512

abbrev pub sectors_of : Bytes → ℕ → ℕ
sectors_of image ph = sectors (p_pa image ph) (p_memsz image ph)

-- The byte at an address once the segment of the header `ph` is read: whole sectors of the disk.
abbrev pub part : Bytes → (ph old a : ℕ) → ℕ
part image ph old a =
    if within a (first_byte image ph) (512 * sectors_of image ph)
    then image (p_offset image ph / 512 * 512 + (a - first_byte image ph))
    else old

-- The same for k headers.
abbrev pub parts : Bytes → (ph k old a : ℕ) → ℕ
parts image ph zero old a = old
parts image ph (suc k) old a = parts image (ph + 32) k (part image ph old a) a

-- A segment that can be read, with fuel for its sectors, and that keeps clear of the header's page.
pub record IsPart (image : Bytes) (fuel ph : ℕ) : Type 0 where
  pub enough : sectors_of image ph < fuel
  pub ends : first_byte image ph + 512 * sectors_of image ph < 2 ^ 32
  pub on_disk : p_offset image ph / 512 + 1 + sectors_of image ph < 2 ^ 28
  pub clear :
      (elfhdr + 4096 ≤ first_byte image ph)
      ⊎ (first_byte image ph + 512 * sectors_of image ph ≤ elfhdr)

-- A kernel that `bootmain` can load.
pub record IsKernel (image : Bytes) (fuel : ℕ) : Type 0 where
  pub magic : word image 0 ≡ elf_magic
  pub table_in : word image 28 + 32 * half image 44 ≤ 4096
  pub loads : (i : ℕ) → i < half image 44 → IsPart image fuel (word image 28 + 32 * i)

sectors_bounds :
    (pa count : ℕ)
    → (pa + count ≤ pa - pa % 512 + 512 * sectors pa count)
      × (pa - pa % 512 + 512 * sectors pa count < pa + count + 512)
sectors_bounds pa count = (omega arith, omega arith)

-- The bytes of a segment, in terms of the image.
pub read_bytes :
    (disk : Bytes) (offset start n a : ℕ) (mem mem' : Bytes)
    → IsLoaded disk ((offset / 512 + 1) * 512) start (start + 512 * n) mem mem'
    → mem' a ≡ (
        if within a start (512 * n)
        then kernel_image disk (offset / 512 * 512 + (a - start))
        else mem a)
read_bytes disk offset start n a mem mem' loaded = elim (Bool-cases (within a start (512 * n))) [
  | inl t ↦ rw t (loaded.inside a (ground (arith, t)) (ground (arith, t)) ∙ ap disk (omega arith))
  | inr f ↦ rw f (loaded.outside a (ground (arith, f)))
]

apart_lem :
    (i start n : ℕ) (x y : ℕ)
    → i < 4096
    → (elfhdr + 4096 ≤ start) ⊎ (start + n ≤ elfhdr)
    → (if within (elfhdr + i) start n then x else y) ≡ y
apart_lem i start n x y lt clear = ground (arith, lt, clear)

module _ {State : Type 0} (controller : Controller State) (disk : Bytes) (polls : ℕ)
    (is_disk : IsDisk controller disk polls) (fuel : ℕ) where
  abbrev image : Bytes
  image = kernel_image disk

  read_part :
      (ph : ℕ) (mem : Bytes) (s : State)
      → IsPart image fuel ph
      → Holds image elfhdr 4096 mem
      → (mem' : Bytes) × (s' : State) × (readseg controller polls fuel
            (p_pa image ph)
            (p_memsz image ph)
            (p_offset image ph)
            mem
            s
          ≡ some (mem', s'))
        × ((a : ℕ) → mem' a ≡ part image ph (mem a) a)
        × Holds image elfhdr 4096 mem'
  read_part ph mem s is holds =
      let n = sectors_of image ph in
      let start = first_byte image ph in
      let bounds = sectors_bounds (p_pa image ph) (p_memsz image ph) in
      let (mem', s', run, loaded) =
        readseg_lem controller disk polls is_disk n fuel (p_pa image ph) (p_memsz image ph)
          (p_offset image ph) mem s is.enough bounds.0 bounds.1 is.ends is.on_disk in
      let bytes : (a : ℕ) → mem' a ≡ part image ph (mem a) a =
        λ a. read_bytes disk (p_offset image ph) start n a mem mem' loaded in
      (
        mem',
        s',
        run,
        bytes,
        λ i lt.
            bytes (elfhdr + i)
            ∙ apart_lem i start (512 * n)
                (image (p_offset image ph / 512 * 512 + (elfhdr + i - start))) (mem (elfhdr + i)) lt
                is.clear
            ∙ holds i lt,
      )

  -- One turn of the loop.
  load_turn :
      (turns x : ℕ) (eph : ℕ) (mem mem' : Bytes) (s s' : State)
      → x + 32 ≤ 4096
      → elfhdr + x < eph
      → Holds image elfhdr 4096 mem
      → readseg controller polls fuel (p_pa image x) (p_memsz image x) (p_offset image x) mem s
        ≡ some (mem', s')
      → load_segments controller polls fuel (suc turns) (elfhdr + x) eph mem s
        ≡ load_segments controller polls fuel turns (elfhdr + (x + 32)) eph mem' s'
  unfolding load_segments
  load_turn turns x eph mem mem' s s' le lt holds run =
      let field : (d : ℕ) → d + 4 ≤ 32 → word mem (elfhdr + x + d) ≡ word image (x + d) = λ d small.
        ap (word mem) (omega arith)
        ∙ word-Holds image mem elfhdr 4096 holds (x + d) (omega (arith, le, small)) in
      let wrap : u32 (elfhdr + x + 32) ≡ elfhdr + (x + 32) = omega (arith, le) in
      let same : readseg controller polls fuel (p_pa mem (elfhdr + x)) (p_memsz mem (elfhdr + x))
            (p_offset mem (elfhdr + x)) mem s
          ≡ some (mem', s') =
        ap
          (λ a.
            readseg controller polls fuel a (p_memsz mem (elfhdr + x)) (p_offset mem (elfhdr + x))
              mem s)
          (field 12 (omega arith))
        ∙ ap (λ c. readseg controller polls fuel (p_pa image x) c (p_offset mem (elfhdr + x)) mem s)
            (field 20 (omega arith))
        ∙ ap (λ o. readseg controller polls fuel (p_pa image x) (p_memsz image x) o mem s)
            (field 4 (omega arith))
        ∙ run in
      rw (load_segments, lt→ltb (elfhdr + x) eph lt, same)
        (ap (λ p. load_segments controller polls fuel turns p eph mem' s') wrap)

  pub load_segments_lem :
      (k turns x : ℕ) (mem : Bytes) (s : State)
      → k < turns
      → x + 32 * k ≤ 4096
      → ((i : ℕ) → i < k → IsPart image fuel (x + 32 * i))
      → Holds image elfhdr 4096 mem
      → (mem' : Bytes) × (s' : State) × (load_segments controller polls fuel turns
            (elfhdr + x)
            (elfhdr + x + 32 * k)
            mem
            s
          ≡ some (mem', s'))
        × ((a : ℕ) → mem' a ≡ parts image x k (mem a) a)
        × Holds image elfhdr 4096 mem'
  unfolding load_segments
  load_segments_lem k zero x mem s enough le is holds = absurd (omega (arith, enough))
  load_segments_lem zero (suc turns) x mem s enough le is holds = (
    mem,
    s,
    rw (le→ltb (elfhdr + x) (elfhdr + x + 32 * 0) (omega arith)) refl,
    (λ a. refl),
    holds,
  )
  load_segments_lem (suc k) (suc turns) x mem s enough le is holds =
      let (mem1, s1, run, bytes, holds1) =
        read_part x mem s (subst (IsPart image fuel) (omega arith) (is 0 (omega arith))) holds in
      let (mem2, s2, run2, bytes2, holds2) =
        load_segments_lem k turns (x + 32) mem1 s1 (omega (arith, enough)) (omega (arith, le))
          (λ i lt. subst (IsPart image fuel) (omega arith) (is (suc i) (omega (arith, lt))))
          holds1 in
      (
        mem2,
        s2,
        load_turn turns x (elfhdr + x + 32 * suc k) mem mem1 s s1 (omega (arith, le)) (omega arith)
              holds run
            ∙ ap (λ e. load_segments controller polls fuel turns (elfhdr + (x + 32)) e mem1 s1)
                (omega arith)
            ∙ run2,
        (λ a. bytes2 a ∙ ap (λ o. parts image (x + 32) k o a) (bytes a)),
        holds2,
      )
