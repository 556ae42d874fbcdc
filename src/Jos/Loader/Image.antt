-- ===== src/Jos/Loader/Image.antt =====
-- What an ELF image says about memory, and what the loader relies on.
use duke_operatingsystems.Jos.Elf.{Bytes, elf_magic, word, half, within}
use duke_operatingsystems.Common.{
  List, [], if◌then◌else◌, suc, u8, zero, ℕ, ◌*◌, ◌+◌, ◌-◌, ◌<◌, ◌==◌, ◌^◌, ◌∷◌, ◌≡◌, ◌≤◌, ◌⊎◌,
}
use duke_operatingsystems.Jos.Syscalls.{ustacktop}
use duke_operatingsystems.Jos.Loader.{Copying, Segment, segment, elf_prog_load}

-- memset and memcpy, as their documentation has it.
pub record IsCopying (copying : Copying) : Type 0 where
  pub memset_at :
      (dst c len : ℕ) (mem : Bytes) (a : ℕ)
      → dst + len ≤ 2 ^ 32
      → copying.memset dst c len mem a ≡ (if within a dst len then u8 c else mem a)
  pub memcpy_at :
      (dst src len : ℕ) (mem : Bytes) (a : ℕ)
      → dst + len ≤ 2 ^ 32
      → (src + len ≤ dst) ⊎ (dst + len ≤ src)
      → copying.memcpy dst src len mem a
        ≡ (if within a dst len then mem (src + (a - dst)) else mem a)

-- k headers from number i on
abbrev pub table : (image : Bytes) (phoff i k : ℕ) → List Segment
table image phoff i zero = []
table image phoff i (suc k) = segment image (phoff + 32 * i) ∷ table image phoff (suc i) k

-- The byte at an address once a segment is in place: from the image, zero behind that, and the old one
-- elsewhere.
abbrev pub placed : Bytes → Segment → (old a : ℕ) → ℕ
placed image seg old a =
    if seg.p_type == elf_prog_load
    then (if within a seg.p_va seg.p_filesz
        then image (seg.p_offset + (a - seg.p_va))
        else (if within a seg.p_va seg.p_memsz then 0 else old))
    else old

abbrev pub placed_all : Bytes → List Segment → (old a : ℕ) → ℕ
placed_all image [] old a = old
placed_all image (seg ∷ segs) old a = placed_all image segs (placed image seg old a) a

-- A segment that is loaded lies in the image, and in memory from 8MB on.
pub record IsPlaceable (size : ℕ) (seg : Segment) : Type 0 where
  pub in_image : seg.p_offset + seg.p_filesz ≤ size
  pub fits_in : seg.p_filesz ≤ seg.p_memsz
  pub from_low : 0x800000 ≤ seg.p_va
  pub to_high : seg.p_va ≤ ustacktop
  pub ends_in : seg.p_va + seg.p_memsz ≤ 2 ^ 32

-- An image with an ELF header and its table, whose first headers can be loaded.
pub record IsImage (image : Bytes) (size count : ℕ) : Type 0 where
  pub magic : word image 0 ≡ elf_magic
  pub header_in : 52 ≤ size
  pub count_in : count ≤ half image 44
  pub table_in : word image 28 + 32 * half image 44 ≤ size
  pub placeable :
      (i : ℕ)
      → i < count
      → (segment image (word image 28 + 32 * i)).p_type ≡ elf_prog_load
      → IsPlaceable size (segment image (word image 28 + 32 * i))
