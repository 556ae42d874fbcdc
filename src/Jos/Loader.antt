-- ===== src/Jos/Loader.antt =====
-- kern/init.c: `load_code` and the start of a program in `i386_init`, with the layout of inc/elf.h. Memory
-- is a function from virtual addresses to bytes, and memset and memcpy are parameters.
pub mod Image
pub mod Placing
pub mod Loading
pub mod Starting
pub mod Init
mod Tests
use duke_operatingsystems.Common.{
  Option, if◌then◌else◌, ltb, none, not, some, suc, u32, zero, ℕ, ◌*◌, ◌+◌, ◌==◌, ◌||◌,
}
use duke_operatingsystems.Jos.Elf.{
  Bytes, elf_magic, word, e_magic, e_entry, e_phoff, e_phnum, Bytes, Bytes, Bytes, Bytes, Bytes,
  Bytes, Bytes, Bytes, Bytes, Bytes, Bytes, Bytes, Bytes, Bytes, Bytes, Bytes, Bytes, Bytes, Bytes,
  Bytes, Bytes, Bytes, Bytes, Bytes, Bytes, Bytes, Bytes, Bytes, Bytes, Bytes, Bytes, Bytes, Bytes,
  Bytes, Bytes, Bytes, Bytes, Bytes, Bytes, Bytes,
}
use duke_operatingsystems.Jos.Ide.{Controller, ide_read}
use duke_operatingsystems.Jos.Syscalls.{ustacktop}

-- struct Proghdr
pub record Segment : Type 0 where
  pub p_type : ℕ
  pub p_offset : ℕ
  pub p_va : ℕ
  pub p_filesz : ℕ
  pub p_memsz : ℕ

-- The program header at an address.
abbrev pub segment : Bytes → ℕ → Segment
segment mem ph = record {
  p_type = word mem ph;
  p_offset = word mem (ph + 4);
  p_va = word mem (ph + 8);
  p_filesz = word mem (ph + 16);
  p_memsz = word mem (ph + 20);
}

abbrev pub elf_prog_load : ℕ
elf_prog_load = 1

pub record Copying : Type 0 where
  pub memset : (dst c len : ℕ) → Bytes → Bytes
  pub memcpy : (dst src len : ℕ) → Bytes → Bytes

pub data Panic : Type 0 where
  not_elf : Panic
  outside_region : Panic

pub data Loaded : Type 0 where
  stuck : Loaded
  panicked : Panic → Loaded
  entry : ℕ → Bytes → Loaded

module _ (copying : Copying) where
  -- The body of the loop: `none` is the panic.
  unfoldable pub load_segment : (binary : ℕ) → Segment → Bytes → Option Bytes
  load_segment binary seg mem =
      if not (seg.p_type == elf_prog_load)
      then some mem
      else (if ltb seg.p_va 0x800000 || ltb ustacktop seg.p_va
          then none
          else some (
              copying.memcpy seg.p_va (u32 (binary + seg.p_offset)) seg.p_filesz
                (copying.memset seg.p_va 0 seg.p_memsz mem)))

  -- The loop reads the headers anew in each turn.
  unfoldable pub load_loop : (fuel binary ph i : ℕ) → Bytes → Loaded
  load_loop zero binary ph i mem = stuck
  load_loop (suc fuel) binary ph i mem =
      if ltb i (e_phnum mem binary)
      then (elim (load_segment binary (segment mem (u32 (ph + 32 * i))) mem) [
        | none ↦ panicked outside_region
        | some mem' ↦ load_loop fuel binary ph (suc i) mem'
      ])
      else entry (e_entry mem binary) mem

  unfoldable pub load_code : (fuel binary : ℕ) → Bytes → Loaded
  load_code fuel binary mem =
      if not (e_magic mem binary == elf_magic)
      then panicked not_elf
      else load_loop fuel binary (u32 (binary + e_phoff mem binary)) 0 mem
