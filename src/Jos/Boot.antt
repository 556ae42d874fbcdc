-- ===== src/Jos/Boot.antt =====
-- boot/main.c: the whole file. Memory is a function from physical addresses to bytes; the controller of the disk
-- behind the ports is the parameter of Jos/Ide, and a wait is a number of polls.
pub mod Readsect
pub mod Segments
pub mod Kernel
pub mod Entering
mod Tests
use duke_operatingsystems.Jos.Ide.{Controller, received}
use duke_operatingsystems.Jos.Elf.{
  Bytes, elf_magic, e_magic, e_entry, e_phoff, e_phnum, p_pa, p_memsz, p_offset,
}
use duke_operatingsystems.Common.{
  ==→eq, Bool, Bool-cases, List, Option, [], add64, and-true, ap, arith, bit_and, bit_or, bit_xor,
  eq→==, false, get_or, if_intro, if_ne, if_self, if◌then◌else◌, inl, inr, leb, length,
  length-append, le→ltb, ltb, ltb→lt, lt→leb, lt→ltb, map, ne→==, none, not, refl, same_or_not, set,
  sub64, suc, sym, true, true_below, true_below_at, u16, u32, u8, update, zero, ℕ, ◌%◌, ◌&&◌, ◌*◌,
  ◌++◌, ◌+◌, ◌-◌, ◌/◌, ◌<◌, ◌==◌, ◌^◌, ◌||◌, ◌↔◌, ◌∙◌, ◌∷◌, ◌≡◌, ◌≢◌, ◌≤◌, ◌⊎◌, some,
}

abbrev pub sectsize : ℕ
sectsize = 512

-- `putchar` writes a character and its colour; `row` and `col` are ints, and the offset of row 0 is
-- negative.
unfoldable pub putchar : ℕ → (row col : ℕ) → Bytes → Bytes
putchar val row col mem =
    let pos = 0xB8000 + 160 * row + 2 * col - 160 in update (update mem pos val) (pos + 1) 0x7

-- ELFHDR, the scratch space
abbrev pub elfhdr : ℕ
elfhdr = 0x10000

-- How the boot ends: a bad image returns to boot.S, a good one is entered.
pub data Booted : Type 0 where
  bad_elf : Bytes → Booted
  entered : ℕ → Bytes → Booted
  stuck : Booted

module _ {State : Type 0} (controller : Controller State) where
  -- The loop of `waitdisk`: `none` when the disk is not ready within so many polls.
  unfoldable pub waitdisk : (polls : ℕ) → State → Option State
  waitdisk zero s = none
  waitdisk (suc polls) s =
      let (r, s') = controller.inb 0x1F7 s in
      let rest = waitdisk polls s' in if not (bit_and r 0xC0 == 0x40) then rest else some s'

  -- The six registers of the command that reads one sector.
  unfoldable pub read_command : ℕ → State → State
  read_command offset s =
      let s1 = controller.outb 0x1F2 1 s in
      let s2 = controller.outb 0x1F3 (u8 offset) s1 in
      let s3 = controller.outb 0x1F4 (u8 (offset / 2 ^ 8)) s2 in
      let s4 = controller.outb 0x1F5 (u8 (offset / 2 ^ 16)) s3 in
      let s5 = controller.outb 0x1F6 (u8 (bit_or (offset / 2 ^ 24) 0xE0)) s4 in
      controller.outb 0x1F7 0x20 s5

  -- readsect(dst, offset): the bytes that insl reads go to the 512 bytes at `dst`.
  unfoldable pub readsect : (polls dst offset : ℕ) → Bytes → State → Option (Bytes × State)
  readsect polls dst offset mem s = elim (waitdisk polls s) [
    | none ↦ none
    | some s1 ↦ (elim (waitdisk polls (read_command offset s1)) [
      | none ↦ none
      | some s2 ↦
          let (bytes, s3) = controller.insl 0x1F0 s2 in some (received controller dst bytes mem, s3)
    ])
  ]

  -- The loop of `readseg`, on fuel: `none` means that the fuel or the polls ran out.
  unfoldable pub read_loop :
      (polls fuel pa end_pa offset : ℕ) → Bytes → State → Option (Bytes × State)
  read_loop polls zero pa end_pa offset mem s = none
  read_loop polls (suc fuel) pa end_pa offset mem s =
      if ltb pa end_pa
      then (elim (readsect polls pa offset mem s) [
        | none ↦ none
        | some r ↦ read_loop polls fuel (u32 (pa + sectsize)) end_pa (u32 (offset + 1)) r.0 r.1
      ])
      else some (mem, s)

  unfoldable pub readseg : (polls fuel pa count offset : ℕ) → Bytes → State → Option (Bytes × State)
  readseg polls fuel pa count offset mem s =
      read_loop polls fuel (pa - pa % sectsize) (u32 (pa + count)) (u32 (offset / sectsize + 1)) mem
        s

  -- The loop over the program headers from `ph` to `eph`, on fuel; each is read when its turn comes.
  unfoldable pub load_segments :
      (polls fuel turns ph eph : ℕ) → Bytes → State → Option (Bytes × State)
  load_segments polls fuel zero ph eph mem s = none
  load_segments polls fuel (suc turns) ph eph mem s =
      if ltb ph eph
      then (elim (readseg polls fuel (p_pa mem ph) (p_memsz mem ph) (p_offset mem ph) mem s) [
        | none ↦ none
        | some r ↦ load_segments polls fuel turns (u32 (ph + 32)) eph r.0 r.1
      ])
      else some (mem, s)

  -- The part of `bootmain` behind the test of the magic number.
  unfoldable pub boot_kernel : (polls fuel turns : ℕ) → Bytes → State → Booted
  boot_kernel polls fuel turns mem s =
      let mem3 = putchar b'3' 23 2 mem in
      let ph = u32 (elfhdr + e_phoff mem3 elfhdr) in
      elim (load_segments polls fuel turns ph (u32 (ph + 32 * e_phnum mem3 elfhdr)) mem3 s) [
        | none ↦ stuck
        | some r ↦ entered (e_entry (putchar b'4' 23 3 r.0) elfhdr) (putchar b'4' 23 3 r.0)
      ]

  unfoldable pub bootmain : (polls fuel turns : ℕ) → Bytes → State → Booted
  bootmain polls fuel turns mem s =
      elim (readseg polls fuel elfhdr (sectsize * 8) 0 (putchar b'1' 23 0 mem) s) [
        | none ↦ stuck
        | some r ↦
            let mem2 = putchar b'2' 23 1 r.0 in
            if not (e_magic mem2 elfhdr == elf_magic)
            then bad_elf mem2
            else boot_kernel polls fuel turns mem2 r.1
      ]
