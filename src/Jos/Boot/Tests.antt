-- ===== src/Jos/Boot/Tests.antt =====
-- The boot from a small disk.
use duke_operatingsystems.Common.{[], if◌then◌else◌, ℕ, ◌%◌, ◌*◌, ◌+◌, ◌-◌, ◌==◌, ◌^◌, ◌∷◌, get_or}
use duke_operatingsystems.Jos.Elf.{Bytes}
use duke_operatingsystems.Jos.Ide.{Controller}

-- A disk whose second sector begins a kernel: one segment of 1000 bytes from 4096 on, for 1MB, entered at 0x10000C.
abbrev boot_disk : Bytes
boot_disk a =
    get_or
      (0x7F ∷ 0x45 ∷ 0x4C ∷ 0x46 ∷ 1 ∷ 1 ∷ 1 ∷ 0 ∷ 0 ∷ 0 ∷ 0 ∷ 0 ∷ 0 ∷ 0 ∷ 0 ∷ 0 ∷ 2 ∷ 0 ∷ 3 ∷ 0 ∷ 1
        ∷ 0 ∷ 0 ∷ 0 ∷ 0x0C ∷ 0 ∷ 0x10 ∷ 0 ∷ 52 ∷ 0 ∷ 0 ∷ 0 ∷ 0 ∷ 0 ∷ 0 ∷ 0 ∷ 0 ∷ 0 ∷ 0 ∷ 0 ∷ 52 ∷ 0
        ∷ 32 ∷ 0 ∷ 1 ∷ 0 ∷ 0 ∷ 0 ∷ 0 ∷ 0 ∷ 0 ∷ 0 ∷ 1 ∷ 0 ∷ 0 ∷ 0 ∷ 0 ∷ 0x10 ∷ 0 ∷ 0 ∷ 0 ∷ 0 ∷ 0x10
        ∷ 0xF0 ∷ 0 ∷ 0 ∷ 0x10 ∷ 0 ∷ 0xE8 ∷ 3 ∷ 0 ∷ 0 ∷ 0xE8 ∷ 3 ∷ 0 ∷ 0 ∷ 5 ∷ 0 ∷ 0 ∷ 0 ∷ 0 ∷ 0x10
        ∷ 0 ∷ 0 ∷ [])
      (a - 512) 0x90

-- A controller that is always ready; its state is the number of the sector that comes next.
abbrev ready : Controller ℕ
ready = record {
  inb = λ port s. (0x40, s);
  outb = λ port v s.
      if port == 0x1F3
      then v
      else (if port == 0x1F4
          then s + 2 ^ 8 * v
          else (if port == 0x1F5
              then s + 2 ^ 16 * v
              else (if port == 0x1F6 then s + 2 ^ 24 * (v % 16) else s)));
  insl = λ port s. ((λ i. boot_disk (s * 512 + i)), s + 1);
  outsl = λ port b s. s;
}
