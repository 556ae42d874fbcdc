-- ===== src/Jos/Syscalls/Access.antt =====
-- kern/syscall.c and kern/entrypgdir.c: the memory that `sys_cputs` lets the kernel print from.
use duke_operatingsystems.Jos.Printing.{cprintf_at}
use duke_operatingsystems.Common.{
  [], arith, false, ltb, none, refl, ℕ, ◌-◌, ◌<◌, ◌^◌, ◌∙◌, ◌∷◌, ◌≡◌, ◌≤◌,
}
use duke_operatingsystems.Jos.PageTable.{Placement, translate}
use duke_operatingsystems.Jos.PageTable.Identity.{IsPlaced, translate_identity}
use duke_operatingsystems.Jos.Syscalls.{sys_cputs}

-- With the tables of the entry page directory in their places: for every 32-bit address from 12MB on there is a 32-bit length with which
-- `sys_cputs` prints from that address, although the entry page directory does not map it.
pub sys_cputs-unmapped :
    (at : Placement) (s : ℕ)
    → IsPlaced at
    → 0xC00000 ≤ s
    → s < 2 ^ 32
    → (len : ℕ) × (len < 2 ^ 32) × (sys_cputs s len ≡ cprintf_at s ∷ []) × (translate at s ≡ none)
unfolding sys_cputs
sys_cputs-unmapped at s placed lo hi =
    let high : ltb s 0xC00000 ≡ false = ground (arith, lo) in
    (
      2 ^ 32 - s,
      omega (arith, lo, hi),
      ground (arith, lo, hi),
      translate_identity at s placed hi ∙ rw high refl,
    )
