-- ===== src/Jos/PageTable.antt =====
-- kern/entrypgdir.c: the page directory and the three page tables that entry.S turns paging on with,
-- and the macros of inc/mmu.h by which the hardware's walk is described.
pub mod Identity
use duke_operatingsystems.Common.{
  Bool, Option, bit_or, if◌then◌else◌, none, some, ℕ, ◌%◌, ◌&&◌, ◌*◌, ◌+◌, ◌-◌, ◌/◌, ◌<◌, ◌==◌, ◌^◌,
}

abbrev pub pte_p : ℕ
pte_p = 0x001

abbrev pub pte_w : ℕ
pte_w = 0x002

abbrev pub pte_u : ℕ
pte_u = 0x004

abbrev pub nptentries : ℕ
nptentries = 1024

-- PDX, PTX, PGOFF and PTE_ADDR: a mask of low ones is a remainder.
abbrev pub pdx : ℕ → ℕ
pdx la = la / 2 ^ 22 % 1024

abbrev pub ptx : ℕ → ℕ
ptx la = la / 2 ^ 12 % 1024

abbrev pub pgoff : ℕ → ℕ
pgoff la = la % 4096

abbrev pub pte_addr : ℕ → ℕ
pte_addr pte = pte - pte % 4096

-- Row `i` of each table, for i < 1024.
unfoldable pub entry_pgtable0 : ℕ → ℕ
entry_pgtable0 i = bit_or (bit_or (i * 0x1000) pte_p) pte_w

unfoldable pub entry_pgtable1 : ℕ → ℕ
entry_pgtable1 i = bit_or (bit_or (0x400000 + i * 0x1000) pte_p) pte_w

unfoldable pub entry_pgtable2 : ℕ → ℕ
entry_pgtable2 i = bit_or (bit_or (bit_or (0x800000 + i * 0x1000) pte_u) pte_p) pte_w

-- The linker's addresses of the three tables.
pub record Placement : Type 0 where
  pub table0 : ℕ
  pub table1 : ℕ
  pub table2 : ℕ

-- The rows that the initialiser leaves out are 0.
unfoldable pub entry_pgdir : Placement → ℕ → ℕ
entry_pgdir at i =
    if i == 0
    then at.table0 + pte_p + pte_w
    else if i == 1
    then at.table1 + pte_p + pte_w
    else if i == 2
    then at.table2 + pte_u + pte_p + pte_w
    else 0

-- What memory holds at row `i` of the table at the address `a`.
unfoldable pub row_at : Placement → ℕ → ℕ → Option ℕ
row_at at a i =
    if a == at.table0
    then some (entry_pgtable0 i)
    else if a == at.table1
    then some (entry_pgtable1 i)
    else if a == at.table2
    then some (entry_pgtable2 i)
    else none

abbrev pub present : ℕ → Bool
present e = e % 2 == 1

abbrev pub writable : ℕ → Bool
writable e = e / 2 % 2 == 1

abbrev pub user : ℕ → Bool
user e = e / 4 % 2 == 1

-- What the walk finds for a linear address.
pub record Mapping : Type 0 where
  pub physical : ℕ
  pub can_write : Bool
  pub can_user : Bool

unfoldable pub finish_walk : ℕ → ℕ → ℕ → Option Mapping
finish_walk pde pte la =
    if present pte
    then some (record {
      physical = pte_addr pte + pgoff la;
      can_write = writable pde && writable pte;
      can_user = user pde && user pte;
    })
    else none

-- `none` is a page fault.
unfoldable pub translate : Placement → ℕ → Option Mapping
translate at la =
    let pde = entry_pgdir at (pdx la) in
    if present pde
    then elim (row_at at (pte_addr pde) (ptx la)) [
      | none ↦ none
      | some pte ↦ finish_walk pde pte la
    ]
    else none
