-- ===== src/Jos/PageTable/Identity.antt =====
-- What the entry page tables map.
use duke_operatingsystems.Common.{
  ==→eq, true_below, true_below_at, arith, if◌then◌else◌, leb, ltb, none, refl, some, true, ℕ, ◌%◌,
  ◌*◌, ◌+◌, ◌<◌, ◌==◌, ◌^◌, ◌≡◌, ◌≢◌,
}
use duke_operatingsystems.Jos.PageTable.{
  Placement, entry_pgtable1, entry_pgtable2, entry_pgtable0, translate, entry_pgdir, row_at,
  finish_walk, ptx,
}

-- The three tables stand at different page boundaries.
pub record IsPlaced (at : Placement) : Type 0 where
  pub aligned0 : at.table0 % 4096 ≡ 0
  pub aligned1 : at.table1 % 4096 ≡ 0
  pub aligned2 : at.table2 % 4096 ≡ 0
  pub apart01 : at.table0 ≢ at.table1
  pub apart02 : at.table0 ≢ at.table2
  pub apart12 : at.table1 ≢ at.table2

table0_rows : true_below (λ i. entry_pgtable0 i == i * 4096 + 3) 1024 ≡ true
unfolding true_below entry_pgtable0
table0_rows = refl

table1_rows : true_below (λ i. entry_pgtable1 i == 0x400000 + i * 4096 + 3) 1024 ≡ true
unfolding true_below entry_pgtable1
table1_rows = refl

table2_rows : true_below (λ i. entry_pgtable2 i == 0x800000 + i * 4096 + 7) 1024 ≡ true
unfolding true_below entry_pgtable2
table2_rows = refl

row0 : (i : ℕ) → i < 1024 → entry_pgtable0 i ≡ i * 4096 + 3
row0 i lt = ==→eq _ _ (true_below_at _ i 1024 lt table0_rows)

row1 : (i : ℕ) → i < 1024 → entry_pgtable1 i ≡ 0x400000 + i * 4096 + 3
row1 i lt = ==→eq _ _ (true_below_at _ i 1024 lt table1_rows)

row2 : (i : ℕ) → i < 1024 → entry_pgtable2 i ≡ 0x800000 + i * 4096 + 7
row2 i lt = ==→eq _ _ (true_below_at _ i 1024 lt table2_rows)

-- With the entry page directory every address below 12MB is mapped to itself and writable, and user
-- code reaches it just when it is at or above 8MB. Every 32-bit address from 12MB on faults.
pub translate_identity :
    (at : Placement) (la : ℕ)
    → IsPlaced at
    → la < 2 ^ 32
    → translate at la ≡ (
        if ltb la 0xC00000
        then some (record { physical = la; can_write = true; can_user = leb 0x800000 la })
        else none)
unfolding translate entry_pgdir row_at finish_walk
translate_identity at la p lt = ground (arith, row0 (ptx la), row1 (ptx la), row2 (ptx la))
