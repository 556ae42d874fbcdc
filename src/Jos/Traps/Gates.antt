-- ===== src/Jos/Traps/Gates.antt =====
-- kern/trap.c: the interrupt descriptor table, SETGATE of inc/mmu.h, and `trap_init`.
pub mod Vectors
use duke_operatingsystems.Common.{
  Bool, false, if◌then◌else◌, suc, true, u16, u32, update, zero, ℕ, ◌%◌, ◌-◌, ◌/◌, ◌^◌,
}

-- `struct Gatedesc`, a field for each bit field
pub record Gatedesc : Type 0 where
  pub gd_off_15_0 : ℕ
  pub gd_sel : ℕ
  pub gd_args : ℕ
  pub gd_rsv1 : ℕ
  pub gd_type : ℕ
  pub gd_s : ℕ
  pub gd_dpl : ℕ
  pub gd_p : ℕ
  pub gd_off_31_16 : ℕ

abbrev pub sts_ig32 : ℕ
sts_ig32 = 0xE

abbrev pub sts_tg32 : ℕ
sts_tg32 = 0xF

abbrev pub gate : Bool → (sel off dpl : ℕ) → Gatedesc
gate istrap sel off dpl = record {
  gd_off_15_0 = u32 off % 2 ^ 16;
  gd_sel = u16 sel;
  gd_args = 0;
  gd_rsv1 = 0;
  gd_type = if istrap then sts_tg32 else sts_ig32;
  gd_s = 0;
  gd_dpl = dpl % 4;
  gd_p = 1;
  gd_off_31_16 = u32 off / 2 ^ 16;
}

abbrev pub Idt : Type 0
Idt = ℕ → Gatedesc

abbrev pub setgate : ℕ → Bool → (sel off dpl : ℕ) → Idt → Idt
setgate i istrap sel off dpl idt = update idt i (gate istrap sel off dpl)

-- The addresses of the assembly entry points: `th k` of `th0` and so on, and of `unktraphandler`.
pub record Handlers : Type 0 where
  pub th : ℕ → ℕ
  pub unktraphandler : ℕ

-- The loop over the vectors below `n`.
unfoldable pub fill_idt : Handlers → ℕ → Idt → Idt
fill_idt hs zero idt = idt
fill_idt hs (suc n) idt = setgate n false 0x08 hs.unktraphandler 0 (fill_idt hs n idt)

-- One line SETGATE(idt[k], 0, GD_KT, thk, 0).
abbrev pub set_handler : Handlers → ℕ → Idt → Idt
set_handler hs k = setgate k false 0x08 (hs.th k) 0

unfoldable pub trap_init : Handlers → Idt → Idt
trap_init hs idt =
    let a = fill_idt hs 256 idt in
    let b = set_handler hs 2 (set_handler hs 1 (set_handler hs 0 a)) in
    let c = setgate 3 true 0x08 (hs.th 3) 3 b in
    let d = set_handler hs 7 (set_handler hs 6 (set_handler hs 5 (set_handler hs 4 c))) in
    let e = set_handler hs 11 (set_handler hs 10 (set_handler hs 8 d)) in
    let f = set_handler hs 14 (set_handler hs 13 (set_handler hs 12 e)) in
    let g = set_handler hs 18 (set_handler hs 17 (set_handler hs 16 f)) in
    setgate 48 false 0x08 (hs.th 48) 3 (set_handler hs 19 g)
