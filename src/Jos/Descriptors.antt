-- ===== src/Jos/Descriptors.antt =====
-- kern/env.c: the global descriptor table, with the macros of inc/mmu.h, and the segments that a new
-- program's frame selects in it.
use duke_operatingsystems.Common.{
  arith, bit_or, if◌then◌else◌, refl, u32, ℕ, ◌%◌, ◌*◌, ◌+◌, ◌-◌, ◌/◌, ◌<◌, ◌==◌, ◌^◌, ◌≡◌,
}
use duke_operatingsystems.Jos.Traps.{Trapframe, initialize_new_trapframe, gd_kt, gd_ut, gd_ud}

-- struct Segdesc; each field has the bits that the source gives it.
pub record Segdesc : Type 0 where
  pub sd_lim_15_0 : ℕ
  pub sd_base_15_0 : ℕ
  pub sd_base_23_16 : ℕ
  pub sd_type : ℕ
  pub sd_s : ℕ
  pub sd_dpl : ℕ
  pub sd_p : ℕ
  pub sd_lim_19_16 : ℕ
  pub sd_avl : ℕ
  pub sd_rsv1 : ℕ
  pub sd_db : ℕ
  pub sd_g : ℕ
  pub sd_base_31_24 : ℕ

abbrev pub seg_null : Segdesc
seg_null = record {
  sd_lim_15_0 = 0;
  sd_base_15_0 = 0;
  sd_base_23_16 = 0;
  sd_type = 0;
  sd_s = 0;
  sd_dpl = 0;
  sd_p = 0;
  sd_lim_19_16 = 0;
  sd_avl = 0;
  sd_rsv1 = 0;
  sd_db = 0;
  sd_g = 0;
  sd_base_31_24 = 0;
}

-- SEG
unfoldable pub seg : (type_ base lim dpl : ℕ) → Segdesc
seg type_ base lim dpl = record {
  sd_lim_15_0 = lim / 2 ^ 12 % 2 ^ 16;
  sd_base_15_0 = base % 2 ^ 16;
  sd_base_23_16 = base / 2 ^ 16 % 2 ^ 8;
  sd_type = type_;
  sd_s = 1;
  sd_dpl = dpl;
  sd_p = 1;
  sd_lim_19_16 = u32 lim / 2 ^ 28;
  sd_avl = 0;
  sd_rsv1 = 0;
  sd_db = 1;
  sd_g = 1;
  sd_base_31_24 = u32 base / 2 ^ 24;
}

abbrev pub sta_x : ℕ
sta_x = 0x8

abbrev pub sta_w : ℕ
sta_w = 0x2

abbrev pub sta_r : ℕ
sta_r = 0x2

abbrev pub gd_kd : ℕ
gd_kd = 0x10

-- The table, by index; the index of the task state segment, and all others, hold null descriptors.
unfoldable pub gdt : ℕ → Segdesc
gdt i =
    if i == gd_kt / 8
    then seg (bit_or sta_x sta_r) 0 0xffffffff 0
    else (if i == gd_kd / 8
        then seg sta_w 0 0xffffffff 0
        else (if i == gd_ut / 8
            then seg (bit_or sta_x sta_r) 0 0xffffffff 3
            else (if i == gd_ud / 8 then seg sta_w 0 0xffffffff 3 else seg_null)))

-- What the processor reads from a descriptor.
abbrev pub base_of : Segdesc → ℕ
base_of d = d.sd_base_15_0 + 2 ^ 16 * d.sd_base_23_16 + 2 ^ 24 * d.sd_base_31_24

abbrev pub limit_of : Segdesc → ℕ
limit_of d =
    let limit = d.sd_lim_15_0 + 2 ^ 16 * d.sd_lim_19_16 in
    if d.sd_g == 1 then limit * 4096 + 4095 else limit

pub seg-decode :
    (type_ base lim dpl : ℕ)
    → base < 2 ^ 32
    → lim < 2 ^ 32
    → (base_of (seg type_ base lim dpl) ≡ base)
      × (limit_of (seg type_ base lim dpl) ≡ lim / 4096 * 4096 + 4095)
unfolding seg
seg-decode type_ base lim dpl b l = (omega (arith, b), omega (arith, l))

-- A present segment of the type over all of memory, which the selector asks for at the level of its
-- descriptor.
pub record IsSelected (selector type_ level : ℕ) : Type 0 where
  pub present : (gdt (selector / 8)).sd_p ≡ 1
  pub application : (gdt (selector / 8)).sd_s ≡ 1
  pub has_type : (gdt (selector / 8)).sd_type ≡ type_
  pub descriptor_level : (gdt (selector / 8)).sd_dpl ≡ level
  pub requested_level : selector % 4 ≡ level
  pub starts : base_of (gdt (selector / 8)) ≡ 0
  pub ends : limit_of (gdt (selector / 8)) ≡ 2 ^ 32 - 1

-- A frame in which the processor runs in user mode, with the entry point next.
pub record IsUserFrame (tf : Trapframe) (entry_point : ℕ) : Type 0 where
  pub code : IsSelected tf.tf_cs (bit_or sta_x sta_r) 3
  pub stack : IsSelected tf.tf_ss sta_w 3
  pub data_ : IsSelected tf.tf_ds sta_w 3
  pub extra : IsSelected tf.tf_es sta_w 3
  pub goes_on : tf.tf_eip ≡ entry_point

user_code : IsSelected (bit_or gd_ut 3) (bit_or sta_x sta_r) 3
unfolding gdt seg
user_code = record {
  present = refl;
  application = refl;
  has_type = refl;
  descriptor_level = refl;
  requested_level = refl;
  starts = refl;
  ends = refl;
}

user_data : IsSelected (bit_or gd_ud 3) sta_w 3
unfolding gdt seg
user_data = record {
  present = refl;
  application = refl;
  has_type = refl;
  descriptor_level = refl;
  requested_level = refl;
  starts = refl;
  ends = refl;
}

pub initialize_new_trapframe-IsUserFrame :
    (tf : Trapframe) (entry_point : ℕ)
    → IsUserFrame (initialize_new_trapframe tf entry_point) entry_point
unfolding initialize_new_trapframe
initialize_new_trapframe-IsUserFrame tf entry_point = record {
  code = user_code;
  stack = user_data;
  data_ = user_data;
  extra = user_data;
  goes_on = refl;
}
