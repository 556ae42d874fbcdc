-- ===== src/Jos/Loader/Tests.antt =====
-- A disk with a small program on it, and one with a bad sector.
use duke_operatingsystems.Jos.Elf.{Bytes, within, Holds}
use duke_operatingsystems.Common.{
  List, [], ap, arith, false, if◌then◌else◌, suc, u8, zero, ℕ, ◌%◌, ◌*◌, ◌+◌, ◌-◌, ◌<◌, ◌==◌, ◌^◌,
  ◌∷◌, ◌≡◌, inl, refl,
}
use duke_operatingsystems.Jos.Printf.{Formatter, each}
use duke_operatingsystems.Jos.Console.Devices.{Ports}
use duke_operatingsystems.Jos.Console.Setup.{Video, IsAdapter, mono_base}
use duke_operatingsystems.Jos.Traps.Gates.{Handlers, Idt, gate}
use duke_operatingsystems.Jos.Boot.Segments.{IsLoaded}
use duke_operatingsystems.Jos.Traps.{Trapframe, PushRegs}
use duke_operatingsystems.Jos.Ide.{Controller, ide_read, disk_error, returned, ide_command}
use duke_operatingsystems.Jos.Ide.Protocol.{Delivers, Fails}
use duke_operatingsystems.Jos.Ide.Sectors.{ide_read-failed}
use duke_operatingsystems.Jos.Loader.{Copying, Loaded, load_code, panicked, outside_region, segment}
use duke_operatingsystems.Jos.Loader.Image.{IsCopying, IsImage, IsPlaceable, table, placed_all}
use duke_operatingsystems.Jos.Loader.Loading.{load_code_lem, load_code-outside}
use duke_operatingsystems.Jos.Loader.Starting.{max_rw}

abbrev look_up : List (ℕ × ℕ) → ℕ → ℕ
look_up [] i = 0
look_up ((k, v) ∷ l) i = if i == k then v else look_up l i

-- One header: a segment with 4 bytes of 16 for the given address.
abbrev image_at : ℕ → Bytes
image_at high = look_up (
    (0, 0x7F)
    ∷ (1, b'E')
    ∷ (2, b'L')
    ∷ (3, b'F')
    ∷ (26, 0x80)
    ∷ (28, 52)
    ∷ (44, 1)
    ∷ (52, 1)
    ∷ (56, 96)
    ∷ (62, high)
    ∷ (68, 4)
    ∷ (72, 16)
    ∷ (96, 0xF4)
    ∷ (99, 0xEB)
    ∷ [])

abbrev disk : Bytes
disk a = image_at 0x80 (a - 2000 * 512)

-- A controller that is always ready and counts the sectors; the status tells of a bad one.
abbrev reader : (ℕ → ℕ) → Bytes → Controller ℕ
reader status bytes = record {
  inb = λ port s. (status s, s);
  outb = λ port v s.
      if port == 0x1F3
      then v
      else (if port == 0x1F4
          then s + 2 ^ 8 * v
          else (if port == 0x1F5
              then s + 2 ^ 16 * v
              else (if port == 0x1F6 then s + 2 ^ 24 * (v % 16) else s)));
  insl = λ port s. ((λ i. bytes (s * 512 + i)), s + 1);
  outsl = λ port b s. s;
}

abbrev sound : Controller ℕ
sound = reader (λ s. 0x40) disk

-- Sector 7 cannot be read.
abbrev faulty : Controller ℕ
faulty = reader (λ s. if s == 7 then 0x41 else 0x40) disk

faulty-Delivers : Delivers faulty disk 1 (Fails faulty 1) 5 2 (ide_command faulty 5 3 0x20 0)
unfolding ide_command
faulty-Delivers = (
  0x40,
  5,
  inl (refl, refl, refl),
  refl,
  (λ i lt. refl),
  (0x40, 6, inl (refl, refl, refl), refl, (λ i lt. refl), (0x41, 7, inl (refl, refl, refl), refl)),
)

ide_read-failed_example :
    (mem' : Bytes) × (s' : ℕ) × (ide_read faulty 1 5 0x200000 (2 + suc 0) (λ a. 0) 0
      ≡ returned disk_error mem' s')
    × IsLoaded disk (5 * 512) 0x200000 (0x200000 + 512 * 2) (λ a. 0) mem'
ide_read-failed_example =
    ide_read-failed faulty disk 1 5 0x200000 2 0 0x40 (λ a. 0) 0 0 (inl (refl, refl, refl))
      faulty-Delivers (omega arith) (omega arith)

abbrev copying : Copying
copying = record {
  memset = λ dst c len mem a. if within a dst len then u8 c else mem a;
  memcpy = λ dst src len mem a. if within a dst len then mem (src + (a - dst)) else mem a;
}

copying-IsCopying : IsCopying copying
copying-IsCopying = record {
  memset_at = λ dst c len mem a _. refl;
  memcpy_at = λ dst src len mem a _ _. refl;
}

program-IsPlaceable :
    (i : ℕ) → i < 1 → IsPlaceable (512 * max_rw) (segment (image_at 0x80) (52 + 32 * i))
program-IsPlaceable zero lt = record {
  in_image = omega arith;
  fits_in = omega arith;
  from_low = omega arith;
  to_high = omega arith;
  ends_in = omega arith;
}
program-IsPlaceable (suc i) lt = absurd (omega (arith, lt))

program-IsImage : IsImage (image_at 0x80) (512 * max_rw) 1
program-IsImage = record {
  magic = refl;
  header_in = omega arith;
  count_in = omega arith;
  table_in = omega arith;
  placeable = λ i lt _. program-IsPlaceable i lt;
}

abbrev memory : ℕ → Bytes
memory high a = image_at high (a - 0x100000)

memory-Holds : (high : ℕ) → Holds (image_at high) 0x100000 (512 * max_rw) (memory high)
memory-Holds high i lt = ap (image_at high) {x = 0x100000 + i - 0x100000} {y = i} (omega arith)

load_code_lem_example :
    (mem' : Bytes) × (load_code copying 2 0x100000 (memory 0x80) ≡ Loaded.entry 0x800000 mem')
    × ((a : ℕ)
        → mem' a ≡ placed_all (image_at 0x80) (table (image_at 0x80) 52 0 1) (memory 0x80 a) a)
load_code_lem_example =
    load_code_lem copying copying-IsCopying (image_at 0x80) 0x100000 (512 * max_rw) (omega arith) 2
      (memory 0x80) program-IsImage (omega arith) (memory-Holds 0x80)

low-IsImage : IsImage (image_at 0x70) (512 * max_rw) 0
low-IsImage = record {
  magic = refl;
  header_in = omega arith;
  count_in = omega arith;
  table_in = omega arith;
  placeable = λ i lt _. absurd (omega (arith, lt));
}

load_code-outside_example : load_code copying 2 0x100000 (memory 0x70) ≡ panicked outside_region
load_code-outside_example =
    load_code-outside copying copying-IsCopying (image_at 0x70) 0x100000 (512 * max_rw)
      (omega arith) 0 low-IsImage 2 (memory 0x70) (omega arith) (omega arith) (memory-Holds 0x70)
      refl (inl (omega arith))

abbrev zeros : PushRegs
zeros = record {
  reg_edi = 0;
  reg_esi = 0;
  reg_ebp = 0;
  reg_oesp = 0;
  reg_ebx = 0;
  reg_edx = 0;
  reg_ecx = 0;
  reg_eax = 0;
}

abbrev blank : Trapframe
blank = record {
  tf_regs = zeros;
  tf_es = 0;
  tf_ds = 0;
  tf_trapno = 0;
  tf_err = 0;
  tf_eip = 0;
  tf_cs = 0;
  tf_eflags = 0;
  tf_esp = 0;
  tf_ss = 0;
}

-- A monochrome adapter with the cursor in its first cell, and entry points of traps.
abbrev mono_ports : Ports ℕ
mono_ports = record { inb = λ port d. (0, d); outb = λ port v d. d; cprintf = λ fmt d. d }

abbrev mono_video : Video ℕ
mono_video = record { load = λ a d. (0, d); store = λ a v d. d }

abbrev mono_adapter : IsAdapter mono_ports mono_video false mono_base
mono_adapter = record {
  cell = λ d. 0;
  cursor = λ d. 0;
  cell-lt = λ d. omega arith;
  cursor-lt = λ d. omega arith;
  kept = λ e d. (refl, refl);
  stored = λ e v d lt. absurd (ground (arith, e));
  deaf = λ e d h. absurd (omega (arith, h));
  load-cursor = λ d. refl;
  store-cursor = λ v d. refl;
  high = λ d. refl;
  low = λ d. refl;
  selected = λ i d. (refl, refl);
}

abbrev entries : Handlers
entries = record { th = λ k. (0x100000 + 16 * k) % 2 ^ 32; unktraphandler = 0x101000 }

abbrev no_gates : Idt
no_gates i = gate false 0 0 0

-- A formatter that prints an exclamation mark for every format.
abbrev plain : Formatter
plain = record {
  vprintfmt = λ putch fmt ap s. each putch (33 ∷ []) s;
  chars = λ fmt ap. 33 ∷ [];
  vprintfmt-each = λ putch fmt ap s. refl;
}
