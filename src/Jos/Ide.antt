-- ===== src/Jos/Ide.antt =====
-- kern/ide.c: `ide_wait_ready`, `ide_read` and `ide_write`. The controller behind the ports is a
-- parameter; a wait is a number of polls, and `stuck` a wait that is longer.
pub mod Protocol
pub mod Sectors
pub mod Drive
mod Tests
use duke_operatingsystems.Jos.Elf.{Bytes}
use duke_operatingsystems.Common.{
  Bool, Option, bit_and, bit_or, false, if◌then◌else◌, leb, ltb, none, not, some, suc, true, u32,
  u8, zero, ℕ, ◌%◌, ◌&&◌, ◌*◌, ◌+◌, ◌-◌, ◌/◌, ◌==◌, ◌^◌,
}

-- What the instructions do with a controller in a given state; insl and outsl move 128 words.
pub record Controller (State : Type 0) : Type 0 where
  pub inb : ℕ → State → ℕ × State
  pub outb : (port data_ : ℕ) → State → State
  pub insl : ℕ → State → Bytes × State
  pub outsl : ℕ → Bytes → State → State

abbrev pub ide_bsy : ℕ
ide_bsy = 0x80

abbrev pub ide_drdy : ℕ
ide_drdy = 0x40

abbrev pub ide_df : ℕ
ide_df = 0x20

abbrev pub ide_err : ℕ
ide_err = 0x01

abbrev pub diskno : ℕ
diskno = 0

-- The results 0 and -1.
pub data Outcome : Type 0 where
  fine : Outcome
  disk_error : Outcome

pub data IdeRun (State : Type 0) : Type 0 where
  stuck : IdeRun State
  panicked : IdeRun State
  returned : Outcome → Bytes → State → IdeRun State

abbrev pub is_ready : ℕ → Bool
is_ready r = bit_and r (bit_or ide_bsy ide_drdy) == ide_drdy

abbrev pub has_error : ℕ → Bool
has_error r = not (bit_and r (bit_or ide_df ide_err) == 0)

module _ {State : Type 0} (controller : Controller State) where
  unfoldable pub ide_wait_ready :
      (polls : ℕ) (check_error : Bool) → State → Option (Outcome × State)
  ide_wait_ready zero check_error s = none
  ide_wait_ready (suc polls) check_error s =
      let (r, s') = controller.inb 0x1F7 s in
      let rest = ide_wait_ready polls check_error s' in
      if not (is_ready r)
      then rest
      else some (if check_error && has_error r then disk_error else fine, s')

  -- The registers of a command: the count, the 28 bits of the sector number, and the command itself.
  unfoldable pub ide_command : (secno nsecs command : ℕ) → State → State
  ide_command secno nsecs command s =
      let s1 = controller.outb 0x1F2 (u8 nsecs) s in
      let s2 = controller.outb 0x1F3 (secno % 2 ^ 8) s1 in
      let s3 = controller.outb 0x1F4 (secno / 2 ^ 8 % 2 ^ 8) s2 in
      let s4 = controller.outb 0x1F5 (secno / 2 ^ 16 % 2 ^ 8) s3 in
      let s5 =
        controller.outb 0x1F6
          (bit_or (bit_or 0xE0 (bit_and diskno 1 * 2 ^ 4)) (bit_and (secno / 2 ^ 24) 0x0F)) s4 in
      controller.outb 0x1F7 command s5

  -- insl to the 512 bytes at dst
  abbrev pub received : ℕ → Bytes → Bytes → Bytes
  received dst bytes mem a = if leb dst a && ltb a (dst + 512) then bytes (a - dst) else mem a

  unfoldable pub read_sectors : (polls nsecs dst : ℕ) → Bytes → State → IdeRun State
  read_sectors polls zero dst mem s = returned fine mem s
  read_sectors polls (suc nsecs) dst mem s = elim (ide_wait_ready polls true s) [
    | none ↦ stuck
    | some (disk_error, s') ↦ returned disk_error mem s'
    | some (fine, s') ↦
        let (bytes, s'') = controller.insl 0x1F0 s' in
        read_sectors polls nsecs (u32 (dst + 512)) (received dst bytes mem) s''
  ]

  unfoldable pub ide_read : (polls secno dst nsecs : ℕ) → Bytes → State → IdeRun State
  ide_read polls secno dst nsecs mem s =
      if ltb 256 nsecs then panicked else (elim (ide_wait_ready polls false s) [
        | none ↦ stuck
        | some (r, s') ↦ read_sectors polls nsecs dst mem (ide_command secno nsecs 0x20 s')
      ])

  unfoldable pub write_sectors : (polls nsecs src : ℕ) → Bytes → State → IdeRun State
  write_sectors polls zero src mem s = returned fine mem s
  write_sectors polls (suc nsecs) src mem s = elim (ide_wait_ready polls true s) [
    | none ↦ stuck
    | some (disk_error, s') ↦ returned disk_error mem s'
    | some (fine, s') ↦
        write_sectors polls nsecs (u32 (src + 512)) mem
          (controller.outsl 0x1F0 (λ i. mem (src + i)) s')
  ]

  unfoldable pub ide_write : (polls secno src nsecs : ℕ) → Bytes → State → IdeRun State
  ide_write polls secno src nsecs mem s =
      if ltb 256 nsecs then panicked else (elim (ide_wait_ready polls false s) [
        | none ↦ stuck
        | some (r, s') ↦ write_sectors polls nsecs src mem (ide_command secno nsecs 0x30 s')
      ])
