-- ===== src/Jos/Ide/Protocol.antt =====
-- What the driver relies on of the controller: the PIO protocol of an ATA disk.
use duke_operatingsystems.Jos.Elf.{Bytes}
use duke_operatingsystems.Common.{
  false, suc, true, zero, ℕ, ◌%◌, ◌*◌, ◌+◌, ◌/◌, ◌<◌, ◌^◌, ◌≡◌, ◌≤◌, ◌⊎◌,
}
use duke_operatingsystems.Jos.Ide.{Controller, is_ready, has_error}

module _ {State : Type 0} (controller : Controller State) where
  -- Within so many polls the status r says that the disk is ready.
  abbrev pub Polls : ℕ → State → ℕ → State → Type 0
  Polls zero s r s' = ⊥
  Polls (suc polls) s r s' =
      let (r1, s1) = controller.inb 0x1F7 s in
      ((is_ready r1 ≡ true) × (r1 ≡ r) × (s1 ≡ s')) ⊎ ((is_ready r1 ≡ false) × Polls polls s1 r s')

  -- In state s the disk gives n sectors from the given one on, one after the other, and then Q holds.
  abbrev pub Delivers : Bytes → (polls : ℕ) → (State → Type 0) → (sector n : ℕ) → State → Type 0
  Delivers disk polls Q sector zero s = Q s
  Delivers disk polls Q sector (suc n) s =
      (r : ℕ) × (s' : State) × Polls polls s r s'
      × (has_error r ≡ false)
      × ((i : ℕ) → i < 512 → (controller.insl 0x1F0 s').0 i ≡ disk (sector * 512 + i))
      × Delivers disk polls Q (sector + 1) n (controller.insl 0x1F0 s').1

  -- The disk reports an error with its next status.
  abbrev pub Fails : (polls : ℕ) → State → Type 0
  Fails polls s = (r : ℕ) × (s' : State) × Polls polls s r s' × (has_error r ≡ true)

  abbrev pub registers : (count low mid high device command : ℕ) → State → State
  registers count low mid high device command s = controller.outb 0x1F7 command (
      controller.outb 0x1F6 device (
        controller.outb 0x1F5 high
          (controller.outb 0x1F4 mid (controller.outb 0x1F3 low (controller.outb 0x1F2 count s)))))

  -- A disk without a fault: it is ready within the polls, and on command 0x20 it gives the sectors that
  -- the registers ask for, where a count of 0 stands for 256. The upper half of the device register says
  -- that the number is an LBA one (bit 6) and that drive 0 is meant (bit 4 clear), with bits 5 and 7 set; nothing is said
  -- of a command with other bits there.
  pub record IsDisk (disk : Bytes) (polls : ℕ) : Type 0 where
    pub answers : (s : State) → (r : ℕ) × (s' : State) × Polls polls s r s'
    pub reads :
        (n low mid high device : ℕ) (s : State)
        → 0 < n
        → n ≤ 256
        → low < 256
        → mid < 256
        → high < 256
        → device / 16 ≡ 0xE
        → Delivers disk polls
            (λ s'. Unit)
            (low + 2 ^ 8 * mid + 2 ^ 16 * high + 2 ^ 24 * (device % 16))
            n
            (registers (n % 256) low mid high device 0x20 s)
