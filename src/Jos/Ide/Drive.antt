-- ===== src/Jos/Ide/Drive.antt =====
-- Sectors that `ide_write` has written and `ide_read` reads again.
use duke_operatingsystems.Common.{
  arith, false, if◌then◌else◌, le→ltb, refl, some, suc, sym, true, u32, zero, ℕ, ◌%◌, ◌*◌, ◌+◌, ◌-◌,
  ◌/◌, ◌<◌, ◌^◌, ◌∙◌, ◌≡◌, ◌≤◌, ap,
}
use mathlib.Core.Path.{fun_ext, subst, subst₂}
use duke_operatingsystems.Jos.Elf.{Bytes, within}
use duke_operatingsystems.Jos.Ide.{
  Controller, has_error, ide_wait_ready, write_sectors, returned, fine, ide_write, ide_command,
}
use duke_operatingsystems.Jos.Ide.Protocol.{Polls, Delivers, registers}
use duke_operatingsystems.Jos.Ide.Sectors.{ide_wait_ready_lem, ide_command-registers}

module _ {State : Type 0} (controller : Controller State) where
  -- In state s the disk takes n sectors, with the bytes b from `pos` on, and then Q holds.
  abbrev pub Takes : Bytes → (polls : ℕ) → (State → Type 0) → (pos n : ℕ) → State → Type 0
  Takes b polls Q pos zero s = Q s
  Takes b polls Q pos (suc n) s =
      (r : ℕ) × (s' : State) × Polls controller polls s r s'
      × (has_error r ≡ false)
      × Takes b polls Q (pos + 512) n (controller.outsl 0x1F0 (λ i. b (pos + i)) s')

  -- The bytes of a disk after n sectors from the given one on are overwritten.
  abbrev pub overwritten : Bytes → (sector n : ℕ) → Bytes → Bytes
  overwritten b sector n old a =
      if within a (sector * 512) (512 * n) then b (a - sector * 512) else old a

  -- A disk that keeps what is written: ready within the polls, it gives on command 0x20 and takes on command 0x30 the
  -- sectors that the registers name, when the device register selects drive 0 and LBA.
  pub record IsDrive (polls : ℕ) : Type 0 where
    pub content : State → Bytes
    pub answers :
        (s : State)
        → (r : ℕ) × (s' : State) × Polls controller polls s r s' × (content s' ≡ content s)
    pub reads :
        (n low mid high device : ℕ) (s : State)
        → 0 < n
        → n ≤ 256
        → low < 256
        → mid < 256
        → high < 256
        → device / 16 ≡ 0xE
        → Delivers controller
            (content s)
            polls
            (λ s'. Unit)
            (low + 2 ^ 8 * mid + 2 ^ 16 * high + 2 ^ 24 * (device % 16))
            n
            (registers controller (n % 256) low mid high device 0x20 s)
    pub writes :
        (n low mid high device : ℕ) (b : Bytes) (s : State)
        → 0 < n
        → n ≤ 256
        → low < 256
        → mid < 256
        → high < 256
        → device / 16 ≡ 0xE
        → Takes b polls
            (λ s'.
              content s'
              ≡ overwritten b
                  (low + 2 ^ 8 * mid + 2 ^ 16 * high + 2 ^ 24 * (device % 16))
                  n
                  (content s))
            0
            n
            (registers controller (n % 256) low mid high device 0x30 s)

  write_sectors_lem :
      (b : Bytes) (polls : ℕ) (Q : State → Type 0) (n pos src : ℕ) (mem : Bytes) (s : State)
      → src + 512 * n < 2 ^ 32
      → ((i : ℕ) → b (pos + i) ≡ mem (src + i))
      → Takes b polls Q pos n s
      → (s' : State) × (write_sectors controller polls n src mem s ≡ returned fine mem s') × Q s'
  unfolding write_sectors
  write_sectors_lem b polls Q zero pos src mem s bound same q = (s, refl, q)
  write_sectors_lem b polls Q (suc n) pos src mem s bound same (r, s1, p, fault, t) =
      let wait : ide_wait_ready controller polls true s ≡ some (fine, s1) =
        ide_wait_ready_lem controller polls true s r s1 p ∙ rw fault refl in
      let bytes : ◌≡◌ {A = Bytes} (λ i. b (pos + i)) (λ i. mem (src + i)) = fun_ext same in
      let (s', run, q) =
        write_sectors_lem b polls Q n (pos + 512) (src + 512) mem
          (controller.outsl 0x1F0 (λ i. b (pos + i)) s1) (omega (arith, bound))
          (λ i. ap b (omega arith) ∙ same (512 + i) ∙ ap mem (omega arith)) t in
      let wrap : u32 (src + 512) ≡ src + 512 = omega (arith, bound) in
      (
        s',
        rw (write_sectors, wait)
            (ap
                (λ x.
                  write_sectors controller polls n x mem
                    (controller.outsl 0x1F0 (λ i. mem (src + i)) s1))
                wrap
              ∙ ap
                  (λ (f : Bytes).
                    write_sectors controller polls n (src + 512) mem (controller.outsl 0x1F0 f s1))
                  (sym bytes)
              ∙ run),
        q,
      )

  ide_write-answered :
      (polls secno src nsecs : ℕ) (mem : Bytes) (s s1 : State) (r : ℕ)
      → nsecs ≤ 256
      → Polls controller polls s r s1
      → ide_write controller polls secno src nsecs mem s
        ≡ write_sectors controller polls nsecs src mem (ide_command controller secno nsecs 0x30 s1)
  unfolding ide_write
  ide_write-answered polls secno src nsecs mem s s1 r le p =
      rw (le→ltb 256 nsecs le, ide_wait_ready_lem controller polls false s r s1 p) refl

  module _ (polls : ℕ) (is : IsDrive polls) (secno nsecs : ℕ) (pos : 0 < nsecs) (le : nsecs ≤ 256)
      (small : secno < 2 ^ 28) where
    pub ide_write_lem :
        (src : ℕ) (mem : Bytes) (s : State)
        → src + 512 * nsecs < 2 ^ 32
        → (s' : State) × (ide_write controller polls secno src nsecs mem s ≡ returned fine mem s')
          × (is.content s' ≡ overwritten (λ i. mem (src + i)) secno nsecs (is.content s))
    ide_write_lem src mem s bound =
        let (r, s1, p, same) = is.answers s in
        let b : Bytes = λ i. mem (src + i) in
        let (low, mid, high, device, regs, x, y, z, lba, number) =
          ide_command-registers controller secno nsecs 0x30 s1 small pos le in
        let takes : Takes b polls (λ s'. is.content s' ≡ overwritten b secno nsecs (is.content s)) 0
            nsecs (ide_command controller secno nsecs 0x30 s1) =
          subst
            (λ c.
              Takes b polls (λ s'. is.content s' ≡ overwritten b secno nsecs c) 0 nsecs
                (ide_command controller secno nsecs 0x30 s1))
            same
            (subst₂
              (λ n c.
                Takes b polls (λ s'. is.content s' ≡ overwritten b n nsecs (is.content s1)) 0 nsecs
                  c)
              number (sym regs) (is.writes nsecs low mid high device b s1 pos le x y z lba)) in
        let (s', run, q) =
          write_sectors_lem b polls (λ s'. is.content s' ≡ overwritten b secno nsecs (is.content s))
            nsecs 0 src mem (ide_command controller secno nsecs 0x30 s1) bound
            (λ i. ap b (omega arith)) takes in
        (s', ide_write-answered polls secno src nsecs mem s s1 r le p ∙ run, q)
