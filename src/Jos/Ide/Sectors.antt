-- ===== src/Jos/Ide/Sectors.antt =====
-- What `ide_read` leaves in memory.
use mathlib.Core.Path.{subst₂}
use duke_operatingsystems.Jos.Elf.{Bytes}
use duke_operatingsystems.Common.{
  ==→eq, Bool, Bool-cases, ap, arith, bit_and, bit_or, false, if◌then◌else◌, inl, inr, le→ltb, ltb,
  ltb→lt, refl, some, suc, sym, true, true_below, true_below_at, u32, zero, ℕ, ◌%◌, ◌&&◌, ◌*◌, ◌+◌,
  ◌-◌, ◌/◌, ◌<◌, ◌==◌, ◌^◌, ◌∙◌, ◌≡◌, ◌≤◌,
}
use duke_operatingsystems.Jos.Boot.Segments.{IsLoaded}
use duke_operatingsystems.Jos.Ide.{
  Controller, has_error, ide_wait_ready, received, read_sectors, disk_error, Outcome, returned,
  fine, ide_command, ide_read, diskno,
}
use duke_operatingsystems.Jos.Ide.Protocol.{Polls, Delivers, Fails, registers, IsDisk}

module _ {State : Type 0} (controller : Controller State) where
  pub ide_wait_ready_lem :
      (polls : ℕ) (check : Bool) (s : State) (r : ℕ) (s' : State)
      → Polls controller polls s r s'
      → ide_wait_ready controller polls check s
        ≡ some (if check && has_error r then disk_error else fine, s')
  unfolding ide_wait_ready
  ide_wait_ready_lem zero check s r s' h = absurd h
  ide_wait_ready_lem (suc polls) check s r s' (inl (t, e, f)) = rw (t, e, f) refl
  ide_wait_ready_lem (suc polls) check s r s' (inr (t, h)) =
      rw t (ide_wait_ready_lem polls check _ r s' h)

  received-IsLoaded :
      (disk bytes mem mem' : Bytes) (sector n dst : ℕ)
      → ((i : ℕ) → i < 512 → bytes i ≡ disk (sector * 512 + i))
      → IsLoaded disk
          ((sector + 1) * 512)
          (dst + 512)
          (dst + 512 + 512 * n)
          (received controller dst bytes mem)
          mem'
      → IsLoaded disk (sector * 512) dst (dst + 512 * suc n) mem mem'
  received-IsLoaded disk bytes mem mem' sector n dst same loaded = record {
    inside = λ a le lt. elim (Bool-cases (ltb a (dst + 512))) [
      | inl t ↦ loaded.outside a (inl (ltb→lt a (dst + 512) t)) ∙ ground (arith, same (a - dst))
      | inr f ↦ loaded.inside a (ground arith) (omega arith) ∙ ap disk (ground arith)
    ];
    outside = λ a o. loaded.outside a (ground arith) ∙ ground arith;
  }

  read_sectors-fine :
      (polls n dst : ℕ) (mem : Bytes) (s s1 : State)
      → ide_wait_ready controller polls true s ≡ some (fine, s1)
      → read_sectors controller polls (suc n) dst mem s
        ≡ read_sectors controller polls n
            (u32 (dst + 512))
            (received controller dst (controller.insl 0x1F0 s1).0 mem)
            (controller.insl 0x1F0 s1).1
  unfolding read_sectors
  read_sectors-fine polls n dst mem s s1 wait = rw (read_sectors, wait) refl

  read_sectors-failed :
      (polls n dst : ℕ) (mem : Bytes) (s s1 : State)
      → ide_wait_ready controller polls true s ≡ some (disk_error, s1)
      → read_sectors controller polls (suc n) dst mem s ≡ returned disk_error mem s1
  unfolding read_sectors
  read_sectors-failed polls n dst mem s s1 wait = rw (read_sectors, wait) refl

  -- The first k of n sectors, and then what Q says of the state decides.
  read_sectors_lem :
      (disk : Bytes) (polls : ℕ) (Q : State → Type 0) (rest k sector dst : ℕ) (mem : Bytes)
      (s : State) (out : Outcome)
      → dst + 512 * k < 2 ^ 32
      → ((dst' : ℕ) (m : Bytes) (s' : State)
          → Q s'
          → (s'' : State) × (read_sectors controller polls rest dst' m s' ≡ returned out m s''))
      → Delivers controller disk polls Q sector k s
      → (mem' : Bytes) × (s' : State) × (read_sectors controller polls (k + rest) dst mem s
          ≡ returned out mem' s')
        × IsLoaded disk (sector * 512) dst (dst + 512 * k) mem mem'
  unfolding read_sectors
  read_sectors_lem disk polls Q rest zero sector dst mem s out bound final d =
      let (s'', run) = final dst mem s d in
      let none_of : 0 + rest ≡ rest = omega arith in
      (
        mem,
        s'',
        rw none_of run,
        record { inside = λ a le lt. absurd (omega (arith, le, lt)); outside = λ a o. refl },
      )
  read_sectors_lem disk polls Q rest (suc k) sector dst mem s out bound final
        (r, s1, p, fault, same, d) =
      let (bytes, s2) = controller.insl 0x1F0 s1 in
      let (mem', s', run, loaded) =
        read_sectors_lem disk polls Q rest k (sector + 1) (dst + 512)
          (received controller dst bytes mem) s2 out (omega (arith, bound)) final d in
      let wait : ide_wait_ready controller polls true s ≡ some (fine, s1) =
        ide_wait_ready_lem polls true s r s1 p ∙ rw fault refl in
      let wrap : u32 (dst + 512) ≡ dst + 512 = omega (arith, bound) in
      let more_of : suc k + rest ≡ suc (k + rest) = omega arith in
      (
        mem',
        s',
        rw more_of (read_sectors-fine polls (k + rest) dst mem s s1 wait ∙ rw wrap run),
        received-IsLoaded disk bytes mem mem' sector k dst same loaded,
      )

  device_bits :
      true_below
        (λ i. bit_or (bit_or 0xE0 (bit_and diskno 1 * 2 ^ 4)) (bit_and i 0x0F) % 16 == i)
        16
      ≡ true
  unfolding true_below
  device_bits = refl

  select_bits :
      true_below
        (λ i. bit_or (bit_or 0xE0 (bit_and diskno 1 * 2 ^ 4)) (bit_and i 0x0F) / 16 == 0xE)
        16
      ≡ true
  unfolding true_below
  select_bits = refl

  -- The registers of a command hold its sector number, and select drive 0 and LBA.
  pub ide_command-registers :
      (secno nsecs command : ℕ) (s : State)
      → secno < 2 ^ 28
      → 0 < nsecs
      → nsecs ≤ 256
      → (low : ℕ) × (mid : ℕ) × (high : ℕ) × (device : ℕ) × (ide_command controller secno nsecs
            command s
          ≡ registers controller (nsecs % 256) low mid high device command s)
        × (low < 256)
        × (mid < 256)
        × (high < 256)
        × (device / 16 ≡ 0xE)
        × (low + 2 ^ 8 * mid + 2 ^ 16 * high + 2 ^ 24 * (device % 16) ≡ secno)
  unfolding ide_command
  ide_command-registers secno nsecs command s bound pos le =
      let top = secno / 2 ^ 24 in
      let device =
        ==→eq (bit_or (bit_or 0xE0 (bit_and diskno 1 * 2 ^ 4)) (bit_and top 0x0F) % 16) top (
          true_below_at
            (λ i. bit_or (bit_or 0xE0 (bit_and diskno 1 * 2 ^ 4)) (bit_and i 0x0F) % 16 == i) top 16
            (omega (arith, bound)) device_bits) in
      let select =
        ==→eq (bit_or (bit_or 0xE0 (bit_and diskno 1 * 2 ^ 4)) (bit_and top 0x0F) / 16) 0xE (
          true_below_at
            (λ i. bit_or (bit_or 0xE0 (bit_and diskno 1 * 2 ^ 4)) (bit_and i 0x0F) / 16 == 0xE) top
            16 (omega (arith, bound)) select_bits) in
      (
        secno % 2 ^ 8,
        secno / 2 ^ 8 % 2 ^ 8,
        secno / 2 ^ 16 % 2 ^ 8,
        bit_or (bit_or 0xE0 (bit_and diskno 1 * 2 ^ 4)) (bit_and top 0x0F),
        refl,
        omega arith,
        omega arith,
        omega arith,
        select,
        rw device (omega (arith, bound)),
      )

  ide_read-answered :
      (polls secno dst nsecs : ℕ) (mem : Bytes) (s s1 : State) (r : ℕ)
      → nsecs ≤ 256
      → Polls controller polls s r s1
      → ide_read controller polls secno dst nsecs mem s
        ≡ read_sectors controller polls nsecs dst mem (ide_command controller secno nsecs 0x20 s1)
  unfolding ide_read
  ide_read-answered polls secno dst nsecs mem s s1 r le p =
      rw (le→ltb 256 nsecs le, ide_wait_ready_lem polls false s r s1 p) refl

  read_sectors-none :
      (polls dst : ℕ) (mem : Bytes) (s : State)
      → read_sectors controller polls 0 dst mem s ≡ returned fine mem s
  unfolding read_sectors
  read_sectors-none polls dst mem s = refl

  plus_none : (n : ℕ) → n + 0 ≡ n
  plus_none n = omega arith

  -- A command that the disk follows: the whole of `ide_read`.
  pub ide_read-Delivers :
      (disk : Bytes) (polls secno dst nsecs r : ℕ) (mem : Bytes) (s s1 : State)
      → Polls controller polls s r s1
      → Delivers controller disk polls
          (λ s'. Unit)
          secno
          nsecs
          (ide_command controller secno nsecs 0x20 s1)
      → nsecs ≤ 256
      → dst + 512 * nsecs < 2 ^ 32
      → (mem' : Bytes) × (s' : State) × (ide_read controller polls secno dst nsecs mem s
          ≡ returned fine mem' s')
        × IsLoaded disk (secno * 512) dst (dst + 512 * nsecs) mem mem'
  ide_read-Delivers disk polls secno dst nsecs r mem s s1 p d le bound =
      let (mem', s', run, loaded) =
        read_sectors_lem disk polls (λ s'. Unit) 0 nsecs secno dst mem
          (ide_command controller secno nsecs 0x20 s1) fine bound
          (λ dst' m s' _. (s', read_sectors-none polls dst' m s')) d in
      (
        mem',
        s',
        ide_read-answered polls secno dst nsecs mem s s1 r le p
            ∙ sym (
                ap
                  (λ n.
                    read_sectors controller polls n dst mem
                      (ide_command controller secno nsecs 0x20 s1))
                  (plus_none nsecs))
            ∙ run,
        loaded,
      )

  -- On a disk without a fault that is ready within the polls, for 1 to 256 sectors with numbers below
  -- 2^28 and a buffer that does not wrap, `ide_read` returns 0 with the bytes of the sectors in the
  -- buffer, and leaves all other memory.
  pub ide_read_lem :
      (disk : Bytes) (polls secno dst nsecs : ℕ) (mem : Bytes) (s : State)
      → IsDisk controller disk polls
      → 0 < nsecs
      → nsecs ≤ 256
      → secno < 2 ^ 28
      → dst + 512 * nsecs < 2 ^ 32
      → (mem' : Bytes) × (s' : State) × (ide_read controller polls secno dst nsecs mem s
          ≡ returned fine mem' s')
        × IsLoaded disk (secno * 512) dst (dst + 512 * nsecs) mem mem'
  ide_read_lem disk polls secno dst nsecs mem s is pos le small bound =
      let (r, s1, p) = is.answers s in
      let (low, mid, high, device, regs, a, b, c, lba, number) =
        ide_command-registers secno nsecs 0x20 s1 small pos le in
      let d =
        subst₂ (λ x y. Delivers controller disk polls (λ s'. Unit) x nsecs y) number (sym regs)
          (is.reads nsecs low mid high device s1 pos le a b c lba) in
      ide_read-Delivers disk polls secno dst nsecs r mem s s1 p d le bound

  -- When the disk answers, gives the first k sectors within the polls and then reports an error, `ide_read`
  -- of more than k sectors returns -1 with those in the buffer, and leaves all other memory.
  pub ide_read-failed :
      (disk : Bytes) (polls secno dst k rest r : ℕ) (mem : Bytes) (s s1 : State)
      → Polls controller polls s r s1
      → Delivers controller disk polls
          (Fails controller polls)
          secno
          k
          (ide_command controller secno (k + suc rest) 0x20 s1)
      → k + suc rest ≤ 256
      → dst + 512 * k < 2 ^ 32
      → (mem' : Bytes) × (s' : State) × (ide_read controller polls secno dst (k + suc rest) mem s
          ≡ returned disk_error mem' s')
        × IsLoaded disk (secno * 512) dst (dst + 512 * k) mem mem'
  ide_read-failed disk polls secno dst k rest r mem s s1 p d le bound =
      let (mem', s', run, loaded) =
        read_sectors_lem disk polls (Fails controller polls) (suc rest) k secno dst mem
          (ide_command controller secno (k + suc rest) 0x20 s1) disk_error bound
          (λ dst' m s' f. (
            f.1,
            read_sectors-failed polls rest dst' m s' f.1 (
                ide_wait_ready_lem polls true s' f.0 f.1 f.2
                ∙ ap (λ b. some (if b then disk_error else fine, f.1)) f.3),
          ))
          d in
      (mem', s', ide_read-answered polls secno dst (k + suc rest) mem s s1 r le p ∙ run, loaded)
