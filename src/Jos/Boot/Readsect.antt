-- ===== src/Jos/Boot/Readsect.antt =====
-- boot/main.c: what `readsect` does with a disk that follows the protocol.
use duke_operatingsystems.Common.{
  arith, bit_or, inl, inr, refl, some, suc, sym, true, zero, ℕ, ◌%◌, ◌&&◌, ◌*◌, ◌+◌, ◌/◌, ◌<◌, ◌==◌,
  ◌^◌, ◌≡◌, true_below, true_below_at, u8,
}
use mathlib.Core.Path.{subst₂}
use duke_operatingsystems.Jos.Elf.{Bytes}
use duke_operatingsystems.Jos.Ide.{Controller, received}
use duke_operatingsystems.Jos.Ide.Protocol.{Polls, Delivers, registers, IsDisk}
use duke_operatingsystems.Jos.Boot.{waitdisk, read_command, readsect}

select_bits :
    true_below (λ i. (u8 (bit_or i 0xE0) % 16 == i) && (u8 (bit_or i 0xE0) / 16 == 0xE)) 16 ≡ true
unfolding true_below
select_bits = refl

module _ {State : Type 0} (controller : Controller State) where
  waitdisk_lem :
      (polls : ℕ) (s : State) (r : ℕ) (s' : State)
      → Polls controller polls s r s'
      → waitdisk controller polls s ≡ some s'
  unfolding waitdisk
  waitdisk_lem zero s r s' h = absurd h
  waitdisk_lem (suc polls) s r s' (inl (t, e, g)) = rw (t, g) refl
  waitdisk_lem (suc polls) s r s' (inr (t, h)) = rw t (waitdisk_lem polls _ r s' h)

  -- The registers of the command hold the sector number, and select drive 0 and LBA.
  read_command-registers :
      (offset : ℕ) (s : State)
      → offset < 2 ^ 28
      → (low : ℕ) × (mid : ℕ) × (high : ℕ) × (device : ℕ) × (read_command controller offset s
          ≡ registers controller (1 % 256) low mid high device 0x20 s)
        × (low < 256)
        × (mid < 256)
        × (high < 256)
        × (device / 16 ≡ 0xE)
        × (low + 2 ^ 8 * mid + 2 ^ 16 * high + 2 ^ 24 * (device % 16) ≡ offset)
  unfolding read_command
  read_command-registers offset s bound =
      let top = offset / 2 ^ 24 in
      let bits =
        true_below_at (λ i. (u8 (bit_or i 0xE0) % 16 == i) && (u8 (bit_or i 0xE0) / 16 == 0xE)) top
          16 (omega (arith, bound)) select_bits in
      let number : u8 (bit_or top 0xE0) % 16 ≡ top = ground (arith, bits) in
      let select : u8 (bit_or top 0xE0) / 16 ≡ 0xE = ground (arith, bits) in
      (
        u8 offset,
        u8 (offset / 2 ^ 8),
        u8 (offset / 2 ^ 16),
        u8 (bit_or top 0xE0),
        refl,
        omega arith,
        omega arith,
        omega arith,
        select,
        rw number (omega (arith, bound)),
      )

  readsect-answered :
      (polls dst offset : ℕ) (mem : Bytes) (s s1 s2 : State)
      → waitdisk controller polls s ≡ some s1
      → waitdisk controller polls (read_command controller offset s1) ≡ some s2
      → readsect controller polls dst offset mem s
        ≡ some
            (received controller dst (controller.insl 0x1F0 s2).0 mem, (controller.insl 0x1F0 s2).1)
  unfolding readsect
  readsect-answered polls dst offset mem s s1 s2 before after = rw (readsect, before, after) refl

  -- On a disk without a fault that is ready within the polls, `readsect` of a sector with a number below 2^28 ends
  -- with the bytes of the sector in the 512 bytes at `dst`.
  pub readsect_lem :
      (disk : Bytes) (polls dst offset : ℕ) (mem : Bytes) (s : State)
      → IsDisk controller disk polls
      → offset < 2 ^ 28
      → (bytes : Bytes) × (s' : State) × (readsect controller polls dst offset mem s
          ≡ some (received controller dst bytes mem, s'))
        × ((i : ℕ) → i < 512 → bytes i ≡ disk (offset * 512 + i))
  readsect_lem disk polls dst offset mem s is bound =
      let (r, s1, p) = is.answers s in
      let (low, mid, high, device, regs, a, b, c, select, number) =
        read_command-registers offset s1 bound in
      let d =
        subst₂ (λ x y. Delivers controller disk polls (λ s'. Unit) x 1 y) number (sym regs)
          (is.reads 1 low mid high device s1 (omega arith) (omega arith) a b c select) in
      let (r2, s2, p2, fault, same, rest) = d in
      (
        (controller.insl 0x1F0 s2).0,
        (controller.insl 0x1F0 s2).1,
        readsect-answered polls dst offset mem s s1 s2 (waitdisk_lem polls s r s1 p)
            (waitdisk_lem polls (read_command controller offset s1) r2 s2 p2),
        same,
      )
