-- ===== src/Jos/Boot/Segments.antt =====
-- What `readseg` reads.
use duke_operatingsystems.Jos.Elf.{Bytes}
use duke_operatingsystems.Common.{
  Bool-cases, ap, arith, inl, inr, le→ltb, ltb, ltb→lt, lt→ltb, refl, some, suc, u32, zero, ℕ, ◌%◌,
  ◌*◌, ◌+◌, ◌-◌, ◌/◌, ◌<◌, ◌^◌, ◌∙◌, ◌≡◌, ◌≤◌, ◌⊎◌,
}
use duke_operatingsystems.Jos.Ide.{Controller, received}
use duke_operatingsystems.Jos.Ide.Protocol.{IsDisk}
use duke_operatingsystems.Jos.Boot.{read_loop, readsect, readseg}
use duke_operatingsystems.Jos.Boot.Readsect.{readsect_lem}

-- `mem'` holds the disk's bytes from `from` on at the addresses from `pa` to `end`, and `mem` elsewhere.
pub record IsLoaded (disk : Bytes) (from pa end : ℕ) (mem mem' : Bytes) : Type 0 where
  pub inside : (a : ℕ) → pa ≤ a → a < end → mem' a ≡ disk (from + (a - pa))
  pub outside : (a : ℕ) → (a < pa) ⊎ (end ≤ a) → mem' a ≡ mem a

module _ {State : Type 0} (controller : Controller State) (disk : Bytes) (polls : ℕ)
    (is : IsDisk controller disk polls) where
  IsLoaded-received :
      (n pa offset : ℕ) (bytes mem mem' : Bytes)
      → ((i : ℕ) → i < 512 → bytes i ≡ disk (offset * 512 + i))
      → IsLoaded disk
          ((offset + 1) * 512)
          (pa + 512)
          (pa + 512 + 512 * n)
          (received controller pa bytes mem)
          mem'
      → IsLoaded disk (offset * 512) pa (pa + 512 * suc n) mem mem'
  IsLoaded-received n pa offset bytes mem mem' same loaded = record {
    inside = λ a le lt. elim (Bool-cases (ltb a (pa + 512))) [
      | inl t ↦ loaded.outside a (inl (ltb→lt a (pa + 512) t)) ∙ ground (arith, same (a - pa))
      | inr f ↦ loaded.inside a (ground arith) (omega arith) ∙ ap disk (ground arith)
    ];
    outside = λ a o. loaded.outside a (ground arith) ∙ ground arith;
  }

  -- One turn of the loop.
  read_turn :
      (fuel pa end_pa offset : ℕ) (mem mem' : Bytes) (s s' : State)
      → pa < end_pa
      → pa + 512 < 2 ^ 32
      → offset + 1 < 2 ^ 32
      → readsect controller polls pa offset mem s ≡ some (mem', s')
      → read_loop controller polls (suc fuel) pa end_pa offset mem s
        ≡ read_loop controller polls fuel (pa + 512) end_pa (offset + 1) mem' s'
  unfolding read_loop
  read_turn fuel pa end_pa offset mem mem' s s' lt r o run =
      let p : u32 (pa + 512) ≡ pa + 512 = omega (arith, r) in
      let q : u32 (offset + 1) ≡ offset + 1 = omega (arith, o) in
      rw (read_loop, lt→ltb pa end_pa lt, run)
        (ap (λ x. read_loop controller polls fuel x end_pa (u32 (offset + 1)) mem' s') p
          ∙ ap (λ x. read_loop controller polls fuel (pa + 512) end_pa x mem' s') q)

  read_loop_lem :
      (n fuel pa end_pa offset : ℕ) (mem : Bytes) (s : State)
      → n < fuel
      → pa + 512 * n < 2 ^ 32
      → offset + n < 2 ^ 28
      → end_pa ≤ pa + 512 * n
      → pa + 512 * n < end_pa + 512
      → (mem' : Bytes) × (s' : State) × (read_loop controller polls fuel pa end_pa offset mem s
          ≡ some (mem', s'))
        × IsLoaded disk (offset * 512) pa (pa + 512 * n) mem mem'
  unfolding read_loop
  read_loop_lem n zero pa end_pa offset mem s enough r o lo hi = absurd (omega arith)
  read_loop_lem zero (suc fuel) pa end_pa offset mem s enough r o lo hi = (
    mem,
    s,
    rw (le→ltb pa end_pa (omega arith)) refl,
    record { inside = λ a le lt. absurd (omega arith); outside = λ a o. refl },
  )
  read_loop_lem (suc n) (suc fuel) pa end_pa offset mem s enough r o lo hi =
      let (bytes, s1, read, same) =
        readsect_lem controller disk polls pa offset mem s is (omega arith) in
      let mem1 = received controller pa bytes mem in
      let (mem', s', run, loaded) =
        read_loop_lem n fuel (pa + 512) end_pa (offset + 1) mem1 s1 (omega arith) (omega arith)
          (omega arith) (omega arith) (omega arith) in
      (
        mem',
        s',
        read_turn fuel pa end_pa offset mem mem1 s s1 (omega arith) (omega arith) (omega arith) read
            ∙ run,
        IsLoaded-received n pa offset bytes mem mem' same loaded,
      )

  -- On a disk without a fault that is ready within the polls, for an image below 2^32 and sectors below 2^28, with fuel
  -- for the sectors of the segment, `readseg` ends with the bytes of the disk from the rounded offset on, sector
  -- 1 being the first of the image, at the addresses from `pa` rounded down to the end of the segment rounded
  -- up, and leaves all others.
  pub readseg_lem :
      (n fuel pa count offset : ℕ) (mem : Bytes) (s : State)
      → n < fuel
      → pa + count ≤ pa - pa % 512 + 512 * n
      → pa - pa % 512 + 512 * n < pa + count + 512
      → pa - pa % 512 + 512 * n < 2 ^ 32
      → offset / 512 + 1 + n < 2 ^ 28
      → (mem' : Bytes) × (s' : State) × (readseg controller polls fuel pa count offset mem s
          ≡ some (mem', s'))
        × IsLoaded disk
            ((offset / 512 + 1) * 512)
            (pa - pa % 512)
            (pa - pa % 512 + 512 * n)
            mem
            mem'
  unfolding readseg
  readseg_lem n fuel pa count offset mem s enough lo hi r o =
      let p : u32 (pa + count) ≡ pa + count = omega arith in
      let q : u32 (offset / 512 + 1) ≡ offset / 512 + 1 = omega arith in
      rw (p, q)
        (read_loop_lem n fuel (pa - pa % 512) (pa + count) (offset / 512 + 1) mem s enough r o lo
          hi)
