-- ===== src/Jos/Ide/Tests.antt =====
-- A drive that keeps its bytes, always ready.
use duke_operatingsystems.Common.{
  Bool-cases, ap, arith, false, if◌then◌else◌, inl, inr, refl, suc, sym, true, zero, ℕ, ◌%◌, ◌*◌,
  ◌+◌, ◌-◌, ◌==◌, ◌^◌, ◌∙◌, ◌≡◌,
}
use mathlib.Core.Path.{subst, subst₂, fun_ext}
use duke_operatingsystems.Jos.Elf.{Bytes, within}
use duke_operatingsystems.Jos.Ide.{Controller}
use duke_operatingsystems.Jos.Ide.Protocol.{Delivers}
use duke_operatingsystems.Jos.Ide.Drive.{IsDrive, Takes, overwritten}

-- The bytes, and the number of the sector that comes next.
record Drive : Type 0 where
  bytes : Bytes
  sector : ℕ

abbrev at_sector : ℕ → Drive → Drive
at_sector n d = record d { sector = n }

abbrev drive : Controller Drive
drive = record {
  inb = λ port d. (0x40, d);
  outb = λ port v d.
      if port == 0x1F3
      then at_sector v d
      else (if port == 0x1F4
          then at_sector (d.sector + 2 ^ 8 * v) d
          else (if port == 0x1F5
              then at_sector (d.sector + 2 ^ 16 * v) d
              else (if port == 0x1F6 then at_sector (d.sector + 2 ^ 24 * (v % 16)) d else d)));
  insl = λ port d. ((λ i. d.bytes (d.sector * 512 + i)), at_sector (d.sector + 1) d);
  outsl = λ port b d. record {
    bytes = λ a. if within a (d.sector * 512) 512 then b (a - d.sector * 512) else d.bytes a;
    sector = d.sector + 1;
  };
}

drive-Delivers : (n : ℕ) (d : Drive) → Delivers drive d.bytes 1 (λ s'. Unit) d.sector n d
drive-Delivers zero d = tt
drive-Delivers (suc n) d = (
  0x40,
  d,
  inl (refl, refl, refl),
  refl,
  (λ i lt. refl),
  drive-Delivers n (at_sector (d.sector + 1) d),
)

none_written : (b old : Bytes) (sector a : ℕ) → old a ≡ overwritten drive b sector 0 old a
none_written b old sector a =
    ap (λ t. if t then b (a - sector * 512) else old a) {x = false} (ground arith)

-- One sector more.
one_more :
    (b old : Bytes) (sector k a : ℕ)
    → (if within a ((sector + k) * 512) 512
        then b (512 * k + (a - (sector + k) * 512))
        else overwritten drive b sector k old a)
      ≡ overwritten drive b sector (k + 1) old a
one_more b old sector k a = elim (Bool-cases (within a ((sector + k) * 512) 512)) [
  | inl t ↦
      let more : within a (sector * 512) (512 * (k + 1)) ≡ true = ground (arith, t) in
      rw (t, more) (ap b (ground (arith, t)))
  | inr f ↦
      let same : within a (sector * 512) (512 * (k + 1)) ≡ within a (sector * 512) (512 * k) =
        ground (arith, f) in
      rw (f, same) refl
]

drive-Takes :
    (b old : Bytes) (first n k : ℕ) (d : Drive)
    → d.bytes ≡ overwritten drive b first k old
    → d.sector ≡ first + k
    → Takes drive b 1 (λ s'. s'.bytes ≡ overwritten drive b first (k + n) old) (512 * k) n d
drive-Takes b old first zero k d e f =
    e ∙ ap (λ m. overwritten drive b first m old) {y = k + 0} (omega arith)
drive-Takes b old first (suc n) k d e f =
    let d' = drive.outsl 0x1F0 (λ i. b (512 * k + i)) d in
    let bytes' : d'.bytes ≡ overwritten drive b first (k + 1) old = fun_ext (λ a.
      subst₂
        (λ m (c : Bytes).
          (if within a (m * 512) 512 then b (512 * k + (a - m * 512)) else c a)
          ≡ overwritten drive b first (k + 1) old a)
        (sym f) (sym e) (one_more b old first k a)) in
    (
      0x40,
      d,
      inl (refl, refl, refl),
      refl,
      subst
          (λ p. Takes drive b 1 (λ s'. s'.bytes ≡ overwritten drive b first (k + suc n) old) p n d')
          {x = 512 * (k + 1)} {y = 512 * k + 512} (omega arith)
          (subst
            (λ m.
              Takes drive b 1 (λ s'. s'.bytes ≡ overwritten drive b first m old) (512 * (k + 1)) n
                d')
            {x = k + 1 + n} {y = k + suc n} (omega arith)
            (drive-Takes b old first n (k + 1) d' bytes' (omega (arith, f)))),
    )

-- The sectors from one that the registers name.
written-Takes :
    (b : Bytes) (first n : ℕ) (d : Drive)
    → Takes drive b 1 (λ s'. s'.bytes ≡ overwritten drive b first n d.bytes) 0 n (at_sector first d)
written-Takes b first n d =
    subst
      (λ m.
        Takes drive b 1 (λ s'. s'.bytes ≡ overwritten drive b first m d.bytes) 0 n
          (at_sector first d))
      {x = 0 + n} {y = n} (omega arith)
      (drive-Takes b d.bytes first n 0 (at_sector first d)
        (fun_ext (λ a. none_written b d.bytes first a)) (omega arith))

abbrev lasting : IsDrive drive 1
lasting = record {
  content = λ d. d.bytes;
  answers = λ d. (0x40, d, inl (refl, refl, refl), refl);
  reads = λ n low mid high device d _ _ _ _ _ _.
      drive-Delivers n (at_sector (low + 2 ^ 8 * mid + 2 ^ 16 * high + 2 ^ 24 * (device % 16)) d);
  writes = λ n low mid high device b d _ _ _ _ _ _.
      written-Takes b (low + 2 ^ 8 * mid + 2 ^ 16 * high + 2 ^ 24 * (device % 16)) n d;
}

abbrev blank : Drive
blank = record { bytes = λ a. 0; sector = 0 }
