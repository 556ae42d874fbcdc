-- ===== src/Pager/Filling.antt =====
-- The loops of the handler, and a fault while a slot is free.
use duke_operatingsystems.Pager.Handler.{oldest, take_slot, aged, is_free}
use duke_operatingsystems.Common.{
  ==→eq, Bool-cases, Option, ap, arith, false, if_intro, if_ne, inl, inr, le→ltb, ltb, lt→ltb, refl,
  some, suc, true, update, zero, ℕ, ◌+◌, ◌<◌, ◌==◌, ◌∙◌, ◌≡◌, ◌≢◌, ◌≤◌,
}

pub aged-above : (n : ℕ) (life : ℕ → ℕ) (i : ℕ) → n ≤ i → aged n life i ≡ life i
unfolding aged
aged-above zero life i le = refl
aged-above (suc n) life i le =
    if_ne n i (suc (aged n life n)) (aged n life i) (λ e. absurd (omega (arith, e)))
    ∙ aged-above n life i (omega arith)

pub aged-below : (n : ℕ) (life : ℕ → ℕ) (i : ℕ) → i < n → aged n life i ≡ suc (life i)
unfolding aged
aged-below zero life i lt = absurd (omega arith)
aged-below (suc n) life i lt = elim (Bool-cases (n == i)) [
  | inl t ↦ rw t (ap suc (aged-above n life n (omega arith) ∙ ap life (==→eq n i t)))
  | inr f ↦ rw f (aged-below n life i (ground arith))
]

pub take_slot-first :
    (left q page k : ℕ) (name : ℕ → Option ℕ)
    → q ≤ k
    → k < q + left
    → ((i : ℕ) → q ≤ i → i < k → is_free (name i) ≡ false)
    → is_free (name k) ≡ true
    → take_slot left q page name ≡ (update name k (some page), k)
unfolding take_slot
take_slot-first zero q page k name le lt used ok = absurd (omega arith)
take_slot-first (suc left) q page k name le lt used ok = elim (Bool-cases (q == k)) [
  | inl t ↦
      let e = ==→eq q k t in
      rw (ap (λ i. is_free (name i)) e ∙ ok) (ap (λ i. (update name i (some page), i)) e)
  | inr f ↦ rw (used q (omega arith) (ground arith)) (
      take_slot-first left (suc q) page k name (ground arith) (omega arith)
        (λ i le' lt'. used i (omega arith) lt') ok)
]

pub oldest-none :
    (life : ℕ → ℕ) (left z maxcount locmax : ℕ)
    → ((i : ℕ) → z ≤ i → i < z + left → life i ≤ maxcount)
    → oldest life left z maxcount locmax ≡ locmax
unfolding oldest
oldest-none life zero z maxcount locmax below = refl
oldest-none life (suc left) z maxcount locmax below =
    rw (le→ltb maxcount (life z) (below z (omega arith) (omega arith))) (
      oldest-none life left (suc z) maxcount locmax
        (λ i le lt. below i (omega arith) (omega arith)))

-- The oldest slot is one of the arrays when there is one.
pub oldest-lt :
    (life : ℕ → ℕ) (left z maxcount locmax bound : ℕ)
    → locmax < bound
    → z + left ≤ bound
    → oldest life left z maxcount locmax < bound
unfolding oldest
oldest-lt life zero z maxcount locmax bound lt le = lt
oldest-lt life (suc left) z maxcount locmax bound lt le =
    if_intro (λ r. r < bound) (ltb maxcount (life z))
      (λ h. oldest-lt life left (suc z) (life z) z bound (omega arith) (omega arith))
      (λ h. oldest-lt life left (suc z) maxcount locmax bound lt (omega arith))

pub oldest-max :
    (life : ℕ → ℕ) (left z maxcount locmax v : ℕ)
    → z ≤ v
    → v < z + left
    → maxcount < life v
    → ((i : ℕ) → z ≤ i → i < z + left → i ≢ v → life i < life v)
    → oldest life left z maxcount locmax ≡ v
unfolding oldest
oldest-max life zero z maxcount locmax v le lt more max = absurd (omega arith)
oldest-max life (suc left) z maxcount locmax v le lt more max = elim (Bool-cases (z == v)) [
  | inl t ↦
      let e = ==→eq z v t in
      let same = ap life e in
      rw (lt→ltb maxcount (life z) (omega (arith, same))) (
        oldest-none life left (suc z) (life z) z (λ i le' lt'.
          omega
            (arith, same, max i (omega arith) (omega arith) (λ h. absurd (omega (arith, e, h)))))
        ∙ e)
  | inr f ↦
      let next = oldest-max life left (suc z) in
      if_intro (λ r. r ≡ v) (ltb maxcount (life z))
        (λ h.
          next (life z) z v (ground arith) (omega arith)
            (max z (omega arith) (omega arith) (λ e. absurd (ground (arith, e))))
            (λ i le' lt'. max i (omega arith) (omega arith)))
        (λ h.
          next maxcount locmax v (ground arith) (omega arith) more
            (λ i le' lt'. max i (omega arith) (omega arith)))
]
