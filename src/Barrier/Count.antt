-- ===== src/Barrier/Count.antt =====
-- How many of the threads satisfy a test.
use duke_operatingsystems.Common.{
  zero, Bool, Bool-cases, ap, arith, false, if_ne, if_self, if◌then◌else◌, inl, inr, refl,
  same_or_not, true, update, ◌∙◌, ◌≡◌, ◌≢◌, ℕ, ◌≤◌, ◌<◌, ◌<◌, ◌<◌, ◌<◌, ◌<◌, ◌<◌, suc, sym,
}

unfoldable pub count : ℕ → (ℕ → Bool) → ℕ
count zero f = 0
count (suc n) f = let rest = count n f in if f n then suc rest else rest

pub count-le : (n : ℕ) (f : ℕ → Bool) → count n f ≤ n
unfolding count
count-le zero f = omega arith
count-le (suc n) f = ground (arith, count-le n f)

pub count-same : (n : ℕ) (f g : ℕ → Bool) → ((t : ℕ) → t < n → g t ≡ f t) → count n g ≡ count n f
unfolding count
count-same zero f g same = refl
count-same (suc n) f g same =
    rw (same n (omega arith), count-same n f g (λ t lt. same t (omega arith))) refl

pub count-none : (n : ℕ) (f : ℕ → Bool) → ((t : ℕ) → t < n → f t ≡ false) → count n f ≡ 0
unfolding count
count-none zero f out_f = refl
count-none (suc n) f out_f =
    rw (out_f n (omega arith)) (count-none n f (λ t lt. out_f t (omega arith)))

pub count-set :
    (n t : ℕ) (f g : ℕ → Bool)
    → t < n
    → f t ≡ false
    → g t ≡ true
    → ((u : ℕ) → u < n → u ≢ t → g u ≡ f u)
    → count n g ≡ suc (count n f)
unfolding count
count-set zero t f g lt out_f in_g same = absurd (omega arith)
count-set (suc n) t f g lt out_f in_g same = elim (same_or_not t n) [
  | inl e ↦
      rw (ap g (sym e) ∙ in_g, ap f (sym e) ∙ out_f)
        (ap suc
          (count-same n f g (λ u l. same u (omega arith) (λ h. absurd (omega (arith, h, e))))))
  | inr ne ↦
      let rest = count-set n t f g (ground arith) out_f in_g (λ u l. same u (omega arith)) in
      rw (same n (omega arith) (λ h. ne (sym h))) (ground (arith, rest))
]

pub count-full : (n u : ℕ) (f : ℕ → Bool) → u < n → count n f ≡ n → f u ≡ true
unfolding count
count-full zero u f lt e = absurd (omega arith)
count-full (suc n) u f lt e = elim (Bool-cases (f n)) [
  | inl t ↦ (elim (same_or_not u n) [
    | inl h ↦ ap f h ∙ t
    | inr h ↦ count-full n u f (ground arith) (ground (arith, e, t))
  ])
  | inr out_f ↦ absurd (ground (arith, count-le n f, e, out_f))
]

pub count-some : (n : ℕ) (f : ℕ → Bool) → count n f < n → (t : ℕ) × (t < n) × (f t ≡ false)
unfolding count
count-some zero f lt = absurd (omega arith)
count-some (suc n) f lt = elim (Bool-cases (f n)) [
  | inl t ↦ (let (u, l, out_f) = count-some n f (ground (arith, t, lt)) in (u, omega arith, out_f))
  | inr out_f ↦ (n, omega arith, out_f)
]

-- All but one are counted, and t is not: every other thread is.
pub count-others :
    (n t u : ℕ) (f : ℕ → Bool)
    → t < n
    → f t ≡ false
    → suc (count n f) ≡ n
    → u < n
    → u ≢ t
    → f u ≡ true
count-others n t u f lt out_f e l ne =
    let g = update f t true in
    let all =
      count-set n t f g lt out_f (if_self t true (f t))
        (λ w _ h. if_ne t w true (f w) (λ q. h (sym q)))
      ∙ e in
    sym (if_ne t u true (f u) (λ q. ne (sym q))) ∙ count-full n u g l all
