-- ===== src/Barrier/Futex/Opens.antt =====
-- How the barrier on a futex opens twice for one round.
use duke_operatingsystems.Common.{
  ap, arith, eq→==, if_ne, if_self, lt→ltb, ne→==, refl, suc, sym, true, zero, ℕ, ◌-◌, ◌<◌, ◌==◌,
  ◌∙◌, ◌≡◌, ◌≢◌, ◌≤◌,
}
use duke_operatingsystems.Barrier.Futex.{
  Place, Counters, Futex, FutexReaches, wait_at_barrier, moved, new_barrier, calling, then_moved,
  new, refused, adding, counting, sleeping, resetting, opening, leaving,
}

pub moved_self :
    (t : ℕ) (w : Futex) (p p' : Place) (c c' : Counters)
    → w.place t ≡ p
    → w.counters ≡ c
    → wait_at_barrier p c ≡ (p', c')
    → ((moved t w).place t ≡ p') × ((moved t w).counters ≡ c')
unfolding moved
moved_self t w p p' c c' e f g =
    let r = ap (λ x. wait_at_barrier x w.counters) e ∙ ap (wait_at_barrier p) f ∙ g in
    (
      if_self t (wait_at_barrier (w.place t) w.counters).0 (w.place t) ∙ ap (λ x. x.0) r,
      ap (λ x. x.1) r,
    )

pub moved_other : (t u : ℕ) (w : Futex) → u ≢ t → (moved t w).place u ≡ w.place u
unfolding moved
moved_other t u w ne =
    if_ne t u (wait_at_barrier (w.place t) w.counters).0 (w.place u) (λ e. ne (sym e))

module _ (n : ℕ) where
  -- Two threads a and b of n, at their places.
  abbrev pub Somewhere : (a b : ℕ) (p q : Place) → Counters → Type 0
  Somewhere a b p q c =
      (w : Futex) × FutexReaches n w × (w.place a ≡ p) × (w.place b ≡ q) × (w.counters ≡ c)

  first :
      (a b : ℕ) (p p' q : Place) (c c' : Counters)
      → a < n
      → a ≢ b
      → wait_at_barrier p c ≡ (p', c')
      → Somewhere a b p q c
      → Somewhere a b p' q c'
  first a b p p' q c c' lt ne g (w, r, e, f, h) =
      let (e', h') = moved_self a w p p' c c' e h g in
      (moved a w, then_moved w a lt r, e', moved_other a b w (λ x. ne (sym x)) ∙ f, h')

  second :
      (a b : ℕ) (p q q' : Place) (c c' : Counters)
      → b < n
      → a ≢ b
      → wait_at_barrier q c ≡ (q', c')
      → Somewhere a b p q c
      → Somewhere a b p q' c'
  second a b p q q' c c' lt ne g (w, r, e, f, h) =
      let (f', h') = moved_self b w q q' c c' f h g in
      (moved b w, then_moved w b lt r, moved_other b a w ne ∙ e, f', h')

  -- The first k threads wait, and the others are about to call.
  abbrev Waiting : ℕ → Type 0
  Waiting k =
      (w : Futex) × FutexReaches n w
      × ((t : ℕ) → k ≤ t → w.place t ≡ calling 0)
      × (w.counters ≡ record { threadnum = n; threads_at_barrier = k; barrier_opening_count = 0 })

  one_more : (k : ℕ) → suc k < n → Waiting k → Waiting (suc k)
  unfolding wait_at_barrier
  one_more k lt (w, r, places, c) =
      let c0 : Counters = record {
        threadnum = n;
        threads_at_barrier = k;
        barrier_opening_count = 0;
      } in
      let c1 : Counters = record {
        threadnum = n;
        threads_at_barrier = suc k;
        barrier_opening_count = 0;
      } in
      let below : k < n = omega (arith, lt) in
      let (p1, d1) = moved_self k w (calling 0) (adding 0) c0 c0 (places k (omega arith)) c refl in
      let w1 = moved k w in
      let (p2, d2) = moved_self k w1 (adding 0) (counting 0) c0 c1 p1 d1 refl in
      let w2 = moved k w1 in
      let (p3, d3) =
        moved_self k w2 (counting 0) (sleeping 0) c1 c1 p2 d2
          (rw (ne→== (suc k) n (λ e. absurd (omega (arith, e, lt)))) refl) in
      (
        moved k w2,
        then_moved w2 k below (then_moved w1 k below (then_moved w k below r)),
        (λ t le.
            let ne : t ≢ k = λ e. absurd (omega (arith, e, le)) in
            moved_other k t w2 ne
            ∙ moved_other k t w1 ne
            ∙ moved_other k t w ne
            ∙ places t (omega (arith, le))),
        d3,
      )

  all_wait : (k : ℕ) → k < n → Waiting k
  unfolding new_barrier
  all_wait zero lt = (new_barrier n, new, (λ t le. refl), refl)
  all_wait (suc k) lt = one_more k lt (all_wait k (omega (arith, lt)))

-- Among any number of threads from two on, the last two can both find the barrier full: it then opens
-- twice for the first round, and one of them fails the first assertion of its next call.
pub opens_twice :
    (n : ℕ)
    → 2 ≤ n
    → (w : Futex) × FutexReaches n w
      × (w.counters ≡ record { threadnum = n; threads_at_barrier = 0; barrier_opening_count = 2 })
      × (w.place (n - 1) ≡ refused 1)
unfolding wait_at_barrier
opens_twice n le =
    let k = n - 2 in
    let (w, r, places, c_is) = all_wait n k (omega (arith, le)) in
    let c : ℕ → ℕ → Counters =
      λ x y. record { threadnum = n; threads_at_barrier = x; barrier_opening_count = y } in
    let apart : k ≢ n - 1 = λ e. absurd (omega (arith, e, le)) in
    let below_a : k < n = omega (arith, le) in
    let below_b : n - 1 < n = omega (arith, le) in
    let all_there : (suc (suc k) == n) ≡ true = eq→== (suc (suc k)) n (omega (arith, le)) in
    let s0 : Somewhere n k (n - 1) (calling 0) (calling 0) (c k 0) =
      (w, r, places k (omega arith), places (n - 1) (omega arith), c_is) in
    let s1 =
      first n k (n - 1) (calling 0) (adding 0) (calling 0) (c k 0) (c k 0) below_a apart refl s0 in
    let s2 =
      second n k (n - 1) (adding 0) (calling 0) (adding 0) (c k 0) (c k 0) below_b apart refl s1 in
    let s3 =
      first n k (n - 1) (adding 0) (counting 0) (adding 0) (c k 0) (c (suc k) 0) below_a apart refl
        s2 in
    let s4 =
      second n k (n - 1) (counting 0) (adding 0) (counting 0) (c (suc k) 0) (c (suc (suc k)) 0)
        below_b apart refl s3 in
    let s5 =
      first n k (n - 1) (counting 0) (resetting 0) (counting 0) (c (suc (suc k)) 0)
        (c (suc (suc k)) 0) below_a apart (rw all_there refl) s4 in
    let s6 =
      second n k (n - 1) (resetting 0) (counting 0) (resetting 0) (c (suc (suc k)) 0)
        (c (suc (suc k)) 0) below_b apart (rw all_there refl) s5 in
    let s7 =
      first n k (n - 1) (resetting 0) (opening 0) (resetting 0) (c (suc (suc k)) 0) (c 0 0) below_a
        apart refl s6 in
    let s8 =
      second n k (n - 1) (opening 0) (resetting 0) (opening 0) (c 0 0) (c 0 0) below_b apart refl
        s7 in
    let s9 =
      first n k (n - 1) (opening 0) (leaving 0) (opening 0) (c 0 0) (c 0 1) below_a apart refl s8 in
    let s10 =
      second n k (n - 1) (leaving 0) (opening 0) (leaving 0) (c 0 1) (c 0 2) below_b apart refl
        s9 in
    let s11 =
      second n k (n - 1) (leaving 0) (leaving 0) (calling 1) (c 0 2) (c 0 2) below_b apart
        (rw (lt→ltb 0 n (omega (arith, le))) refl) s10 in
    let s12 =
      second n k (n - 1) (leaving 0) (calling 1) (refused 1) (c 0 2) (c 0 2) below_b apart refl
        s11 in
    let (w', r', at_a, at_b, counts) = s12 in (w', r', counts, at_b)
