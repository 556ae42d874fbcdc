-- ===== src/Barrier/Safety.antt =====
-- What every reachable state of the barrier satisfies.
use duke_operatingsystems.Barrier.Count.{count, count-none, count-same, count-set, count-others}
use duke_operatingsystems.Barrier.Threads.{
  locking, check, initialize_barrier, waiting, entering, Barrier, Pc, arrive, wake, broadcast,
  is_blocked,
}
use duke_operatingsystems.Common.{
  ==→eq, Bool, arith, eq→==, false, if_self, ltb, ltb→lt, ne→==, refl, same_or_not, some, suc, sym,
  true, update, ℕ, ◌<◌, ◌==◌, ◌||◌, ◌∙◌, ◌≡◌, ◌≢◌, ◌≤◌, ◌⊎◌, ap, if_ne, if_intro, inl, inr,
}

unfoldable pub is_waiting : ℕ → Pc → Bool
is_waiting o (entering i) = false
is_waiting o (locking i) = false
is_waiting o (waiting i) = i == o

-- Where a thread is when the barrier has opened o times: before its call for o, waiting in it, still
-- inside of the call before, which has opened, or about to lock.
abbrev pub InRound : ℕ → Pc → Type 0
InRound o p =
    (p ≡ entering o) ⊎ (p ≡ waiting o) ⊎ ((i : ℕ) × (p ≡ waiting i) × (suc i ≡ o)) ⊎ (p ≡ locking o)

pub record IsBarrier (n : ℕ) (s : Barrier) : Type 0 where
  pub threads : s.threadnum ≡ n
  pub round : (t : ℕ) → t < n → InRound s.barrier_opening_count (s.pc t)
  pub tallied : s.threads_at_barrier ≡ count n (λ t. is_waiting s.barrier_opening_count (s.pc t))
  pub below : s.threads_at_barrier < n
  -- whoever waits in a call that has opened was released by the broadcast
  pub released :
      (t i : ℕ) → t < n → s.pc t ≡ waiting i → i < s.barrier_opening_count → s.signalled t ≡ true

or_true : (b : Bool) → (b || true) ≡ true
or_true false = refl
or_true true = refl

-- Which kind of state it is, and the number of the call.
abbrev tag : Pc → ℕ
tag (entering i) = 0
tag (locking i) = 1
tag (waiting i) = 2

abbrev call : Pc → ℕ
call (entering i) = i
call (locking i) = i
call (waiting i) = i

pub initialize_barrier-IsBarrier : (n : ℕ) → 0 < n → IsBarrier n (initialize_barrier n)
unfolding initialize_barrier is_waiting
initialize_barrier-IsBarrier n pos = record {
  threads = refl;
  round = λ t lt. inl refl;
  tallied = sym (count-none n (λ t. false) (λ t lt. refl));
  below = pos;
  released = λ t i lt at. absurd (omega (arith, ap tag at));
}

-- A thread counted as waiting is in the call for o.
is_waiting-waiting : (o : ℕ) (p : Pc) → is_waiting o p ≡ true → p ≡ waiting o
unfolding is_waiting
is_waiting-waiting o (entering i) h = absurd (ground (arith, h))
is_waiting-waiting o (locking i) h = absurd (ground (arith, h))
is_waiting-waiting o (waiting i) h = ap waiting (==→eq i o h)

-- The states behind a call that opens the barrier, and behind one that waits.
abbrev opened : ℕ → ℕ → Barrier → Barrier
opened t i s = record s {
  threads_at_barrier = 0;
  barrier_opening_count = suc s.barrier_opening_count;
  signalled = broadcast s;
  pc = update s.pc t (entering (suc i));
}

abbrev joined : ℕ → ℕ → Barrier → Barrier
joined t i s = record s {
  threads_at_barrier = suc s.threads_at_barrier;
  signalled = update s.signalled t false;
  pc = update s.pc t (waiting i);
}

module _ (n : ℕ) (s : Barrier) (k : IsBarrier n s) (t i : ℕ) (lt : t < n) where
  at_t : (p : Pc) → update s.pc t p t ≡ p
  at_t p = if_self t p (s.pc t)

  at_other : (p : Pc) (u : ℕ) → u ≢ t → update s.pc t p u ≡ s.pc u
  at_other p u ne = if_ne t u p (s.pc u) (λ e. ne (sym e))

  -- A thread that waits behind a step of another to a place where it does not wait.
  still_waiting :
      (p : Pc) (u j : ℕ) → tag p < 2 → update s.pc t p u ≡ waiting j → s.pc u ≡ waiting j
  still_waiting p u j small e = elim (same_or_not u t) [
    | inl h ↦ absurd (omega (arith, ap tag (sym (at_t p) ∙ ap (update s.pc t p) (sym h) ∙ e)))
    | inr g ↦ sym (at_other p u g) ∙ e
  ]

  -- A thread that is not waiting is in the call that the barrier opens next.
  pub call-round : tag (s.pc t) < 2 → s.barrier_opening_count ≡ call (s.pc t)
  call-round small = elim (k.round t lt) [
    | inl e ↦ sym (ap call e)
    | inr (inl e) ↦ absurd (omega (arith, ap tag e))
    | inr (inr (inl (j, e, q))) ↦ absurd (omega (arith, ap tag e))
    | inr (inr (inr e)) ↦ sym (ap call e)
  ]

  pub entering-round : s.pc t ≡ entering i → s.barrier_opening_count ≡ i
  entering-round at = call-round (omega (arith, ap tag at)) ∙ ap call at

  -- The assertion holds, and what follows it keeps the invariant.
  pub check-IsBarrier :
      s.pc t ≡ entering i → (s' : Barrier) × (check t i s ≡ some s') × IsBarrier n s'
  unfolding check is_waiting
  check-IsBarrier at =
      let o = s.barrier_opening_count in
      let same = entering-round at in
      (
        record s { pc = update s.pc t (locking i) },
        rw (eq→== o i same) refl,
        record {
          threads = k.threads;
          round = λ u l. elim (same_or_not u t) [
            | inl e ↦ inr (
                inr (
                  inr
                    (ap (update s.pc t (locking i)) e ∙ at_t (locking i) ∙ ap locking (sym same))))
            | inr g ↦ rw (at_other (locking i) u g) (k.round u l)
          ];
          tallied =
              k.tallied
              ∙ sym (
                  count-same n (λ u. is_waiting o (s.pc u))
                    (λ u. is_waiting o (update s.pc t (locking i) u))
                    (λ u l. elim (same_or_not u t) [
                      | inl h ↦
                          ap (is_waiting o) (ap (update s.pc t (locking i)) h ∙ at_t (locking i))
                          ∙ sym (ap (is_waiting o) (ap s.pc h ∙ at))
                      | inr g ↦ ap (is_waiting o) (at_other (locking i) u g)
                    ]));
          below = k.below;
          released = λ u j l e. k.released u j l (still_waiting (locking i) u j (omega arith) e);
        },
      )

  module _ (at : s.pc t ≡ locking i) where
    same_round : s.barrier_opening_count ≡ i
    same_round = call-round (omega (arith, ap tag at)) ∙ ap call at

    free : is_waiting s.barrier_opening_count (s.pc t) ≡ false
    unfolding is_waiting
    free = ap (is_waiting s.barrier_opening_count) at

    joined-IsBarrier : suc s.threads_at_barrier ≢ n → IsBarrier n (joined t i s)
    unfolding is_waiting
    joined-IsBarrier ne = record {
      threads = k.threads;
      round = λ u l. elim (same_or_not u t) [
        | inl e ↦ inr (
            inl (ap (update s.pc t (waiting i)) e ∙ at_t (waiting i) ∙ ap waiting (sym same_round)))
        | inr g ↦ rw (at_other (waiting i) u g) (k.round u l)
      ];
      tallied =
          ap suc k.tallied
          ∙ sym (
              count-set n t (λ u. is_waiting s.barrier_opening_count (s.pc u))
                (λ u. is_waiting s.barrier_opening_count (update s.pc t (waiting i) u)) lt free
                (ap (is_waiting s.barrier_opening_count) (at_t (waiting i))
                  ∙ eq→== i s.barrier_opening_count (sym same_round))
                (λ u l g. ap (is_waiting s.barrier_opening_count) (at_other (waiting i) u g)));
      below = ground (arith, k.below);
      released = λ u j l e later. elim (same_or_not u t) [
        | inl h ↦ absurd (
            omega (
              arith,
              later,
              same_round,
              ap call (sym (at_t (waiting i)) ∙ ap (update s.pc t (waiting i)) (sym h) ∙ e),
            ))
        | inr g ↦
            if_ne t u false (s.signalled u) (λ q. g (sym q))
            ∙ k.released u j l (sym (at_other (waiting i) u g) ∙ e) later
      ];
    }

    opened-IsBarrier : suc s.threads_at_barrier ≡ n → IsBarrier n (opened t i s)
    unfolding is_waiting broadcast is_blocked
    opened-IsBarrier e =
        let o = s.barrier_opening_count in
        let all : (u : ℕ) → u < n → u ≢ t → s.pc u ≡ waiting o = λ u l g.
          is_waiting-waiting o (s.pc u) (
            count-others n t u (λ w. is_waiting o (s.pc w)) lt free (ap suc (sym k.tallied) ∙ e) l
              g) in
        record {
          threads = k.threads;
          round = λ u l. elim (same_or_not u t) [
            | inl h ↦ inl (
                ap (update s.pc t (entering (suc i))) h
                ∙ at_t (entering (suc i))
                ∙ ap (λ j. entering (suc j)) (sym same_round))
            | inr g ↦ inr (inr (inl (o, at_other (entering (suc i)) u g ∙ all u l g, refl)))
          ];
          tallied = sym (
              count-none n (λ u. is_waiting (suc o) (update s.pc t (entering (suc i)) u))
                (λ u l. elim (same_or_not u t) [
                  | inl h ↦
                      ap (is_waiting (suc o))
                        (ap (update s.pc t (entering (suc i))) h ∙ at_t (entering (suc i)))
                  | inr g ↦
                      ap (is_waiting (suc o)) (at_other (entering (suc i)) u g ∙ all u l g)
                      ∙ ne→== o (suc o) (λ h. absurd (omega (arith, h)))
                ]));
          below = omega arith;
          released = λ u j l e later.
              ap (λ p. s.signalled u || is_blocked p)
                (still_waiting (entering (suc i)) u j (omega arith) e)
              ∙ or_true (s.signalled u);
        }

    pub arrive-IsBarrier : IsBarrier n (arrive t i s)
    unfolding arrive
    arrive-IsBarrier =
        if_intro (IsBarrier n) (suc s.threads_at_barrier == s.threadnum)
          (λ e. opened-IsBarrier (==→eq (suc s.threads_at_barrier) s.threadnum e ∙ k.threads))
          (λ e. joined-IsBarrier (λ h. absurd (ground (arith, e, h, k.threads))))

  woken-IsBarrier :
      s.pc t ≡ waiting i
      → i < s.barrier_opening_count
      → IsBarrier n (record s { pc = update s.pc t (entering (suc i)) })
  unfolding is_waiting
  woken-IsBarrier at later =
      let o = s.barrier_opening_count in
      let next : suc i ≡ o = elim (k.round t lt) [
        | inl e ↦ absurd (omega (arith, ap tag (sym e ∙ at)))
        | inr (inl e) ↦ absurd (omega (arith, later, ap call (sym e ∙ at)))
        | inr (inr (inl (j, e, q))) ↦ ap suc (ap call (sym at ∙ e)) ∙ q
        | inr (inr (inr e)) ↦ absurd (omega (arith, ap tag (sym e ∙ at)))
      ] in
      record {
        threads = k.threads;
        round = λ u l. elim (same_or_not u t) [
          | inl h ↦
              inl (
                ap (update s.pc t (entering (suc i))) h
                ∙ at_t (entering (suc i))
                ∙ ap entering next)
          | inr g ↦ rw (at_other (entering (suc i)) u g) (k.round u l)
        ];
        tallied =
            k.tallied
            ∙ sym (
                count-same n (λ u. is_waiting o (s.pc u))
                  (λ u. is_waiting o (update s.pc t (entering (suc i)) u))
                  (λ u l. elim (same_or_not u t) [
                    | inl h ↦
                        ap (is_waiting o)
                          (ap (update s.pc t (entering (suc i))) h ∙ at_t (entering (suc i)))
                        ∙ sym (
                            ap (is_waiting o) (ap s.pc h ∙ at)
                            ∙ ne→== i o (λ q. absurd (omega (arith, q, later))))
                    | inr g ↦ ap (is_waiting o) (at_other (entering (suc i)) u g)
                  ]));
        below = k.below;
        released =
            λ u j l e. k.released u j l (still_waiting (entering (suc i)) u j (omega arith) e);
      }

  -- A thread that woke early waits again.
  again-IsBarrier :
      s.pc t ≡ waiting i
      → s.barrier_opening_count ≤ i
      → IsBarrier n (record s { signalled = update s.signalled t false })
  again-IsBarrier at shut = record {
    threads = k.threads;
    round = k.round;
    tallied = k.tallied;
    below = k.below;
    released = λ u j l e later. elim (same_or_not u t) [
      | inl h ↦ absurd (omega (arith, later, shut, ap call (sym at ∙ ap s.pc (sym h) ∙ e)))
      | inr g ↦ if_ne t u false (s.signalled u) (λ q. g (sym q)) ∙ k.released u j l e later
    ];
  }

  pub wake-IsBarrier : s.pc t ≡ waiting i → IsBarrier n (wake t i s)
  unfolding wake
  wake-IsBarrier at =
      if_intro (IsBarrier n) (ltb i s.barrier_opening_count)
        (λ later. woken-IsBarrier at (ltb→lt i s.barrier_opening_count later))
        (λ shut. again-IsBarrier at (ground (arith, shut)))
