-- ===== src/Barrier/Futex/First.antt =====
-- The first round of the barrier on a futex.
use duke_operatingsystems.Common.{
  arith, eq→==, false, if◌then◌else◌, inr, le→ltb, ne→==, refl, same_or_not, suc, sym, true, zero,
  ℕ, ◌<◌, ◌∙◌, ◌≡◌, ◌⊎◌, ap, inl,
}
use duke_operatingsystems.Barrier.Count.{count, count-same, count-set, count-full, count-none}
use duke_operatingsystems.Barrier.Futex.{
  Place, Counters, Futex, wait_at_barrier, moved, calling, refused, stopped, adding, counting,
  sleeping, resetting, opening, leaving, FutexReaches, new_barrier, then_moved, new,
}
use duke_operatingsystems.Barrier.Futex.Opens.{moved_self, moved_other}
use duke_operatingsystems.Barrier.Futex.Places.{
  has_added, has_returned, is_early, not_returned, stays,
}

module _ (n : ℕ) where
  abbrev AllAdded : Futex → Type 0
  AllAdded w = (t : ℕ) → t < n → has_added (w.place t) ≡ true

  -- Nobody has found the barrier full, and the number of threads is right.
  record IsEarly (w : Futex) : Type 0 where
    early : (t : ℕ) → t < n → is_early (w.place t) ≡ true
    total : w.counters.threadnum ≡ n
    unopened : w.counters.barrier_opening_count ≡ 0
    arrived : w.counters.threads_at_barrier ≡ count n (λ t. has_added (w.place t))

  AllAdded-moved : (t : ℕ) (w : Futex) → AllAdded w → AllAdded (moved t w)
  AllAdded-moved t w all u lt = elim (same_or_not u t) [
    | inr ne ↦ ap has_added (moved_other t u w ne) ∙ all u lt
    | inl e ↦
        ap (λ x. has_added ((moved t w).place x)) e
        ∙ ap has_added
            (moved_self t w (w.place t) (wait_at_barrier (w.place t) w.counters).0 w.counters
              (wait_at_barrier (w.place t) w.counters).1 refl refl refl).0
        ∙ stays (w.place t) w.counters (ap (λ x. has_added (w.place x)) (sym e) ∙ all u lt)
  ]

  -- A step to another early place that adds what it says.
  stays-IsEarly :
      (t : ℕ) (w : Futex) (p p' : Place) (k : ℕ)
      → IsEarly w
      → w.place t ≡ p
      → wait_at_barrier p w.counters ≡ (p', record w.counters { threads_at_barrier = k })
      → is_early p' ≡ true
      → k ≡ count n (λ u. has_added ((moved t w).place u))
      → IsEarly (moved t w)
  stays-IsEarly t w p p' k is e g still sum =
      let (place, counters) =
        moved_self t w p p' w.counters (record w.counters { threads_at_barrier = k }) e refl g in
      record {
        early = λ u lt. elim (same_or_not u t) [
          | inl h ↦ ap (λ x. is_early ((moved t w).place x)) h ∙ ap is_early place ∙ still
          | inr ne ↦ ap is_early (moved_other t u w ne) ∙ is.early u lt
        ];
        total = ap (λ (c : Counters). c.threadnum) counters ∙ is.total;
        unopened = ap (λ (c : Counters). c.barrier_opening_count) counters ∙ is.unopened;
        arrived = ap (λ (c : Counters). c.threads_at_barrier) counters ∙ sum;
      }

  -- A step that adds nothing: the counters stay.
  same-IsEarly :
      (t : ℕ) (w : Futex) (p p' : Place)
      → IsEarly w
      → w.place t ≡ p
      → wait_at_barrier p w.counters ≡ (p', w.counters)
      → is_early p' ≡ true
      → has_added p' ≡ has_added p
      → IsEarly (moved t w)
  same-IsEarly t w p p' is e g still same =
      stays-IsEarly t w p p' w.counters.threads_at_barrier is e g still (
        is.arrived
        ∙ sym (
            count-same n (λ u. has_added (w.place u)) (λ u. has_added ((moved t w).place u))
              (λ u lt. elim (same_or_not u t) [
                | inl h ↦
                    ap (λ x. has_added ((moved t w).place x)) h
                    ∙ ap has_added (moved_self t w p p' w.counters w.counters e refl g).0
                    ∙ same
                    ∙ ap has_added (sym e)
                    ∙ ap (λ x. has_added (w.place x)) (sym h)
                | inr ne ↦ ap has_added (moved_other t u w ne)
              ])))

  added-IsEarly :
      (t : ℕ) (w : Futex) → t < n → IsEarly w → w.place t ≡ adding 0 → IsEarly (moved t w)
  unfolding wait_at_barrier
  added-IsEarly t w lt is e =
      stays-IsEarly t w (adding 0) (counting 0) (suc w.counters.threads_at_barrier) is e refl refl (
        ap suc is.arrived
        ∙ sym (
            count-set n t (λ u. has_added (w.place u)) (λ u. has_added ((moved t w).place u)) lt
              (ap has_added e)
              (ap has_added
                (moved_self t w (adding 0) (counting 0) w.counters
                  (record w.counters { threads_at_barrier = suc w.counters.threads_at_barrier }) e
                  refl refl).0)
              (λ u _ ne. ap has_added (moved_other t u w ne))))

  -- The thread that finds the barrier full: all have added themselves.
  full_all :
      (w : Futex) → IsEarly w → w.counters.threads_at_barrier ≡ w.counters.threadnum → AllAdded w
  full_all w is e u lt =
      count-full n u (λ x. has_added (w.place x)) lt (sym is.arrived ∙ e ∙ is.total)

  first_step :
      (t : ℕ) (w : Futex) (p : Place)
      → t < n
      → IsEarly w
      → w.place t ≡ p
      → is_early p ≡ true
      → IsEarly (moved t w) ⊎ AllAdded (moved t w)
  unfolding wait_at_barrier
  first_step t w (calling zero) lt is e h = inl (
      same-IsEarly t w (calling 0) (adding 0) is e
        (ap (λ b. (if b then adding 0 else refused 0, w.counters))
          (eq→== w.counters.barrier_opening_count 0 is.unopened))
        refl refl)
  first_step t w (adding zero) lt is e h = inl (added-IsEarly t w lt is e)
  first_step t w (counting zero) lt is e h =
      elim (same_or_not w.counters.threads_at_barrier w.counters.threadnum) [
        | inl full ↦ inr (AllAdded-moved t w (full_all w is full))
        | inr ne ↦ inl (
            same-IsEarly t w (counting 0) (sleeping 0) is e
              (ap (λ b. (if b then resetting 0 else sleeping 0, w.counters))
                (ne→== w.counters.threads_at_barrier w.counters.threadnum ne))
              refl refl)
      ]
  first_step t w (sleeping zero) lt is e h = inl (
      same-IsEarly t w (sleeping 0) (sleeping 0) is e
        (ap (λ b. (if b then calling 1 else sleeping 0, w.counters))
          (le→ltb 0 w.counters.barrier_opening_count (omega (arith, is.unopened))))
        refl refl)
  first_step t w (calling (suc i)) lt is e h = absurd (ground (arith, h))
  first_step t w (adding (suc i)) lt is e h = absurd (ground (arith, h))
  first_step t w (counting (suc i)) lt is e h = absurd (ground (arith, h))
  first_step t w (sleeping (suc i)) lt is e h = absurd (ground (arith, h))
  first_step t w (resetting i) lt is e h = absurd (ground (arith, h))
  first_step t w (opening i) lt is e h = absurd (ground (arith, h))
  first_step t w (leaving i) lt is e h = absurd (ground (arith, h))
  first_step t w (refused i) lt is e h = absurd (ground (arith, h))
  first_step t w (stopped i) lt is e h = absurd (ground (arith, h))

  first_round : (w : Futex) → FutexReaches n w → IsEarly w ⊎ AllAdded w
  unfolding new_barrier
  first_round w new = inl (record {
    early = λ t lt. refl;
    total = refl;
    unopened = refl;
    arrived = sym (count-none n (λ t. false) (λ t lt. refl));
  })
  first_round w (then_moved v t lt r) = elim (first_round v r) [
    | inl is ↦ first_step t v (v.place t) lt is refl (is.early t lt)
    | inr all ↦ inr (AllAdded-moved t v all)
  ]

  -- In every state that n threads reach: when one of them has returned from its first call of `wait_at_barrier`, each of them has
  -- added itself to the threads at the barrier in its first call.
  pub FutexReaches-first :
      (w : Futex) (t u : ℕ)
      → FutexReaches n w
      → t < n
      → u < n
      → has_returned (w.place t) ≡ true
      → has_added (w.place u) ≡ true
  FutexReaches-first w t u r t_lt u_lt back = elim (first_round w r) [
    | inl is ↦ absurd (ground (arith, back, not_returned (w.place t) (is.early t t_lt)))
    | inr all ↦ all u u_lt
  ]
