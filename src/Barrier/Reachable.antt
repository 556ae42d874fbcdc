-- ===== src/Barrier/Reachable.antt =====
-- What the threads at the barrier may rely on, in every state that they reach.
use duke_operatingsystems.Barrier.Count.{count-some}
use duke_operatingsystems.Barrier.Safety.{
  IsBarrier, is_waiting, entering-round, initialize_barrier-IsBarrier, arrive-IsBarrier,
  wake-IsBarrier, check-IsBarrier,
}
use duke_operatingsystems.Barrier.Threads.{
  locking, checked, arrived, woken, check, start, Barrier, wake, entering, Pc, Step, Reaches,
  waiting, initialize_barrier, more, arrived, woken, woken_early,
}
use mathlib.Core.Path.{subst}
use duke_operatingsystems.Common.{
  ap, arith, eq→==, if_self, inl, inr, lt→ltb, none, refl, some, sym, ◌∙◌, ◌≡◌, ◌⊎◌, ℕ, ◌<◌, ◌<◌,
  ◌<◌, suc, true,
}

some-eq : (s s' : Barrier) → some s ≡ some s' → s ≡ s'
some-eq s s' e = ap (λ o. elim o as (λ x. Barrier) [ none ↦ s | some x ↦ x ]) e

Step-IsBarrier : (n : ℕ) (s s' : Barrier) → IsBarrier n s → Step s s' → IsBarrier n s'
Step-IsBarrier n s s' k (checked t i r lt at run) =
    let (s2, run2, k2) = check-IsBarrier n s k t i (omega (arith, k.threads, lt)) at in
    subst (IsBarrier n) (some-eq s2 r (sym run2 ∙ run)) k2
Step-IsBarrier n s s' k (arrived t i lt at) =
    arrive-IsBarrier n s k t i (omega (arith, k.threads, lt)) at
Step-IsBarrier n s s' k (woken t i lt at released) =
    wake-IsBarrier n s k t i (omega (arith, k.threads, lt)) at
Step-IsBarrier n s s' k (woken_early t i lt at) =
    wake-IsBarrier n s k t i (omega (arith, k.threads, lt)) at

pub Reaches-IsBarrier :
    (n : ℕ) (s : Barrier) → 0 < n → Reaches (initialize_barrier n) s → IsBarrier n s
Reaches-IsBarrier n s pos start = initialize_barrier-IsBarrier n pos
Reaches-IsBarrier n s pos (more s' s2 reached step) =
    Step-IsBarrier n s' s2 (Reaches-IsBarrier n s' pos reached) step

-- With at least one thread, no reachable call of `wait_at_barrier` fails the assertion on the number of
-- openings.
pub check-Reaches :
    (n : ℕ) (s : Barrier) (t i : ℕ)
    → 0 < n
    → Reaches (initialize_barrier n) s
    → t < n
    → s.pc t ≡ entering i
    → (s' : Barrier) × (check t i s ≡ some s')
check-Reaches n s t i pos reached lt at =
    let (s', run, _) = check-IsBarrier n s (Reaches-IsBarrier n s pos reached) t i lt at in
    (s', run)

-- A thread that has counted itself in wait_at_barrier(i): it waits there, or has returned and gone on at
-- most into the next call.
abbrev pub HasArrived : ℕ → Pc → Type 0
HasArrived i p =
    (p ≡ waiting i) ⊎ (p ≡ entering (suc i)) ⊎ (p ≡ locking (suc i)) ⊎ (p ≡ waiting (suc i))

-- When a thread has returned from wait_at_barrier(i), every thread has called it, and none is more than
-- one call ahead.
pub Reaches-HasArrived :
    (n : ℕ) (s : Barrier) (t u i : ℕ)
    → 0 < n
    → Reaches (initialize_barrier n) s
    → t < n
    → u < n
    → s.pc t ≡ entering (suc i)
    → HasArrived i (s.pc u)
Reaches-HasArrived n s t u i pos reached lt l at =
    let k = Reaches-IsBarrier n s pos reached in
    let o = entering-round n s k t (suc i) lt at in
    elim (k.round u l) [
      | inl e ↦ inr (inl (e ∙ ap entering o))
      | inr (inl e) ↦ inr (inr (inr (e ∙ ap waiting o)))
      | inr (inr (inl (j, e, q))) ↦ inl (e ∙ ap waiting (omega (arith, q, o)))
      | inr (inr (inr e)) ↦ inr (inr (inl (e ∙ ap locking o)))
    ]

-- A thread that can go on: it is about to call or to lock, or a broadcast has released it and it leaves its
-- call.
abbrev pub CanGoOn : Barrier → ℕ → Type 0
CanGoOn s t =
    ((i : ℕ) × (s.pc t ≡ entering i))
    ⊎ ((i : ℕ) × (s.pc t ≡ locking i))
    ⊎ ((i : ℕ) × (s.pc t ≡ waiting i)
        × (s.signalled t ≡ true)
        × ((wake t i s).pc t ≡ entering (suc i)))

-- With at least one thread there is no deadlock: in every reachable state some thread is about to call
-- `wait_at_barrier` or to lock the mutex in it, or waits in a call where a broadcast has released it and that it
-- leaves when it wakes.
pub Reaches-CanGoOn :
    (n : ℕ) (s : Barrier)
    → 0 < n
    → Reaches (initialize_barrier n) s
    → (t : ℕ) × (t < n) × CanGoOn s t
unfolding wake is_waiting
Reaches-CanGoOn n s pos reached =
    let k = Reaches-IsBarrier n s pos reached in
    let o = s.barrier_opening_count in
    let (t, lt, off) =
      count-some n (λ t. is_waiting o (s.pc t)) (omega (arith, k.tallied, k.below)) in
    elim (k.round t lt) [
      | inl e ↦ (t, lt, inl (o, e))
      | inr (inl e) ↦ absurd (ground (arith, sym off ∙ ap (is_waiting o) e ∙ eq→== o o refl))
      | inr (inr (inr e)) ↦ (t, lt, inr (inl (o, e)))
      | inr (inr (inl (j, e, q))) ↦ (
        t,
        lt,
        inr (
            inr (
              j,
              e,
              k.released t j lt e (omega (arith, q)),
              rw (lt→ltb j o (omega (arith, q))) (if_self t (entering (suc j)) (s.pc t)),
            )),
      )
    ]
