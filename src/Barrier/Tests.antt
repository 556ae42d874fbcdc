-- ===== src/Barrier/Tests.antt =====
-- Two threads at the barrier: the second opens it, and the first is still inside of its call.
use duke_operatingsystems.Barrier.Futex.Opens.{opens_twice}
use duke_operatingsystems.Barrier.Futex.{
  Futex, FutexReaches, refused, moved, new_barrier, new, then_moved, wait_at_barrier,
}
use duke_operatingsystems.Barrier.Futex.Places.{has_added, has_returned}
use duke_operatingsystems.Barrier.Futex.First.{FutexReaches-first}
use duke_operatingsystems.Barrier.Reachable.{
  HasArrived, check-Reaches, Reaches-HasArrived, CanGoOn, Reaches-CanGoOn,
}
use duke_operatingsystems.Barrier.Threads.{
  locking, checked, arrived, broadcast, check, Reaches, Barrier, initialize_barrier, arrive,
  entering, more, start, arrived, waiting,
}
use duke_operatingsystems.Common.{
  List, [], arith, refl, some, true, update, ℕ, ◌<◌, ◌∷◌, ◌≡◌, false,
}

-- Both have passed the assertion, one after the other, before either locks.
abbrev first_checked : Barrier
first_checked = record {
  threadnum = 2;
  threads_at_barrier = 0;
  barrier_opening_count = 0;
  signalled = λ t. false;
  pc = update (λ t. entering 0) 0 (locking 0);
}

abbrev both_checked : Barrier
both_checked = record first_checked { pc = update first_checked.pc 1 (locking 0) }

abbrev first_waits : Barrier
first_waits = record {
  threadnum = 2;
  threads_at_barrier = 1;
  barrier_opening_count = 0;
  signalled = update (λ t. false) 0 false;
  pc = update both_checked.pc 0 (waiting 0);
}

abbrev second_passed : Barrier
second_passed = record {
  threadnum = 2;
  threads_at_barrier = 0;
  barrier_opening_count = 1;
  signalled = broadcast first_waits;
  pc = update first_waits.pc 1 (entering 1);
}

second_passed_reached : Reaches (initialize_barrier 2) second_passed
unfolding initialize_barrier check arrive broadcast
second_passed_reached =
    let one =
      more (initialize_barrier 2) first_checked start
        (checked 0 0 first_checked (omega arith) refl refl) in
    let two =
      more first_checked both_checked one (checked 1 0 both_checked (omega arith) refl refl) in
    more first_waits second_passed
      (more both_checked first_waits two (arrived 0 0 (omega arith) refl))
      (arrived 1 0 (omega arith) refl)

check-Reaches_example : (s' : Barrier) × (check 1 1 second_passed ≡ some s')
check-Reaches_example =
    check-Reaches 2 second_passed 1 1 (omega arith) second_passed_reached (omega arith) refl

Reaches-HasArrived_example : HasArrived 0 (second_passed.pc 0)
Reaches-HasArrived_example =
    Reaches-HasArrived 2 second_passed 1 0 0 (omega arith) second_passed_reached (omega arith)
      (omega arith) refl

Reaches-CanGoOn_example : (t : ℕ) × (t < 2) × CanGoOn second_passed t
Reaches-CanGoOn_example = Reaches-CanGoOn 2 second_passed (omega arith) second_passed_reached

opens_twice_example :
    (w : Futex) × FutexReaches 2 w
    × (w.counters ≡ record { threadnum = 2; threads_at_barrier = 0; barrier_opening_count = 2 })
    × (w.place 1 ≡ refused 1)
opens_twice_example = opens_twice 2 (omega arith)

-- The steps of two threads, the last one first.
abbrev AreThreads : List ℕ → Type 0
AreThreads [] = Unit
AreThreads (t ∷ ts) = (t < 2) × AreThreads ts

abbrev steps : List ℕ → Futex
steps [] = new_barrier 2
steps (t ∷ ts) = moved t (steps ts)

steps_reached : (ts : List ℕ) → AreThreads ts → FutexReaches 2 (steps ts)
steps_reached [] h = new
steps_reached (t ∷ ts) (lt, h) = then_moved (steps ts) t lt (steps_reached ts h)

-- Thread 0 sleeps, and thread 1 opens the barrier and goes on to its second call.
abbrev schedule : List ℕ
schedule = 1 ∷ 1 ∷ 1 ∷ 1 ∷ 1 ∷ 1 ∷ 0 ∷ 0 ∷ 0 ∷ []

schedule-AreThreads : AreThreads schedule
schedule-AreThreads = (
  omega arith,
  (
    omega arith,
    (
      omega arith,
      (omega arith, (omega arith, (omega arith, (omega arith, (omega arith, (omega arith, tt)))))),
    ),
  ),
)

gone_on : has_returned ((steps schedule).place 1) ≡ true
unfolding moved new_barrier wait_at_barrier
gone_on = refl

FutexReaches-first_example : has_added ((steps schedule).place 0) ≡ true
FutexReaches-first_example =
    FutexReaches-first 2 (steps schedule) 1 0 (steps_reached schedule schedule-AreThreads)
      (omega arith) (omega arith) gone_on
