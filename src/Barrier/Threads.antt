-- ===== src/Barrier/Threads.antt =====
-- AtomicInstructions/barrier_condition.c: `initialize_barrier` and `wait_at_barrier`, for threads that
-- wait at iterations 0, 1 and so on. What a thread does with the mutex held is one step; waiting on the
-- condition variable gives the mutex up, and pthread_cond_wait returns behind a broadcast, or early.
use duke_operatingsystems.Common.{
  Bool, Option, false, if◌then◌else◌, ltb, none, some, suc, true, update, ℕ, ◌<◌, ◌==◌, ◌||◌, ◌≡◌,
}

-- A thread is about to call wait_at_barrier(i), has passed the first assertion of the call and is about
-- to lock the mutex, or waits inside of the call.
pub data Pc : Type 0 where
  entering : ℕ → Pc
  locking : ℕ → Pc
  waiting : ℕ → Pc

pub record Barrier : Type 0 where
  pub threadnum : ℕ
  pub threads_at_barrier : ℕ
  pub barrier_opening_count : ℕ
  -- the threads that a broadcast has released from pthread_cond_wait
  pub signalled : ℕ → Bool
  pub pc : ℕ → Pc

unfoldable pub initialize_barrier : ℕ → Barrier
initialize_barrier threadnum_input = record {
  threadnum = threadnum_input;
  threads_at_barrier = 0;
  barrier_opening_count = 0;
  signalled = λ t. false;
  pc = λ t. entering 0;
}

-- The first assertion, which reads the count without the mutex; `none` if it fails.
unfoldable pub check : (t iteration : ℕ) → Barrier → Option Barrier
check t iteration s =
    if s.barrier_opening_count == iteration
    then some (record s { pc = update s.pc t (locking iteration) })
    else none

unfoldable pub is_blocked : Pc → Bool
is_blocked (entering i) = false
is_blocked (locking i) = false
is_blocked (waiting i) = true

-- pthread_cond_broadcast releases every thread that is blocked on the condition variable, and only those.
unfoldable pub broadcast : Barrier → ℕ → Bool
broadcast s u = s.signalled u || is_blocked (s.pc u)

-- From the lock to the return or the wait.
unfoldable pub arrive : (t iteration : ℕ) → Barrier → Barrier
arrive t iteration s =
    if suc s.threads_at_barrier == s.threadnum
    then record s {
      threads_at_barrier = 0;
      barrier_opening_count = suc s.barrier_opening_count;
      signalled = broadcast s;
      pc = update s.pc t (entering (suc iteration));
    }
    else record s {
      threads_at_barrier = suc s.threads_at_barrier;
      signalled = update s.signalled t false;
      pc = update s.pc t (waiting iteration);
    }

-- A turn of the loop of a waiting thread, from the return of pthread_cond_wait to the return of the call or
-- the next wait.
unfoldable pub wake : (t iteration : ℕ) → Barrier → Barrier
wake t iteration s =
    if ltb iteration s.barrier_opening_count
    then record s { pc = update s.pc t (entering (suc iteration)) }
    else record s { signalled = update s.signalled t false }

pub data Step (s : Barrier) : Barrier → Type 0 where
  checked :
      (t i : ℕ) (s' : Barrier)
      → t < s.threadnum
      → s.pc t ≡ entering i
      → check t i s ≡ some s'
      → Step s s'
  arrived : (t i : ℕ) → t < s.threadnum → s.pc t ≡ locking i → Step s (arrive t i s)
  woken :
      (t i : ℕ) → t < s.threadnum → s.pc t ≡ waiting i → s.signalled t ≡ true → Step s (wake t i s)
  -- POSIX lets a wait return early, with no broadcast.
  woken_early : (t i : ℕ) → t < s.threadnum → s.pc t ≡ waiting i → Step s (wake t i s)

pub data Reaches (s : Barrier) : Barrier → Type 0 where
  start : Reaches s s
  more : (s' s'' : Barrier) → Reaches s s' → Step s' s'' → Reaches s s''
