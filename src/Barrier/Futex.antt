-- ===== src/Barrier/Futex.antt =====
-- AtomicInstructions/barrier_futex.c: `initialize_barrier` and `wait_at_barrier`, where each atomic operation
-- is one step. futex_wait returns at any time, as futex.c says, and futex_wake changes no variable.
pub mod Opens
pub mod Places
pub mod First
use duke_operatingsystems.Common.{if◌then◌else◌, ltb, suc, update, ℕ, ◌<◌, ◌==◌}

-- The program's variables.
pub record Counters : Type 0 where
  pub threadnum : ℕ
  pub threads_at_barrier : ℕ
  pub barrier_opening_count : ℕ

-- Where a thread is in wait_at_barrier(i): before the load and the first assertion, the addition to the
-- threads, the load of their number, the store of 0, the addition to the openings, or the last load and
-- assertions; in the loop; or it has failed the first assertion of the call, or the last one.
pub data Place : Type 0 where
  calling : ℕ → Place
  adding : ℕ → Place
  counting : ℕ → Place
  resetting : ℕ → Place
  opening : ℕ → Place
  leaving : ℕ → Place
  sleeping : ℕ → Place
  refused : ℕ → Place
  stopped : ℕ → Place

unfoldable pub wait_at_barrier : Place → Counters → Place × Counters
wait_at_barrier (calling i) c = (if c.barrier_opening_count == i then adding i else refused i, c)
wait_at_barrier (adding i) c =
    (counting i, record c { threads_at_barrier = suc c.threads_at_barrier })
wait_at_barrier (counting i) c =
    (if c.threads_at_barrier == c.threadnum then resetting i else sleeping i, c)
wait_at_barrier (resetting i) c = (opening i, record c { threads_at_barrier = 0 })
wait_at_barrier (opening i) c =
    (leaving i, record c { barrier_opening_count = suc c.barrier_opening_count })
wait_at_barrier (leaving i) c =
    (if ltb c.threads_at_barrier c.threadnum then calling (suc i) else stopped i, c)
wait_at_barrier (sleeping i) c =
    (if ltb i c.barrier_opening_count then calling (suc i) else sleeping i, c)
wait_at_barrier (refused i) c = (refused i, c)
wait_at_barrier (stopped i) c = (stopped i, c)

pub record Futex : Type 0 where
  pub counters : Counters
  pub place : ℕ → Place

unfoldable pub moved : ℕ → Futex → Futex
moved t w = record {
  counters = (wait_at_barrier (w.place t) w.counters).1;
  place = update w.place t (wait_at_barrier (w.place t) w.counters).0;
}

unfoldable pub new_barrier : ℕ → Futex
new_barrier threadnum_input = record {
  counters = record {
    threadnum = threadnum_input;
    threads_at_barrier = 0;
    barrier_opening_count = 0;
  };
  place = λ t. calling 0;
}

-- The states that n threads reach.
pub data FutexReaches (n : ℕ) : Futex → Type 0 where
  new : FutexReaches n (new_barrier n)
  then_moved : (w : Futex) (t : ℕ) → t < n → FutexReaches n w → FutexReaches n (moved t w)
