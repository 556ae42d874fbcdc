-- ===== src/Barrier.antt =====
-- AtomicInstructions/barrier_condition.c, the barrier with a mutex and a condition variable, and in Futex
-- AtomicInstructions/barrier_futex.c, the one with atomic operations.
pub mod Futex
pub mod Threads
pub mod Count
pub mod Safety
pub mod Reachable
mod Tests
