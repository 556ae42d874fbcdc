-- ===== src/Queue.antt =====
-- AtomicInstructions/queue.c: the linked queue with counted pointers.
pub mod Ops
pub mod Fifo
pub mod Linked
pub mod Enqueue
pub mod Dequeue
pub mod Destroy
pub mod Threads
mod Tests
