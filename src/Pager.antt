-- ===== src/Pager.antt =====
-- VirtualMemoryAllocator: the memory of the forth interpreter, paged in on faults by
-- paged_forth_lib.c.
pub mod Handler
pub mod Fifo
pub mod Filling
pub mod Slots
pub mod Residents
pub mod Refines
pub mod Bounds
pub mod Contents
mod Tests
