-- ===== src/Dmm.antt =====
-- The heap manager of HeapManagerSimulation/dmm.c, over a memory of block headers.
pub mod Defs
pub mod Free
pub mod Layout
pub mod Allocate
pub mod Walk
pub mod Merge
pub mod Dfree
pub mod Release
pub mod Contract
pub mod Coalesced
pub mod RoundTrip
pub mod Overflow
pub mod Dmalloc
pub mod Client
pub mod Holding
pub mod Programs
mod Tests
