-- ===== src/Jos.antt =====
-- The kernel and boot loader of JOSSimulation.
pub mod PageTable
pub mod Printing
pub mod Printf
pub mod Syscalls
pub mod Traps
pub mod Console
pub mod Elf
pub mod Boot
pub mod Ide
pub mod Descriptors
pub mod Loader
mod Tests
