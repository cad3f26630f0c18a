-- ===== src/Kernel.antt =====
-- The kernel proper: the bump allocator, the process table with its scheduler, interrupt set-up.
pub mod Heap
pub mod Process
pub mod Arch
mod Tests
