-- ===== src/Shell.antt =====
-- The shell's parts under src/kernel/shell.
pub mod Alias
pub mod Commands
pub mod Loop
mod Tests
