-- ===== src/Fs.antt =====
-- The in-memory file system of src/kernel/fs/fs.c.
pub mod Path
pub mod Tree
pub mod Ops
mod Tests
