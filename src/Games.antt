-- ===== src/Games.antt =====
-- The hosts of games: src/kernel/doom_host and src/kernel/redalert_host.
pub mod Malloc
mod Tests
