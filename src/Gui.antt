-- ===== src/Gui.antt =====
-- The games of the graphical desktop, src/kernel/gui/gui.c.
pub mod Snake
pub mod Mines
pub mod Notepad
mod Tests
