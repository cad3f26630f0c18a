-- ===== src/Drivers.antt =====
-- The device drivers that hold state: keyboard, mouse, VGA text, timer. Port input is a parameter.
pub mod Keyboard
pub mod Vga
pub mod Mouse
mod Tests
