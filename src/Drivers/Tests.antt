-- ===== src/Drivers/Tests.antt =====
-- The drivers' theorems at concrete inputs.
use bonfire_os.Base.{ℕ, ◌≤◌, ◌≡◌, refl, arith, List, [], ◌∷◌, false, length}
use bonfire_os.Base.Int.{pos}
use bonfire_os.Drivers.Keyboard.{
  Keyboard, keyboard_irq_handler, keyboard_getchar, keyboard_get_scancode, scancode_to_ascii,
}
use bonfire_os.Drivers.Keyboard.Queue.{
  chars, events, keyboard_irq_handler-IsValid, keyboard_irq_handler-chars,
  keyboard_irq_handler-events, keyboard_getchar-chars, keyboard_get_scancode-events,
  readers-IsValid,
}
use bonfire_os.Drivers.Vga.{
  Vga, vga_puts, vga_scroll, vga_putdec, blank, vga_entry, vga_entry_color,
}
use bonfire_os.Drivers.Vga.Screen.{
  vga_scroll_lem, vga_puts-outside, vga_puts-shows, vga_puts-IsValid,
}
use bonfire_os.Drivers.Vga.Decimal.{vga_putdec-value, IsDigits, value}
use bonfire_os.Drivers.Mouse.{Mouse}

abbrev no_keys : Keyboard
no_keys = record {
  keybuf = λ i. 0;
  keybuf_head = 255;
  keybuf_tail = 255;
  keybuf_full = false;
  scev_buf = λ i. (0, false);
  scev_head = 63;
  scev_tail = 63;
  scev_count = 0;
}

no_keys-IsValid : bonfire_os.Drivers.Keyboard.Queue.IsValid no_keys
no_keys-IsValid = record {
  head_in = omega arith;
  tail_in = omega arith;
  full_meets = λ e. refl;
  scev_tail_in = omega arith;
  scev_fits = omega arith;
  scev_head_at = refl;
}

abbrev typed_a : Keyboard
typed_a = keyboard_irq_handler 0x1e no_keys

typed_a-IsValid : bonfire_os.Drivers.Keyboard.Queue.IsValid typed_a
typed_a-IsValid = keyboard_irq_handler-IsValid 0x1e no_keys no_keys-IsValid

keyboard_irq_handler-chars_example : chars (keyboard_irq_handler 0x1e no_keys) ≡ 97 ∷ []
unfolding scancode_to_ascii
keyboard_irq_handler-chars_example =
    keyboard_irq_handler-chars 0x1e no_keys no_keys-IsValid (omega arith)

abbrev screen : Vga
screen = record { vga_buffer = λ i. i; vga_row = 24; vga_column = 70; vga_fg = 7; vga_bg = 0 }

screen-IsValid : bonfire_os.Drivers.Vga.Screen.IsValid screen
screen-IsValid = record { row_in = omega arith; column_in = omega arith }

vga_putdec-value_example :
    (ds : List ℕ) × (vga_putdec 4294967295 screen ≡ vga_puts ds screen)
    × IsDigits ds
    × (value 0 ds ≡ 4294967295)
    × (length ds ≤ 10)
vga_putdec-value_example = vga_putdec-value 4294967295 screen (omega arith)

abbrev at_rest : Mouse
at_rest = record {
  mouse_dx = pos 5;
  mouse_dy = pos 0;
  mouse_buttons = 0;
  buf0 = 0;
  buf1 = 0;
  buf2 = 0;
  mouse_phase = 0;
}
