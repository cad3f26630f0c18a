-- ===== src/Drivers/Vga.antt =====
-- src/kernel/drivers/vga.c: the 80×25 text screen. The buffer at 0xB8000 is a function from cell
-- indices to 16-bit entries.
pub mod Screen
pub mod Decimal
use Prim.Native.Nat.{bit_or}
use bonfire_os.Base.{
  ℕ, zero, suc, ◌+◌, ◌-◌, ◌*◌, ◌/◌, ◌%◌, ◌^◌, List, [], ◌∷◌, ◌++◌, leb, ◌==◌, if◌then◌else◌, u8,
  u16, update, get_or,
}

abbrev vga_width : ℕ
vga_width = 80

abbrev vga_height : ℕ
vga_height = 25

-- The static variables of vga.c with the buffer.
pub record Vga : Type 0 where
  pub vga_buffer : ℕ → ℕ
  pub vga_row : ℕ
  pub vga_column : ℕ
  pub vga_fg : ℕ
  pub vga_bg : ℕ

abbrev pub vga_entry_color : ℕ → ℕ → ℕ
vga_entry_color fg bg = u8 (bit_or fg (bg * 16))

abbrev pub vga_entry : ℕ → ℕ → ℕ
vga_entry c color = u16 (bit_or c (color * 256))

-- A space in the current colours.
abbrev pub blank : Vga → ℕ
blank v = vga_entry b' ' (vga_entry_color v.vga_fg v.vga_bg)

-- for (i = start; i < start + n; i++) vga_buffer[i] = e;
unfoldable pub fill_cells : ℕ → ℕ → ℕ → (ℕ → ℕ) → ℕ → ℕ
fill_cells zero start e buf = buf
fill_cells (suc n) start e buf = fill_cells n (start + 1) e (update buf start e)

-- for (i = start; i < start + n; i++) vga_buffer[i] = vga_buffer[i + VGA_WIDTH];
unfoldable pub copy_up : ℕ → ℕ → (ℕ → ℕ) → ℕ → ℕ
copy_up zero start buf = buf
copy_up (suc n) start buf = copy_up n (start + 1) (update buf start (buf (start + vga_width)))

unfoldable pub vga_clear : Vga → Vga
vga_clear v = record v {
  vga_row = 0;
  vga_column = 0;
  vga_buffer = fill_cells (vga_width * vga_height) 0 (blank v) v.vga_buffer;
}

unfoldable vga_set_color : ℕ → ℕ → Vga → Vga
vga_set_color fg bg v = record v { vga_fg = fg; vga_bg = bg }

unfoldable pub vga_scroll : Vga → Vga
vga_scroll v = record v {
  vga_buffer =
      fill_cells vga_width ((vga_height - 1) * vga_width) (blank v)
        (copy_up ((vga_height - 1) * vga_width) 0 v.vga_buffer);
  vga_row = vga_height - 1;
  vga_column = 0;
}

-- `vga_column = 0; if (++vga_row >= VGA_HEIGHT) vga_scroll();`
unfoldable pub next_row : Vga → Vga
next_row v =
    let v' = record v { vga_column = 0; vga_row = v.vga_row + 1 } in
    if leb vga_height v'.vga_row then vga_scroll v' else v'

unfoldable pub vga_putchar : ℕ → Vga → Vga
vga_putchar c v =
    if c == 10
    then next_row v
    else if c == 13
    then record v { vga_column = 0 }
    else let idx = v.vga_row * vga_width + v.vga_column in
      let entry = vga_entry c (vga_entry_color v.vga_fg v.vga_bg) in
      let v' = record v {
        vga_buffer = update v.vga_buffer idx entry;
        vga_column = v.vga_column + 1;
      } in
      if leb vga_width v'.vga_column then next_row v' else v'

-- The characters of a C string, without its terminator.
unfoldable pub vga_puts : List ℕ → Vga → Vga
vga_puts [] v = v
vga_puts (c ∷ s) v = vga_puts s (vga_putchar c v)

abbrev hex : List ℕ
hex =
    b'0' ∷ b'1' ∷ b'2' ∷ b'3' ∷ b'4' ∷ b'5' ∷ b'6' ∷ b'7' ∷ b'8' ∷ b'9' ∷ b'A' ∷ b'B' ∷ b'C' ∷ b'D'
    ∷ b'E' ∷ b'F' ∷ []

-- for (i = n - 1; i >= 0; i--) the hexadecimal digit of `x` at place `i`
unfoldable hex_digits : ℕ → ℕ → List ℕ
hex_digits zero x = []
hex_digits (suc i) x = get_or hex (x / 2 ^ (i * 4) % 16) 0 ∷ hex_digits i x

unfoldable vga_puthex : ℕ → Vga → Vga
vga_puthex n v = vga_puts (hex_digits 8 n) (vga_putchar b'x' (vga_putchar b'0' v))

-- The loop that fills `buf` and, since it is then read backwards, what it puts on the screen: the
-- digits behind those that `out` holds already. Fuel bounds the number of digits.
unfoldable pub dec_digits : ℕ → ℕ → List ℕ → List ℕ
dec_digits zero n out = out
dec_digits (suc fuel) n out =
    let rest = dec_digits fuel (n / 10) ((b'0' + n % 10) ∷ out) in if n == 0 then out else rest

-- `buf` has room for 12 digits.
unfoldable pub vga_putdec : ℕ → Vga → Vga
unfolding dec_digits
vga_putdec n v = if n == 0 then vga_putchar b'0' v else vga_puts (dec_digits 12 n []) v
