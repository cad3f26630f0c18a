-- ===== src/Drivers/Vga/Screen.antt =====
-- What is on the text screen: scrolling, and writing within the 2000 cells.
use bonfire_os.Base.{
  List, [], ◌∷◌, length, All, get_or, ℕ, zero, suc, ◌+◌, ◌*◌, ◌≤◌, ◌<◌, ◌≡◌, ◌≢◌, refl, arith, ltb,
  if◌then◌else◌, update, List, ◌∷◌, ◌∙◌, ap,
}
use bonfire_os.Drivers.Vga.{
  Vga, vga_entry, vga_entry_color, blank, fill_cells, copy_up, vga_scroll, next_row, vga_putchar,
  vga_puts,
}

-- A filled range, cell by cell.
fill_cells_lem :
    (n start e : ℕ) (buf : ℕ → ℕ) (i : ℕ)
    → fill_cells n start e buf i
      ≡ (if ltb i start then buf i else if ltb i (start + n) then e else buf i)
unfolding fill_cells
fill_cells_lem zero start e buf i = ground arith
fill_cells_lem (suc n) start e buf i =
    ground (arith, fill_cells_lem n (start + 1) e (update buf start e) i)

-- The loop that copies cells upwards in place reads each cell before it is overwritten.
copy_up_lem :
    (n start : ℕ) (buf : ℕ → ℕ) (i : ℕ)
    → copy_up n start buf i
      ≡ (if ltb i start then buf i else if ltb i (start + n) then buf (i + 80) else buf i)
unfolding copy_up
copy_up_lem zero start buf i = ground arith
copy_up_lem (suc n) start buf i =
    ground (arith, copy_up_lem n (start + 1) (update buf start (buf (start + 80))) i)

-- Scrolling moves each of the lower 24 rows up by one, blanks the last row, touches no cell outside
-- the 2000 of the screen, and puts the cursor at the start of the last row.
pub vga_scroll_lem :
    (v : Vga) (r c : ℕ)
    → c < 80
    → let v' = vga_scroll v in
      (r < 24 → v'.vga_buffer (r * 80 + c) ≡ v.vga_buffer ((r + 1) * 80 + c))
      × (v'.vga_buffer (24 * 80 + c) ≡ blank v)
      × ((i : ℕ) → 2000 ≤ i → v'.vga_buffer i ≡ v.vga_buffer i)
      × (v'.vga_row ≡ 24)
      × (v'.vga_column ≡ 0)
unfolding vga_scroll
vga_scroll_lem v r c hc = (
  λ hr. ground (arith, cell (r * 80 + c), copied (r * 80 + c)),
  ground (arith, cell (24 * 80 + c)),
  λ i out. ground (arith, cell i, copied i),
  refl,
  refl,
)
  where
    cell :
        (i : ℕ)
        → fill_cells 80 1920 (blank v) (copy_up 1920 0 v.vga_buffer) i ≡ (
            if ltb i 1920
            then copy_up 1920 0 v.vga_buffer i
            else if ltb i (1920 + 80)
            then blank v
            else copy_up 1920 0 v.vga_buffer i)
    cell i = fill_cells_lem 80 1920 (blank v) (copy_up 1920 0 v.vga_buffer) i

    copied :
        (i : ℕ)
        → copy_up 1920 0 v.vga_buffer i ≡ (
            if ltb i 0
            then v.vga_buffer i
            else if ltb i (0 + 1920)
            then v.vga_buffer (i + 80)
            else v.vga_buffer i)
    copied i = copy_up_lem 1920 0 v.vga_buffer i

-- The cursor is on the screen.
pub record IsValid (v : Vga) : Type 0 where
  pub row_in : v.vga_row < 25
  pub column_in : v.vga_column < 80

scroll_cursor : (v : Vga) → ((vga_scroll v).vga_row ≡ 24) × ((vga_scroll v).vga_column ≡ 0)
unfolding vga_scroll
scroll_cursor v = (refl, refl)

next_row-IsValid : (v : Vga) → v.vga_row < 25 → IsValid (next_row v)
unfolding next_row
next_row-IsValid v h =
    ground (arith, scroll_cursor (record v { vga_column = 0; vga_row = v.vga_row + 1 }))

vga_putchar-IsValid : (c : ℕ) (v : Vga) → IsValid v → IsValid (vga_putchar c v)
unfolding vga_putchar
vga_putchar-IsValid c v h =
    let after = record v {
      vga_buffer =
          update v.vga_buffer (v.vga_row * 80 + v.vga_column)
            (vga_entry c (vga_entry_color v.vga_fg v.vga_bg));
      vga_column = v.vga_column + 1;
    } in
    ground (arith, next_row-IsValid v h.row_in, next_row-IsValid after h.row_in)

-- Writing any text keeps the cursor on the screen.
pub vga_puts-IsValid : (s : List ℕ) (v : Vga) → IsValid v → IsValid (vga_puts s v)
unfolding vga_puts
vga_puts-IsValid [] v h = h
vga_puts-IsValid (c ∷ s) v h = vga_puts-IsValid s (vga_putchar c v) (vga_putchar-IsValid c v h)

next_row-outside : (v : Vga) (i : ℕ) → 2000 ≤ i → (next_row v).vga_buffer i ≡ v.vga_buffer i
unfolding next_row
next_row-outside v i out = ground (arith, (vga_scroll_lem below 0 0 (omega arith)).2 i)
  where
    below : Vga
    below = record v { vga_column = 0; vga_row = v.vga_row + 1 }

vga_putchar-outside :
    (c : ℕ) (v : Vga) (i : ℕ)
    → IsValid v
    → 2000 ≤ i
    → (vga_putchar c v).vga_buffer i ≡ v.vga_buffer i
unfolding vga_putchar
vga_putchar-outside c v i h out =
    let after = record v {
      vga_buffer =
          update v.vga_buffer (v.vga_row * 80 + v.vga_column)
            (vga_entry c (vga_entry_color v.vga_fg v.vga_bg));
      vga_column = v.vga_column + 1;
    } in
    ground (arith, next_row-outside v i out, next_row-outside after i out)

-- With the cursor on the screen, `vga_puts` writes no cell outside the screen, whatever the text.
pub vga_puts-outside :
    (s : List ℕ) (v : Vga) (i : ℕ)
    → IsValid v
    → 2000 ≤ i
    → (vga_puts s v).vga_buffer i ≡ v.vga_buffer i
unfolding vga_puts
vga_puts-outside [] v i h out = refl
vga_puts-outside (c ∷ s) v i h out =
    vga_puts-outside s (vga_putchar c v) i (vga_putchar-IsValid c v h) out
    ∙ vga_putchar-outside c v i h out

-- Neither a line feed nor a carriage return.
abbrev pub IsPlain : List ℕ → Type 0
IsPlain = All (λ c. (c ≢ 10) × (c ≢ 13))

-- The screen after one plain character that does not end the row.
abbrev shown : ℕ → Vga → Vga
shown c v = record v {
  vga_buffer =
      update v.vga_buffer (v.vga_row * 80 + v.vga_column)
        (vga_entry c (vga_entry_color v.vga_fg v.vga_bg));
  vga_column = v.vga_column + 1;
}

putchar_plain :
    (c : ℕ) (v : Vga) → c ≢ 10 → c ≢ 13 → v.vga_column + 1 < 80 → vga_putchar c v ≡ shown c v
unfolding vga_putchar
putchar_plain c v n r room = ground arith

puts_step :
    (c : ℕ) (s : List ℕ) (v : Vga)
    → (c ≢ 10) × (c ≢ 13)
    → v.vga_column + 1 < 80
    → vga_puts (c ∷ s) v ≡ vga_puts s (shown c v)
unfolding vga_puts
puts_step c s v p room = ap (vga_puts s) (putchar_plain c v p.0 p.1 room)

puts_before :
    (s : List ℕ) (v : Vga) (i : ℕ)
    → IsPlain s
    → v.vga_column + length s < 80
    → i < v.vga_row * 80 + v.vga_column
    → (vga_puts s v).vga_buffer i ≡ v.vga_buffer i
unfolding vga_puts
puts_before [] v i p room h = refl
puts_before (c ∷ s) v i p room h =
    ap (λ w. w.vga_buffer i) (puts_step c s v p.0 (omega arith))
    ∙ puts_before s (shown c v) i p.1 (omega arith) (omega arith)
    ∙ ground arith

puts_cursor :
    (s : List ℕ) (v : Vga)
    → IsPlain s
    → v.vga_column + length s < 80
    → ((vga_puts s v).vga_row ≡ v.vga_row) × ((vga_puts s v).vga_column ≡ v.vga_column + length s)
unfolding vga_puts
puts_cursor [] v p room = (refl, omega arith)
puts_cursor (c ∷ s) v p room =
    let (row, column) = puts_cursor s (shown c v) p.1 (omega arith) in
    let step = puts_step c s v p.0 (omega arith) in
    (ap (λ w. w.vga_row) step ∙ row, ap (λ w. w.vga_column) step ∙ column ∙ omega arith)

puts_cell :
    (s : List ℕ) (v : Vga) (i : ℕ)
    → IsPlain s
    → v.vga_column + length s < 80
    → i < length s
    → (vga_puts s v).vga_buffer (v.vga_row * 80 + v.vga_column + i)
      ≡ vga_entry (get_or s i 0) (vga_entry_color v.vga_fg v.vga_bg)
puts_cell [] v i p room h = absurd (omega arith)
puts_cell (c ∷ s) v zero p room h =
    ap (λ w. w.vga_buffer (v.vga_row * 80 + v.vga_column + 0)) (puts_step c s v p.0 (omega arith))
    ∙ puts_before s (shown c v) (v.vga_row * 80 + v.vga_column + 0) p.1 (omega arith) (omega arith)
    ∙ ground arith
puts_cell (c ∷ s) v (suc i) p room h =
    ap (λ w. w.vga_buffer (v.vga_row * 80 + v.vga_column + suc i))
      (puts_step c s v p.0 (omega arith))
    ∙ ap (vga_puts s (shown c v)).vga_buffer (omega arith)
    ∙ puts_cell s (shown c v) i p.1 (omega arith) (omega arith)

-- Plain text that ends before the last column of the row appears in the row from the cursor on,
-- character by character in the current colours; the cursor moves behind it.
pub vga_puts-shows :
    (s : List ℕ) (v : Vga) (i : ℕ)
    → IsPlain s
    → v.vga_column + length s < 80
    → i < length s
    → let v' = vga_puts s v in
      (v'.vga_buffer (v.vga_row * 80 + v.vga_column + i)
        ≡ vga_entry (get_or s i 0) (vga_entry_color v.vga_fg v.vga_bg))
      × (v'.vga_row ≡ v.vga_row)
      × (v'.vga_column ≡ v.vga_column + length s)
vga_puts-shows s v i p room h =
    let (row, column) = puts_cursor s v p room in (puts_cell s v i p room h, row, column)
