-- ===== src/Gui/Snake.antt =====
-- src/kernel/gui/gui.c: the game of snake. The milliseconds of the timer are an argument.
pub mod Play
use bonfire_os.Base.{
  ℕ, zero, suc, ◌+◌, false, none, some, [], ◌∷◌, Option, Bool, List, u32, if◌then◌else◌, take, leb,
  true, ◌==◌, length, ◌^◌, not, ◌-◌, ◌&&◌, ◌||◌, ltb, get_or, ◌%◌,
}

abbrev pub snake_max : ℕ
snake_max = 64

abbrev pub grid_w : ℕ
grid_w = 20

abbrev pub grid_h : ℕ
grid_h = 12

-- The variables of the game. The cells are the first `snake_len` entries of `snake_x` and
-- `snake_y`, the head first; entries behind them are written before they are read.
pub record Snake : Type 0 where
  pub snake_cells : List (ℕ × ℕ)
  pub snake_dir : ℕ
  pub snake_fx : ℕ
  pub snake_fy : ℕ
  pub snake_next_tick : ℕ
  pub snake_alive : Bool

unfoldable pub snake_reset : ℕ → Snake
snake_reset now = record {
  snake_cells = (8, 6) ∷ (7, 6) ∷ (6, 6) ∷ [];
  snake_dir = 1;
  snake_fx = 12;
  snake_fy = 6;
  snake_next_tick = u32 (now + 220);
  snake_alive = true;
}

-- The cell before the head; `none` is one with a negative coordinate.
unfoldable pub next_cell : ℕ → ℕ × ℕ → Option (ℕ × ℕ)
next_cell dir (x, y) =
    if dir == 0
    then (if y == 0 then none else some (x, y - 1))
    else if dir == 1
    then some (x + 1, y)
    else if dir == 2
    then some (x, y + 1)
    else if dir == 3
    then (if x == 0 then none else some (x - 1, y))
    else some (x, y)

-- Is the cell one of these?
unfoldable pub taken : ℕ × ℕ → List (ℕ × ℕ) → Bool
taken c [] = false
taken c (d ∷ cells) = let later = taken c cells in d.0 == c.0 && d.1 == c.1 || later

abbrev pub dies : Snake → Snake
dies s = record s { snake_alive = false }

-- The cells move up behind the new head; on the food the last one stays, where there is room.
unfoldable pub snake_move : ℕ × ℕ → Snake → Snake
snake_move c s =
    let shifted = c ∷ s.snake_cells in
    let moved = take (length s.snake_cells) shifted in
    if c.0 == s.snake_fx && c.1 == s.snake_fy
    then record s {
      snake_cells = if ltb (length s.snake_cells) (snake_max - 1) then shifted else moved;
      snake_fx = (s.snake_fx + 7) % grid_w;
      snake_fy = (s.snake_fy + 3) % grid_h;
    }
    else record s { snake_cells = moved }

-- The signed difference of the times is negative.
abbrev pub too_early : ℕ → Snake → Bool
too_early now s = leb (2 ^ 31) (u32 (now + 2 ^ 32 - s.snake_next_tick))

unfoldable pub snake_tick : ℕ → Snake → Snake
snake_tick now s0 =
    let s = record s0 { snake_next_tick = u32 (now + 220) } in
    if not s0.snake_alive || too_early now s0
    then s0
    else elim (next_cell s.snake_dir (get_or s.snake_cells 0 (0, 0))) [
      | none ↦ dies s
      | some c ↦
          if not (ltb c.0 grid_w && ltb c.1 grid_h)
          then dies s
          else if taken c s.snake_cells
          then dies s
          else snake_move c s
    ]

-- The keys of the game in `handle_key`.
unfoldable pub snake_key : ℕ → ℕ → Snake → Snake
snake_key c now s =
    if c == b'r' || c == b'R'
    then snake_reset now
    else if c == b'w' || c == b'W'
    then record s { snake_dir = 0 }
    else if c == b'd' || c == b'D'
    then record s { snake_dir = 1 }
    else if c == b's' || c == b'S'
    then record s { snake_dir = 2 }
    else if c == b'a' || c == b'A'
    then record s { snake_dir = 3 }
    else s
