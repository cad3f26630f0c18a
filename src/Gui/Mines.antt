-- ===== src/Gui/Mines.antt =====
-- src/kernel/gui/gui.c: minesweeper. A cell (px, py) stands for the code's coordinates plus one, so
-- that the row and the column in front of the board are 0.
pub mod Reveal
pub mod Board
pub mod Closed
pub mod Placing
pub mod Draws
pub mod Ends
pub mod Rounds
pub mod First
use Prim.Native.Nat.{bit_xor}
use bonfire_os.Base.{
  ℕ, zero, suc, ◌+◌, true, false, none, some, [], ◌∷◌, ◌==◌, ◌&&◌, Option, Bool, if◌then◌else◌, u32,
  ltb, ◌-◌, List, leb, ◌%◌, ◌||◌, ◌*◌, ◌/◌, update, not,
}

abbrev ms_cols : ℕ
ms_cols = 9

abbrev ms_rows : ℕ
ms_rows = 9

abbrev pub ms_cells : ℕ
ms_cells = 81

abbrev pub ms_mines : ℕ
ms_mines = 10

-- The variables of the game. In `ms_vis` 0 is a hidden cell, 1 a revealed one, 2 a flag.
pub record Mines : Type 0 where
  pub ms_mine : ℕ → Bool
  pub ms_adj : ℕ → ℕ
  pub ms_vis : ℕ → ℕ
  pub ms_started : Bool
  pub ms_dead : Bool
  pub ms_win : Bool
  pub ms_rng_state : ℕ

unfoldable minesweeper_clear_board : Mines → Mines
minesweeper_clear_board g = record g {
  ms_mine = λ i. if ltb i ms_cells then false else g.ms_mine i;
  ms_adj = λ i. if ltb i ms_cells then 0 else g.ms_adj i;
  ms_vis = λ i. if ltb i ms_cells then 0 else g.ms_vis i;
  ms_started = false;
  ms_dead = false;
  ms_win = false;
}

unfoldable pub ms_rand_u32 : Mines → ℕ × Mines
ms_rand_u32 g =
    let r = u32 (g.ms_rng_state * 1664525 + 1013904223) in (r, record g { ms_rng_state = r })

-- The cell is on the board.
abbrev pub on_board : ℕ × ℕ → Bool
on_board (px, py) = (ltb 0 px && leb px ms_cols) && (ltb 0 py && leb py ms_rows)

-- The index of a cell on the board.
abbrev pub index : ℕ × ℕ → ℕ
index (px, py) = (py - 1) * ms_cols + (px - 1)

-- The cells around a cell of the board, in the order of the loops over dy and dx.
abbrev pub around : ℕ × ℕ → List (ℕ × ℕ)
around (px, py) =
    (px - 1, py - 1)
    ∷ (px, py - 1)
    ∷ (px + 1, py - 1)
    ∷ (px - 1, py)
    ∷ (px + 1, py)
    ∷ (px - 1, py + 1)
    ∷ (px, py + 1)
    ∷ (px + 1, py + 1)
    ∷ []

-- The nine cells of the safe zone.
unfoldable pub ms_in_safe_zone : ℕ × ℕ → ℕ × ℕ → Bool
ms_in_safe_zone (px, py) (ax, ay) =
    (leb px (ax + 1) && leb ax (px + 1)) && (leb py (ay + 1) && leb ay (py + 1))

-- How many of the cells are on the board and hold a mine.
unfoldable pub count_mines : (ℕ → Bool) → List (ℕ × ℕ) → ℕ
count_mines mine [] = 0
count_mines mine (c ∷ cells) =
    let later = count_mines mine cells in if on_board c && mine (index c) then later + 1 else later

-- The cell of an index.
abbrev cell_at : ℕ → ℕ × ℕ
cell_at i = (i % ms_cols + 1, i / ms_cols + 1)

unfoldable pub ms_build_adj : Mines → Mines
ms_build_adj g = record g {
  ms_adj = λ i.
      if ltb i ms_cells
      then (if g.ms_mine i then 9 else count_mines g.ms_mine (around (cell_at i)))
      else g.ms_adj i;
}

-- One round of the loop of `ms_place_mines`, with the number of mines placed so far.
unfoldable pub place_round : ℕ × ℕ → ℕ × Mines → ℕ × Mines
place_round safe (placed, g) =
    let rx = ms_rand_u32 g in
    let ry = ms_rand_u32 rx.1 in
    let c : ℕ × ℕ = (rx.0 % ms_cols + 1, ry.0 % ms_rows + 1) in
    if ms_in_safe_zone c safe
    then (placed, ry.1)
    else if ry.1.ms_mine (index c)
    then (placed, ry.1)
    else (placed + 1, record ry.1 { ms_mine = update ry.1.ms_mine (index c) true })

-- The loop, for as many rounds as are given.
unfoldable pub place_rounds : ℕ → ℕ × ℕ → ℕ × Mines → ℕ × Mines
place_rounds zero safe s = s
place_rounds (suc n) safe s =
    let later = place_rounds n safe (place_round safe s) in if ltb s.0 ms_mines then later else s

-- `none` where the rounds do not place all mines.
unfoldable pub ms_place_mines : ℕ → ℕ × ℕ → Mines → Option Mines
ms_place_mines n safe g =
    let s = place_rounds n safe (0, g) in if ltb s.0 ms_mines then none else some (ms_build_adj s.1)

-- The calls of `ms_expand` on some cells in a row.
unfoldable pub each : (ℕ × ℕ → Mines → Mines) → List (ℕ × ℕ) → Mines → Mines
each f [] g = g
each f (c ∷ cells) g = each f cells (f c g)

-- The recursion has a call inside a call only where a hidden cell has been revealed, so that 82 levels
-- are enough for 81 cells.
unfoldable pub ms_expand : ℕ → ℕ × ℕ → Mines → Mines
ms_expand zero c g = g
ms_expand (suc fuel) c g =
    if not (on_board c)
    then g
    else if g.ms_vis (index c) == 2
    then g
    else if g.ms_vis (index c) == 1
    then g
    else if g.ms_mine (index c)
    then g
    else let g1 = record g { ms_vis = update g.ms_vis (index c) 1 } in
      if ltb 0 (g.ms_adj (index c)) then g1 else each (ms_expand fuel) (around c) g1

unfoldable pub ms_reveal_all_mines : Mines → Mines
ms_reveal_all_mines g = record g {
  ms_vis = λ i. if ltb i ms_cells && g.ms_mine i then 1 else g.ms_vis i;
}

-- Every cell from index `i` down that is no mine is revealed.
unfoldable pub all_revealed : ℕ → Mines → Bool
all_revealed zero g = true
all_revealed (suc i) g = let later = all_revealed i g in (g.ms_mine i || g.ms_vis i == 1) && later

unfoldable pub ms_check_win : Mines → Mines
ms_check_win g = if all_revealed ms_cells g then record g { ms_win = true } else g

-- The move on a cell without a flag, once the mines are placed.
unfoldable pub step_on : ℕ × ℕ → Mines → Mines
step_on c g =
    if g.ms_mine (index c)
    then ms_reveal_all_mines (record g { ms_dead = true })
    else ms_check_win (ms_expand (ms_cells + 1) c g)

-- With `n` rounds for the placing of the mines; `none` where they are not enough.
unfoldable pub minesweeper_left_cell : ℕ → ℕ × ℕ → Mines → Option Mines
minesweeper_left_cell n c g =
    if not (on_board c)
    then some g
    else if g.ms_dead || g.ms_win
    then some g
    else if g.ms_vis (index c) == 2
    then some g
    else if g.ms_started
    then some (step_on c g)
    else elim (ms_place_mines n c g) [
      | none ↦ none
      | some g1 ↦ some (step_on c (record g1 { ms_started = true }))
    ]

unfoldable minesweeper_right_cell : ℕ × ℕ → Mines → Mines
minesweeper_right_cell c g =
    if not (on_board c)
    then g
    else if g.ms_dead || g.ms_win
    then g
    else if not g.ms_started
    then g
    else if g.ms_vis (index c) == 1
    then g
    else if g.ms_vis (index c) == 0
    then record g { ms_vis = update g.ms_vis (index c) 2 }
    else if g.ms_vis (index c) == 2
    then record g { ms_vis = update g.ms_vis (index c) 0 }
    else g

unfoldable minesweeper_init : ℕ → Mines → Mines
minesweeper_init now g =
    let g1 = minesweeper_clear_board g in record g1 { ms_rng_state = bit_xor g1.ms_rng_state now }

abbrev minesweeper_new_game : Mines → Mines
minesweeper_new_game g = minesweeper_clear_board g
