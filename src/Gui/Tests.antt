-- ===== src/Gui/Tests.antt =====
-- The games' theorems at concrete inputs.
use bonfire_os.Base.{
  ◌+◌, refl, false, none, some, List, [], ◌∷◌, ◌==◌, if◌then◌else◌, ◌||◌, get_or, ◌≡◌, ℕ, take,
  arith,
}
use bonfire_os.Base.Text.{codes, same}
use bonfire_os.Fs.Path.{
  slash, normalize_path, normal_out, normal_loop, normal_step, path_parts, last_from,
}
use bonfire_os.Fs.Tree.{Fs, node_by_name, dir_by_name, file_by_name, walk, path_to_dir}
use bonfire_os.Fs.Ops.{parent_dir, fs_create, fs_exists}
use bonfire_os.Fs.Ops.RoundTrip.{stored_at}
use bonfire_os.Gui.Notepad.{Notepad, note_text, note_save}
use bonfire_os.Gui.Notepad.Edit.{stored_at-note_save}
use bonfire_os.Gui.Snake.{snake_reset}
use bonfire_os.Gui.Snake.Play.{IsSnake, SnakeEvent, tick, key, snake_run, snake_run-IsSnake}
use bonfire_os.Gui.Mines.{Mines, ms_cells, ms_expand, minesweeper_left_cell}
use bonfire_os.Gui.Mines.Reveal.{Grown}
use bonfire_os.Gui.Mines.Closed.{Settled, Closes, ms_expand-Closes}
use bonfire_os.Gui.Mines.Placing.{mines}
use bonfire_os.Gui.Mines.First.{First, minesweeper_left_cell-First}

-- Two ticks, a turn, and a tick.
abbrev some_events : List SnakeEvent
some_events = tick 300 ∷ tick 600 ∷ key b'w' 700 ∷ tick 900 ∷ []

snake_run-IsSnake_example : IsSnake (snake_run some_events (snake_reset 5))
snake_run-IsSnake_example = snake_run-IsSnake some_events 5

-- An empty board, and one with a mine in the last cell.
abbrev clear_board : Mines
clear_board = record {
  ms_mine = λ _. false;
  ms_adj = λ _. 0;
  ms_vis = λ _. 0;
  ms_started = false;
  ms_dead = false;
  ms_win = false;
  ms_rng_state = 12648430;
}

abbrev one_mine : Mines
one_mine = record clear_board {
  ms_mine = λ i. i == 80;
  ms_adj = λ i. if i == 70 || i == 71 || i == 79 then 1 else 0;
}

ms_expand-Closes_example :
    let h = ms_expand (ms_cells + 1) (1, 1) one_mine in
    Settled h (1, 1) × Closes one_mine h × Grown one_mine h
ms_expand-Closes_example = ms_expand-Closes (1, 1) one_mine

-- The board after the first move on the cell in the middle.
minesweeper_left_cell-First_example :
    (n : ℕ) × (h : Mines) × ((more : ℕ)
      → minesweeper_left_cell (n + more) (5, 5) clear_board ≡ some h)
    × First (5, 5) h
unfolding mines
minesweeper_left_cell-First_example =
    minesweeper_left_cell-First (5, 5) clear_board refl refl refl (refl, refl, refl)

-- The text "ac" with the cursor between, in "/n".
abbrev some_text : Notepad
some_text = record {
  note_buf = λ i. get_or (codes "ac") i 0;
  note_len = 2;
  note_cursor = 1;
  note_path = codes "/n";
}

abbrev empty_fs : Fs
empty_fs = record {
  files = [];
  dirs = record { name = slash ∷ []; parent = 0; content = none } ∷ [];
  cwd = 0;
}

stored_at-note_save_example :
    stored_at (codes "/n") (note_save some_text empty_fs) ≡ some (take 4096 (note_text some_text))
unfolding fs_create fs_exists parent_dir normalize_path normal_out normal_loop normal_step last_from
    path_to_dir walk path_parts file_by_name dir_by_name node_by_name same
stored_at-note_save_example = stored_at-note_save some_text empty_fs refl (omega arith) refl refl
