-- ===== src/Gui/Mines/First.antt =====
-- The first move: where the mines are placed, and that it is safe.
use bonfire_os.Base.{ℕ, ◌+◌, true, false, refl, inl, inr, ◌≡◌, arith, ◌∙◌, ap, some, if_elim}
use bonfire_os.Gui.Mines.{
  Mines, on_board, index, ms_cells, ms_mines, ms_in_safe_zone, ms_place_mines, ms_expand,
  ms_check_win, step_on, minesweeper_left_cell, all_revealed,
}
use bonfire_os.Gui.Mines.Reveal.{Grown}
use bonfire_os.Gui.Mines.Closed.{Settled, ms_expand-Closes}
use bonfire_os.Gui.Mines.Placing.{mines, ms_place_mines-Placing}
use bonfire_os.Gui.Mines.Rounds.{ms_place_mines_ends}

-- 10 mines on the board, none of them on the cell or next to it, the game not lost, the cell revealed.
abbrev pub First : ℕ × ℕ → Mines → Type 0
First c h =
    (mines ms_cells h.ms_mine ≡ ms_mines)
    × ((d : ℕ × ℕ) → on_board d ≡ true → ms_in_safe_zone d c ≡ true → h.ms_mine (index d) ≡ false)
    × (h.ms_dead ≡ false)
    × (h.ms_vis (index c) ≡ 1)

in_own_zone : (px py : ℕ) → ms_in_safe_zone (px, py) (px, py) ≡ true
unfolding ms_in_safe_zone
in_own_zone px py = ground arith

check_win-First : (c : ℕ × ℕ) (g : Mines) → First c g → First c (ms_check_win g)
unfolding ms_check_win
check_win-First c g f = if_elim (First c) (all_revealed ms_cells g) _ _ (λ _. f) (λ _. f)

-- The cell itself, which was hidden, is revealed.
revealed_self :
    (c : ℕ × ℕ) (g h : Mines)
    → on_board c ≡ true
    → g.ms_mine (index c) ≡ false
    → g.ms_vis (index c) ≡ 0
    → Grown g h
    → Settled h c
    → h.ms_vis (index c) ≡ 1
revealed_self c g h on f v a (inl off) = absurd (cc (on, off))
revealed_self c g h on f v a (inr (inl one)) = one
revealed_self c g h on f v a (inr (inr (inl two))) = elim (a.vis (index c)) [
  | inl same ↦ absurd (omega (arith, same, two, v))
  | inr (n1, n2, m, one) ↦ one
]
revealed_self c g h on f v a (inr (inr (inr mine))) =
    absurd (cc (mine, f, ap (λ m. m (index c)) a.mine))

step_on-First :
    (c : ℕ × ℕ) (g : Mines)
    → on_board c ≡ true
    → mines ms_cells g.ms_mine ≡ ms_mines
    → ((d : ℕ × ℕ) → on_board d ≡ true → ms_in_safe_zone d c ≡ true → g.ms_mine (index d) ≡ false)
    → g.ms_dead ≡ false
    → g.ms_vis (index c) ≡ 0
    → First c (step_on c g)
unfolding step_on
step_on-First c g on count empty alive v =
    let f = empty c on (in_own_zone c.0 c.1) in
    let h = ms_expand 82 c g in
    let (settled, closes, a) = ms_expand-Closes c g in
    rw f (
      check_win-First c h (
        ap (mines ms_cells) a.mine ∙ count,
        (λ d ond zone. ap (λ m. m (index d)) a.mine ∙ empty d ond zone),
        a.game.1 ∙ alive,
        revealed_self c g h on f v a settled,
      ))

-- A move after the placing, where it has come to an end.
left_cell_placed :
    (n : ℕ) (c : ℕ × ℕ) (g g1 : Mines)
    → on_board c ≡ true
    → g.ms_vis (index c) ≡ 0
    → (g.ms_started ≡ false) × (g.ms_dead ≡ false) × (g.ms_win ≡ false)
    → ms_place_mines n c g ≡ some g1
    → minesweeper_left_cell n c g ≡ some (step_on c (record g1 { ms_started = true }))
unfolding minesweeper_left_cell
left_cell_placed n c g g1 on v (not_started, alive, playing) placed =
    rw (placed, on, alive, playing, v, not_started) refl

-- The first move of a game that is neither lost nor won, on a board without mines and on a hidden cell: from some
-- number of rounds on, the mines are placed, with the same result for every larger number; then 10
-- mines lie on the board, none of them on the cell or next to it, the game is not lost, and the cell is
-- revealed.
pub minesweeper_left_cell-First :
    (c : ℕ × ℕ) (g : Mines)
    → mines ms_cells g.ms_mine ≡ 0
    → on_board c ≡ true
    → g.ms_vis (index c) ≡ 0
    → (g.ms_started ≡ false) × (g.ms_dead ≡ false) × (g.ms_win ≡ false)
    → (n : ℕ) × (h : Mines) × ((more : ℕ) → minesweeper_left_cell (n + more) c g ≡ some h)
      × First c h
minesweeper_left_cell-First c g empty on v playing =
    let (n, g1, placed) = ms_place_mines_ends c g empty in
    let p = ms_place_mines-Placing (n + 0) c g g1 empty (placed 0) in
    (
      n,
      step_on c (record g1 { ms_started = true }),
      λ more. left_cell_placed (n + more) c g g1 on v playing (placed more),
      step_on-First c (record g1 { ms_started = true }) on p.count (p.empty)
          (ap (λ d. d) p.dead ∙ playing.1) (ap (λ v. v (index c)) p.vis ∙ v),
    )
