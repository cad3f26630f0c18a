-- ===== src/Gui/Mines/Rounds.antt =====
-- The rounds that place the mines of minesweeper, and their end.
use bonfire_os.Base.{
  ℕ, zero, suc, ◌+◌, ◌*◌, ◌%◌, ◌≡◌, ◌<◌, ◌≤◌, arith, refl, ◌∙◌, ap, sym, inl, inr, ◌⊎◌, u32, subst,
  false, Bool-cases, ltb, if_elim, some,
}
use bonfire_os.Gui.Mines.{
  Mines, index, ms_mines, ms_rand_u32, ms_in_safe_zone, place_round, place_rounds, ms_place_mines,
  ms_cells, ms_build_adj,
}
use bonfire_os.Gui.Mines.Placing.{mines, Placing, place_rounds-Placing, start-Placing}
use bonfire_os.Gui.Mines.Draws.{two_draws, draws, draws-u32, draws_reach}
use bonfire_os.Gui.Mines.Ends.{cell_drawn, free_state}

-- A round that does not place a mine only moves the generator.
pub record Missed (placed : ℕ) (g : Mines) (s : ℕ × Mines) : Type 0 where
  pub still : s.0 ≡ placed
  pub mine : s.1.ms_mine ≡ g.ms_mine
  pub moved : s.1.ms_rng_state ≡ u32 (two_draws g.ms_rng_state)

two_u32 : (x : ℕ) → u32 (u32 (x * 1664525 + 1013904223) * 1664525 + 1013904223) ≡ u32 (two_draws x)
two_u32 x = omega arith

place_round-cases :
    (safe : ℕ × ℕ) (placed : ℕ) (g : Mines)
    → ((place_round safe (placed, g)).0 ≡ placed + 1)
      ⊎ Missed placed g (place_round safe (placed, g))
unfolding place_round ms_rand_u32
place_round-cases safe placed g =
    let x = g.ms_rng_state in
    let c = cell_drawn x in
    let P = λ (s : ℕ × Mines). (s.0 ≡ placed + 1) ⊎ Missed placed g s in
    if_elim P (ms_in_safe_zone c safe) _ _
      (λ _. inr (record { still = refl; mine = refl; moved = two_u32 x }))
      (λ _.
        if_elim P (g.ms_mine (index c)) _ _
          (λ _. inr (record { still = refl; mine = refl; moved = two_u32 x })) (λ _. inl refl))

-- A round that draws a free cell outside the safe zone places a mine.
place_round-free :
    (safe : ℕ × ℕ) (placed : ℕ) (g : Mines)
    → ms_in_safe_zone (cell_drawn g.ms_rng_state) safe ≡ false
    → g.ms_mine (index (cell_drawn g.ms_rng_state)) ≡ false
    → (place_round safe (placed, g)).0 ≡ placed + 1
unfolding place_round ms_rand_u32
place_round-free safe placed g out free = rw (out, free) refl

cell_drawn-u32 : (x y : ℕ) → u32 x ≡ u32 y → cell_drawn x ≡ cell_drawn y
cell_drawn-u32 x y e =
    let first : u32 (x * 1664525 + 1013904223) ≡ u32 (y * 1664525 + 1013904223) =
      omega (arith, e) in
    ap (λ r. (r % 9 + 1, u32 (r * 1664525 + 1013904223) % 9 + 1)) first

place_rounds-suc :
    (n : ℕ) (safe : ℕ × ℕ) (s : ℕ × Mines)
    → s.0 < ms_mines
    → place_rounds (suc n) safe s ≡ place_rounds n safe (place_round safe s)
unfolding place_rounds
place_rounds-suc n safe s few = ground (arith, few)

place_rounds_done :
    (n : ℕ) (safe : ℕ × ℕ) (s : ℕ × Mines) → ms_mines ≤ s.0 → place_rounds n safe s ≡ s
unfolding place_rounds
place_rounds_done zero safe s done = refl
place_rounds_done (suc n) safe s done = ground (arith, done)

place_rounds_same :
    (m n : ℕ) (safe : ℕ × ℕ) (s : ℕ × Mines) → m ≡ n → place_rounds m safe s ≡ place_rounds n safe s
place_rounds_same m n safe s e = ap (λ n. place_rounds n safe s) e

place_rounds-add :
    (m n : ℕ) (safe : ℕ × ℕ) (s : ℕ × Mines)
    → place_rounds (m + n) safe s ≡ place_rounds n safe (place_rounds m safe s)
unfolding place_rounds
place_rounds-add zero n safe s = place_rounds_same (0 + n) n safe s (omega arith)
place_rounds-add (suc m) n safe s = elim (Bool-cases (ltb s.0 ms_mines)) [
  | inl few ↦
      place_rounds_same (suc m + n) (suc (m + n)) safe s (omega arith)
      ∙ place_rounds-suc (m + n) safe s (ground (arith, few))
      ∙ place_rounds-add m n safe (place_round safe s)
      ∙ ap (place_rounds n safe) (sym (place_rounds-suc m safe s (ground (arith, few))))
  | inr done ↦
      let full : ms_mines ≤ s.0 = ground (arith, done) in
      place_rounds_done (suc m + n) safe s full
      ∙ sym (place_rounds_done n safe s full)
      ∙ ap (place_rounds n safe) (sym (place_rounds_done (suc m) safe s full))
]

-- When the generator comes to a state that draws a free cell, a mine has been placed.
placed_one :
    (n : ℕ) (safe : ℕ × ℕ) (placed : ℕ) (g : Mines) (y : ℕ)
    → placed < ms_mines
    → ms_in_safe_zone (cell_drawn y) safe ≡ false
    → g.ms_mine (index (cell_drawn y)) ≡ false
    → u32 (draws n g.ms_rng_state) ≡ u32 y
    → (m : ℕ) × ((place_rounds m safe (placed, g)).0 ≡ placed + 1)
unfolding place_rounds draws
placed_one zero safe placed g y few out free e =
    let same = cell_drawn-u32 g.ms_rng_state y e in
    (
      1,
      ap (λ s. s.0) (place_rounds-suc 0 safe (placed, g) few)
          ∙ place_round-free safe placed g (ap (λ c. ms_in_safe_zone c safe) same ∙ out)
              (ap (λ c. g.ms_mine (index c)) same ∙ free),
    )
placed_one (suc n) safe placed g y few out free e = elim (place_round-cases safe placed g) [
  | inl hit ↦ (1, ap (λ s. s.0) (place_rounds-suc 0 safe (placed, g) few) ∙ hit)
  | inr missed ↦
      let s = place_round safe (placed, g) in
      let (m, one) =
        placed_one n safe s.0 s.1 y (subst (λ k. k < ms_mines) (sym missed.still) few) out
          (ap (λ f. f (index (cell_drawn y))) missed.mine ∙ free)
          (draws-u32 n s.1.ms_rng_state (two_draws g.ms_rng_state) (wrapped s.1 missed.moved)
            ∙ e) in
      (
        suc m,
        ap (λ s. s.0) (place_rounds-suc m safe (placed, g) few)
            ∙ one
            ∙ ap (λ k. k + 1) missed.still,
      )
]
  where
    wrapped :
        (h : Mines)
        → h.ms_rng_state ≡ u32 (two_draws g.ms_rng_state)
        → u32 h.ms_rng_state ≡ u32 (two_draws g.ms_rng_state)
    wrapped h e = omega (arith, e)

-- From every state of the loop the mines that are missing get placed.
all_placed :
    (k : ℕ) (safe : ℕ × ℕ) (placed : ℕ) (g0 g : Mines)
    → Placing g0 safe placed g
    → placed + k ≡ ms_mines
    → (n : ℕ) × ((place_rounds n safe (placed, g)).0 ≡ ms_mines)
unfolding place_rounds
all_placed zero safe placed g0 g p all = (0, omega (arith, all))
all_placed (suc k) safe placed g0 g p all =
    let few : placed < ms_mines = omega (arith, all) in
    let x = g.ms_rng_state in
    let (y, parity, out, free) =
      free_state (x % 2) safe g.ms_mine (omega arith) (omega (arith, p.count, few)) in
    let (reach, there) = draws_reach x y (sym parity) in
    let (m, one) = placed_one reach safe placed g y few out free there in
    let s = place_rounds m safe (placed, g) in
    let (n, end) =
      all_placed k safe s.0 g0 s.1 (place_rounds-Placing m g0 safe placed g p)
        (omega (arith, one, all)) in
    (m + n, ap (λ s. s.0) (place_rounds-add m n safe (placed, g)) ∙ end)

-- With enough rounds the mines are placed, and more rounds place them in the same way.
pub ms_place_mines_ends :
    (safe : ℕ × ℕ) (g : Mines)
    → mines ms_cells g.ms_mine ≡ 0
    → (n : ℕ) × (h : Mines) × ((more : ℕ) → ms_place_mines (n + more) safe g ≡ some h)
unfolding ms_place_mines
ms_place_mines_ends safe g empty =
    let (n, end) = all_placed 10 safe 0 g g (start-Placing safe g empty) refl in
    let s = place_rounds n safe (0, g) in
    (
      n,
      ms_build_adj s.1,
      λ more.
          let same =
            place_rounds-add n more safe (0, g)
            ∙ place_rounds_done more safe s (omega (arith, end)) in
          rw (same, end) refl,
    )
