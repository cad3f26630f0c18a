-- ===== src/Gui/Snake/Play.antt =====
-- The snake stays a path of different neighbouring cells on the grid, whatever keys are typed.
use bonfire_os.Base.{
  ◌==◌, ◌||◌, not, ℕ, zero, suc, ◌+◌, false, some, [], ◌∷◌, ◌<◌, ◌≢◌, ◌≡◌, List, ◌≤◌, All, ◌⊎◌,
  length, take, arith, length-take, get_or, u32, if_elim, not, true, refl, inl, inr, Bool,
  option_elim, if◌then◌else◌, ltb, ◌&&◌, ltb→lt,
}
use bonfire_os.Gui.Snake.{
  Snake, snake_max, grid_w, grid_h, snake_reset, next_cell, taken, dies, snake_move, too_early,
  snake_tick, snake_key,
}

abbrev OnGrid : ℕ × ℕ → Type 0
OnGrid c = (c.0 < grid_w) × (c.1 < grid_h)

abbrev Differs : ℕ × ℕ → ℕ × ℕ → Type 0
Differs c d = (c.0 ≢ d.0) ⊎ (c.1 ≢ d.1)

-- One step apart, in one direction.
abbrev Neighbours : ℕ × ℕ → ℕ × ℕ → Type 0
Neighbours c d =
    (c.0 ≡ d.0) × ((c.1 ≡ d.1 + 1) ⊎ (d.1 ≡ c.1 + 1))
    ⊎ (c.1 ≡ d.1) × ((c.0 ≡ d.0 + 1) ⊎ (d.0 ≡ c.0 + 1))

abbrev Linked : ℕ × ℕ → List (ℕ × ℕ) → Type 0
Linked c [] = Unit
Linked c (d ∷ cells) = Neighbours c d

-- Cells on the grid, all different, each next to the one before.
abbrev IsPath : List (ℕ × ℕ) → Type 0
IsPath [] = Unit
IsPath (c ∷ cells) = OnGrid c × All (Differs c) cells × Linked c cells × IsPath cells

-- A path of 3 to 63 cells, and food on the grid.
pub record IsSnake (s : Snake) : Type 0 where
  pub path : IsPath s.snake_cells
  pub body : 3 ≤ length s.snake_cells
  pub room : length s.snake_cells < snake_max
  pub food : (s.snake_fx < grid_w) × (s.snake_fy < grid_h)

All-take : (P : ℕ × ℕ → Type 0) (n : ℕ) (cells : List (ℕ × ℕ)) → All P cells → All P (take n cells)
All-take P zero cells a = tt
All-take P (suc n) [] a = tt
All-take P (suc n) (c ∷ cells) (p, a) = (p, All-take P n cells a)

Linked-take : (n : ℕ) (c : ℕ × ℕ) (cells : List (ℕ × ℕ)) → Linked c cells → Linked c (take n cells)
Linked-take zero c cells l = tt
Linked-take (suc n) c [] l = tt
Linked-take (suc n) c (d ∷ cells) l = l

IsPath-take : (n : ℕ) (cells : List (ℕ × ℕ)) → IsPath cells → IsPath (take n cells)
IsPath-take zero cells p = tt
IsPath-take (suc n) [] p = tt
IsPath-take (suc n) (c ∷ cells) (on, a, l, p) =
    (on, All-take (Differs c) n cells a, Linked-take n c cells l, IsPath-take n cells p)

taken-All : (c : ℕ × ℕ) (cells : List (ℕ × ℕ)) → taken c cells ≡ false → All (Differs c) cells
unfolding taken
taken-All c [] h = tt
taken-All (x, y) ((u, v) ∷ cells) h =
    (ground (arith, h), taken-All (x, y) cells (ground (arith, h)))

next_cell-Neighbours :
    (dir x y u v : ℕ)
    → next_cell dir (x, y) ≡ some (u, v)
    → Differs (u, v) (x, y)
    → Neighbours (u, v) (x, y)
unfolding next_cell
next_cell-Neighbours dir x y u v h d = ground (arith, h, d)

-- A step onto a free cell of the grid.
snake_move-IsSnake :
    (c : ℕ × ℕ) (s : Snake)
    → IsSnake s
    → OnGrid c
    → All (Differs c) s.snake_cells
    → Linked c s.snake_cells
    → IsSnake (snake_move c s)
unfolding snake_move
snake_move-IsSnake c s v on free l =
    if_elim IsSnake (c.0 == s.snake_fx && c.1 == s.snake_fy) _ _
      (λ _. record {
        path = if_elim IsPath (ltb (length s.snake_cells) 63) _ _ (λ _. shifted) (λ _. moved);
        body =
            if_elim (λ (cells : List (ℕ × ℕ)). 3 ≤ length cells) (ltb (length s.snake_cells) 63) _ _
              (λ _. omega (arith, v.body)) (λ _. omega (arith, v.body, same_length));
        room =
            if_elim (λ (cells : List (ℕ × ℕ)). length cells < snake_max)
              (ltb (length s.snake_cells) 63) _ _
              (λ short. omega (arith, ltb→lt (length s.snake_cells) 63 short))
              (λ _. omega (arith, v.room, same_length));
        food = (omega arith, omega arith);
      })
      (λ _. record {
        path = moved;
        body = omega (arith, v.body, same_length);
        room = omega (arith, v.room, same_length);
        food = v.food;
      })
  where
    shifted : IsPath (c ∷ s.snake_cells)
    shifted = (on, free, l, v.path)

    moved : IsPath (take (length s.snake_cells) (c ∷ s.snake_cells))
    moved = IsPath-take (length s.snake_cells) (c ∷ s.snake_cells) shifted

    same_length : length (take (length s.snake_cells) (c ∷ s.snake_cells)) ≡ length s.snake_cells
    same_length = omega (arith, length-take (length s.snake_cells) (c ∷ s.snake_cells))

-- What the tick does to a living snake.
Linked-next :
    (dir : ℕ) (c : ℕ × ℕ) (cells : List (ℕ × ℕ))
    → 3 ≤ length cells
    → next_cell dir (get_or cells 0 (0, 0)) ≡ some c
    → All (Differs c) cells
    → Linked c cells
Linked-next dir c [] h e a = tt
Linked-next dir (u, v) ((x, y) ∷ cells) h e (d, a) = next_cell-Neighbours dir x y u v e d

snake_tick-IsSnake : (now : ℕ) (s : Snake) → IsSnake s → IsSnake (snake_tick now s)
unfolding snake_tick
snake_tick-IsSnake now s v =
    if_elim IsSnake (not s.snake_alive || too_early now s) _ _ (λ _. v)
      (λ _.
        option_elim IsSnake (next_cell s.snake_dir (get_or s.snake_cells 0 (0, 0))) _ _ (λ _. still)
          (λ c e.
            if_elim IsSnake (not (ltb c.0 grid_w && ltb c.1 grid_h)) _ _ (λ _. still)
              (λ inside.
                if_elim IsSnake (taken c s.snake_cells) _ _ (λ _. still)
                  (λ free.
                    snake_move-IsSnake c timed timed_IsSnake (ground (arith, inside))
                      (taken-All c s.snake_cells free)
                      (Linked-next s.snake_dir c s.snake_cells v.body e
                        (taken-All c s.snake_cells free))))))
  where
    timed : Snake
    timed = record s { snake_next_tick = u32 (now + 220) }

    timed_IsSnake : IsSnake timed
    timed_IsSnake = record { path = v.path; body = v.body; room = v.room; food = v.food }

    still : IsSnake (dies timed)
    still = record { path = v.path; body = v.body; room = v.room; food = v.food }

snake_reset-IsSnake : (now : ℕ) → IsSnake (snake_reset now)
unfolding snake_reset
snake_reset-IsSnake now = record {
  path = (
    (omega arith, omega arith),
    (inl (omega arith), (inl (omega arith), tt)),
    inr (refl, inl refl),
    (
      (omega arith, omega arith),
      (inl (omega arith), tt),
      inr (refl, inl refl),
      ((omega arith, omega arith), tt, tt, tt),
    ),
  );
  body = omega arith;
  room = omega arith;
  food = (omega arith, omega arith);
}

turned : (dir : ℕ) (s : Snake) → IsSnake s → IsSnake (record s { snake_dir = dir })
turned dir s v = record { path = v.path; body = v.body; room = v.room; food = v.food }

if-IsSnake : (b : Bool) (s t : Snake) → IsSnake s → IsSnake t → IsSnake (if b then s else t)
if-IsSnake true s t v w = v
if-IsSnake false s t v w = w

snake_key-IsSnake : (c now : ℕ) (s : Snake) → IsSnake s → IsSnake (snake_key c now s)
unfolding snake_key
snake_key-IsSnake c now s v = if-IsSnake _ _ _ (snake_reset-IsSnake now) (
    if-IsSnake _ _ _ (turned 0 s v) (
      if-IsSnake _ _ _ (turned 1 s v)
        (if-IsSnake _ _ _ (turned 2 s v) (if-IsSnake _ _ _ (turned 3 s v) v))))

-- What happens to the game, with the time.
pub data SnakeEvent : Type 0 where
  tick : ℕ → SnakeEvent
  key : ℕ → ℕ → SnakeEvent

abbrev snake_event : SnakeEvent → Snake → Snake
snake_event (tick now) s = snake_tick now s
snake_event (key c now) s = snake_key c now s

abbrev pub snake_run : List SnakeEvent → Snake → Snake
snake_run [] s = s
snake_run (e ∷ events) s = snake_run events (snake_event e s)

snake_run-kept : (events : List SnakeEvent) (s : Snake) → IsSnake s → IsSnake (snake_run events s)
snake_run-kept [] s v = v
snake_run-kept (tick now ∷ events) s v =
    snake_run-kept events (snake_tick now s) (snake_tick-IsSnake now s v)
snake_run-kept (key c now ∷ events) s v =
    snake_run-kept events (snake_key c now s) (snake_key-IsSnake c now s v)

-- From the start of the game on, whatever keys are typed and whenever the ticks come, the snake has 3
-- to 63 cells, all on the grid, no two of them the same and each next to the one before, and the food
-- is on the grid.
pub snake_run-IsSnake :
    (events : List SnakeEvent) (now : ℕ) → IsSnake (snake_run events (snake_reset now))
snake_run-IsSnake events now = snake_run-kept events (snake_reset now) (snake_reset-IsSnake now)
