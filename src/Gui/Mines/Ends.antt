-- ===== src/Gui/Mines/Ends.antt =====
-- The cells that the generator of minesweeper draws from its states, and the free cells among them.
use bonfire_os.Base.{
  ℕ, zero, suc, ◌+◌, ◌*◌, ◌%◌, ◌≡◌, ◌<◌, ◌≤◌, ◌==◌, ◌&&◌, arith, refl, ◌∙◌, ap, inl, inr, u32,
  subst, List, [], ◌∷◌, length, Bool, true, false, Bool-cases, ltb,
}
use bonfire_os.Gui.Mines.{index, ms_cells, ms_mines, ms_in_safe_zone}
use bonfire_os.Gui.Mines.Placing.{mines}

abbrev draw : ℕ → ℕ
draw x = u32 (x * 1664525 + 1013904223)

-- The cell that a round draws from a state of the generator.
abbrev pub cell_drawn : ℕ → ℕ × ℕ
cell_drawn x = (draw x % 9 + 1, draw (draw x) % 9 + 1)

-- The states have this parity and draw the cells from `i` on in their order.
abbrev draws_cells : ℕ → ℕ → List ℕ → Bool
draws_cells p i [] = true
draws_cells p i (y ∷ ys) = ((y % 2 == p) && (index (cell_drawn y) == i)) && draws_cells p (suc i) ys

state_for :
    (p i : ℕ) (ys : List ℕ) (k : ℕ)
    → draws_cells p i ys ≡ true
    → i ≤ k
    → k < i + length ys
    → (y : ℕ) × (y % 2 ≡ p) × (index (cell_drawn y) ≡ k)
state_for p i [] k ok low high = absurd (omega (arith, low, high))
state_for p i (y ∷ ys) k ok low high = elim (Bool-cases (i == k)) [
  | inl here ↦ (y, ground (arith, ok), ground (arith, ok, here))
  | inr later ↦
      state_for p (suc i) ys k (ground (arith, ok)) (ground (arith, low, later))
        (omega (arith, high))
]

abbrev even_states : List ℕ
even_states =
    64 ∷ 96 ∷ 110 ∷ 34 ∷ 156 ∷ 80 ∷ 4 ∷ 126 ∷ 50 ∷ 190 ∷ 114 ∷ 38 ∷ 160 ∷ 84 ∷ 98 ∷ 22 ∷ 144 ∷ 68
    ∷ 10 ∷ 132 ∷ 56 ∷ 178 ∷ 102 ∷ 26 ∷ 148 ∷ 72 ∷ 86 ∷ 136 ∷ 60 ∷ 182 ∷ 106 ∷ 30 ∷ 44 ∷ 166 ∷ 90
    ∷ 14 ∷ 154 ∷ 78 ∷ 2 ∷ 124 ∷ 48 ∷ 170 ∷ 94 ∷ 18 ∷ 32 ∷ 82 ∷ 6 ∷ 20 ∷ 52 ∷ 66 ∷ 188 ∷ 112 ∷ 36
    ∷ 158 ∷ 100 ∷ 24 ∷ 146 ∷ 70 ∷ 192 ∷ 8 ∷ 40 ∷ 54 ∷ 176 ∷ 28 ∷ 42 ∷ 74 ∷ 88 ∷ 12 ∷ 134 ∷ 58 ∷ 180
    ∷ 104 ∷ 46 ∷ 168 ∷ 92 ∷ 16 ∷ 138 ∷ 62 ∷ 76 ∷ 0 ∷ 122 ∷ []

abbrev odd_states : List ℕ
odd_states =
    73 ∷ 87 ∷ 11 ∷ 133 ∷ 57 ∷ 179 ∷ 103 ∷ 27 ∷ 149 ∷ 91 ∷ 15 ∷ 137 ∷ 61 ∷ 75 ∷ 107 ∷ 121 ∷ 45 ∷ 167
    ∷ 109 ∷ 33 ∷ 155 ∷ 79 ∷ 3 ∷ 125 ∷ 49 ∷ 171 ∷ 95 ∷ 37 ∷ 159 ∷ 83 ∷ 7 ∷ 21 ∷ 143 ∷ 67 ∷ 189 ∷ 113
    ∷ 55 ∷ 177 ∷ 101 ∷ 25 ∷ 147 ∷ 71 ∷ 193 ∷ 9 ∷ 41 ∷ 181 ∷ 105 ∷ 29 ∷ 43 ∷ 165 ∷ 89 ∷ 13 ∷ 135 ∷ 59
    ∷ 1 ∷ 123 ∷ 47 ∷ 169 ∷ 93 ∷ 17 ∷ 31 ∷ 63 ∷ 77 ∷ 19 ∷ 51 ∷ 65 ∷ 187 ∷ 111 ∷ 35 ∷ 157 ∷ 81 ∷ 5
    ∷ 145 ∷ 69 ∷ 191 ∷ 115 ∷ 39 ∷ 53 ∷ 85 ∷ 99 ∷ 23 ∷ []

even_ok : draws_cells 0 0 even_states ≡ true
even_ok = refl

odd_ok : draws_cells 1 0 odd_states ≡ true
odd_ok = refl

state_of : (p k : ℕ) → p < 2 → k < 81 → (y : ℕ) × (y % 2 ≡ p) × (index (cell_drawn y) ≡ k)
state_of zero k few h = state_for 0 0 even_states k even_ok (omega arith) (omega (arith, h))
state_of (suc zero) k few h = state_for 1 0 odd_states k odd_ok (omega arith) (omega (arith, h))
state_of (suc (suc p)) k few h = absurd (omega (arith, few))

mines_le : (m n : ℕ) (mine : ℕ → Bool) → m ≤ n → mines m mine ≤ mines n mine
unfolding mines
mines_le zero zero mine h = omega arith
mines_le (suc m) zero mine h = absurd (omega (arith, h))
mines_le m (suc n) mine h = elim (Bool-cases (m == suc n)) [
  | inl all ↦
      let e : m ≡ suc n = ground (arith, all) in
      subst (λ k. mines m mine ≤ mines k mine) e (omega arith)
  | inr some_more ↦ ground (arith, mines_le m n mine (ground (arith, h, some_more)))
]

-- With few mines, one of the last cells of the first `n` has none.
some_free :
    (n low : ℕ) (mine : ℕ → Bool)
    → mines n mine + low < n
    → (i : ℕ) × (low ≤ i) × (i < n) × (mine i ≡ false)
unfolding mines
some_free zero low mine h = absurd (omega (arith, h))
some_free (suc n) low mine h = elim (Bool-cases (mine n)) [
  | inl taken ↦
      let (i, above, below, free) = some_free n low mine (ground (arith, h, taken)) in
      (i, above, omega (arith, below), free)
  | inr free ↦ (n, ground (arith, h, free), omega arith, free)
]

-- A cell outside the safe zone, without a mine, that the generator draws from a state of this parity.
pub free_state :
    (p : ℕ) (safe : ℕ × ℕ) (mine : ℕ → Bool)
    → p < 2
    → mines ms_cells mine < ms_mines
    → (y : ℕ) × (y % 2 ≡ p)
      × (ms_in_safe_zone (cell_drawn y) safe ≡ false)
      × (mine (index (cell_drawn y)) ≡ false)
unfolding ms_in_safe_zone
free_state p (ax, ay) mine few h = elim (Bool-cases (ltb ay 6)) [
  | inl upper ↦
      let (i, above, below, free) = some_free 81 71 mine (omega (arith, h)) in
      let (y, parity, at) = state_of p i few below in
      (y, parity, ground (arith, upper, at, above), ap mine at ∙ free)
  | inr lower ↦
      let (i, above, below, free) =
        some_free 10 0 mine (omega (arith, h, mines_le 10 81 mine (omega arith))) in
      let (y, parity, at) = state_of p i few (omega (arith, below)) in
      (y, parity, ground (arith, lower, at, below), ap mine at ∙ free)
]
