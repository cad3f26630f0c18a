-- ===== src/Gui/Mines/Board.antt =====
-- The cells of the minesweeper board: their indices, and how many of them are hidden.
use bonfire_os.Base.{
  ℕ, zero, suc, ◌+◌, update, ◌≢◌, true, refl, inl, inr, ◌==◌, if◌then◌else◌, ◌≡◌, ◌≤◌, ◌<◌, ◌||◌,
  arith, update_ne, Bool-cases, ==→eq, ◌∙◌, sym, ap, ==→ne, update_self,
}
use mathlib.Core.Path.{ap₂}
use bonfire_os.Gui.Mines.{Mines, on_board, index, around, ms_cells}
use bonfire_os.Gui.Mines.Reveal.{Grown}

-- How many of the first `n` cells are hidden.
abbrev pub hidden : ℕ → (ℕ → ℕ) → ℕ
hidden zero vis = 0
hidden (suc n) vis = if vis n == 1 || vis n == 2 then hidden n vis else hidden n vis + 1

pub index-lt : (c : ℕ × ℕ) → on_board c ≡ true → index c < ms_cells
index-lt (px, py) h = ground (arith, h)

pub hidden-lt : (n : ℕ) (vis : ℕ → ℕ) → hidden n vis ≤ n
hidden-lt zero vis = omega arith
hidden-lt (suc n) vis = ground (arith, hidden-lt n vis)

-- A cell that is revealed is no longer hidden.
hidden-update_ge : (n i : ℕ) (vis : ℕ → ℕ) → n ≤ i → hidden n (update vis i 1) ≡ hidden n vis
hidden-update_ge zero i vis h = refl
hidden-update_ge (suc n) i vis h =
    ground
      (arith, hidden-update_ge n i vis (omega (arith, h)), update_ne vis i 1 n (omega (arith, h)))

pub hidden-update :
    (n i : ℕ) (vis : ℕ → ℕ)
    → i < n
    → vis i ≢ 1
    → vis i ≢ 2
    → hidden n (update vis i 1) + 1 ≡ hidden n vis
hidden-update zero i vis h n1 n2 = absurd (omega (arith, h))
hidden-update (suc n) i vis h n1 n2 = elim (Bool-cases (i == n)) [
  | inl last ↦
      let at = ==→eq i n last in
      ground (
        arith,
        hidden-update_ge n i vis (omega (arith, at)),
        ap (update vis i 1) (sym at) ∙ update_self vis i 1,
        ap vis at,
        n1,
        n2,
      )
  | inr before ↦ ground (
    arith,
    hidden-update n i vis (ground (arith, h, before)) n1 n2,
    update_ne vis i 1 n (λ e. ==→ne i n before (sym e)),
  )
]

-- Revealing does not hide.
pub hidden-Grown : (n : ℕ) (g h : Mines) → Grown g h → hidden n h.ms_vis ≤ hidden n g.ms_vis
hidden-Grown zero g h a = omega arith
hidden-Grown (suc n) g h a = elim (a.vis n) [
  | inl same ↦ ground (arith, hidden-Grown n g h a, same)
  | inr (n1, n2, f, v) ↦ ground (arith, hidden-Grown n g h a, v, n1, n2)
]

pub index_inj :
    (px py qx qy : ℕ)
    → on_board (px, py) ≡ true
    → on_board (qx, qy) ≡ true
    → index (px, py) ≡ index (qx, qy)
    → (px ≡ qx) × (py ≡ qy)
index_inj px py qx qy p q e = ground (arith, p, q, e)

pub around_same :
    (c d : ℕ × ℕ) → on_board c ≡ true → on_board d ≡ true → index d ≡ index c → around c ≡ around d
around_same (px, py) (qx, qy) p q e =
    let (x, y) = index_inj px py qx qy p q (sym e) in ap₂ (λ x y. around (x, y)) x y
