-- ===== src/Gui/Mines/Closed.antt =====
-- `ms_expand` reveals all that it should, and its fuel is enough.
use bonfire_os.Base.{
  ℕ, zero, suc, ◌+◌, ltb, ◌≢◌, ◌⊎◌, All, true, false, inl, inr, ◌==◌, if◌then◌else◌, ◌≡◌, ◌<◌,
  arith, update_ne, Bool-cases, [], ◌∷◌, ==→eq, ◌∙◌, List, sym, ap, ==→ne, update_self, subst, Bool,
  if_elim, not,
}
use bonfire_os.Gui.Mines.{Mines, on_board, index, around, each, ms_expand, ms_cells}
use bonfire_os.Gui.Mines.Reveal.{Grown, Grown-refl, revealed, each-Grown, ms_expand-Grown}
use bonfire_os.Gui.Mines.Board.{
  hidden, index-lt, hidden-lt, hidden-update, hidden-Grown, around_same,
}

-- There is nothing to reveal at this cell.
abbrev pub Settled : Mines → ℕ × ℕ → Type 0
Settled g c =
    (on_board c ≡ false)
    ⊎ (g.ms_vis (index c) ≡ 1)
    ⊎ (g.ms_vis (index c) ≡ 2)
    ⊎ (g.ms_mine (index c) ≡ true)

-- From `g` to `h`, a cell that is revealed and has no mines around it has brought its neighbours with it.
abbrev pub Closes : Mines → Mines → Type 0
Closes g h =
    (d : ℕ × ℕ)
    → on_board d ≡ true
    → g.ms_vis (index d) ≢ 1
    → h.ms_vis (index d) ≡ 1
    → g.ms_adj (index d) ≡ 0
    → All (Settled h) (around d)

Settled-Grown : (h k : Mines) (c : ℕ × ℕ) → Grown h k → Settled h c → Settled k c
Settled-Grown h k c a (inl off) = inl off
Settled-Grown h k c a (inr (inl one)) = elim (a.vis (index c)) [
  | inl same ↦ inr (inl (same ∙ one))
  | inr (n1, n2, f, v) ↦ absurd (n1 one)
]
Settled-Grown h k c a (inr (inr (inl two))) = elim (a.vis (index c)) [
  | inl same ↦ inr (inr (inl (same ∙ two)))
  | inr (n1, n2, f, v) ↦ absurd (n2 two)
]
Settled-Grown h k c a (inr (inr (inr mine))) = inr (inr (inr (ap (λ m. m (index c)) a.mine ∙ mine)))

All-Settled :
    (h k : Mines) (cells : List (ℕ × ℕ)) → Grown h k → All (Settled h) cells → All (Settled k) cells
All-Settled h k [] a s = tt
All-Settled h k (c ∷ cells) a (p, s) = (Settled-Grown h k c a p, All-Settled h k cells a s)

Closes-refl : (g : Mines) → Closes g g
Closes-refl g d on n1 v zero_adj = absurd (n1 v)

Closes-trans : (g h k : Mines) → Grown g h → Grown h k → Closes g h → Closes h k → Closes g k
Closes-trans g h k a b p q d on n1 v none_near = elim (Bool-cases (h.ms_vis (index d) == 1)) [
  | inl before ↦
      All-Settled h k (around d) b (p d on n1 (==→eq (h.ms_vis (index d)) 1 before) none_near)
  | inr later ↦
      q d on (==→ne (h.ms_vis (index d)) 1 later) v (ap (λ m. m (index d)) a.adj ∙ none_near)
]

-- The first step: the cell is revealed, and its neighbours are settled, if no mine is around it.
module _ (c : ℕ × ℕ) (g h : Mines) (on : on_board c ≡ true) (grown : Grown (revealed c g) h) where
  revealed_vis : h.ms_vis (index c) ≡ 1
  revealed_vis = elim (grown.vis (index c)) [
    | inl same ↦ same ∙ update_self g.ms_vis (index c) 1
    | inr (n1, n2, f, v) ↦ v
  ]

  Closes-first :
      (g.ms_adj (index c) ≡ 0 → All (Settled h) (around c)) → Closes (revealed c g) h → Closes g h
  Closes-first settled closes d ond n1 v none_near = elim (Bool-cases (index d == index c)) [
    | inl here ↦
        let at = ==→eq (index d) (index c) here in
        subst (All (Settled h)) (around_same c d on ond at)
          (settled (sym (ap g.ms_adj at) ∙ none_near))
    | inr there ↦
        closes d ond
          (λ e.
            n1 (
              sym (update_ne g.ms_vis (index c) 1 (index d) (==→ne (index d) (index c) there)) ∙ e))
          v none_near
  ]

abbrev Correct : ℕ → Type 0
Correct fuel =
    (c : ℕ × ℕ) (g : Mines)
    → hidden ms_cells g.ms_vis < fuel
    → Settled (ms_expand fuel c g) c × Closes g (ms_expand fuel c g)

each-Closes :
    (fuel : ℕ)
    → Correct fuel
    → (cells : List (ℕ × ℕ)) (g : Mines) → hidden ms_cells g.ms_vis < fuel
    → All (Settled (each (ms_expand fuel) cells g)) cells × Closes g (each (ms_expand fuel) cells g)
unfolding each
each-Closes fuel correct [] g enough = (tt, Closes-refl g)
each-Closes fuel correct (c ∷ cells) g enough =
    let h = ms_expand fuel c g in
    let k = each (ms_expand fuel) cells h in
    let a = ms_expand-Grown fuel c g in
    let b = each-Grown (ms_expand fuel) (ms_expand-Grown fuel) cells h in
    let (settled, closes) = correct c g enough in
    let (rest, closes') =
      each-Closes fuel correct cells h (omega (arith, enough, hidden-Grown ms_cells g h a)) in
    ((Settled-Grown h k c b settled, rest), Closes-trans g h k a b closes closes')

-- The case of a hidden cell on the board without a mine.
expand_step :
    (fuel : ℕ)
    → Correct fuel
    → (c : ℕ × ℕ) (g : Mines) → hidden ms_cells g.ms_vis < suc fuel
    → on_board c ≡ true
    → g.ms_vis (index c) ≢ 2
    → g.ms_vis (index c) ≢ 1
    → g.ms_mine (index c) ≡ false
    → let h =
        if ltb 0 (g.ms_adj (index c))
        then revealed c g
        else each (ms_expand fuel) (around c) (revealed c g) in
      Settled h c × Closes g h
expand_step fuel correct c g enough on n2 n1 f =
    if_elim (λ (h : Mines). Settled h c × Closes g h) (ltb 0 (g.ms_adj (index c))) _ _
      (λ near. (
        inr (inl (revealed_vis c g (revealed c g) on (Grown-refl (revealed c g)))),
        Closes-first c g (revealed c g) on (Grown-refl (revealed c g))
            (λ e. absurd (ground (arith, near, e))) (Closes-refl (revealed c g)),
      ))
      (λ _.
        let a = each-Grown (ms_expand fuel) (ms_expand-Grown fuel) (around c) (revealed c g) in
        let h = each (ms_expand fuel) (around c) (revealed c g) in
        let (settled, closes) = each-Closes fuel correct (around c) (revealed c g) (
          omega (arith, enough, hidden-update ms_cells (index c) g.ms_vis (index-lt c on) n1 n2)) in
        (inr (inl (revealed_vis c g h on a)), Closes-first c g h on a (λ _. settled) closes))

ms_expand-Correct : (fuel : ℕ) → Correct fuel
unfolding ms_expand
ms_expand-Correct zero c g enough = absurd (omega (arith, enough))
ms_expand-Correct (suc fuel) c g enough =
    let P = λ (h : Mines). Settled h c × Closes g h in
    if_elim P (not (on_board c)) _ _ (λ off. (inl (not_true (on_board c) off), Closes-refl g))
      (λ on.
        if_elim P (g.ms_vis (index c) == 2) _ _
          (λ two. (inr (inr (inl (==→eq (g.ms_vis (index c)) 2 two))), Closes-refl g))
          (λ n2.
            if_elim P (g.ms_vis (index c) == 1) _ _
              (λ one. (inr (inl (==→eq (g.ms_vis (index c)) 1 one)), Closes-refl g))
              (λ n1.
                if_elim P (g.ms_mine (index c)) _ _ (λ mine. (inr (inr (inr mine)), Closes-refl g))
                  (λ f.
                    expand_step fuel (ms_expand-Correct fuel) c g enough (not_false (on_board c) on)
                      (==→ne (g.ms_vis (index c)) 2 n2) (==→ne (g.ms_vis (index c)) 1 n1) f))))
  where
    not_true : (b : Bool) → not b ≡ true → b ≡ false
    not_true b h = ground arith

    not_false : (b : Bool) → not b ≡ false → b ≡ true
    not_false b h = ground arith

-- The levels of recursion that `minesweeper_left_cell` gives `ms_expand` are enough: afterwards the
-- cell is off the board, revealed, flagged or a mine; every neighbour on the board of a cell that was
-- revealed by the call and has no mines around it is revealed, flagged or a mine; and what was revealed
-- are hidden cells without a mine, with nothing else changed.
pub ms_expand-Closes :
    (c : ℕ × ℕ) (g : Mines)
    → let h = ms_expand (ms_cells + 1) c g in Settled h c × Closes g h × Grown g h
ms_expand-Closes c g =
    let (settled, closes) =
      ms_expand-Correct (ms_cells + 1) c g (omega (arith, hidden-lt ms_cells g.ms_vis)) in
    (settled, closes, ms_expand-Grown (ms_cells + 1) c g)
