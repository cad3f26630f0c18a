-- ===== src/Gui/Mines/Reveal.antt =====
-- What the recursion of `ms_expand` reveals, and what it leaves alone.
use bonfire_os.Base.{
  ℕ, zero, suc, ltb, update, ◌≢◌, ◌⊎◌, false, refl, inl, inr, ◌==◌, ◌≡◌, ◌∙◌, Bool-cases, sym, ap,
  [], ◌∷◌, ==→eq, List, if_elim, not, ==→ne,
}
use bonfire_os.Gui.Mines.{Mines, on_board, index, around, each, ms_expand}

-- From `g` to `h` some hidden cells without a mine are revealed, and nothing else changes.
pub record Grown (g h : Mines) : Type 0 where
  pub mine : h.ms_mine ≡ g.ms_mine
  pub adj : h.ms_adj ≡ g.ms_adj
  pub game :
      (h.ms_started ≡ g.ms_started)
      × (h.ms_dead ≡ g.ms_dead)
      × (h.ms_win ≡ g.ms_win)
      × (h.ms_rng_state ≡ g.ms_rng_state)
  pub vis :
      (i : ℕ)
      → (h.ms_vis i ≡ g.ms_vis i)
        ⊎ (g.ms_vis i ≢ 1) × (g.ms_vis i ≢ 2) × (g.ms_mine i ≡ false) × (h.ms_vis i ≡ 1)

pub Grown-refl : (g : Mines) → Grown g g
Grown-refl g = record {
  mine = refl;
  adj = refl;
  game = (refl, refl, refl, refl);
  vis = λ i. inl refl;
}

Grown-trans : (g h k : Mines) → Grown g h → Grown h k → Grown g k
Grown-trans g h k a b = record {
  mine = b.mine ∙ a.mine;
  adj = b.adj ∙ a.adj;
  game = (b.game.0 ∙ a.game.0, b.game.1 ∙ a.game.1, b.game.2 ∙ a.game.2, b.game.3 ∙ a.game.3);
  vis = λ i. vis_trans (a.vis i) (b.vis i) (ap (λ m. m i) a.mine);
}
  where
    vis_trans :
        {i : ℕ}
        → (h.ms_vis i ≡ g.ms_vis i)
          ⊎ (g.ms_vis i ≢ 1) × (g.ms_vis i ≢ 2) × (g.ms_mine i ≡ false) × (h.ms_vis i ≡ 1)
        → (k.ms_vis i ≡ h.ms_vis i)
          ⊎ (h.ms_vis i ≢ 1) × (h.ms_vis i ≢ 2) × (h.ms_mine i ≡ false) × (k.ms_vis i ≡ 1)
        → h.ms_mine i ≡ g.ms_mine i
        → (k.ms_vis i ≡ g.ms_vis i)
          ⊎ (g.ms_vis i ≢ 1) × (g.ms_vis i ≢ 2) × (g.ms_mine i ≡ false) × (k.ms_vis i ≡ 1)
    vis_trans (inl a) (inl b) m = inl (b ∙ a)
    vis_trans (inr (n1, n2, f, v)) (inl b) m = inr (n1, n2, f, b ∙ v)
    vis_trans (inl a) (inr (n1, n2, f, v)) m =
        inr ((λ e. n1 (a ∙ e)), (λ e. n2 (a ∙ e)), sym m ∙ f, v)
    vis_trans (inr (n1, n2, f, v)) (inr (n1', n2', f', v')) m = inr (n1, n2, f, v')

-- The state in which a cell is revealed.
abbrev pub revealed : ℕ × ℕ → Mines → Mines
revealed c g = record g { ms_vis = update g.ms_vis (index c) 1 }

revealed-Grown :
    (c : ℕ × ℕ) (g : Mines)
    → g.ms_vis (index c) ≢ 1
    → g.ms_vis (index c) ≢ 2
    → g.ms_mine (index c) ≡ false
    → Grown g (revealed c g)
revealed-Grown c g n1 n2 f = record {
  mine = refl;
  adj = refl;
  game = (refl, refl, refl, refl);
  vis = λ i. elim (Bool-cases (i == index c)) [
    | inl here ↦
        let at = ==→eq i (index c) here in
        inr (
          (λ e. n1 (sym (ap g.ms_vis at) ∙ e)),
          (λ e. n2 (sym (ap g.ms_vis at) ∙ e)),
          ap g.ms_mine at ∙ f,
          rw here refl,
        )
    | inr there ↦ inl (rw there refl)
  ];
}

pub each-Grown :
    (f : ℕ × ℕ → Mines → Mines)
    → ((c : ℕ × ℕ) (g : Mines) → Grown g (f c g))
    → (cells : List (ℕ × ℕ)) (g : Mines) → Grown g (each f cells g)
unfolding each
each-Grown f grows [] g = Grown-refl g
each-Grown f grows (c ∷ cells) g =
    Grown-trans g (f c g) (each f cells (f c g)) (grows c g) (each-Grown f grows cells (f c g))

-- `ms_expand` reveals hidden cells without a mine, if any, and changes nothing else: no mine, no flag,
-- no cell that was revealed before, and none of the game's other variables.
pub ms_expand-Grown : (fuel : ℕ) (c : ℕ × ℕ) (g : Mines) → Grown g (ms_expand fuel c g)
unfolding ms_expand
ms_expand-Grown zero c g = Grown-refl g
ms_expand-Grown (suc fuel) c g =
    if_elim (Grown g) (not (on_board c)) _ _ (λ _. Grown-refl g)
      (λ _.
        if_elim (Grown g) (g.ms_vis (index c) == 2) _ _ (λ _. Grown-refl g)
          (λ n2.
            if_elim (Grown g) (g.ms_vis (index c) == 1) _ _ (λ _. Grown-refl g)
              (λ n1.
                if_elim (Grown g) (g.ms_mine (index c)) _ _ (λ _. Grown-refl g)
                  (λ f.
                    let first =
                      revealed-Grown c g (==→ne (g.ms_vis (index c)) 1 n1)
                        (==→ne (g.ms_vis (index c)) 2 n2) f in
                    if_elim (Grown g) (ltb 0 (g.ms_adj (index c))) _ _ (λ _. first)
                      (λ _.
                        Grown-trans g (revealed c g)
                          (each (ms_expand fuel) (around c) (revealed c g)) first
                          (each-Grown (ms_expand fuel) (ms_expand-Grown fuel) (around c)
                            (revealed c g)))))))
