-- ===== src/Gui/Mines/Placing.antt =====
-- Where the generator places the mines of minesweeper.
use bonfire_os.Base.{
  ℕ, zero, suc, ◌+◌, ltb, update, ◌≢◌, true, false, refl, inl, inr, ◌==◌, Bool, if◌then◌else◌, ◌≤◌,
  ◌<◌, ◌≡◌, update_ne, arith, ◌∙◌, Bool-cases, ap, ==→eq, sym, update_self, ==→ne, some, ◌%◌,
  if_elim, ltb→lt, none, subst, ltb→le,
}
use mathlib.Core.Path.{ap₂}
use bonfire_os.Gui.Mines.{
  Mines, on_board, index, ms_cells, ms_mines, ms_rand_u32, ms_in_safe_zone, place_round,
  place_rounds, ms_place_mines, ms_build_adj,
}
use bonfire_os.Gui.Mines.Board.{index_inj, index-lt}

-- How many of the first `n` cells hold a mine.
unfoldable pub mines : ℕ → (ℕ → Bool) → ℕ
mines zero mine = 0
mines (suc n) mine = if mine n then mines n mine + 1 else mines n mine

mines-update_ge : (n i : ℕ) (mine : ℕ → Bool) → n ≤ i → mines n (update mine i true) ≡ mines n mine
unfolding mines
mines-update_ge zero i mine h = refl
mines-update_ge (suc n) i mine h =
    rw (update_ne mine i true n (omega (arith, h)), mines-update_ge n i mine (omega (arith, h)))
      refl

mines-update :
    (n i : ℕ) (mine : ℕ → Bool)
    → i < n
    → mine i ≡ false
    → mines n (update mine i true) ≡ mines n mine + 1
unfolding mines
mines-update zero i mine h f = absurd (omega (arith, h))
mines-update (suc n) i mine h f = elim (Bool-cases (i == n)) [
  | inl last ↦
      let at = ==→eq i n last in
      rw
        (
          ap (update mine i true) (sym at) ∙ update_self mine i true,
          sym (ap mine at) ∙ f,
          mines-update_ge n i mine (omega (arith, at)),
        )
        refl
  | inr before ↦
      rw
        (
          update_ne mine i true n (λ e. ==→ne i n before (sym e)),
          mines-update n i mine (ground (arith, h, before)) f,
        )
        (if-suc (mine n) (mines n mine))
]
  where
    if-suc : (b : Bool) (k : ℕ) → (if b then k + 1 + 1 else k + 1) ≡ (if b then k + 1 else k) + 1
    if-suc b k = ground arith

mines_none : (n i : ℕ) (mine : ℕ → Bool) → mines n mine ≡ 0 → i < n → mine i ≡ false
unfolding mines
mines_none zero i mine e h = absurd (omega (arith, h))
mines_none (suc n) i mine e h = elim (Bool-cases (i == n)) [
  | inl last ↦ ap mine (==→eq i n last) ∙ ground (arith, e)
  | inr before ↦ mines_none n i mine (ground (arith, e)) (ground (arith, h, before))
]

-- While the mines are placed: as many as the counter says, none in the safe zone, and the other
-- variables but the generator's are those of `g`.
pub record Placing (g : Mines) (safe : ℕ × ℕ) (placed : ℕ) (h : Mines) : Type 0 where
  pub count : mines ms_cells h.ms_mine ≡ placed
  pub few : placed ≤ ms_mines
  pub empty :
      (d : ℕ × ℕ) → on_board d ≡ true → ms_in_safe_zone d safe ≡ true → h.ms_mine (index d) ≡ false
  pub vis : h.ms_vis ≡ g.ms_vis
  pub dead : h.ms_dead ≡ g.ms_dead

-- A mine more.
Placing-mine :
    (g : Mines) (safe : ℕ × ℕ) (placed : ℕ) (h : Mines) (px py : ℕ)
    → Placing g safe placed h
    → placed < ms_mines
    → on_board (px, py) ≡ true
    → ms_in_safe_zone (px, py) safe ≡ false
    → h.ms_mine (index (px, py)) ≡ false
    → Placing g safe (placed + 1) (record h { ms_mine = update h.ms_mine (index (px, py)) true })
Placing-mine g safe placed h px py p few on out f = record {
  count =
      mines-update ms_cells (index (px, py)) h.ms_mine (index-lt (px, py) on) f
      ∙ ap (λ k. k + 1) p.count;
  few = omega (arith, few);
  empty = λ d ond zone.
      update_ne h.ms_mine (index (px, py)) true (index d) (λ e.
        let (x, y) = index_inj d.0 d.1 px py ond on e in
        true_false (sym zone ∙ ap₂ (λ x y. ms_in_safe_zone (x, y) safe) x y ∙ out))
      ∙ p.empty d ond zone;
  vis = p.vis;
  dead = p.dead;
}
  where
    true_false : ◌≢◌ {A = Bool} true false
    true_false e = cc e

rand-Placing :
    (g : Mines) (safe : ℕ × ℕ) (placed : ℕ) (h : Mines)
    → Placing g safe placed h
    → Placing g safe placed (ms_rand_u32 h).1
unfolding ms_rand_u32
rand-Placing g safe placed h p = record {
  count = p.count;
  few = p.few;
  empty = p.empty;
  vis = p.vis;
  dead = p.dead;
}

rand_on_board : (x y : ℕ) → on_board (x % 9 + 1, y % 9 + 1) ≡ true
rand_on_board x y = ground arith

place_round-Placing :
    (g : Mines) (safe : ℕ × ℕ) (placed : ℕ) (h : Mines)
    → Placing g safe placed h
    → placed < ms_mines
    → Placing g safe (place_round safe (placed, h)).0 (place_round safe (placed, h)).1
unfolding place_round
place_round-Placing g safe placed h p few =
    let rx = ms_rand_u32 h in
    let ry = ms_rand_u32 rx.1 in
    let q = rand-Placing g safe placed rx.1 (rand-Placing g safe placed h p) in
    let P = λ (s : ℕ × Mines). Placing g safe s.0 s.1 in
    if_elim P (ms_in_safe_zone (rx.0 % 9 + 1, ry.0 % 9 + 1) safe) _ _ (λ _. q)
      (λ out.
        if_elim P (ry.1.ms_mine (index (rx.0 % 9 + 1, ry.0 % 9 + 1))) _ _ (λ _. q)
          (λ f.
            Placing-mine g safe placed ry.1 (rx.0 % 9 + 1) (ry.0 % 9 + 1) q few
              (rand_on_board rx.0 ry.0) out f))

pub place_rounds-Placing :
    (n : ℕ) (g : Mines) (safe : ℕ × ℕ) (placed : ℕ) (h : Mines)
    → Placing g safe placed h
    → Placing g safe (place_rounds n safe (placed, h)).0 (place_rounds n safe (placed, h)).1
unfolding place_rounds
place_rounds-Placing zero g safe placed h p = p
place_rounds-Placing (suc n) g safe placed h p =
    if_elim (λ (s : ℕ × Mines). Placing g safe s.0 s.1) (ltb placed ms_mines) _ _
      (λ few.
        let s = place_round safe (placed, h) in
        place_rounds-Placing n g safe s.0 s.1
          (place_round-Placing g safe placed h p (ltb→lt placed ms_mines few)))
      (λ _. p)

pub some_inj : {g h : Mines} → some g ≡ some h → g ≡ h
some_inj {g} e = ap (λ o. elim o [ none ↦ g | some a ↦ a ]) e

-- What the end of the loop gives.
place_end : {g h : Mines} (b : Bool) → b ≡ false → (if b then none else some g) ≡ some h → g ≡ h
place_end true f e = absurd (cc f)
place_end false f e = some_inj e

-- The loop begins with no mine placed.
pub start-Placing : (safe : ℕ × ℕ) (g : Mines) → mines ms_cells g.ms_mine ≡ 0 → Placing g safe 0 g
start-Placing safe g empty = record {
  count = empty;
  few = omega arith;
  empty = λ d on zone. mines_none ms_cells (index d) g.ms_mine empty (index-lt d on);
  vis = refl;
  dead = refl;
}

pub ms_place_mines-Placing :
    (n : ℕ) (safe : ℕ × ℕ) (g h : Mines)
    → mines ms_cells g.ms_mine ≡ 0
    → ms_place_mines n safe g ≡ some h
    → Placing g safe ms_mines h
unfolding ms_place_mines ms_build_adj
ms_place_mines-Placing n safe g h empty e =
    elim (Bool-cases (ltb (place_rounds n safe (0, g)).0 ms_mines)) [
      | inl early ↦ absurd (ground (arith, e, early))
      | inr done ↦ subst (Placing g safe ms_mines) (placed_lem done) (
          built
            (subst (λ k. Placing g safe k s.1) (omega (arith, ltb→le s.0 ms_mines done, p.few)) p))
    ]
  where
    s : ℕ × Mines
    s = place_rounds n safe (0, g)

    p : Placing g safe s.0 s.1
    p = place_rounds-Placing n g safe 0 g (start-Placing safe g empty)

    placed_lem : ltb s.0 ms_mines ≡ false → ms_build_adj s.1 ≡ h
    placed_lem done = place_end (ltb s.0 ms_mines) done e

    built : Placing g safe ms_mines s.1 → Placing g safe ms_mines (ms_build_adj s.1)
    built q = record { count = q.count; few = q.few; empty = q.empty; vis = q.vis; dead = q.dead }
