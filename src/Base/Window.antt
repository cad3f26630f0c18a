-- ===== src/Base/Window.antt =====
-- A run of cells of a circular buffer, as the list that it stands for.
use native.Mathlib.Nat.{mod-add-mod, mod-eq_of_lt, mod-eq-sub-mod}
use native.Mathlib.Decide.{dec_lt}
use bonfire_os.Base.{
  ℕ, zero, suc, ◌+◌, ◌-◌, ◌%◌, ◌≤◌, ◌<◌, ◌≡◌, ◌≢◌, ◌⊎◌, inl, inr, refl, sym, ap, ◌∙◌, List, [], ◌∷◌,
  ◌++◌, arith, length, update,
}
use mathlib.Core.Path.{ap₂}

-- Where offset `i` from `h` lies.
mod_cases :
    (cap h i : ℕ)
    → h < cap
    → i < cap
    → (((h + i) % cap ≡ h + i) × (h + i < cap)) ⊎ (((h + i) % cap ≡ h + i - cap) × (cap ≤ h + i))
mod_cases cap h i hh hi = elim (dec_lt (h + i) cap) [
  | yes p ↦ inl (mod-eq_of_lt p, p)
  | no p ↦ inr (
    mod-eq-sub-mod {n = h + i} {m = cap} (omega arith)
        ∙ mod-eq_of_lt {n = h + i - cap} {m = cap} (omega arith),
    omega arith,
  )
]

mod_distinct : (cap h i j : ℕ) → h < cap → i < j → j < cap → (h + i) % cap ≢ (h + j) % cap
mod_distinct cap h i j hh hij hj =
    omega (arith, mod_cases cap h i hh (omega arith), mod_cases cap h j hh hj)

module _ {ℓ} {A : Type ℓ} (cap : ℕ) where
  -- The cells at offsets `i`, …, `i + n - 1` from `h`, going round at `cap`.
  abbrev pub cells : (ℕ → A) → ℕ → ℕ → ℕ → List A
  cells buf h i zero = []
  cells buf h i (suc n) = buf ((h + i) % cap) ∷ cells buf h (i + 1) n

  pub length-cells : (buf : ℕ → A) (h i n : ℕ) → length (cells buf h i n) ≡ n
  length-cells buf h i zero = refl
  length-cells buf h i (suc n) = ap suc (length-cells buf h (i + 1) n)

  cells-update :
      (buf : ℕ → A) (x : A) (h i n j : ℕ)
      → h < cap
      → i + n ≤ j
      → j < cap
      → cells (update buf ((h + j) % cap) x) h i n ≡ cells buf h i n
  cells-update buf x h i zero j hh hj hc = refl
  cells-update buf x h i (suc n) j hh hj hc =
      ap₂ ◌∷◌ (ground (arith, mod_distinct cap h i j hh (omega arith) hc))
        (cells-update buf x h (i + 1) n j hh (omega arith) hc)

  cells-snoc :
      (buf : ℕ → A) (h i n j : ℕ)
      → i + n ≡ j
      → cells buf h i (suc n) ≡ cells buf h i n ++ buf ((h + j) % cap) ∷ []
  cells-snoc buf h i zero j e = ap (λ k. buf ((h + k) % cap) ∷ []) (omega arith)
  cells-snoc buf h i (suc n) j e =
      ap (λ t. buf ((h + i) % cap) ∷ t) (cells-snoc buf h (i + 1) n j (omega arith))

  cells_shift : (buf : ℕ → A) (h i n : ℕ) → cells buf h (i + 1) n ≡ cells buf ((h + 1) % cap) i n
  cells_shift buf h i zero = refl
  cells_shift buf h i (suc n) =
      ap₂ ◌∷◌ (ap buf (ap (λ k. k % cap) (omega arith) ∙ sym (mod-add-mod (h + 1) cap i)))
        (cells_shift buf h (i + 1) n)

  -- The `n` cells from `h` on.
  abbrev pub window : (ℕ → A) → ℕ → ℕ → List A
  window buf h n = cells buf h 0 n

  -- A write just behind the window extends it.
  pub window_push :
      (buf : ℕ → A) (x : A) (h n i : ℕ)
      → h < cap
      → n < cap
      → i ≡ (h + n) % cap
      → window (update buf i x) h (n + 1) ≡ window buf h n ++ x ∷ []
  window_push buf x h n i hh hn e =
      ap (cells (update buf i x) h 0) {y = suc n} (omega arith)
      ∙ cells-snoc (update buf i x) h 0 n n (omega arith)
      ∙ ap₂ (λ t y. t ++ y ∷ []) before (ground arith)
    where
      before : cells (update buf i x) h 0 n ≡ cells buf h 0 n
      before = rw e (cells-update buf x h 0 n n hh (omega arith) hn)

  -- Without its first cell, the window starts one further on.
  pub window_pop :
      (buf : ℕ → A) (h n : ℕ)
      → h < cap
      → 0 < n
      → window buf h n ≡ buf h ∷ window buf ((h + 1) % cap) (n - 1)
  window_pop buf h zero hh hn = absurd (omega arith)
  window_pop buf h (suc n) hh hn =
      ap₂ ◌∷◌ (ap buf (ap (λ k. k % cap) (omega arith) ∙ mod-eq_of_lt hh))
        (cells_shift buf h 0 n ∙ ap (cells buf ((h + 1) % cap) 0) (omega arith))
