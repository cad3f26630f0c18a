-- ===== src/Gui/Mines/Draws.antt =====
-- The sequence of states of the generator of minesweeper, two draws at a time.
use bonfire_os.Base.{
  ℕ, zero, suc, ◌+◌, ◌*◌, ◌%◌, ◌/◌, ◌≡◌, arith, ◌∙◌, ap, sym, inl, inr, ◌⊎◌, u32, subst,
}

-- Two draws, without the wrap-around.
abbrev pub two_draws : ℕ → ℕ
two_draws x = (x * 1664525 + 1013904223) * 1664525 + 1013904223

unfoldable pub draws : ℕ → ℕ → ℕ
draws zero x = x
draws (suc n) x = draws n (two_draws x)

draws_same : (j k x : ℕ) → j ≡ k → draws j x ≡ draws k x
draws_same j k x e = ap (λ k. draws k x) e

draws-add : (m n x : ℕ) → draws (m + n) x ≡ draws n (draws m x)
unfolding draws
draws-add zero n x = draws_same (0 + n) n x (omega arith)
draws-add (suc m) n x =
    draws_same (suc m + n) (suc (m + n)) x (omega arith) ∙ draws-add m n (two_draws x)

-- The wrap-around can wait until the end.
pub draws-u32 : (n x y : ℕ) → u32 x ≡ u32 y → u32 (draws n x) ≡ u32 (draws n y)
unfolding draws
draws-u32 zero x y e = e
draws-u32 (suc n) x y e = draws-u32 n (two_draws x) (two_draws y) (omega (arith, e))

-- So many draws move every state by an odd multiple of `2 * q`.
abbrev Jump : ℕ → Type 0
Jump q = (n : ℕ) × (a : ℕ) × (c : ℕ) × ((x : ℕ) → draws n x ≡ x + 2 * q + 4 * q * (a * x + c))

one-Jump : Jump 1
unfolding draws
one-Jump = (1, 692660868906, 421917485173324, λ x. omega arith)

double-Jump : (q : ℕ) → Jump q → Jump (q + q)
double-Jump q (n, a, c, jump) = (
  n + n,
  a + 2 * q * a * a,
  c + a * q + 2 * q * a * c,
  λ x. draws-add n n x ∙ jump (draws n x) ∙ square (draws n x) x (jump x),
)
  where
    square :
        (y x : ℕ)
        → y ≡ x + 2 * q + 4 * q * (a * x + c)
        → y + 2 * q + 4 * q * (a * y + c)
          ≡ x + 2 * (q + q) + 4 * (q + q) * ((a + 2 * q * a * a) * x + (c + a * q + 2 * q * a * c))
    square y x e = ap (λ y. y + 2 * q + 4 * q * (a * y + c)) e ∙ omega arith

-- `j` doublings.
abbrev power : ℕ → ℕ
power zero = 1
power (suc j) = power j + power j

each-Jump : (j : ℕ) → Jump (power j)
each-Jump zero = one-Jump
each-Jump (suc j) = double-Jump (power j) (each-Jump j)

-- Equal up to multiples of `2 * q`.
abbrev Close : ℕ → ℕ → ℕ → Type 0
Close q x y = (s : ℕ) × (t : ℕ) × (x + 2 * q * s ≡ y + 2 * q * t)

even_or_odd : (n : ℕ) → (n ≡ n / 2 + n / 2) ⊎ (n ≡ n / 2 + n / 2 + 1)
even_or_odd n = omega arith

-- One more bit of the state is made equal, by a jump where it differs.
closer : (q x y : ℕ) → Jump q → Close q x y → (n : ℕ) × Close (q + q) (draws n x) y
unfolding draws
closer q x y (n, a, c, jump) (s, t, e) = elim (even_or_odd (s + t)) [
  | inl even ↦ (0, (s, (s + t) / 2, kept s t ((s + t) / 2) e even))
  | inr odd ↦
      let m = (s + t) / 2 in (n, (s, m + 1 + (a * x + c), moved s t m (a * x + c) _ e odd (jump x)))
]
  where
    kept :
        (s t m : ℕ)
        → x + 2 * q * s ≡ y + 2 * q * t
        → s + t ≡ m + m
        → x + 2 * (q + q) * s ≡ y + 2 * (q + q) * m
    kept s t m e even = omega (arith, e, ap (λ u. q * u) even)

    moved :
        (s t m r z : ℕ)
        → x + 2 * q * s ≡ y + 2 * q * t
        → s + t ≡ m + m + 1
        → z ≡ x + 2 * q + 4 * q * r
        → z + 2 * (q + q) * s ≡ y + 2 * (q + q) * (m + 1 + r)
    moved s t m r z e odd jump = omega (arith, e, ap (λ u. q * u) odd, jump)

close : (j x y : ℕ) → x % 2 ≡ y % 2 → (n : ℕ) × Close (power j) (draws n x) y
unfolding draws
close zero x y e = (0, (y / 2, x / 2, omega (arith, e)))
close (suc j) x y e =
    let (n, c) = close j x y e in
    let (m, d) = closer (power j) (draws n x) y (each-Jump j) c in
    (n + m, subst (λ z. Close (power j + power j) z y) (sym (draws-add n m x)) d)

-- From every state the generator comes, by an even number of draws, to every state of the same parity.
pub draws_reach : (x y : ℕ) → x % 2 ≡ y % 2 → (n : ℕ) × (u32 (draws n x) ≡ u32 y)
draws_reach x y e = let (n, (s, t, c)) = close 31 x y e in (n, wrapped (draws n x) s t c)
  where
    wrapped : (z s t : ℕ) → z + 2 * power 31 * s ≡ y + 2 * power 31 * t → u32 z ≡ u32 y
    wrapped z s t c = omega (arith, c)
