-- ===== src/Base/Text.antt =====
-- String literals as the byte lists that C arrays of `char` hold.
use Prim.Native.Char.{code}
use Prim.Native.String.{String}
use mathlib.Core.Path.{ap₂}
use bonfire_os.Base.{
  refl, ℕ, List, [], ◌∷◌, Bool, ◌≡◌, ◌≢◌, ◌++◌, true, false, take, ◌==◌, arith, Bool-cases, ◌-◌,
  ◌&&◌, inl, length, inr, ==→eq, &&_left, &&_right,
}

-- The code points of a text: its bytes, if it is ASCII.
abbrev pub codes : String → List ℕ
codes String.[] = []
codes (String.◌∷◌ c s) = code c ∷ codes s

-- The comparison of two strings, character by character.
unfoldable pub same : List ℕ → List ℕ → Bool
same [] [] = true
same (a ∷ xs) (b ∷ ys) = let later = same xs ys in a == b && later
same _ _ = false

pub same_refl : (xs : List ℕ) → same xs xs ≡ true
unfolding same
same_refl [] = refl
same_refl (x ∷ xs) = ground (arith, same_refl xs)

pub same→eq : (xs ys : List ℕ) → same xs ys ≡ true → xs ≡ ys
unfolding same
same→eq [] [] e = refl
same→eq [] (y ∷ ys) e = cc e
same→eq (x ∷ xs) [] e = cc e
same→eq (x ∷ xs) (y ∷ ys) e =
    ap₂ ◌∷◌ (==→eq x y (&&_left (x == y) (same xs ys) e))
      (same→eq xs ys (&&_right (x == y) (same xs ys) e))

pub same_ne : (xs ys : List ℕ) → xs ≢ ys → same xs ys ≡ false
same_ne xs ys ne = elim (Bool-cases (same xs ys)) [
  | inl e ↦ absurd (ne (same→eq xs ys e))
  | inr e ↦ e
]

-- What a loop that copies `xs` behind `out` leaves there, with room for `max` characters in all.
abbrev pub copy : ℕ → List ℕ → List ℕ → List ℕ
copy max out xs = out ++ take (max - length out) xs
