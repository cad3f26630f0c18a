-- ===== src/Fs/Path/Names.antt =====
-- The last name of a path, and how names are stored.
use bonfire_os.Base.{
  ℕ, zero, suc, ◌+◌, ◌≤◌, ◌≡◌, ◌≢◌, refl, ap, sym, subst, ◌∙◌, true, List, [], ◌∷◌, ◌++◌, arith,
  ◌==◌, length, length-append, drop, All, Bool-cases, inl, inr, ==→ne, ==_of_ne,
}
use mathlib.Core.List.{append-nil, append_assoc}
use bonfire_os.Fs.Path.{slash, last_from, last_of_file, stored_name}

-- No slash in it.
abbrev pub IsName : List ℕ → Type 0
IsName = All (λ c. c ≢ slash)

IsName-snoc : (xs : List ℕ) (c : ℕ) → IsName xs → c ≢ slash → IsName (xs ++ c ∷ [])
IsName-snoc [] c a ne = (ne, tt)
IsName-snoc (x ∷ xs) c (h, a) ne = (h, IsName-snoc xs c a ne)

drop-length : (n : ℕ) (xs ys : List ℕ) → n ≡ length xs → drop n (xs ++ ys) ≡ ys
drop-length zero [] ys e = refl
drop-length zero (x ∷ xs) ys e = absurd (omega (arith, e))
drop-length (suc n) [] ys e = absurd (omega (arith, e))
drop-length (suc n) (x ∷ xs) ys e = drop-length n xs ys (omega (arith, e))

-- `pre` is what lies before the last name so far, `mid` that name.
last_from-IsName :
    (p last : ℕ) (pre mid rest : List ℕ)
    → last ≡ length pre
    → p ≡ last + length mid
    → IsName mid
    → IsName (drop (last_from p last rest) (pre ++ (mid ++ rest)))
unfolding last_from
last_from-IsName p last pre mid [] hl hp a =
    subst IsName (sym (drop-length last pre (mid ++ []) hl)) (subst IsName (sym (append-nil mid)) a)
last_from-IsName p last pre mid (c ∷ rest) hl hp a = elim (Bool-cases (c == slash)) [
  | inl s ↦ rw s (
      subst (λ t. IsName (drop (last_from (p + 1) (p + 1) rest) t)) (regroup s)
        (last_from-IsName (p + 1) (p + 1) (pre ++ (mid ++ c ∷ [])) [] rest
          (omega (arith, hl, hp, length-append pre (mid ++ c ∷ []), length-append mid (c ∷ [])))
          (omega arith) tt))
  | inr n ↦ rw n (
      subst (λ t. IsName (drop (last_from (p + 1) last rest) (pre ++ t)))
        (append_assoc mid (c ∷ []) rest)
        (last_from-IsName (p + 1) last pre (mid ++ c ∷ []) rest hl
          (omega (arith, hp, length-append mid (c ∷ []))) (IsName-snoc mid c a (==→ne c slash n))))
]
  where
    regroup : (c == slash) ≡ true → (pre ++ (mid ++ c ∷ [])) ++ rest ≡ pre ++ (mid ++ c ∷ rest)
    regroup s =
        append_assoc pre (mid ++ c ∷ []) rest ∙ ap (λ t. pre ++ t) (append_assoc mid (c ∷ []) rest)

-- What `last_of_file` points to has no slash.
pub last_of_file-IsName : (norm : List ℕ) → IsName (drop (last_of_file norm) norm)
unfolding last_from
last_of_file-IsName [] = tt
last_of_file-IsName (c ∷ norm) = elim (Bool-cases (c == slash)) [
  | inl s ↦ rw s (last_from-IsName 1 1 (c ∷ []) [] norm refl refl tt)
  | inr n ↦ rw n (last_from-IsName 0 0 [] [] (c ∷ norm) refl refl tt)
]

-- A short name is stored as it is.
pub stored_name-short :
    (room : ℕ) (name : List ℕ) → IsName name → length name ≤ room → stored_name room name ≡ name
unfolding stored_name
stored_name-short zero [] a h = refl
stored_name-short zero (c ∷ name) a h = absurd (omega (arith, h))
stored_name-short (suc room) [] a h = refl
stored_name-short (suc room) (c ∷ name) (ne, a) h =
    rw (==_of_ne c slash ne) (ap (λ t. c ∷ t) (stored_name-short room name a (omega (arith, h))))

-- What is stored fits into the row.
pub length-stored_name : (room : ℕ) (name : List ℕ) → length (stored_name room name) ≤ room
unfolding stored_name
length-stored_name zero name = omega arith
length-stored_name (suc room) [] = omega arith
length-stored_name (suc room) (c ∷ name) = ground (arith, length-stored_name room name)
