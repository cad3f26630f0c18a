-- ===== src/Fs/Path/Normal.antt =====
-- What `normalize_path` makes of a path: the bound of its buffer, and paths without dots.
use bonfire_os.Base.{
  ℕ, zero, suc, ◌+◌, ◌-◌, ◌≤◌, ◌<◌, ◌≡◌, ◌≢◌, refl, ap, sym, ◌∙◌, List, [], ◌∷◌, ◌++◌, arith, ltb,
  ◌==◌, length, get_or, drop, Bool-cases, inl, inr, if_elim, ==→eq, lt→ltb, ==_of_ne,
}
use mathlib.Core.List.{reverse, reverse_aux, reverse_aux-reverse_aux-nil, append-nil}
use bonfire_os.Fs.Path.{
  slash, dot, drop_part, normal_step, normal_loop, trim_slash, normalize_path, normal_out,
}

length-reverse_aux : (xs ys : List ℕ) → length (reverse_aux xs ys) ≡ length xs + length ys
length-reverse_aux [] ys = omega arith
length-reverse_aux (x ∷ xs) ys = omega (arith, length-reverse_aux xs (x ∷ ys))

length-reverse : (xs : List ℕ) → length (reverse xs) ≡ length xs
length-reverse xs = omega (arith, length-reverse_aux xs [])

length-drop_part : (out : List ℕ) → length (drop_part out) ≤ length out
unfolding drop_part
length-drop_part [] = omega arith
length-drop_part (c ∷ out) = ground (arith, length-drop_part out)

length-normal_step :
    (c : ℕ) (rest out : List ℕ) → length (normal_step c rest out).1 ≤ length out + 1
unfolding normal_step
length-normal_step c rest out = ground (arith, length-drop_part out)

length-normal_loop :
    (m skip : ℕ) (path out : List ℕ)
    → length out ≤ m - 1
    → length (normal_loop m skip path out) ≤ m - 1
unfolding normal_loop
length-normal_loop m zero [] out h = h
length-normal_loop m (suc skip) [] out h = h
length-normal_loop m (suc skip) (c ∷ rest) out h = length-normal_loop m skip rest out h
length-normal_loop m zero (c ∷ rest) out h = elim (Bool-cases (ltb (length out) (m - 1))) [
  | inl room ↦ rw room (
      length-normal_loop m (normal_step c rest out).0 rest (normal_step c rest out).1
        (ground (arith, room, length-normal_step c rest out)))
  | inr full ↦ rw full h
]

length-trim_slash : (out : List ℕ) → length (trim_slash out) ≤ length out
length-trim_slash [] = ground arith
length-trim_slash (c ∷ out) = ground arith

length-normal_out : (path : List ℕ) (m : ℕ) → 2 ≤ m → length (normal_out m path) ≤ m - 1
unfolding normal_out
length-normal_out path m h =
    if_elim (λ (out : List ℕ). length out ≤ m - 1) (get_or path 0 0 == slash) _ _
      (λ _. length-normal_loop m 0 (drop 1 path) (slash ∷ []) (omega (arith, h)))
      (λ _. length-normal_loop m 0 path [] (omega arith))

-- Whatever the path, its normal form and the terminator fit into a buffer of two characters or more.
length-normalize_path :
    (path : List ℕ) (max_len : ℕ) → 2 ≤ max_len → length (normalize_path path max_len) + 1 ≤ max_len
unfolding normalize_path
length-normalize_path path m h = omega (
  arith,
  length-reverse (trim_slash (normal_out m path)),
  length-trim_slash (normal_out m path),
  length-normal_out path m h,
)

-- No dot, and no slash behind a slash, in what follows the character `prev`.
abbrev pub Plain : ℕ → List ℕ → Type 0
Plain prev [] = Unit
Plain prev (c ∷ p) = (c ≢ dot) × (c ≡ slash → prev ≢ slash) × Plain c p

-- The last character, that in front being `prev`.
abbrev pub last_char : ℕ → List ℕ → ℕ
last_char prev [] = prev
last_char prev (c ∷ p) = last_char c p

step_plain :
    (o c : ℕ) (rest out : List ℕ)
    → c ≢ dot
    → (c ≡ slash → o ≢ slash)
    → normal_step c rest (o ∷ out) ≡ (0, c ∷ o ∷ out)
unfolding normal_step
step_plain o c rest out nd ns = elim (Bool-cases (c == slash)) [
  | inl s ↦ ground (arith, ns (==→eq c slash s))
  | inr s ↦ ground arith
]

-- The loop copies a plain part of a path.
loop-Plain :
    (m o : ℕ) (p rest out : List ℕ)
    → Plain o p
    → length p + suc (length out) ≤ m - 1
    → normal_loop m 0 (p ++ rest) (o ∷ out) ≡ normal_loop m 0 rest (reverse_aux p (o ∷ out))
unfolding normal_loop
loop-Plain m o [] rest out plain h = refl
loop-Plain m o (c ∷ p) rest out (nd, ns, plain) h =
    rw (lt→ltb (suc (length out)) (m - 1) (omega (arith, h)), step_plain o c (p ++ rest) out nd ns)
      (loop-Plain m c p rest (o ∷ out) plain (omega (arith, h)))

top-reverse_aux : (o : ℕ) (p out : List ℕ) → get_or (reverse_aux p (o ∷ out)) 0 0 ≡ last_char o p
top-reverse_aux o [] out = refl
top-reverse_aux o (c ∷ p) out = top-reverse_aux c p (o ∷ out)

trim_slash_none : (out : List ℕ) → get_or out 0 0 ≢ slash → trim_slash out ≡ out
trim_slash_none [] ne = refl
trim_slash_none (c ∷ out) ne = rw (==_of_ne c slash ne) (ground arith)

-- At the end of a path, `/..` takes away the slash that was just put.
loop_parent :
    (m : ℕ) (out : List ℕ)
    → get_or out 0 0 ≢ slash
    → 0 < length out
    → length out + 2 ≤ m - 1
    → normal_loop m 0 (slash ∷ dot ∷ dot ∷ []) out ≡ out
unfolding normal_loop normal_step drop_part
loop_parent m [] ne some_char h = absurd (omega (arith, some_char))
loop_parent m (c ∷ out) ne some_char h = ground arith

module _ (o : ℕ) (p : List ℕ) (plain : Plain slash (o ∷ p)) (ends : last_char o p ≢ slash) where
  -- The loop's result for the path `/` `o` `p`, with its last character first.
  copied : List ℕ
  copied = reverse_aux p (o ∷ slash ∷ [])

  length-copied : length copied ≡ length p + 2
  unfolding copied
  length-copied = length-reverse_aux p (o ∷ slash ∷ [])

  looped :
      (m : ℕ) (rest : List ℕ)
      → length p + 3 ≤ m
      → normal_out m (slash ∷ o ∷ (p ++ rest)) ≡ normal_loop m 0 rest copied
  unfolding normal_out copied
  looped m rest h = loop-Plain m slash (o ∷ p) rest [] plain (omega (arith, h))

  top : get_or copied 0 0 ≢ slash
  unfolding copied
  top e = ends (sym (top-reverse_aux o p (slash ∷ [])) ∙ e)

  trimmed : reverse (trim_slash copied) ≡ slash ∷ o ∷ p
  unfolding copied
  trimmed = ap reverse (trim_slash_none copied top) ∙ reverse_aux-reverse_aux-nil p (o ∷ slash ∷ [])

  -- An absolute path without dots, without two slashes in a row and without a slash at its end is
  -- its own normal form, if the buffer has room for it.
  pub normalize_path-plain :
      (max_len : ℕ)
      → length p + 3 ≤ max_len
      → normalize_path (slash ∷ o ∷ p) max_len ≡ slash ∷ o ∷ p
  unfolding normalize_path normal_loop copied
  normalize_path-plain m h =
      ap (λ q. reverse (trim_slash (normal_out m (slash ∷ o ∷ q)))) (sym (append-nil p))
      ∙ ap (λ out. reverse (trim_slash out)) (looped m [] h)
      ∙ trimmed

  -- With `/..` behind such a path, `normalize_path` takes away no more than these three characters,
  -- and not the last name.
  pub normalize_path-parent :
      (max_len : ℕ)
      → length p + 5 ≤ max_len
      → normalize_path (slash ∷ o ∷ (p ++ slash ∷ dot ∷ dot ∷ [])) max_len ≡ slash ∷ o ∷ p
  unfolding normalize_path
  normalize_path-parent m h =
      ap (λ out. reverse (trim_slash out))
        (looped m (slash ∷ dot ∷ dot ∷ []) (omega (arith, h))
          ∙ loop_parent m copied top (omega (arith, length-copied))
              (omega (arith, length-copied, h)))
      ∙ trimmed
