-- ===== src/Shell/Alias/Expand.antt =====
-- What `alias_parse_and_expand` makes of a line.
use bonfire_os.Base.Text.{copy}
use bonfire_os.Base.{
  ℕ, Option, Option-cases, inl, inr, ==_of_ne, zero, suc, ◌-◌, ◌≤◌, ◌<◌, ◌≡◌, ◌≢◌, refl, ap, none,
  some, List, [], ◌∷◌, ◌++◌, arith, length, take, All, replicate, ◌∙◌, ==_of_ne,
}
use bonfire_os.Shell.Alias.{
  Aliases, alias_name_max, alias_get, skip_spaces, split_word, expand_line, expand_word,
  alias_parse_and_expand,
}

-- No space in it.
abbrev IsWord : List ℕ → Type 0
IsWord = All (λ c. c ≢ 32)

skip_spaces-replicate : (k : ℕ) (xs : List ℕ) → skip_spaces (replicate k 32 ++ xs) ≡ skip_spaces xs
unfolding skip_spaces
skip_spaces-replicate zero xs = refl
skip_spaces-replicate (suc k) xs = skip_spaces-replicate k xs

pub skip_spaces_none : (c : ℕ) (xs : List ℕ) → c ≢ 32 → skip_spaces (c ∷ xs) ≡ c ∷ xs
unfolding skip_spaces
skip_spaces_none c xs ne = ground arith

pub split_word-append :
    (n : ℕ) (word rest : List ℕ)
    → IsWord word
    → length word ≤ n
    → split_word n (word ++ 32 ∷ rest) ≡ (word, 32 ∷ rest)
unfolding split_word
split_word-append zero [] rest w short = refl
split_word-append zero (c ∷ word) rest w short = absurd (omega (arith, short))
split_word-append (suc n) [] rest w short = refl
split_word-append (suc n) (c ∷ word) rest (ne, w) short =
    rw (==_of_ne c 32 ne, split_word-append n word rest w (omega (arith, short))) refl

copy_lem : (m : ℕ) (xs ys : List ℕ) → copy m (take m xs) ys ≡ take m (xs ++ ys)
copy_lem zero xs ys = ap (λ k. take k ys) {x = 0 - 0} {y = 0} (omega arith)
copy_lem (suc m) [] ys = ap (λ k. take k ys) {y = suc m} (omega arith)
copy_lem (suc m) (x ∷ xs) ys =
    ap (λ k. x ∷ (take m xs ++ take k ys)) {y = m - length (take m xs)} (omega arith)
    ∙ ap (λ t. x ∷ t) (copy_lem m xs ys)

copy-nil : (m : ℕ) (xs : List ℕ) → copy m [] xs ≡ take m xs
copy-nil m xs = ap (λ k. take k xs) {y = m} (omega arith)

append_assoc : (xs ys zs : List ℕ) → (xs ++ ys) ++ zs ≡ xs ++ (ys ++ zs)
append_assoc [] ys zs = refl
append_assoc (x ∷ xs) ys zs = ap (λ t. x ∷ t) (append_assoc xs ys zs)

-- What stands for the first word: its alias, or the word itself.
abbrev pub expansion : Option (List ℕ) → List ℕ → List ℕ
expansion (some exp) word = exp
expansion none word = word

module _ (k c d : ℕ) (cs args : List ℕ) (rows : Aliases) (out_len : ℕ) (word : IsWord (c ∷ cs))
    (short : length (c ∷ cs) < alias_name_max) (arg : d ≢ 32) where
  first_word :
      skip_spaces (replicate k 32 ++ ((c ∷ cs) ++ 32 ∷ d ∷ args)) ≡ (c ∷ cs) ++ 32 ∷ d ∷ args
  first_word =
      skip_spaces-replicate k ((c ∷ cs) ++ 32 ∷ d ∷ args)
      ∙ skip_spaces_none c (cs ++ 32 ∷ d ∷ args) word.0

  cut : split_word 31 ((c ∷ cs) ++ 32 ∷ d ∷ args) ≡ (c ∷ cs, 32 ∷ d ∷ args)
  cut = split_word-append 31 (c ∷ cs) (d ∷ args) word (omega (arith, short))

  rest_of : skip_spaces (32 ∷ d ∷ args) ≡ d ∷ args
  rest_of = skip_spaces-replicate 1 (d ∷ args) ∙ skip_spaces_none d args arg

  with_args :
      (exp : List ℕ) (m : ℕ)
      → copy m (copy m (copy m [] exp) (32 ∷ [])) (d ∷ args) ≡ take m (exp ++ 32 ∷ d ∷ args)
  with_args exp m =
      ap (λ t. copy m (copy m t (32 ∷ [])) (d ∷ args)) (copy-nil m exp)
      ∙ ap (λ t. copy m t (d ∷ args)) (copy_lem m exp (32 ∷ []))
      ∙ copy_lem m (exp ++ 32 ∷ []) (d ∷ args)
      ∙ ap (take m) (append_assoc exp (32 ∷ []) (d ∷ args))

  replaced :
      (m : ℕ)
      → expand_word m (c ∷ cs) (32 ∷ d ∷ args) rows
        ≡ take m (expansion (alias_get (c ∷ cs) rows) (c ∷ cs) ++ 32 ∷ d ∷ args)
  unfolding expand_word
  replaced m = elim (Option-cases (alias_get (c ∷ cs) rows)) [
    | inl missing ↦
        rw (missing, expand_word)
          (ap (λ t. copy m t (32 ∷ d ∷ args)) (copy-nil m (c ∷ cs))
            ∙ copy_lem m (c ∷ cs) (32 ∷ d ∷ args))
    | inr (exp, found) ↦ rw (found, rest_of, expand_word) (with_args exp m)
  ]

  expanded :
      (m : ℕ)
      → expand_line m ((c ∷ cs) ++ 32 ∷ d ∷ args) rows
        ≡ take m (expansion (alias_get (c ∷ cs) rows) (c ∷ cs) ++ 32 ∷ d ∷ args)
  unfolding expand_line
  expanded m = ap (λ w. expand_word m w.0 w.1 rows) cut ∙ replaced m

  -- A line of any number of spaces, a word of at most 31 characters, one space and arguments becomes
  -- what stands for the word, the space and the arguments, as far as the buffer has room for it and
  -- the terminator.
  pub alias_parse_and_expand-first :
      alias_parse_and_expand (replicate k 32 ++ ((c ∷ cs) ++ 32 ∷ d ∷ args)) out_len rows
      ≡ take (out_len - 1) (expansion (alias_get (c ∷ cs) rows) (c ∷ cs) ++ 32 ∷ d ∷ args)
  unfolding alias_parse_and_expand
  alias_parse_and_expand-first =
      ap (λ l. expand_line (out_len - 1) l rows) first_word ∙ expanded (out_len - 1)
