-- ===== src/Shell/Alias.antt =====
-- src/kernel/shell/alias.c: the table of aliases. A string is the list of its characters, without
-- the terminator; an array of strings is the list of those that it holds.
pub mod Table
pub mod Bounds
pub mod Expand
use bonfire_os.Base.Text.{same, copy}
use bonfire_os.Base.{
  ℕ, zero, suc, ◌-◌, ◌+◌, Bool, true, false, ◌&&◌, Option, none, some, List, [], ◌∷◌, ◌++◌, ltb,
  leb, ◌==◌, if◌then◌else◌, length, take, drop, min, suc,
}

abbrev pub alias_name_max : ℕ
alias_name_max = 32

abbrev pub alias_value_max : ℕ
alias_value_max = 128

abbrev pub alias_max : ℕ
alias_max = 16

-- The rows of `alias_names` and `alias_values` below `alias_count`, in order.
abbrev pub Aliases : Type 0
Aliases = List (List ℕ × List ℕ)

-- The loop over the rows: the first one with the name gets the value. `none` where there is none.
unfoldable pub replace_value : List ℕ → List ℕ → Aliases → Option Aliases
replace_value name value [] = none
replace_value name value ((n, v) ∷ rows) =
    let later = replace_value name value rows in
    if same n name
    then some ((n, value) ∷ rows)
    else elim later [ none ↦ none | some rows' ↦ some ((n, v) ∷ rows') ]

-- Whether the result is 0, and the table after. The name is measured up to 31 characters, and
-- stored up to there, but it is compared as a whole.
unfoldable pub alias_set : List ℕ → List ℕ → Aliases → Bool × Aliases
alias_set name value rows =
    let i = min (length name) (alias_name_max - 1) in
    let j = min (length value) (alias_value_max - 1) in
    if i == 0 then (false, rows) else elim (replace_value name (take j value) rows) [
      | some rows' ↦ (true, rows')
      | none ↦
          if leb alias_max (length rows)
          then (false, rows)
          else (true, rows ++ (take i name, take j value) ∷ [])
    ]

-- `none` is the null pointer.
unfoldable pub alias_get : List ℕ → Aliases → Option (List ℕ)
alias_get name [] = none
alias_get name ((n, v) ∷ rows) =
    let later = alias_get name rows in if same n name then some v else later

-- while (*line == ' ') line++;
unfoldable pub skip_spaces : List ℕ → List ℕ
skip_spaces [] = []
skip_spaces (c ∷ line) = let later = skip_spaces line in if c == 32 then later else c ∷ line

-- while (*line && *line != ' ' && i < ALIAS_NAME_MAX - 1) word[i++] = *line++;
unfoldable pub split_word : ℕ → List ℕ → List ℕ × List ℕ
split_word zero line = ([], line)
split_word (suc room) [] = ([], [])
split_word (suc room) (c ∷ line) =
    let (word, rest) = split_word room line in if c == 32 then ([], c ∷ line) else (c ∷ word, rest)

-- The part of `alias_parse_and_expand` behind the first word, for a buffer with room for `max`
-- characters and the terminator.
unfoldable pub expand_word : ℕ → List ℕ → List ℕ → Aliases → List ℕ
expand_word max word rest rows = elim (alias_get word rows) [
  | none ↦ copy max (copy max [] word) rest
  | some exp ↦
      let args = skip_spaces rest in
      let out = copy max [] exp in
      elim args [ [] ↦ out | d ∷ ds ↦ copy max (copy max out (32 ∷ [])) (d ∷ ds) ]
]

-- The part behind the leading spaces.
unfoldable pub expand_line : ℕ → List ℕ → Aliases → List ℕ
expand_line max [] rows = []
expand_line max (c ∷ cs) rows =
    let (word, rest) = split_word (alias_name_max - 1) (c ∷ cs) in expand_word max word rest rows

-- What is put into `out`, for a buffer of `out_len` > 0 characters.
unfoldable pub alias_parse_and_expand : List ℕ → ℕ → Aliases → List ℕ
alias_parse_and_expand line out_len rows = expand_line (out_len - 1) (skip_spaces line) rows
