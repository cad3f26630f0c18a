-- ===== src/Shell/Alias/Table.antt =====
-- `alias_set` and `alias_get` are the two operations of a bounded table.
use bonfire_os.Base.{
  ℕ, ◌+◌, min, take_all, length-append, suc, sym, if◌then◌else◌, ◌≡◌, ◌≢◌, refl, ap, true, false,
  none, some, List, [], ◌∷◌, ◌++◌, arith, length, Bool-cases, Option-cases, ◌⊎◌, inl, inr, ◌∙◌, inl,
  sym, inr, ◌≤◌, ◌<◌, take, leb,
}
use bonfire_os.Base.Text.{same, same_refl, same→eq, same_ne}
use bonfire_os.Shell.Alias.{Aliases, replace_value, alias_get, alias_set, alias_name_max, alias_max}

pub first_some :
    (name value : List ℕ) (n v : List ℕ) (rows rows' : Aliases)
    → replace_value name value ((n, v) ∷ rows) ≡ some rows'
    → ((n ≡ name) × (rows' ≡ (n, value) ∷ rows))
      ⊎ ((later : Aliases) × (n ≢ name)
          × (replace_value name value rows ≡ some later)
          × (rows' ≡ (n, v) ∷ later))
unfolding replace_value
first_some name value n v rows rows' e = elim (Bool-cases (same n name)) [
  | inl here ↦ inl (same→eq n name here, ground arith)
  | inr there ↦ elim (Option-cases (replace_value name value rows)) [
    | inl none_left ↦ absurd (ground arith)
    | inr (later, found) ↦
        inr (later, (λ same_name. ground (arith, same_refl name)), found, ground arith)
  ]
]

-- The row that was replaced is found, the others are as they were, and no row is added.
replace_value-get :
    (name value : List ℕ) (rows rows' : Aliases)
    → replace_value name value rows ≡ some rows'
    → (alias_get name rows' ≡ some value)
      × ((other : List ℕ) → other ≢ name → alias_get other rows' ≡ alias_get other rows)
      × (length rows' ≡ length rows)
unfolding replace_value alias_get
replace_value-get name value [] rows' e = cc e
replace_value-get name value ((n, v) ∷ rows) rows' e =
    elim (first_some name value n v rows rows' e) [
      | inl (here, result) ↦ (
        ground (arith, same_refl name),
        (λ other ne. ground (arith, same_ne n other)),
        ap length result,
      )
      | inr (later, apart, found, result) ↦
          let (at, others, count) = replace_value-get name value rows later found in
          (
            ground (arith, same_ne n name apart),
            (λ other ne.
                ap (alias_get other) result
                ∙ ap (λ o. if same n other then some v else o) (others other ne)),
            ap length result ∙ ap suc count,
          )
    ]

-- Where no row has the name, `alias_get` finds none.
replace_value-none :
    (name value : List ℕ) (rows : Aliases)
    → replace_value name value rows ≡ none
    → alias_get name rows ≡ none
unfolding replace_value alias_get
replace_value-none name value [] e = refl
replace_value-none name value ((n, v) ∷ rows) e = ground (arith, replace_value-none name value rows)

get-snoc_found :
    (name : List ℕ) (v : List ℕ) (rows : Aliases)
    → alias_get name rows ≡ none
    → alias_get name (rows ++ (name, v) ∷ []) ≡ some v
unfolding alias_get
get-snoc_found name v [] e = rw (same_refl name) refl
get-snoc_found name v ((n, w) ∷ rows) e = ground (arith, get-snoc_found name v rows)

get-snoc_other :
    (other name v : List ℕ) (rows : Aliases)
    → other ≢ name
    → alias_get other (rows ++ (name, v) ∷ []) ≡ alias_get other rows
unfolding alias_get
get-snoc_other other name v [] ne = rw (same_ne name other (λ e. ne (sym e))) refl
get-snoc_other other name v ((n, w) ∷ rows) ne =
    ap (λ o. if same n other then some w else o) (get-snoc_other other name v rows ne)

take-min-length : (n : ℕ) (xs : List ℕ) → take (min (length xs) n) xs ≡ take n xs
take-min-length n xs = elim (Bool-cases (leb (length xs) n)) [
  | inl short ↦
      ap (λ k. take k xs) {y = length xs} (ground arith)
      ∙ take_all (length xs) xs (omega arith)
      ∙ sym (take_all n xs (ground arith))
  | inr long ↦ ap (λ k. take k xs) (ground arith)
]

module _ (name value : List ℕ) (rows : Aliases) where
  abbrev pub stored : List ℕ
  stored = take (min (length value) 127) value

  pub set_empty : name ≡ [] → alias_set name value rows ≡ (false, rows)
  unfolding alias_set
  set_empty e = rw e refl

  module _ (some_name : 0 < length name) where
    pub set_found :
        (rows' : Aliases)
        → replace_value name stored rows ≡ some rows'
        → alias_set name value rows ≡ (true, rows')
    unfolding alias_set
    set_found rows' e = ground arith

    pub set_full :
        replace_value name stored rows ≡ none
        → leb alias_max (length rows) ≡ true
        → alias_set name value rows ≡ (false, rows)
    unfolding alias_set
    set_full e full = ground arith

    pub set_new :
        replace_value name stored rows ≡ none
        → leb alias_max (length rows) ≡ false
        → alias_set name value rows
          ≡ (true, rows ++ (take (min (length name) 31) name, stored) ∷ [])
    unfolding alias_set
    set_new e room = ground arith

-- For a name of 1 to 31 characters, where `alias_set` succeeds, `alias_get` finds the first 127
-- characters of the value under the name, and under every other name what it found before; at most
-- one row is added.
pub alias_set-get :
    (name value : List ℕ) (rows : Aliases)
    → 0 < length name
    → length name < alias_name_max
    → (alias_set name value rows).0 ≡ true
    → let rows' = (alias_set name value rows).1 in
      (alias_get name rows' ≡ some (take 127 value))
      × ((other : List ℕ) → other ≢ name → alias_get other rows' ≡ alias_get other rows)
      × (length rows' ≤ length rows + 1)
alias_set-get name value rows some_name short done =
    elim (Option-cases (replace_value name (stored name value rows) rows)) [
      | inr (rows', found) ↦
          let (at, others, count) =
            replace_value-get name (stored name value rows) rows rows' found in
          rw (set_found name value rows some_name rows' found)
            (at ∙ ap some (take-min-length 127 value), others, omega (arith, count))
      | inl missing ↦
          let absent = replace_value-none name (stored name value rows) rows missing in
          elim (Bool-cases (leb alias_max (length rows))) [
            | inl full ↦ absurd (cc (done, set_full name value rows some_name missing full))
            | inr room ↦ rw (set_new name value rows some_name missing room) (
              rw (take-min-length 31 name, take_all 31 name (omega arith))
                  (get-snoc_found name (stored name value rows) rows absent
                    ∙ ap some (take-min-length 127 value)),
              (λ other ne.
                  rw (take-min-length 31 name, take_all 31 name (omega arith))
                    (get-snoc_other other name (stored name value rows) rows ne)),
              omega (
                arith,
                length-append rows ((name, value) ∷ []),
                length-append rows
                    ((take (min (length name) 31) name, stored name value rows) ∷ []),
              ),
            )
          ]
    ]

-- Where `alias_set` fails the table stays as it was, and either the name is empty or the table is
-- full and has no row of that name.
alias_set_fails :
    (name value : List ℕ) (rows : Aliases)
    → (alias_set name value rows).0 ≡ false
    → ((alias_set name value rows).1 ≡ rows)
      × ((name ≡ []) ⊎ ((alias_max ≤ length rows) × (alias_get name rows ≡ none)))
alias_set_fails [] value rows failed = (ap (λ r. r.1) (set_empty [] value rows refl), inl refl)
alias_set_fails (c ∷ cs) value rows failed =
    let name = c ∷ cs in
    let text = stored name value rows in
    elim (Option-cases (replace_value name text rows)) [
      | inr (rows', found) ↦
          absurd (cc (failed, set_found name value rows (omega arith) rows' found))
      | inl missing ↦ elim (Bool-cases (leb alias_max (length rows))) [
        | inr room ↦ absurd (cc (failed, set_new name value rows (omega arith) missing room))
        | inl full ↦ (
          ap (λ r. r.1) (set_full name value rows (omega arith) missing full),
          inr (ground (arith, full), replace_value-none name text rows missing),
        )
      ]
    ]
