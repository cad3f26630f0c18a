-- ===== src/Shell/Alias/Bounds.antt =====
-- What the arrays of the alias table hold, and names that are longer than a row.
use bonfire_os.Base.Text.{same_ne}
use bonfire_os.Base.{
  ℕ, suc, ◌≤◌, ◌<◌, ◌≡◌, refl, ap, none, some, List, [], ◌∷◌, ◌++◌, arith, leb, min, length, take,
  length-take, length-append, All, Bool-cases, Option-cases, inl, inr,
}
use bonfire_os.Shell.Alias.{
  Aliases, alias_name_max, alias_value_max, alias_max, replace_value, alias_set, alias_get,
}
use bonfire_os.Shell.Alias.Table.{first_some, stored, set_empty, set_found, set_full, set_new}

-- The names and values fit into their arrays, and the rows into the table.
pub record IsValid (rows : Aliases) : Type 0 where
  pub rows_fit : length rows ≤ alias_max
  pub texts_fit : All (λ r. (length (r.0) < alias_name_max) × (length (r.1) < alias_value_max)) rows

no_long_name :
    (name : List ℕ) (rows : Aliases)
    → alias_name_max ≤ length name
    → All (λ r. (length (r.0) < alias_name_max) × (length (r.1) < alias_value_max)) rows
    → alias_get name rows ≡ none
unfolding alias_get
no_long_name name [] long fits = refl
no_long_name name ((n, v) ∷ rows) long ((short, _), fits) =
    rw (same_ne n name (λ e. absurd (omega (arith, short, long, ap length e))))
      (no_long_name name rows long fits)

abbrev Fits : Aliases → Type 0
Fits = All (λ r. (length (r.0) < alias_name_max) × (length (r.1) < alias_value_max))

Fits-snoc :
    (rows : Aliases) (n v : List ℕ)
    → Fits rows
    → length n < 32
    → length v < 128
    → Fits (rows ++ (n, v) ∷ [])
Fits-snoc [] n v fits hn hv = ((hn, hv), tt)
Fits-snoc (r ∷ rows) n v (here, fits) hn hv = (here, Fits-snoc rows n v fits hn hv)

replace_value-Fits :
    (name value : List ℕ) (rows rows' : Aliases)
    → replace_value name value rows ≡ some rows'
    → length value < 128
    → Fits rows
    → Fits rows' × (length rows' ≡ length rows)
unfolding replace_value
replace_value-Fits name value [] rows' e small fits = cc e
replace_value-Fits name value ((n, v) ∷ rows) rows' e small ((hn, hv), fits) =
    elim (first_some name value n v rows rows' e) [
      | inl (here, result) ↦ rw result (((hn, small), fits), refl)
      | inr (later, apart, found, result) ↦
          let (rest, count) = replace_value-Fits name value rows later found small fits in
          rw result (((hn, hv), rest), ap suc count)
    ]

stored_small : (name value : List ℕ) (rows : Aliases) → length (stored name value rows) < 128
stored_small name value rows = omega (arith, length-take (min (length value) 127) value)

-- Every call of `alias_set` keeps the names and values within their arrays and the rows within the
-- table, whatever the name and the value are.
alias_set-IsValid :
    (name value : List ℕ) (rows : Aliases) → IsValid rows → IsValid (alias_set name value rows).1
alias_set-IsValid [] value rows v = rw (set_empty [] value rows refl) v
alias_set-IsValid (c ∷ cs) value rows v =
    let name = c ∷ cs in
    let text = stored name value rows in
    elim (Option-cases (replace_value name text rows)) [
      | inr (rows', found) ↦
          let (fits, count) =
            replace_value-Fits name text rows rows' found (stored_small name value rows)
              v.texts_fit in
          rw (set_found name value rows (omega arith) rows' found)
            (record { rows_fit = omega (arith, count, v.rows_fit); texts_fit = fits })
      | inl missing ↦ elim (Bool-cases (leb alias_max (length rows))) [
        | inl full ↦ rw (set_full name value rows (omega arith) missing full) v
        | inr room ↦ rw (set_new name value rows (omega arith) missing room) (record {
          rows_fit =
              ground
                (arith, room, length-append rows ((take (min (length name) 31) name, text) ∷ []));
          texts_fit =
              Fits-snoc rows (take (min (length name) 31) name) text v.texts_fit
                (omega (arith, length-take (min (length name) 31) name))
                (stored_small name value rows);
        })
      ]
    ]

-- Under a name of 32 characters or more `alias_get` finds nothing, even after `alias_set` has
-- succeeded for that name: the name is stored shortened, and compared as a whole.
alias_set_long :
    (name value : List ℕ) (rows : Aliases)
    → IsValid rows
    → alias_name_max ≤ length name
    → alias_get name (alias_set name value rows).1 ≡ none
alias_set_long name value rows v long =
    let after = alias_set-IsValid name value rows v in
    no_long_name name (alias_set name value rows).1 long after.texts_fit
