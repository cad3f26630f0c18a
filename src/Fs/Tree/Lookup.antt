-- ===== src/Fs/Tree/Lookup.antt =====
-- Names in the tables: where they are found, and what the writing of rows does to them.
use bonfire_os.Base.{
  ℕ, drop, get_or, ==_refl, ◌+◌, ◌≤◌, ◌<◌, ◌≡◌, ap, ◌∙◌, ◌&&◌, none, some, List, [], ◌∷◌, ◌++◌,
  arith, ◌==◌, length, Bool-cases, Option-cases, inl, inr,
}
use bonfire_os.Base.Text.{same, same_refl}
use bonfire_os.Fs.Path.{normalize_path, fs_path_max, slash, path_parts}
use bonfire_os.Fs.Tree.{FsNode, Fs, node_by_name, dir_by_name, walk, path_to_dir}

module _ (parent : ℕ) (name : List ℕ) where
  -- A row that is found lies in the table.
  pub node_by_name-lt :
      (i j : ℕ) (rows : List FsNode)
      → node_by_name i parent name rows ≡ some j
      → (i ≤ j) × (j < i + length rows)
  unfolding node_by_name
  node_by_name-lt i j [] e = cc e
  node_by_name-lt i j (n ∷ rows) e = elim (Bool-cases (n.parent == parent && same name n.name)) [
    | inl here ↦ ground arith
    | inr there ↦ ground (arith, node_by_name-lt (i + 1) j rows)
  ]

  -- A new row of that name behind a table without it is found.
  pub node_by_name-snoc :
      (i : ℕ) (rows : List FsNode) (n : FsNode)
      → node_by_name i parent name rows ≡ none
      → n.parent ≡ parent
      → n.name ≡ name
      → node_by_name i parent name (rows ++ n ∷ []) ≡ some (i + length rows)
  unfolding node_by_name
  node_by_name-snoc i [] n e hp hn =
      rw (hn, same_refl name, hp, ==_refl parent) (ap some (omega arith))
  node_by_name-snoc i (m ∷ rows) n e hp hn =
      elim (Bool-cases (m.parent == parent && same name m.name)) [
        | inl here ↦ absurd (ground arith)
        | inr there ↦
            rw there (node_by_name-snoc (i + 1) rows n (ground arith) hp hn ∙ ap some (omega arith))
      ]

dir_by_name-lt :
    (parent j : ℕ) (name : List ℕ) (fs : Fs)
    → dir_by_name parent name fs ≡ some j
    → j < length fs.dirs
unfolding dir_by_name
dir_by_name-lt parent j name fs e = omega (arith, node_by_name-lt parent name 0 j fs.dirs e)

-- A walk comes to a directory of the table.
walk-lt :
    (d e : ℕ) (parts : List (List ℕ)) (fs : Fs)
    → d < length fs.dirs
    → walk d parts fs ≡ some e
    → e < length fs.dirs
unfolding walk
walk-lt d e [] fs h w = ground arith
walk-lt d e (p ∷ parts) fs h w = elim (Bool-cases (length p == 0)) [
  | inl stop ↦ ground arith
  | inr go ↦ elim (Option-cases (dir_by_name d p fs)) [
    | inl missing ↦ absurd (ground arith)
    | inr (next, found) ↦ walk-lt next e parts fs (dir_by_name-lt d next p fs found) (ground arith)
  ]
]

pub path_to_dir-lt :
    (path : List ℕ) (fs : Fs) (d : ℕ)
    → 0 < length fs.dirs
    → path_to_dir path fs ≡ some d
    → d < length fs.dirs
unfolding path_to_dir
path_to_dir-lt path fs d h e =
    elim (Bool-cases (get_or (normalize_path path fs_path_max) 0 0 == slash)) [
      | inl absolute ↦
          walk-lt 0 d (path_parts [] (drop 1 (normalize_path path fs_path_max))) fs h (ground arith)
      | inr relative ↦ absurd (ground arith)
    ]
