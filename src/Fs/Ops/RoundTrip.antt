-- ===== src/Fs/Ops/RoundTrip.antt =====
-- What is written into a file is read back.
use bonfire_os.Base.{
  ℕ, zero, suc, ◌+◌, ◌-◌, ◌<◌, ◌≡◌, refl, ap, sym, ◌∙◌, true, ◌&&◌, Option, none, some, List, [],
  ◌∷◌, ◌++◌, arith, ◌==◌, if◌then◌else◌, length, get_or, take, drop, Option-cases, inl, inr, subst,
}
use bonfire_os.Base.Text.{same}
use bonfire_os.Fs.Path.{
  fs_path_max, slash, normalize_path, last_of_file, stored_name, path_parts, parent_length,
}
use bonfire_os.Fs.Tree.{
  FsNode, Fs, fs_file_buf, node_by_name, dir_by_name, file_by_name, walk, path_to_dir,
}
use bonfire_os.Fs.Path.Names.{last_of_file-IsName, stored_name-short}
use bonfire_os.Fs.Tree.Lookup.{node_by_name-lt, node_by_name-snoc}
use bonfire_os.Fs.Ops.{
  parent_dir, fs_create, put_content, fs_write, absolute_path, resolve_absolute, resolve_file_path,
  content_of, fs_read, fs_name_max,
}

-- The parts of the path of a file.
abbrev norm_of : List ℕ → List ℕ
norm_of path = normalize_path path fs_path_max

abbrev pub name_of : List ℕ → List ℕ
name_of path = drop (last_of_file (norm_of path)) (norm_of path)

abbrev pub place_of : List ℕ → Fs → Option ℕ
place_of path fs = parent_dir (norm_of path) (last_of_file (norm_of path)) fs

-- Directories are found without regard to the files.
walk-files :
    (d : ℕ) (parts : List (List ℕ)) (fs : Fs) (rows : List FsNode)
    → walk d parts (record fs { files = rows }) ≡ walk d parts fs
unfolding walk dir_by_name
walk-files d [] fs rows = refl
walk-files d (p ∷ parts) fs rows = elim (Option-cases (node_by_name 0 d p fs.dirs)) [
  | inl missing ↦ rw missing refl
  | inr (next, found) ↦
      rw found (ap (λ o. if length p == 0 then some d else o) (walk-files next parts fs rows))
]

path_to_dir-files :
    (path : List ℕ) (fs : Fs) (rows : List FsNode)
    → path_to_dir path (record fs { files = rows }) ≡ path_to_dir path fs
unfolding path_to_dir
path_to_dir-files path fs rows =
    ap (λ o. if get_or (normalize_path path fs_path_max) 0 0 == slash then o else none)
      (walk-files 0 (path_parts [] (drop 1 (normalize_path path fs_path_max))) fs rows)

parent_dir-files :
    (norm : List ℕ) (last : ℕ) (fs : Fs) (rows : List FsNode)
    → parent_dir norm last (record fs { files = rows }) ≡ parent_dir norm last fs
unfolding parent_dir
parent_dir-files norm last fs rows =
    ap (λ o. if parent_length last == 0 then some 0 else o)
      (path_to_dir-files (take (parent_length last) norm) fs rows)

-- The names and parents stay where content is put, so that the same rows are found.
node_by_name-put_content :
    (i parent : ℕ) (name : List ℕ) (k : ℕ) (bytes : List ℕ) (rows : List FsNode)
    → node_by_name i parent name (put_content k bytes rows) ≡ node_by_name i parent name rows
unfolding node_by_name put_content
node_by_name-put_content i parent name k bytes [] = refl
node_by_name-put_content i parent name zero bytes (n ∷ rows) = refl
node_by_name-put_content i parent name (suc k) bytes (n ∷ rows) =
    ap (λ o. if n.parent == parent && same name n.name then some i else o)
      (node_by_name-put_content (i + 1) parent name k bytes rows)

content-put_content :
    (i : ℕ) (bytes : List ℕ) (rows : List FsNode)
    → i < length rows
    → content_of i (put_content i bytes rows) ≡ bytes
unfolding put_content
content-put_content i bytes [] h = absurd (omega (arith, h))
content-put_content zero bytes (n ∷ rows) h = refl
content-put_content (suc i) bytes (n ∷ rows) h = content-put_content i bytes rows (omega (arith, h))

file_by_name-put_content :
    (parent i : ℕ) (name bytes : List ℕ) (fs : Fs)
    → file_by_name parent name (record fs { files = put_content i bytes fs.files })
      ≡ file_by_name parent name fs
unfolding file_by_name
file_by_name-put_content parent i name bytes fs =
    node_by_name-put_content 0 parent name i bytes fs.files

file_by_name-lt :
    (parent j : ℕ) (name : List ℕ) (fs : Fs)
    → file_by_name parent name fs ≡ some j
    → j < length fs.files
unfolding file_by_name
file_by_name-lt parent j name fs e = omega (arith, node_by_name-lt parent name 0 j fs.files e)

-- What a write that succeeds has found, and done.
record Written (path content : List ℕ) (fs : Fs) : Type 0 where
  pub parent : ℕ
  pub index : ℕ
  pub place : place_of path fs ≡ some parent
  pub found : file_by_name parent (name_of path) fs ≡ some index
  pub after :
      fs_write path content fs
      ≡ (true, record fs { files = put_content index (take fs_file_buf content) fs.files })

write_lem :
    (path content : List ℕ) (fs : Fs) (parent i : ℕ)
    → place_of path fs ≡ some parent
    → file_by_name parent (name_of path) fs ≡ some i
    → fs_write path content fs
      ≡ (true, record fs { files = put_content i (take fs_file_buf content) fs.files })
unfolding fs_write
write_lem path content fs parent i place found = rw (place, found, fs_write) refl

fs_write-Written :
    (path content : List ℕ) (fs : Fs)
    → (fs_write path content fs).0 ≡ true
    → Written path content fs
unfolding fs_write
fs_write-Written path content fs done = elim (Option-cases (place_of path fs)) [
  | inl nowhere ↦ absurd (ground arith)
  | inr (parent, place) ↦ elim (Option-cases (file_by_name parent (name_of path) fs)) [
    | inl missing ↦ absurd (ground arith)
    | inr (i, found) ↦ record {
      parent = parent;
      index = i;
      place = place;
      found = found;
      after = write_lem path content fs parent i place found;
    }
  ]
]

absolute_path_lem :
    (path : List ℕ) (fs : Fs) → get_or path 0 0 ≡ slash → absolute_path path fs ≡ path
unfolding absolute_path
absolute_path_lem path fs e = rw (e, absolute_path) refl

resolve_lem :
    (path : List ℕ) (fs : Fs) (parent : ℕ)
    → get_or path 0 0 ≡ slash
    → place_of path fs ≡ some parent
    → resolve_file_path path fs ≡ some (parent, record { at_return = name_of path })
unfolding resolve_file_path resolve_absolute
resolve_lem path fs parent absolute place =
    ap (λ p. resolve_absolute p fs) (absolute_path_lem path fs absolute)
    ∙ rw (place, resolve_absolute) refl

-- What stands in the tables under a path: the bytes of the file.
unfoldable pub stored_at : List ℕ → Fs → Option (List ℕ)
stored_at path fs = elim (place_of path fs) [
  | none ↦ none
  | some parent ↦ elim (file_by_name parent (name_of path) fs) [
    | none ↦ none
    | some i ↦ some (content_of i fs.files)
  ]
]

stored_lem :
    (path : List ℕ) (fs : Fs) (parent i : ℕ)
    → place_of path fs ≡ some parent
    → file_by_name parent (name_of path) fs ≡ some i
    → stored_at path fs ≡ some (content_of i fs.files)
unfolding stored_at
stored_lem path fs parent i place found = rw (place, found, stored_at) refl

-- While the memory of the dead array still holds the name, `fs_read` from an absolute path returns what
-- stands in the tables under it, cut to the buffer.
pub fs_read_stored :
    (dead : List ℕ → List ℕ) (path : List ℕ) (max_len : ℕ) (fs : Fs) (bytes : List ℕ)
    → dead (name_of path) ≡ name_of path
    → get_or path 0 0 ≡ slash
    → stored_at path fs ≡ some bytes
    → fs_read dead path max_len fs ≡ some (take (max_len - 1) bytes)
unfolding fs_read stored_at
fs_read_stored dead path max_len fs bytes alive absolute stored =
    elim (Option-cases (place_of path fs)) [
      | inl nowhere ↦ absurd (ground (arith, nowhere, stored))
      | inr (parent, place) ↦ elim (Option-cases (file_by_name parent (name_of path) fs)) [
        | inl missing ↦ absurd (ground (arith, place, missing, stored))
        | inr (i, found) ↦
            rw (resolve_lem path fs parent absolute place, alive, found, fs_read)
              (ap
                (λ o. elim o as (λ _. Option (List ℕ)) [
                  | none ↦ none
                  | some b ↦ some (take (max_len - 1) b)
                ])
                (sym (stored_lem path fs parent i place found) ∙ stored))
      ]
    ]

-- When `fs_write` to a path succeeds, what has been written stands under this path, cut to the 4096
-- bytes that a file holds.
stored_at-fs_write :
    (path content : List ℕ) (fs : Fs)
    → (fs_write path content fs).0 ≡ true
    → stored_at path (fs_write path content fs).1 ≡ some (take fs_file_buf content)
stored_at-fs_write path content fs done =
    let w = fs_write-Written path content fs done in
    let bytes = take fs_file_buf content in
    let rows = put_content w.index bytes fs.files in
    ap (λ r. stored_at path r.1) w.after
    ∙ stored_lem path (record fs { files = rows }) w.parent w.index
        (parent_dir-files (norm_of path) (last_of_file (norm_of path)) fs rows ∙ w.place)
        (file_by_name-put_content w.parent w.index (name_of path) bytes fs ∙ w.found)
    ∙ ap some (
        content-put_content w.index bytes fs.files
          (file_by_name-lt w.parent w.index (name_of path) fs w.found))

-- When `fs_write` to an absolute path succeeds, `fs_read` from that path returns what was written,
-- cut to the 4096 bytes that a file holds and to the buffer, while the dead array holds the name.
pub fs_read-fs_write :
    (dead : List ℕ → List ℕ) (path content : List ℕ) (max_len : ℕ) (fs : Fs)
    → dead (name_of path) ≡ name_of path
    → get_or path 0 0 ≡ slash
    → (fs_write path content fs).0 ≡ true
    → fs_read dead path max_len (fs_write path content fs).1
      ≡ some (take (max_len - 1) (take fs_file_buf content))
fs_read-fs_write dead path content max_len fs alive absolute done =
    fs_read_stored dead path max_len (fs_write path content fs).1 (take fs_file_buf content) alive
      absolute (stored_at-fs_write path content fs done)

file_by_name-snoc :
    (parent : ℕ) (name : List ℕ) (fs : Fs) (n : FsNode)
    → file_by_name parent name fs ≡ none
    → n.parent ≡ parent
    → n.name ≡ name
    → file_by_name parent name (record fs { files = fs.files ++ n ∷ [] })
      ≡ some (0 + length fs.files)
unfolding file_by_name
file_by_name-snoc parent name fs n e hp hn = node_by_name-snoc parent name 0 fs.files n e hp hn

-- The row that `fs_create` adds.
abbrev pub new_file : List ℕ → ℕ → FsNode
new_file path parent = record {
  name = stored_name (fs_name_max - 1) (name_of path);
  parent = parent;
  content = none;
}

pub create_lem :
    (path : List ℕ) (fs : Fs)
    → (fs_create path fs).0 ≡ true
    → (parent : ℕ) × (place_of path fs ≡ some parent)
      × (file_by_name parent (name_of path) fs ≡ none)
      × ((fs_create path fs).1 ≡ record fs { files = fs.files ++ new_file path parent ∷ [] })
unfolding fs_create
create_lem path fs done = elim (Option-cases (place_of path fs)) [
  | inl nowhere ↦ absurd (ground arith)
  | inr (parent, place) ↦ elim (Option-cases (file_by_name parent (name_of path) fs)) [
    | inr (i, found) ↦ absurd (ground arith)
    | inl missing ↦ (parent, place, missing, ground arith)
  ]
]

-- A file that `fs_create` has made, under a path whose last name has at most 31 characters, can be
-- written under the same path, where what was written then stands.
pub fs_write-fs_create :
    (path content : List ℕ) (fs : Fs)
    → length (name_of path) < fs_name_max
    → (fs_create path fs).0 ≡ true
    → let w = fs_write path content (fs_create path fs).1 in
      (w.0 ≡ true) × (stored_at path w.1 ≡ some (take fs_file_buf content))
fs_write-fs_create path content fs short done =
    let (parent, place, missing, made) = create_lem path fs done in
    let n = new_file path parent in
    let fs1 = record fs { files = fs.files ++ n ∷ [] } in
    let name =
      stored_name-short 31 (name_of path) (last_of_file-IsName (norm_of path))
        (omega (arith, short)) in
    let written : (fs_write path content fs1).0 ≡ true =
      ap (λ r. r.0)
        (write_lem path content fs1 parent (0 + length fs.files)
          (parent_dir-files (norm_of path) (last_of_file (norm_of path)) fs (fs.files ++ n ∷ [])
            ∙ place)
          (file_by_name-snoc parent (name_of path) fs n missing refl name)) in
    subst
      (λ f.
        ((fs_write path content f).0 ≡ true)
        × (stored_at path (fs_write path content f).1 ≡ some (take fs_file_buf content)))
      (sym made) (written, stored_at-fs_write path content fs1 written)
