-- ===== src/Fs/Ops/Places.antt =====
-- Where new directories and files of an absolute path with few parts go.
use bonfire_os.Base.{
  ℕ, ◌+◌, ◌≤◌, ◌≡◌, ◌≢◌, refl, ◌∙◌, List, ◌∷◌, none, get_or, ==_of_ne, true, length, ◌++◌, [],
  arith, some, take, drop,
}
use bonfire_os.Fs.Path.{
  slash, fs_path_max, normalize_path, path_parts, normal_out, normal_loop, last_from, last_of_dir,
  last_of_file, stored_name,
}
use bonfire_os.Fs.Path.Normal.{Plain, last_char, normalize_path-plain}
use bonfire_os.Fs.Path.Names.{IsName}
use bonfire_os.Fs.Tree.{FsNode, Fs, root_dir, path_to_dir, walk}
use bonfire_os.Fs.Ops.RoundTrip.{create_lem, place_of}
use bonfire_os.Fs.Ops.{parent_dir, fs_mkdir, fs_create}

-- Where a name has no slash, none of its characters is behind one.
last_from_none : (p last : ℕ) (q : List ℕ) → IsName q → last_from p last q ≡ last
unfolding last_from
last_from_none p last [] a = refl
last_from_none p last (c ∷ q) (ne, a) = rw (==_of_ne c slash ne) (last_from_none (p + 1) last q a)

-- A directory row as `fs_mkdir` makes it.
abbrev pub new_dir : List ℕ → ℕ → FsNode
new_dir name parent = record { name = name; parent = parent; content = none }

-- What `fs_mkdir` does with a normal form.
made_dir :
    (norm : List ℕ) (fs : Fs)
    → last_of_dir norm ≡ 0
    → get_or norm 0 0 ≡ slash
    → (path : List ℕ) → normalize_path path fs_path_max ≡ norm
    → (fs_mkdir path fs).0 ≡ true
    → (fs_mkdir path fs).1 ≡ record fs { dirs = fs.dirs ++ new_dir [] root_dir ∷ [] }
unfolding fs_mkdir parent_dir stored_name
made_dir [] fs e s path n done = absurd (omega (arith, s))
made_dir (c ∷ norm) fs e s path n done = ground (arith, e, s, n, done)

-- A directory that `fs_mkdir` has made directly below the root, from an absolute path that is one
-- name, has the empty name.
fs_mkdir_nameless :
    (o : ℕ) (p : List ℕ) (fs : Fs)
    → Plain slash (o ∷ p)
    → IsName (o ∷ p)
    → last_char o p ≢ slash
    → length p + 3 ≤ fs_path_max
    → (fs_mkdir (slash ∷ o ∷ p) fs).0 ≡ true
    → (fs_mkdir (slash ∷ o ∷ p) fs).1 ≡ record fs { dirs = fs.dirs ++ new_dir [] root_dir ∷ [] }
fs_mkdir_nameless o p fs plain name ends h done =
    made_dir (slash ∷ o ∷ p) fs (last_from_none 1 0 (o ∷ p) name) refl (slash ∷ o ∷ p)
      (normalize_path-plain o p plain ends fs_path_max h) done

-- A file row as `fs_create` makes it.
abbrev pub new_root_file : List ℕ → FsNode
new_root_file name = record { name = name; parent = root_dir; content = none }

root_path : (fs : Fs) → path_to_dir (slash ∷ []) fs ≡ some root_dir
unfolding path_to_dir walk path_parts normalize_path normal_out normal_loop
root_path fs = refl

-- The row of a file whose path has the normal form `norm`, with a last name at index 3.
made_file :
    (path norm : List ℕ) (fs : Fs)
    → normalize_path path fs_path_max ≡ norm
    → last_of_file norm ≡ 3
    → take 1 norm ≡ slash ∷ []
    → (fs_create path fs).0 ≡ true
    → (fs_create path fs).1
      ≡ record fs { files = fs.files ++ new_root_file (stored_name 31 (drop 3 norm)) ∷ [] }
unfolding parent_dir
made_file path norm fs n last first done =
    let (parent, place, missing, made) = create_lem path fs done in
    let place_root : place_of path fs ≡ some root_dir = rw (n, last, first, root_path fs) refl in
    let at_root : parent ≡ root_dir = cc (place, place_root) in made ∙ rw (at_root, n, last) refl

-- A file that `fs_create` has made from an absolute path `/d/q`, where `d` is one character, lies in
-- the root directory, whatever `d` names.
fs_create_misplaced :
    (d c : ℕ) (q : List ℕ) (fs : Fs)
    → Plain slash (d ∷ slash ∷ c ∷ q)
    → IsName (c ∷ q)
    → last_char c q ≢ slash
    → length q + 5 ≤ fs_path_max
    → (fs_create (slash ∷ d ∷ slash ∷ c ∷ q) fs).0 ≡ true
    → (fs_create (slash ∷ d ∷ slash ∷ c ∷ q) fs).1
      ≡ record fs { files = fs.files ++ new_root_file (stored_name 31 (c ∷ q)) ∷ [] }
unfolding last_from
fs_create_misplaced d c q fs plain name ends h done =
    made_file (slash ∷ d ∷ slash ∷ c ∷ q) (slash ∷ d ∷ slash ∷ c ∷ q) fs
      (normalize_path-plain d (slash ∷ c ∷ q) plain ends fs_path_max (omega (arith, h)))
      (last_from_none 3 3 (c ∷ q) name) refl done
