-- ===== src/Fs/Ops/Invariant.antt =====
-- The tables of the file system stay well formed.
use bonfire_os.Base.{
  ℕ, zero, suc, ◌+◌, ◌-◌, ◌≤◌, ◌<◌, ◌≡◌, refl, ap, sym, subst, Bool, false, none, some, List, [],
  ◌∷◌, ◌++◌, arith, leb, ◌==◌, length, length-append, length-take, take, Bool-cases, inl, inr,
  if_elim, drop, option_elim,
}
use bonfire_os.Fs.Path.{
  fs_name_max, fs_path_max, parent_length, stored_name, normalize_path, last_of_dir, last_of_file,
}
use bonfire_os.Fs.Path.Names.{length-stored_name}
use bonfire_os.Fs.Tree.{
  FsNode, Fs, fs_max_dirs, fs_max_files, fs_file_buf, fs_init, dir_by_name, file_by_name,
  path_to_dir,
}
use bonfire_os.Fs.Tree.Lookup.{path_to_dir-lt}
use bonfire_os.Fs.Ops.{parent_dir, fs_mkdir, fs_create, fs_write, fs_chdir, put_content}

-- Each directory, the first one with index `i`, lies behind its parent, but for the root, and its
-- name fits into the row.
abbrev pub Behind : ℕ → List FsNode → Type 0
Behind i [] = Unit
Behind i (n ∷ rows) = (n.parent ≤ i - 1) × (length n.name < fs_name_max) × Behind (i + 1) rows

-- The bytes of a row.
abbrev pub bytes_of : FsNode → List ℕ
bytes_of n = elim n.content [ none ↦ [] | some bytes ↦ bytes ]

-- Each file lies in one of `k` directories, and its name and bytes fit.
abbrev InDirs : ℕ → List FsNode → Type 0
InDirs k [] = Unit
InDirs k (n ∷ rows) =
    (n.parent < k)
    × (length n.name < fs_name_max)
    × (length (bytes_of n) ≤ fs_file_buf)
    × InDirs k rows

pub record IsTree (fs : Fs) : Type 0 where
  pub some_dir : 0 < length fs.dirs
  pub dirs_fit : length fs.dirs ≤ fs_max_dirs
  pub files_fit : length fs.files ≤ fs_max_files
  pub cwd_in : fs.cwd < length fs.dirs
  pub behind : Behind 0 fs.dirs
  pub in_dirs : InDirs (length fs.dirs) fs.files

Behind-snoc :
    (i : ℕ) (rows : List FsNode) (n : FsNode)
    → Behind i rows
    → n.parent ≤ i + length rows - 1
    → length n.name < fs_name_max
    → Behind i (rows ++ n ∷ [])
Behind-snoc i [] n b hp hn = (omega (arith, hp), hn, tt)
Behind-snoc i (m ∷ rows) n (p, q, b) hp hn =
    (p, q, Behind-snoc (i + 1) rows n b (omega (arith, hp)) hn)

InDirs-snoc :
    (k : ℕ) (rows : List FsNode) (n : FsNode)
    → InDirs k rows
    → n.parent < k
    → length n.name < fs_name_max
    → length (bytes_of n) ≤ fs_file_buf
    → InDirs k (rows ++ n ∷ [])
InDirs-snoc k [] n b hp hn hb = (hp, hn, hb, tt)
InDirs-snoc k (m ∷ rows) n (p, q, r, b) hp hn hb = (p, q, r, InDirs-snoc k rows n b hp hn hb)

InDirs-mono : (k : ℕ) (rows : List FsNode) → InDirs k rows → InDirs (k + 1) rows
InDirs-mono k [] b = tt
InDirs-mono k (m ∷ rows) (p, q, r, b) = (omega (arith, p), q, r, InDirs-mono k rows b)

InDirs-put_content :
    (k i : ℕ) (bytes : List ℕ) (rows : List FsNode)
    → length bytes ≤ fs_file_buf
    → InDirs k rows
    → InDirs k (put_content i bytes rows) × (length (put_content i bytes rows) ≡ length rows)
unfolding put_content
InDirs-put_content k i bytes [] h b = (tt, refl)
InDirs-put_content k zero bytes (m ∷ rows) h (p, q, r, b) = ((p, q, h, b), refl)
InDirs-put_content k (suc i) bytes (m ∷ rows) h (p, q, r, b) =
    let (rest, count) = InDirs-put_content k i bytes rows h b in ((p, q, r, rest), ap suc count)

parent_dir-lt :
    (norm : List ℕ) (last : ℕ) (fs : Fs) (d : ℕ)
    → 0 < length fs.dirs
    → parent_dir norm last fs ≡ some d
    → d < length fs.dirs
unfolding parent_dir
parent_dir-lt norm last fs d h e = elim (Bool-cases (parent_length last == 0)) [
  | inl top ↦ ground arith
  | inr below ↦ path_to_dir-lt (take (parent_length last) norm) fs d h (ground arith)
]

-- A row more in either table.
module _ (fs : Fs) (v : IsTree fs) (name : List ℕ) (parent : ℕ) (hp : parent < length fs.dirs)
    (hn : length name ≤ 31) where
  node : FsNode
  node = record { name = name; parent = parent; content = none }

  new_dir :
      leb fs_max_dirs (length fs.dirs) ≡ false → IsTree (record fs { dirs = fs.dirs ++ node ∷ [] })
  unfolding node
  new_dir room =
      let count = length-append fs.dirs (node ∷ []) in
      record {
        some_dir = omega (arith, count);
        dirs_fit = ground (arith, count);
        files_fit = v.files_fit;
        cwd_in = omega (arith, count, v.cwd_in);
        behind = Behind-snoc 0 fs.dirs node v.behind (omega (arith, hp)) (omega (arith, hn));
        in_dirs =
            subst (λ k. InDirs k fs.files) (sym count)
              (InDirs-mono (length fs.dirs) fs.files v.in_dirs);
      }

  new_file :
      leb fs_max_files (length fs.files) ≡ false
      → IsTree (record fs { files = fs.files ++ node ∷ [] })
  unfolding node
  new_file room =
      let count = length-append fs.files (node ∷ []) in
      record {
        some_dir = v.some_dir;
        dirs_fit = v.dirs_fit;
        files_fit = ground (arith, count);
        cwd_in = v.cwd_in;
        behind = v.behind;
        in_dirs =
            InDirs-snoc (length fs.dirs) fs.files node v.in_dirs hp (omega (arith, hn))
              (omega arith);
      }

-- `fs_mkdir` keeps a tree, for every path.
fs_mkdir-IsTree : (path : List ℕ) (fs : Fs) → IsTree fs → IsTree (fs_mkdir path fs).1
unfolding fs_mkdir node
fs_mkdir-IsTree path fs v =
    let norm = normalize_path path fs_path_max in
    let last = drop (last_of_dir norm) norm in
    let P = λ (r : Bool × Fs). IsTree r.1 in
    if_elim P (leb fs_max_dirs (length fs.dirs)) _ _ (λ _. v)
      λ room.
        if_elim P (length last == 0) _ _ (λ _. v)
          λ _.
            option_elim P (parent_dir norm (last_of_dir norm) fs) _ _ (λ _. v)
              λ parent place.
                option_elim P (dir_by_name parent last fs) _ _
                  (λ _.
                    new_dir fs v (stored_name 31 last) parent
                      (parent_dir-lt norm (last_of_dir norm) fs parent v.some_dir place)
                      (length-stored_name 31 last) room)
                  λ _ _. v

-- So does `fs_create`.
fs_create-IsTree : (path : List ℕ) (fs : Fs) → IsTree fs → IsTree (fs_create path fs).1
unfolding fs_create node
fs_create-IsTree path fs v =
    let norm = normalize_path path fs_path_max in
    let last = drop (last_of_file norm) norm in
    let P = λ (r : Bool × Fs). IsTree r.1 in
    if_elim P (leb fs_max_files (length fs.files)) _ _ (λ _. v)
      λ room.
        if_elim P (length last == 0) _ _ (λ _. v)
          λ _.
            option_elim P (parent_dir norm (last_of_file norm) fs) _ _ (λ _. v)
              λ parent place.
                option_elim P (file_by_name parent last fs) _ _
                  (λ _.
                    new_file fs v (stored_name 31 last) parent
                      (parent_dir-lt norm (last_of_file norm) fs parent v.some_dir place)
                      (length-stored_name 31 last) room)
                  λ _ _. v

-- So does `fs_write`.
fs_write-IsTree :
    (path content : List ℕ) (fs : Fs) → IsTree fs → IsTree (fs_write path content fs).1
unfolding fs_write
fs_write-IsTree path content fs v =
    let norm = normalize_path path fs_path_max in
    let P = λ (r : Bool × Fs). IsTree r.1 in
    option_elim P (parent_dir norm (last_of_file norm) fs) _ _ (λ _. v)
      λ parent place.
        option_elim P (file_by_name parent (drop (last_of_file norm) norm) fs) _ _ (λ _. v)
          λ i found.
            let (files, count) =
              InDirs-put_content (length fs.dirs) i (take fs_file_buf content) fs.files
                (omega (arith, length-take fs_file_buf content)) v.in_dirs in
            record {
              some_dir = v.some_dir;
              dirs_fit = v.dirs_fit;
              files_fit = omega (arith, count, v.files_fit);
              cwd_in = v.cwd_in;
              behind = v.behind;
              in_dirs = files;
            }

-- So does `fs_chdir`.
fs_chdir-IsTree : (path : List ℕ) (fs : Fs) → IsTree fs → IsTree (fs_chdir path fs).1
unfolding fs_chdir
fs_chdir-IsTree path fs v =
    option_elim (λ (r : Bool × Fs). IsTree r.1) (path_to_dir path fs) _ _ (λ _. v)
      λ d found. record {
        some_dir = v.some_dir;
        dirs_fit = v.dirs_fit;
        files_fit = v.files_fit;
        cwd_in = path_to_dir-lt path fs d v.some_dir found;
        behind = v.behind;
        in_dirs = v.in_dirs;
      }

fs_init-IsTree : (fs : Fs) → IsTree (fs_init fs)
unfolding fs_init
fs_init-IsTree fs = record {
  some_dir = omega arith;
  dirs_fit = omega arith;
  files_fit = omega arith;
  cwd_in = omega arith;
  behind = (omega arith, omega arith, tt);
  in_dirs = tt;
}

-- A call of an operation that changes the tables.
pub data FsCall : Type 0 where
  mkdir : List ℕ → FsCall
  create : List ℕ → FsCall
  write : List ℕ → List ℕ → FsCall
  chdir : List ℕ → FsCall

abbrev run_call : FsCall → Fs → Fs
run_call (mkdir path) fs = (fs_mkdir path fs).1
run_call (create path) fs = (fs_create path fs).1
run_call (write path content) fs = (fs_write path content fs).1
run_call (chdir path) fs = (fs_chdir path fs).1

abbrev pub run_calls : List FsCall → Fs → Fs
run_calls [] fs = fs
run_calls (c ∷ cs) fs = run_calls cs (run_call c fs)

run_call-IsTree : (c : FsCall) (fs : Fs) → IsTree fs → IsTree (run_call c fs)
run_call-IsTree (mkdir path) fs v = fs_mkdir-IsTree path fs v
run_call-IsTree (create path) fs v = fs_create-IsTree path fs v
run_call-IsTree (write path content) fs v = fs_write-IsTree path content fs v
run_call-IsTree (chdir path) fs v = fs_chdir-IsTree path fs v

run_calls-kept : (cs : List FsCall) (fs : Fs) → IsTree fs → IsTree (run_calls cs fs)
run_calls-kept [] fs v = v
run_calls-kept (c ∷ cs) fs v = run_calls-kept cs (run_call c fs) (run_call-IsTree c fs v)

-- After `fs_init` and any calls of the operations, with any paths and contents, the tables are a
-- tree: at most 32 directories, each behind its parent, at most 64 files in directories that exist,
-- names of at most 31 characters, contents of at most 4096 bytes, and a current directory that
-- exists.
pub run_calls-IsTree : (cs : List FsCall) (fs : Fs) → IsTree (run_calls cs (fs_init fs))
run_calls-IsTree cs fs = run_calls-kept cs (fs_init fs) (fs_init-IsTree fs)
