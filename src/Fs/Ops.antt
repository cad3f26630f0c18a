-- ===== src/Fs/Ops.antt =====
-- src/kernel/fs/fs.c: the operations on directories and files. A Boolean result says whether the
-- code returns 0 (and not -1).
pub mod RoundTrip
pub mod Invariant
pub mod Places
pub mod Cwd
use bonfire_os.Base.{
  ℕ, zero, suc, ◌-◌, Bool, true, false, ◌&&◌, Option, none, some, List, [], ◌∷◌, ◌++◌, ltb, leb,
  ◌==◌, if◌then◌else◌, length, take, drop, get_or, get_elem?,
}
use bonfire_os.Base.Text.{copy}
use bonfire_os.Fs.Path.{
  fs_path_max, fs_name_max, slash, normalize_path, last_from, last_of_dir, last_of_file,
  parent_length, stored_name,
}
use bonfire_os.Fs.Tree.{
  FsNode, Fs, root_dir, fs_max_files, fs_max_dirs, fs_file_buf, dir_by_name, file_by_name,
  path_to_dir, fs_get_cwd,
}

-- The directory that the part of the path before its last name, at index `last`, leads to.
unfoldable pub parent_dir : List ℕ → ℕ → Fs → Option ℕ
parent_dir norm last fs =
    let plen = parent_length last in
    if plen == 0 then some root_dir else path_to_dir (take plen norm) fs

-- An empty normal form reads as no name; the code reads behind its terminator there.
unfoldable pub fs_mkdir : List ℕ → Fs → Bool × Fs
fs_mkdir path fs =
    let norm = normalize_path path fs_path_max in
    let last = drop (last_of_dir norm) norm in
    if leb fs_max_dirs (length fs.dirs)
    then (false, fs)
    else if length last == 0
    then (false, fs)
    else elim (parent_dir norm (last_of_dir norm) fs) [
      | none ↦ (false, fs)
      | some parent ↦ elim (dir_by_name parent last fs) [
        | some i ↦ (false, fs)
        | none ↦
            let node : FsNode = record {
              name = stored_name (fs_name_max - 1) last;
              parent = parent;
              content = none;
            } in
            (true, record fs { dirs = fs.dirs ++ node ∷ [] })
      ]
    ]

unfoldable pub fs_create : List ℕ → Fs → Bool × Fs
fs_create path fs =
    let norm = normalize_path path fs_path_max in
    let last = drop (last_of_file norm) norm in
    if leb fs_max_files (length fs.files)
    then (false, fs)
    else if length last == 0
    then (false, fs)
    else elim (parent_dir norm (last_of_file norm) fs) [
      | none ↦ (false, fs)
      | some parent ↦ elim (file_by_name parent last fs) [
        | some i ↦ (false, fs)
        | none ↦
            let node : FsNode = record {
              name = stored_name (fs_name_max - 1) last;
              parent = parent;
              content = none;
            } in
            (true, record fs { files = fs.files ++ node ∷ [] })
      ]
    ]

-- files[fi].data = file_bufs[fi]; files[fi].size = len;
unfoldable pub put_content : ℕ → List ℕ → List FsNode → List FsNode
put_content i bytes [] = []
put_content zero bytes (n ∷ rows) = record n { content = some bytes } ∷ rows
put_content (suc i) bytes (n ∷ rows) = n ∷ put_content i bytes rows

-- The `len` bytes of the content are the list.
unfoldable pub fs_write : List ℕ → List ℕ → Fs → Bool × Fs
fs_write path content fs =
    let norm = normalize_path path fs_path_max in
    let last = drop (last_of_file norm) norm in
    elim (parent_dir norm (last_of_file norm) fs) [
      | none ↦ (false, fs)
      | some parent ↦ elim (file_by_name parent last fs) [
        | none ↦ (false, fs)
        | some i ↦ (true, record fs { files = put_content i (take fs_file_buf content) fs.files })
      ]
    ]

-- A relative path is taken from the current directory.
unfoldable pub absolute_path : List ℕ → Fs → List ℕ
absolute_path path fs =
    if get_or path 0 0 == slash
    then path
    else let here = fs_get_cwd fs_path_max fs in
      let abs = if get_or here (length here - 1) 0 == slash then here else here ++ slash ∷ [] in
      copy (fs_path_max - 1) abs path

-- A pointer into the local array `norm`, which is dead after the return, with the name that stood there at
-- the return. What is read through it afterwards need not be this name.
pub record DeadName : Type 0 where
  pub at_return : List ℕ

-- The parent of the file at an absolute path, and the pointer to its name.
unfoldable pub resolve_absolute : List ℕ → Fs → Option (ℕ × DeadName)
resolve_absolute path fs =
    let norm = normalize_path path fs_path_max in
    elim (parent_dir norm (last_of_file norm) fs) [
      | none ↦ none
      | some parent ↦ some (parent, record { at_return = drop (last_of_file norm) norm })
    ]

unfoldable pub resolve_file_path : List ℕ → Fs → Option (ℕ × DeadName)
resolve_file_path path fs = resolve_absolute (absolute_path path fs) fs

-- The bytes that a file holds, none of them if it was never written.
abbrev pub content_of : ℕ → List FsNode → List ℕ
content_of i [] = []
content_of zero (n ∷ rows) = elim n.content [ none ↦ [] | some bytes ↦ bytes ]
content_of (suc i) (n ∷ rows) = content_of i rows

-- What is put into a buffer of `max_len` > 0 bytes, less the terminator; `none` is -1. The name is read
-- through the pointer that `resolve_file_path` returns, after the end of the array's lifetime: `dead` gives what
-- is found there of the name that stood there at the return.
unfoldable pub fs_read : (List ℕ → List ℕ) → List ℕ → ℕ → Fs → Option (List ℕ)
fs_read dead path max_len fs = elim (resolve_file_path path fs) [
  | none ↦ none
  | some r ↦ elim (file_by_name r.0 (dead r.1.at_return) fs) [
    | none ↦ none
    | some i ↦ some (take (max_len - 1) (content_of i fs.files))
  ]
]

-- The first loop of `fs_list`: the slash behind a name is put without a test for room.
unfoldable pub list_dirs : ℕ → ℕ → List ℕ → List FsNode → List ℕ
list_dirs d max_len buf [] = buf
list_dirs d max_len buf (n ∷ rows) =
    let named = copy (max_len - 1) buf n.name ++ slash ∷ [] in
    let spaced = if ltb (length named) (max_len - 1) then named ++ 32 ∷ [] else named in
    let later = list_dirs d max_len (if n.parent == d then spaced else buf) rows in
    if ltb (length buf) (max_len - 1) then later else buf

unfoldable pub list_files : ℕ → ℕ → List ℕ → List FsNode → List ℕ
list_files d max_len buf [] = buf
list_files d max_len buf (n ∷ rows) =
    let named = copy (max_len - 1) buf n.name in
    let spaced = if ltb (length named) (max_len - 1) then named ++ 32 ∷ [] else named in
    let later = list_files d max_len (if n.parent == d then spaced else buf) rows in
    if ltb (length buf) (max_len - 1) then later else buf

-- if (j > 0 && buf[j-1] == ' ') j--;
abbrev trim_space : List ℕ → List ℕ
trim_space buf =
    if ltb 0 (length buf) && get_or buf (length buf - 1) 0 == 32
    then take (length buf - 1) buf
    else buf

-- The text before the terminator; `none` is -1. An empty path stands for the null pointer too.
unfoldable pub fs_list : List ℕ → ℕ → Fs → Option (List ℕ)
fs_list path max_len fs =
    let d = if ltb 0 (length path) then path_to_dir path fs else some fs.cwd in
    elim d [
      | none ↦ none
      | some i ↦ some (trim_space (list_files i max_len (list_dirs i max_len [] fs.dirs) fs.files))
    ]

unfoldable pub fs_chdir : List ℕ → Fs → Bool × Fs
fs_chdir path fs = elim (path_to_dir path fs) [
  | none ↦ (false, fs)
  | some d ↦ (true, record fs { cwd = d })
]

-- The normal form is searched for its last name from its second character on, also where it does
-- not begin with a slash.
unfoldable pub fs_exists : List ℕ → Fs → Bool
fs_exists path fs =
    let norm = normalize_path path fs_path_max in
    let last = last_from 1 1 (drop 1 norm) in
    let plen = last - 1 in
    elim (path_to_dir path fs) [
      | some d ↦ true
      | none ↦ elim (path_to_dir (if plen == 0 then slash ∷ [] else take plen norm) fs) [
        | none ↦ false
        | some d ↦ elim (file_by_name d (drop last norm) fs) [ none ↦ false | some i ↦ true ]
      ]
    ]
