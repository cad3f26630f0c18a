-- ===== src/Fs/Tree.antt =====
-- src/kernel/fs/fs.c: the tables of files and directories, and how names and paths are looked up.
pub mod Lookup
use bonfire_os.Base.{
  ℕ, zero, suc, ◌+◌, ◌-◌, ◌&&◌, Option, none, some, List, [], ◌∷◌, ◌++◌, ltb, ◌==◌, if◌then◌else◌,
  length, take, drop, get_or, get_elem?, Bool,
}
use bonfire_os.Base.Text.{same, copy}
use bonfire_os.Fs.Path.{fs_path_max, slash, normalize_path, path_parts}

abbrev pub fs_max_files : ℕ
fs_max_files = 64

abbrev pub fs_max_dirs : ℕ
fs_max_dirs = 32

abbrev pub fs_file_buf : ℕ
fs_file_buf = 4096

-- `struct fs_node`, for both tables; `content` is `none` for the null pointer, and otherwise the
-- `size` bytes of the file.
pub record FsNode : Type 0 where
  pub name : List ℕ
  pub parent : ℕ
  pub content : Option (List ℕ)

-- The static variables; the tables hold their first `nfiles` and `ndirs` rows.
pub record Fs : Type 0 where
  pub files : List FsNode
  pub dirs : List FsNode
  pub cwd : ℕ

abbrev pub root_dir : ℕ
root_dir = 0

unfoldable pub fs_init : Fs → Fs
fs_init fs = record {
  files = [];
  dirs = record { name = slash ∷ []; parent = 0; content = none } ∷ [];
  cwd = root_dir;
}

-- The index of the first row from row `i` on with this parent and this name; `none` is (size_t)-1.
unfoldable pub node_by_name : ℕ → ℕ → List ℕ → List FsNode → Option ℕ
node_by_name i parent name [] = none
node_by_name i parent name (n ∷ rows) =
    let later = node_by_name (i + 1) parent name rows in
    if n.parent == parent && same name n.name then some i else later

unfoldable pub dir_by_name : ℕ → List ℕ → Fs → Option ℕ
dir_by_name parent name fs = node_by_name 0 parent name fs.dirs

unfoldable pub file_by_name : ℕ → List ℕ → Fs → Option ℕ
file_by_name parent name fs = node_by_name 0 parent name fs.files

-- The walk of `path_to_dir` from directory `d` along the names.
unfoldable pub walk : ℕ → List (List ℕ) → Fs → Option ℕ
walk d [] fs = some d
walk d (part ∷ parts) fs =
    if length part == 0
    then some d
    else elim (dir_by_name d part fs) [ none ↦ none | some next ↦ walk next parts fs ]

-- `none` is the return value -1.
unfoldable pub path_to_dir : List ℕ → Fs → Option ℕ
path_to_dir path fs =
    let norm = normalize_path path fs_path_max in
    if get_or norm 0 0 == slash then walk root_dir (path_parts [] (drop 1 norm)) fs else none

abbrev pub dir_parent : ℕ → Fs → ℕ
dir_parent i fs = elim (get_elem? fs.dirs i) [ none ↦ root_dir | some n ↦ n.parent ]

-- The chain of directories from `cur` up to the root, the one below the root first.
unfoldable pub ancestors : ℕ → ℕ → List ℕ → Fs → List ℕ
ancestors zero cur stack fs = stack
ancestors (suc fuel) cur stack fs =
    let later = ancestors fuel (dir_parent cur fs) (cur ∷ stack) fs in
    if cur == root_dir then stack else later

abbrev pub dir_name : ℕ → Fs → List ℕ
dir_name i fs = elim (get_elem? fs.dirs i) [ none ↦ [] | some n ↦ n.name ]

-- One name behind `buf`, as far as there is room, and a slash if `more` follow.
unfoldable pub put_name : ℕ → List ℕ → List ℕ → Bool → List ℕ
put_name max_len buf name more =
    let named = copy (max_len - 1) buf name in
    if more && ltb (length named) (max_len - 1) then named ++ slash ∷ [] else named

-- The loop that pops the directories and puts their names, with slashes between.
unfoldable pub put_names : ℕ → List ℕ → List ℕ → Fs → List ℕ
put_names max_len buf [] fs = buf
put_names max_len buf (i ∷ stack) fs =
    let next = put_name max_len buf (dir_name i fs) (ltb 0 (length stack)) in
    let later = put_names max_len next stack fs in
    if ltb (length buf) (max_len - 1) then later else buf

-- The directories are at most 32, and each lies behind its parent in the table: that many rounds
-- of the loop reach the root.
unfoldable pub fs_get_cwd : ℕ → Fs → List ℕ
fs_get_cwd max_len fs =
    if fs.cwd == root_dir
    then slash ∷ []
    else put_names max_len (slash ∷ []) (ancestors (length fs.dirs) fs.cwd [] fs) fs
