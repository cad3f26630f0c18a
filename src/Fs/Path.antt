-- ===== src/Fs/Path.antt =====
-- src/kernel/fs/fs.c: normal forms of paths, and the two ways in which paths are taken apart. A
-- string is the list of its characters; a character behind its end reads as the terminator 0.
pub mod Normal
pub mod Names
use bonfire_os.Base.{
  ℕ, zero, suc, ◌+◌, ◌-◌, Bool, ◌&&◌, ◌||◌, List, [], ◌∷◌, ◌++◌, ltb, leb, ◌==◌, if◌then◌else◌,
  length, drop, get_or, not,
}
use mathlib.Core.List.{reverse}

abbrev pub fs_path_max : ℕ
fs_path_max = 128

abbrev pub fs_name_max : ℕ
fs_name_max = 32

-- '/'
abbrev pub slash : ℕ
slash = 47

-- '.'
abbrev pub dot : ℕ
dot = 46

-- `c == '/' || c == '\0'`
abbrev ends_part : ℕ → Bool
ends_part c = c == slash || c == 0

-- The tests for ".." and "." at the character `c`, which `rest` follows.
abbrev is_parent : ℕ → List ℕ → Bool
is_parent c rest = c == dot && (get_or rest 0 0 == dot && ends_part (get_or rest 1 0))

abbrev is_here : ℕ → List ℕ → Bool
is_here c rest = c == dot && ends_part (get_or rest 0 0)

-- `out` is held with its last character first.
-- while (j > 0 && out[j-1] != '/') j--; if (j > 0) j--;
unfoldable pub drop_part : List ℕ → List ℕ
drop_part [] = []
drop_part (c ∷ out) = let later = drop_part out in if c == slash then out else later

-- One round of the loop of `normalize_path` at the character `c`: how many of the characters of
-- `rest` are consumed too, and the new `out`.
unfoldable pub normal_step : ℕ → List ℕ → List ℕ → ℕ × List ℕ
normal_step c rest out =
    if is_parent c rest
    then ((if get_or rest 1 0 == slash then 2 else 1), drop_part out)
    else if is_here c rest
    then ((if get_or rest 0 0 == slash then 1 else 0), out)
    else if c == slash
    then (0, (if ltb 0 (length out) && not (get_or out 0 0 == slash) then slash ∷ out else out))
    else (0, c ∷ out)

-- The loop, which first passes over `skip` characters that the round before consumed.
unfoldable pub normal_loop : (max_len skip : ℕ) → List ℕ → List ℕ → List ℕ
normal_loop max_len skip [] out = out
normal_loop max_len (suc skip) (c ∷ rest) out = normal_loop max_len skip rest out
normal_loop max_len zero (c ∷ rest) out =
    let next = normal_step c rest out in
    let later = normal_loop max_len next.0 rest next.1 in
    if ltb (length out) (max_len - 1) then later else out

-- if (j > 1 && out[j-1] == '/') j--;
abbrev pub trim_slash : List ℕ → List ℕ
trim_slash out = if ltb 1 (length out) && get_or out 0 0 == slash then drop 1 out else out

-- The first slash, and the loop.
unfoldable pub normal_out : ℕ → List ℕ → List ℕ
normal_out max_len path =
    if get_or path 0 0 == slash
    then normal_loop max_len 0 (drop 1 path) (slash ∷ [])
    else normal_loop max_len 0 path []

-- What is put into `out`, for a buffer of `max_len` > 1 characters.
unfoldable pub normalize_path : List ℕ → ℕ → List ℕ
normalize_path path max_len = reverse (trim_slash (normal_out max_len path))

-- The loop of `path_to_dir` that cuts a path into names of at most 31 characters: at a slash, which
-- is consumed, and where `part` is full. An empty name stands for two slashes in a row.
unfoldable pub path_parts : List ℕ → List ℕ → List (List ℕ)
path_parts part [] = if length part == 0 then [] else part ∷ []
path_parts part (c ∷ p) =
    let cut = part ∷ path_parts [] p in
    let full = part ∷ path_parts (c ∷ []) p in
    let later = path_parts (part ++ c ∷ []) p in
    if c == slash then cut else if ltb (length part) (fs_name_max - 1) then later else full

-- while (*p) { if (*p == '/') last = p + 1; p++; } with indices into the path for the pointers.
unfoldable pub last_from : (p last : ℕ) → List ℕ → ℕ
last_from p last [] = last
last_from p last (c ∷ rest) = last_from (p + 1) (if c == slash then p + 1 else last) rest

-- Where the last name of a path begins: in `fs_mkdir`, and in the operations on files.
abbrev pub last_of_dir : List ℕ → ℕ
last_of_dir norm = last_from 1 0 (drop 1 norm)

abbrev pub last_of_file : List ℕ → ℕ
last_of_file norm =
    let first = if get_or norm 0 0 == slash then 1 else 0 in last_from first first (drop first norm)

-- (full_plen >= 2) ? full_plen - 2 : 0
abbrev pub parent_length : ℕ → ℕ
parent_length full_plen = if leb 2 full_plen then full_plen - 2 else 0

-- while (last[nlen] && last[nlen] != '/' && nlen < FS_NAME_MAX - 1)
unfoldable pub stored_name : ℕ → List ℕ → List ℕ
stored_name zero last = []
stored_name (suc room) [] = []
stored_name (suc room) (c ∷ last) =
    let later = stored_name room last in if c == slash then [] else c ∷ later
