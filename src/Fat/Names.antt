-- ===== src/Fat/Names.antt =====
-- src/kernel/fs/fat.c: names in the 8.3 form, eleven characters filled with spaces, and what they stand
-- for on an exFAT volume.
pub mod Match
use bonfire_os.Base.{
  ℕ, zero, suc, ◌+◌, false, [], ◌∷◌, ◌==◌, ◌&&◌, ◌++◌, Bool, if◌then◌else◌, List, leb, map, take,
  length, ◌-◌, drop, ltb, get_or,
}

unfoldable pub ascii_upper : ℕ → ℕ
ascii_upper c = if leb b'a' c && leb c b'z' then c - 32 else c

unfoldable pub normalize_83 : List ℕ → List ℕ
normalize_83 name = map ascii_upper (take 11 name)

-- for (i = start; i < end && n11[i] != ' '; i++) out[bi++] = ascii_upper(n11[i]);
-- without the tests for room: what is put is at most 12 characters, and the buffers have 64.
unfoldable pub upper_word : List ℕ → List ℕ
upper_word [] = []
upper_word (c ∷ cs) = let later = upper_word cs in if c == 32 then [] else ascii_upper c ∷ later

-- while (ext_start < 11 && n11[ext_start] == ' ') ext_start++;
unfoldable pub skip_blanks : List ℕ → List ℕ
skip_blanks [] = []
skip_blanks (c ∷ cs) = let later = skip_blanks cs in if c == 32 then later else c ∷ cs

unfoldable pub build_expected_from_83 : List ℕ → List ℕ
build_expected_from_83 n11 =
    let base = upper_word (take 8 n11) in
    let ext = skip_blanks (take 3 (drop 8 n11)) in
    if length ext == 0 then base else base ++ b'.' ∷ upper_word ext

-- Whether the characters of a name of an exFAT volume, 16 bits each, are those expected, in capitals. A
-- character 0 ends the name.
unfoldable pub name_matches_expected : List ℕ → List ℕ → Bool
name_matches_expected expected [] = length expected == 0
name_matches_expected expected (c ∷ w) =
    let later = name_matches_expected (drop 1 expected) w in
    if c == 0
    then length expected == 0
    else if ltb 127 c
    then false
    else if length expected == 0
    then false
    else if ascii_upper c == get_or expected 0 0
    then later
    else false
