-- ===== src/Fat/Names/Match.antt =====
-- Which names of an exFAT volume a name in the 8.3 form stands for.
use bonfire_os.Base.{ℕ, [], refl, ◌∷◌, ◌<◌, List, ◌≤◌, All, ◌≡◌, map, arith}
use bonfire_os.Base.Text.{same}
use bonfire_os.Fat.Names.{ascii_upper, name_matches_expected}

-- A character that may stand in a name.
abbrev IsAscii : ℕ → Type 0
IsAscii c = (0 < c) × (c ≤ 127)

-- A name of ASCII characters, none of them 0, matches exactly if it is what is expected when in capitals.
name_matches_expected-same :
    (expected w : List ℕ)
    → All IsAscii w
    → name_matches_expected expected w ≡ same (map ascii_upper w) expected
unfolding name_matches_expected same
name_matches_expected-same [] [] a = refl
name_matches_expected-same (e ∷ expected) [] a = ground arith
name_matches_expected-same [] (c ∷ w) (h, a) = ground arith
name_matches_expected-same (e ∷ expected) (c ∷ w) (h, a) =
    ground (arith, name_matches_expected-same expected w a)
