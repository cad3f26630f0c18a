-- ===== src/Shell/Commands/FileNames.antt =====
-- The 8.3 names of the commands fatcat and fatput, and the names of an exFAT volume.
use mathlib.Core.Path.{ap₂}
use bonfire_os.Base.{
  ℕ, zero, suc, [], refl, ◌∷◌, ◌++◌, ◌≢◌, List, All, ◌≡◌, take, map, length, ap, ◌≤◌, arith, drop,
  ==_of_ne, take-length-append, ◌∙◌, sym, ◌+◌, length-append,
}
use bonfire_os.Fat.Names.{ascii_upper, upper_word, skip_blanks, build_expected_from_83}
use bonfire_os.Shell.Alias.{split_word}
use bonfire_os.Shell.Alias.Expand.{skip_spaces_none, split_word-append}
use bonfire_os.Shell.Commands.{split_dot, padded, skip_dot, name_83, next_arg}

-- A character that is neither a dot nor a space.
abbrev IsNameChar : ℕ → Type 0
IsNameChar c = (c ≢ 46) × (c ≢ 32)

split_dot_lem :
    (n : ℕ) (stem ext : List ℕ)
    → All IsNameChar stem
    → length stem ≤ n
    → split_dot n (stem ++ 46 ∷ ext) ≡ (stem, 46 ∷ ext)
unfolding split_dot
split_dot_lem zero [] ext a h = refl
split_dot_lem zero (c ∷ stem) ext a h = absurd (omega (arith, h))
split_dot_lem (suc n) [] ext a h = refl
split_dot_lem (suc n) (c ∷ stem) ext ((dot, space), a) h =
    rw (==_of_ne c 46 dot, split_dot_lem n stem ext a (omega (arith, h))) refl

length-padded : (n : ℕ) (xs : List ℕ) → n ≡ length (padded n xs)
unfolding padded
length-padded zero xs = refl
length-padded (suc n) [] = omega (arith, length-padded n [])
length-padded (suc n) (x ∷ xs) = omega (arith, length-padded n xs)

drop-length-append : (n : ℕ) (xs ys : List ℕ) → n ≡ length xs → drop n (xs ++ ys) ≡ ys
drop-length-append zero [] ys h = refl
drop-length-append zero (x ∷ xs) ys h = absurd (omega arith)
drop-length-append (suc n) [] ys h = absurd (omega arith)
drop-length-append (suc n) (x ∷ xs) ys h = drop-length-append n xs ys (omega (arith, h))

take-padded : (n : ℕ) (xs : List ℕ) → take n (padded n xs) ≡ padded n xs
unfolding padded
take-padded zero xs = refl
take-padded (suc n) [] = ap (λ t. 32 ∷ t) (take-padded n [])
take-padded (suc n) (x ∷ xs) = ap (λ t. x ∷ t) (take-padded n xs)

upper_word-padded :
    (n : ℕ) (xs : List ℕ)
    → All IsNameChar xs
    → length xs ≤ n
    → upper_word (padded n xs) ≡ map ascii_upper xs
unfolding upper_word padded
upper_word-padded zero [] a h = refl
upper_word-padded zero (x ∷ xs) a h = absurd (omega (arith, h))
upper_word-padded (suc n) [] a h = refl
upper_word-padded (suc n) (x ∷ xs) ((dot, space), a) h =
    rw (==_of_ne x 32 space)
      (ap (λ t. ascii_upper x ∷ t) (upper_word-padded n xs a (omega (arith, h))))

map-append : (f : ℕ → ℕ) (xs ys : List ℕ) → map f (xs ++ ys) ≡ map f xs ++ map f ys
map-append f [] ys = refl
map-append f (x ∷ xs) ys = ap (λ t. f x ∷ t) (map-append f xs ys)

build_lem :
    (base ext : List ℕ)
    → 8 ≡ length base
    → take 3 ext ≡ ext
    → skip_blanks ext ≡ ext
    → length ext ≢ 0
    → build_expected_from_83 (base ++ ext) ≡ upper_word base ++ b'.' ∷ upper_word ext
unfolding build_expected_from_83
build_lem base ext full short begins some_ext =
    rw
      (
        take-length-append 8 base ext full,
        drop-length-append 8 base ext full,
        short,
        begins,
        ==_of_ne (length ext) 0 some_ext,
      )
      refl

name_83_lem :
    (stem ext : List ℕ)
    → All IsNameChar stem
    → length stem ≤ 8
    → name_83 (stem ++ b'.' ∷ ext) ≡ padded 8 stem ++ padded 3 ext
unfolding name_83 skip_dot
name_83_lem stem ext a h = rw (split_dot_lem 8 stem ext a h) refl

skip_blanks-padded :
    (n c : ℕ) (cs : List ℕ)
    → c ≢ 32
    → skip_blanks (padded (suc n) (c ∷ cs)) ≡ padded (suc n) (c ∷ cs)
unfolding skip_blanks padded
skip_blanks-padded n c cs space = rw (==_of_ne c 32 space) refl

-- The 8.3 form of a whole name.
build_expected_from_83-whole :
    (stem : List ℕ) (c : ℕ) (cs : List ℕ)
    → All IsNameChar stem
    → All IsNameChar (c ∷ cs)
    → length stem ≤ 8
    → length cs ≤ 2
    → build_expected_from_83 (name_83 (stem ++ b'.' ∷ c ∷ cs))
      ≡ map ascii_upper (stem ++ b'.' ∷ c ∷ cs)
unfolding ascii_upper
build_expected_from_83-whole stem c cs a b h k =
    let ext = c ∷ cs in
    ap build_expected_from_83 (name_83_lem stem ext a h)
    ∙ build_lem (padded 8 stem) (padded 3 ext) (length-padded 8 stem) (take-padded 3 ext)
        (skip_blanks-padded 2 c cs b.0.1) (λ e. absurd (omega (arith, e, length-padded 3 ext)))
    ∙ ap₂ (λ (x y : List ℕ). x ++ b'.' ∷ y) (upper_word-padded 8 stem a h)
        (upper_word-padded 3 ext b (omega (arith, k)))
    ∙ sym (map-append ascii_upper stem (b'.' ∷ ext))

split_word_whole :
    (n : ℕ) (word : List ℕ)
    → All (λ c. c ≢ 32) word
    → length word ≤ n
    → split_word n word ≡ (word, [])
unfolding split_word
split_word_whole zero [] w short = refl
split_word_whole zero (c ∷ word) w short = absurd (omega (arith, short))
split_word_whole (suc n) [] w short = refl
split_word_whole (suc n) (c ∷ word) (ne, w) short =
    rw (==_of_ne c 32 ne, split_word_whole n word w (omega (arith, short))) refl

no_space : (xs : List ℕ) → All IsNameChar xs → All (λ c. c ≢ 32) xs
no_space [] a = tt
no_space (x ∷ xs) ((dot, space), a) = (space, no_space xs a)

name-no_space :
    (stem ext : List ℕ)
    → All IsNameChar stem
    → All IsNameChar ext
    → All (λ c. c ≢ 32) (stem ++ b'.' ∷ ext)
name-no_space [] ext a b = ((λ e. absurd (omega (arith, e))), no_space ext b)
name-no_space (x ∷ stem) ext ((dot, space), a) b = (space, name-no_space stem ext a b)

-- The name is the whole argument, whether something follows it or not.
next_arg_lem :
    (c : ℕ) (cs rest : List ℕ)
    → All (λ c. c ≢ 32) (c ∷ cs)
    → length (c ∷ cs) ≤ 11
    → ((next_arg 12 (c ∷ cs)).0 ≡ c ∷ cs) × ((next_arg 12 ((c ∷ cs) ++ 32 ∷ rest)).0 ≡ c ∷ cs)
next_arg_lem c cs rest a short = (
  ap (λ s. (split_word 11 s).0) (skip_spaces_none c cs a.0)
      ∙ ap (λ r. r.0) (split_word_whole 11 (c ∷ cs) a short),
  ap (λ s. (split_word 11 s).0) (skip_spaces_none c (cs ++ 32 ∷ rest) a.0)
      ∙ ap (λ r. r.0) (split_word-append 11 (c ∷ cs) rest a short),
)

name-next_arg :
    (stem ext rest : List ℕ)
    → All (λ c. c ≢ 32) (stem ++ b'.' ∷ ext)
    → length (stem ++ b'.' ∷ ext) ≤ 11
    → let name = stem ++ b'.' ∷ ext in
      ((next_arg 12 name).0 ≡ name) × ((next_arg 12 (name ++ 32 ∷ rest)).0 ≡ name)
name-next_arg [] ext rest a short = next_arg_lem 46 ext rest a short
name-next_arg (x ∷ stem) ext rest a short = next_arg_lem x (stem ++ b'.' ∷ ext) rest a short

-- Of arguments that begin with a name of at most 11 characters, which has at most 8 before a dot and 1
-- to 3 behind it, no other dots and no spaces, the commands read this name, whether they end there or
-- go on behind a space; and the 8.3 form of what they read stands for this name, in capitals, on an
-- exFAT volume.
pub build_expected_from_83-name_83 :
    (stem : List ℕ) (c : ℕ) (cs rest : List ℕ)
    → All IsNameChar stem
    → All IsNameChar (c ∷ cs)
    → length stem ≤ 8
    → length cs ≤ 2
    → length stem + length cs ≤ 9
    → let name = stem ++ b'.' ∷ c ∷ cs in
      let expected = λ (args : List ℕ). build_expected_from_83 (name_83 (next_arg 12 args).0) in
      (expected name ≡ map ascii_upper name) × (expected (name ++ 32 ∷ rest) ≡ map ascii_upper name)
build_expected_from_83-name_83 stem c cs rest a b h k all =
    let ext = c ∷ cs in
    let name = stem ++ b'.' ∷ ext in
    let whole = build_expected_from_83-whole stem c cs a b h k in
    let short : length name ≤ 11 = omega (arith, length-append stem (b'.' ∷ ext), all) in
    let read = name-next_arg stem ext rest (name-no_space stem ext a b) short in
    (
      ap (λ n. build_expected_from_83 (name_83 n)) read.0 ∙ whole,
      ap (λ n. build_expected_from_83 (name_83 n)) read.1 ∙ whole,
    )
