-- ===== src/Fat/Exfat/Bitmap/RoundTrip.antt =====
-- The bit of a cluster in the bitmap of an exFAT volume after a bit has been changed.
use mathlib.Core.Path.{ap₂}
use native.Mathlib.Nat.{pow-succ', div-div-eq-div-mul}
use bonfire_os.Base.{
  ℕ, zero, suc, true, ◌==◌, Bool, bit, ◌/◌, ◌%◌, ◌≡◌, ap, ◌^◌, if◌then◌else◌, ◌∙◌, ◌≤◌, sym, arith,
  false, refl, ◌+◌, ◌*◌, ==_of_ne, ◌-◌, inl, inr, ◌<◌, u8, update, Bool-cases, none, some, ==→eq,
  not, Option-cases, Option, u32, ==→ne,
}
use bonfire_os.Fat.Exfat.Bitmap.{
  with_bit, bytes_per_sector, bitmap_byte, Drive, exfat_bitmap_is_free, exfat_bitmap_modify_bit,
  Volume, has_bit, bitmap_lba,
}

bit-suc : (x k : ℕ) → bit x (suc k) ≡ bit (x / 2) k
bit-suc x k =
    ap (λ q. q % 2 == 1) (ap (λ p. x / p) (pow-succ' 2 k) ∙ sym (div-div-eq-div-mul x 2 (2 ^ k)))

bit_at_least : (k x : ℕ) → bit x k ≡ true → 2 ^ k ≤ x
bit_at_least zero x h = ground (arith, h)
bit_at_least (suc k) x h =
    omega (arith, pow-succ' 2 k, bit_at_least k (x / 2) (sym (bit-suc x k) ∙ h))

-- What `with_bit` does, for a bit of value `p` that was `b`.
abbrev changed : ℕ → ℕ → Bool → Bool → ℕ
changed x p b s = if s then if b then x else x + p else if b then x - p else x

changed_half : (x p : ℕ) (b s : Bool) → changed x (2 * p) b s / 2 ≡ changed (x / 2) p b s
changed_half x p true true = refl
changed_half x p true false = omega arith
changed_half x p false true = omega arith
changed_half x p false false = refl

changed_low : (x p : ℕ) (b s : Bool) → (b ≡ true → 2 * p ≤ x) → changed x (2 * p) b s % 2 ≡ x % 2
changed_low x p true true h = refl
changed_low x p true false h = omega (arith, h refl)
changed_low x p false true h = omega arith
changed_low x p false false h = refl

with_bit_half : (x k : ℕ) (s : Bool) → with_bit x (suc k) s / 2 ≡ with_bit (x / 2) k s
with_bit_half x k s =
    ap₂ (λ p b. changed x p b s / 2) (pow-succ' 2 k) (bit-suc x k)
    ∙ changed_half x (2 ^ k) (bit (x / 2) k) s

with_bit_low : (x k : ℕ) (s : Bool) → with_bit x (suc k) s % 2 ≡ x % 2
with_bit_low x k s =
    ap (λ p. changed x p (bit x (suc k)) s % 2) (pow-succ' 2 k)
    ∙ changed_low x (2 ^ k) (bit x (suc k)) s
        (λ h. omega (arith, bit_at_least (suc k) x h, pow-succ' 2 k))

with_bit_first : (x : ℕ) (s : Bool) → (with_bit x 0 s % 2 == 1 ≡ s) × (with_bit x 0 s / 2 ≡ x / 2)
with_bit_first x s = (ground arith, ground arith)

bit-with_bit : (k j x : ℕ) (s : Bool) → bit (with_bit x k s) j ≡ (if j == k then s else bit x j)
bit-with_bit zero zero x s =
    ap (λ q. q % 2 == 1) {x = with_bit x 0 s / 1} (omega arith) ∙ (with_bit_first x s).0
bit-with_bit zero (suc j) x s =
    bit-suc (with_bit x 0 s) j
    ∙ ap (λ h. bit h j) (with_bit_first x s).1
    ∙ sym (bit-suc x j)
    ∙ rw (==_of_ne (suc j) 0 (omega arith)) refl
bit-with_bit (suc k) zero x s =
    ap (λ q. q % 2 == 1) {x = with_bit x (suc k) s / 1} (omega arith)
    ∙ ap (λ q. q == 1) (with_bit_low x k s)
    ∙ rw (==_of_ne 0 (suc k) (omega arith)) (ap (λ q. q % 2 == 1) (omega arith))
bit-with_bit (suc k) (suc j) x s =
    bit-suc (with_bit x (suc k) s) j
    ∙ ap (λ h. bit h j) (with_bit_half x k s)
    ∙ bit-with_bit k j (x / 2) s
    ∙ ap₂ (λ e b. if e then s else b) (ground arith) (sym (bit-suc x j))

with_bit_small : (n k x : ℕ) (s : Bool) → k < n → x < 2 ^ n → with_bit x k s < 2 ^ n
with_bit_small zero k x s h b = absurd (omega (arith, h))
with_bit_small (suc n) zero x s h b = omega (arith, pow-succ' 2 n, (with_bit_first x s).1, b)
with_bit_small (suc n) (suc k) x s h b = omega (
  arith,
  pow-succ' 2 n,
  with_bit_half x k s,
  b,
  with_bit_small n k (x / 2) s (omega (arith, h)) (omega (arith, b, pow-succ' 2 n)),
)

-- The byte of cluster `c'` in the sector of cluster `c`, whose bit has been changed in it.
byte_after :
    (b : ℕ → ℕ) (c c' : ℕ) (s : Bool)
    → ((i : ℕ) → b i < 256)
    → 2 ≤ c
    → 2 ≤ c'
    → (c - 2) / 8 / bytes_per_sector ≡ (c' - 2) / 8 / bytes_per_sector
    → bit
        (u8 (
          update b (bitmap_byte c) (with_bit (b (bitmap_byte c)) ((c - 2) % 8) s) (bitmap_byte c')))
        ((c' - 2) % 8)
      ≡ (if c' == c then s else bit (b (bitmap_byte c')) ((c' - 2) % 8))
byte_after b c c' s small h h' same =
    let k = (c - 2) % 8 in
    let k' = (c' - 2) % 8 in
    let rel = bitmap_byte c in
    let rel' = bitmap_byte c' in
    let new = with_bit (b rel) k s in
    let inside = λ (t : Bool). bit (u8 (if t then new else b rel')) k' in
    elim (Bool-cases (rel' == rel)) [
      | inl here ↦
          ap inside here
          ∙ ap (λ x. bit x k') {x = u8 new}
              (small_word new (with_bit_small 8 k (b rel) s (omega arith) (small rel)))
          ∙ bit-with_bit k k' (b rel) s
          ∙ ap₂ (λ e x. if e then s else bit x k') (ground (arith, here, same, h, h'))
              (ap b (sym (==→eq rel' rel here)))
      | inr other ↦
          ap inside other
          ∙ ap (λ x. bit x k') {x = u8 (b rel')} (small_word (b rel') (small rel'))
          ∙ sym (
              ap (λ e. if e then s else bit (b rel') k') {x = c' == c} {y = false}
                (ground (arith, other)))
    ]
  where
    small_word : (x : ℕ) → x < 256 → u8 x ≡ x
    small_word x lt = omega (arith, lt)

if_some-not :
    (e s t : Bool) → some (not (if e then s else t)) ≡ (if e then some (not s) else some (not t))
if_some-not true s t = refl
if_some-not false s t = refl

-- Two bits in the same sector of the bitmap.
same_sector :
    (base c c' : ℕ)
    → c < 4294967296
    → c' < 4294967296
    → u32 (base + u32 ((c' - 2) / 8 / bytes_per_sector))
      ≡ u32 (base + u32 ((c - 2) / 8 / bytes_per_sector))
    → (c - 2) / 8 / bytes_per_sector ≡ (c' - 2) / 8 / bytes_per_sector
same_sector base c c' h h' e = omega (arith, h, h', e)

has_bit_two : (v : Volume) (c : ℕ) → has_bit v c ≡ true → 2 ≤ c
has_bit_two v c h = ground (arith, h)

module _ (drive : Drive) where
  open drive use {Image, ata_read, ata_write, bytes, read_written, read_other}

  is_free_found :
      (v : Volume) (c : ℕ) (d : Image) (b : ℕ → ℕ)
      → has_bit v c ≡ true
      → ata_read (bitmap_lba v c) d ≡ some b
      → exfat_bitmap_is_free drive v c d ≡ some (not (bit (b (bitmap_byte c)) ((c - 2) % 8)))
  unfolding exfat_bitmap_is_free
  is_free_found v c d b has found = rw (has, found, exfat_bitmap_is_free) refl

  is_free_same :
      (v : Volume) (c : ℕ) (d d' : Image)
      → ata_read (bitmap_lba v c) d' ≡ ata_read (bitmap_lba v c) d
      → exfat_bitmap_is_free drive v c d' ≡ exfat_bitmap_is_free drive v c d
  unfolding exfat_bitmap_is_free
  is_free_same v c d d' e = rw (e, exfat_bitmap_is_free) refl

  is_free_none :
      (v : Volume) (c : ℕ) (d : Image)
      → has_bit v c ≡ false
      → exfat_bitmap_is_free drive v c d ≡ none
  unfolding exfat_bitmap_is_free
  is_free_none v c d e = rw (e, exfat_bitmap_is_free) refl

  -- A bit that could be changed has been read and written.
  modified :
      (v : Volume) (c : ℕ) (s : Bool) (d : Image)
      → (exfat_bitmap_modify_bit drive v c s d).0 ≡ true
      → (has_bit v c ≡ true)
        × ((b : ℕ → ℕ) × (ata_read (bitmap_lba v c) d ≡ some b)
            × (exfat_bitmap_modify_bit drive v c s d
                ≡ ata_write
                    (bitmap_lba v c)
                    (update b (bitmap_byte c) (with_bit (b (bitmap_byte c)) ((c - 2) % 8) s))
                    d))
  unfolding exfat_bitmap_modify_bit
  modified v c s d done = elim (Bool-cases (has_bit v c)) [
    | inr out ↦ absurd (ground (arith, out, done))
    | inl has ↦ elim (Option-cases (ata_read (bitmap_lba v c) d)) [
      | inl failed ↦ absurd (ground (arith, failed, has, done))
      | inr (b, found) ↦ (has, (b, found, rw (has, found, exfat_bitmap_modify_bit) refl))
    ]
  ]

  -- When the bit of a cluster has been set or cleared, `exfat_bitmap_is_free` says of this cluster what
  -- has been put, and of every other cluster what it said before.
  pub exfat_bitmap_is_free-modify_bit :
      (v : Volume) (c c' : ℕ) (s : Bool) (d : Image)
      → c < 4294967296
      → c' < 4294967296
      → (exfat_bitmap_modify_bit drive v c s d).0 ≡ true
      → exfat_bitmap_is_free drive v c' (exfat_bitmap_modify_bit drive v c s d).1
        ≡ (if c' == c then some (not s) else exfat_bitmap_is_free drive v c' d)
  exfat_bitmap_is_free-modify_bit v c c' s d small small' done =
      let (has, (b, found, same)) = modified v c s d done in
      let new = update b (bitmap_byte c) (with_bit (b (bitmap_byte c)) ((c - 2) % 8) s) in
      let (after, read, holds) =
        read_written (bitmap_lba v c) new d (sym (ap (λ r. r.0) same) ∙ done) in
      let D = (exfat_bitmap_modify_bit drive v c s d).1 in
      let k' = (c' - 2) % 8 in
      let rel' = bitmap_byte c' in
      let chosen = λ (q : Option Bool). if c' == c then some (not s) else q in
      elim (Bool-cases (has_bit v c')) [
        | inr out ↦
            is_free_none v c' D out
            ∙ sym (
                ap (λ (t : Bool). if t then some (not s) else exfat_bitmap_is_free drive v c' d)
                  (==_of_ne c' c (λ e. absurd (cc (has, out, ap (has_bit v) e))))
                ∙ is_free_none v c' d out)
        | inl has' ↦ elim (Bool-cases (bitmap_lba v c' == bitmap_lba v c)) [
          | inr apart ↦
              is_free_same v c' d D (
                ap (λ r. ata_read (bitmap_lba v c') r.1) same
                ∙ read_other (bitmap_lba v c) (bitmap_lba v c') new d (==→ne _ _ apart))
              ∙ sym (
                  ap (λ (t : Bool). if t then some (not s) else exfat_bitmap_is_free drive v c' d)
                    (==_of_ne c' c (λ e. ==→ne _ _ apart (ap (bitmap_lba v) e))))
          | inl here ↦
              let at = ==→eq (bitmap_lba v c') (bitmap_lba v c) here in
              is_free_found v c' D after has' (
                ap (λ r. ata_read (bitmap_lba v c') r.1) same
                ∙ ap (λ lba. ata_read lba (ata_write (bitmap_lba v c) new d).1) at
                ∙ read)
              ∙ ap (λ x. some (not (bit x k'))) (holds rel' (omega arith))
              ∙ ap (λ t. some (not t))
                  (byte_after b c c' s (bytes _ d b found) (has_bit_two v c has)
                    (has_bit_two v c' has') (same_sector _ c c' small small' at))
              ∙ if_some-not (c' == c) s (bit (b rel') k')
              ∙ ap chosen
                  (sym (is_free_found v c' d b has' (ap (λ lba. ata_read lba d) at ∙ found)))
        ]
      ]
