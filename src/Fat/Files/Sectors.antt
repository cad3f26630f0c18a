-- ===== src/Fat/Files/Sectors.antt =====
-- What is written into the sectors of a cluster is read back from them.
use bonfire_os.Base.{
  sym, ap, ℕ, zero, suc, ◌+◌, true, [], refl, ◌∷◌, ◌==◌, ◌++◌, Bool, inl, ◌<◌, List, All, take,
  drop, length, ◌⊎◌, ◌≡◌, arith, get_or, u8, ◌≤◌, ◌*◌, ◌∙◌, length-take, min, if_elim, false,
  if◌then◌else◌, ==_of_ne, ◌-◌, length-drop,
}
use mathlib.Core.Path.{ap₂}
use bonfire_os.Fat.Disk.{Drive, bytes_per_sector, get_bytes}
use bonfire_os.Fat.Files.{sector_of, read_sectors, write_sectors}

abbrev pub IsByte : ℕ → Type 0
IsByte c = c < 256

pub IsByte-drop : (n : ℕ) (xs : List ℕ) → All IsByte xs → All IsByte (drop n xs)
IsByte-drop zero xs a = a
IsByte-drop (suc n) [] a = tt
IsByte-drop (suc n) (x ∷ xs) (h, a) = IsByte-drop n xs a

take_none : (n : ℕ) → take {A = ℕ} n [] ≡ []
take_none zero = refl
take_none (suc n) = refl

drop_none : (n : ℕ) → drop {A = ℕ} n [] ≡ []
drop_none zero = refl
drop_none (suc n) = refl

-- Of two tests that may end a step, the second of which fails the whole, both have been passed.
pub passed :
    {A : Type 0} (empty ok : Bool) (stop later : Bool × A) (left : A)
    → empty ≡ false
    → (if empty then stop else if ok then later else (false, left)).0 ≡ true
    → (ok ≡ true) × ((if empty then stop else if ok then later else (false, left)) ≡ later)
passed false true stop later left e h = (refl, refl)
passed false false stop later left e h = absurd (cc h)
passed true ok stop later left e h = absurd (cc e)

take-take-drop : (n m : ℕ) (xs : List ℕ) → take n xs ++ take m (drop n xs) ≡ take (n + m) xs
take-take-drop zero m xs = ap (λ k. take k xs) (omega arith)
take-take-drop (suc n) zero [] = ap (λ k. take k []) {x = suc n} (omega arith)
take-take-drop (suc n) (suc m) [] = sym (take_none (suc n + suc m))
take-take-drop (suc n) m (x ∷ xs) =
    ap (λ t. x ∷ t) (take-take-drop n m xs)
    ∙ ap (λ k. take k (x ∷ xs)) {x = suc (n + m)} (omega arith)

pub take-drop : (n : ℕ) (xs : List ℕ) → take n xs ++ drop n xs ≡ xs
take-drop zero xs = refl
take-drop (suc n) [] = refl
take-drop (suc n) (x ∷ xs) = ap (λ t. x ∷ t) (take-drop n xs)

drop-drop : (n m : ℕ) (xs : List ℕ) → drop m (drop n xs) ≡ drop (n + m) xs
drop-drop zero m xs = ap (λ k. drop k xs) (omega arith)
drop-drop (suc n) m [] = drop_none m ∙ sym (drop_none (suc n + m))
drop-drop (suc n) m (x ∷ xs) =
    drop-drop n m xs ∙ ap (λ k. drop k (x ∷ xs)) {x = suc (n + m)} (omega arith)

-- A buffer that begins with the bytes of a list.
get_bytes_lem :
    (b : ℕ → ℕ) (start : ℕ) (xs : List ℕ)
    → ((i : ℕ) → i < length xs → b (start + i) ≡ get_or xs i 0)
    → get_bytes b start (length xs) ≡ xs
unfolding get_bytes
get_bytes_lem b start [] h = refl
get_bytes_lem b start (x ∷ xs) h =
    ap₂ ◌∷◌ (ap b (omega arith) ∙ h 0 (omega arith))
      (get_bytes_lem b (start + 1) xs (λ i lt. ap b (omega arith) ∙ h (suc i) (omega (arith, lt))))

get_or_byte : (xs : List ℕ) (i : ℕ) → All IsByte xs → get_or xs i 0 < 256
get_or_byte [] i a = omega arith
get_or_byte (x ∷ xs) zero (h, a) = h
get_or_byte (x ∷ xs) (suc i) (h, a) = get_or_byte xs i a

get_or-take_lt : (n : ℕ) (xs : List ℕ) (i : ℕ) → i < length (take n xs) → i < n
get_or-take_lt n xs i h = omega (arith, h, length-take n xs)

IsByte-take : (n : ℕ) (xs : List ℕ) → All IsByte xs → All IsByte (take n xs)
IsByte-take zero xs a = tt
IsByte-take (suc n) [] a = tt
IsByte-take (suc n) (x ∷ xs) (h, a) = (h, IsByte-take n xs a)

left_after :
    (xs : List ℕ) → length xs - min bytes_per_sector (length xs) ≡ length (drop bytes_per_sector xs)
left_after xs = omega (arith, length-drop 512 xs)

-- A sector that has been written with some bytes is read as these bytes.
sector_read :
    (xs : List ℕ) (b : ℕ → ℕ)
    → All IsByte xs
    → ((i : ℕ) → i < bytes_per_sector → b i ≡ u8 (sector_of (take bytes_per_sector xs) i))
    → get_bytes b 0 (min bytes_per_sector (length xs)) ≡ take bytes_per_sector xs
sector_read xs b a h =
    ap (get_bytes b 0) (sym (length-take 512 xs))
    ∙ get_bytes_lem b 0 (take 512 xs) (λ i lt.
      ap b (omega arith)
      ∙ h i (get_or-take_lt 512 xs i lt)
      ∙ omega (arith, get_or_byte (take 512 xs) i (IsByte-take 512 xs a)))

module _ (drive : Drive) where
  open drive use {Image, ata_read, ata_write, read_written, read_other}

  pub write_sectors-other :
      (n lba : ℕ) (xs : List ℕ) (d : Image) (s : ℕ)
      → (s < lba) ⊎ (lba + n ≤ s)
      → ata_read s (write_sectors drive n lba xs d).1.1 ≡ ata_read s d
  unfolding write_sectors
  write_sectors-other zero lba xs d s h = refl
  write_sectors-other (suc n) lba xs d s h =
      let w = ata_write lba (sector_of (take 512 xs)) d in
      let first =
        read_other lba s (sector_of (take 512 xs)) d (λ e. absurd (omega (arith, e, h))) in
      let P = λ (r : Bool × (List ℕ × Image)). ata_read s r.1.1 ≡ ata_read s d in
      if_elim P (length xs == 0) _ _ (λ _. refl)
        (λ _.
          if_elim P w.0 _ _
            (λ _. write_sectors-other n (lba + 1) (drop 512 xs) w.1 s (omega (arith, h)) ∙ first)
            (λ _. first))

  -- A write that has succeeded, of some bytes into the first of the sectors.
  write_sectors_step :
      (n lba x : ℕ) (xs : List ℕ) (d : Image)
      → let bytes = x ∷ xs in
        let w = ata_write lba (sector_of (take bytes_per_sector bytes)) d in
        (write_sectors drive (suc n) lba bytes d).0 ≡ true
        → (w.0 ≡ true)
          × (write_sectors drive (suc n) lba bytes d
              ≡ write_sectors drive n (lba + 1) (drop bytes_per_sector bytes) w.1)
  unfolding write_sectors
  write_sectors_step n lba x xs d done =
      let w = ata_write lba (sector_of (take 512 (x ∷ xs))) d in
      passed (length (x ∷ xs) == 0) w.0 _ _ _ (==_of_ne (length (x ∷ xs)) 0 (omega arith)) done

  pub write_sectors-rest :
      (n lba : ℕ) (xs : List ℕ) (d : Image)
      → (write_sectors drive n lba xs d).0 ≡ true
      → (write_sectors drive n lba xs d).1.0 ≡ drop (n * bytes_per_sector) xs
  unfolding write_sectors
  write_sectors-rest zero lba xs d done = refl
  write_sectors-rest (suc n) lba [] d done = sym (drop_none (suc n * 512))
  write_sectors-rest (suc n) lba (x ∷ xs) d done =
      let (ok, same) = write_sectors_step n lba x xs d done in
      ap (λ r. r.1.0) same
      ∙ write_sectors-rest n (lba + 1) (drop 512 (x ∷ xs)) _ (sym (ap (λ r. r.0) same) ∙ done)
      ∙ drop-drop 512 (n * 512) (x ∷ xs)
      ∙ ap (λ k. drop k (x ∷ xs)) (omega arith)

  -- What has been written into sectors is read from any disk whose sectors here read the same.
  pub read_sectors-write :
      (n lba : ℕ) (xs : List ℕ) (d D : Image)
      → All IsByte xs
      → (write_sectors drive n lba xs d).0 ≡ true
      → ((s : ℕ)
          → lba ≤ s
          → s < lba + n
          → ata_read s D ≡ ata_read s (write_sectors drive n lba xs d).1.1)
      → read_sectors drive n lba (length xs) D ≡ (take (n * bytes_per_sector) xs, true)
  unfolding read_sectors
  read_sectors-write zero lba xs d D a done here = refl
  read_sectors-write (suc n) lba [] d D a done here =
      ap (λ t. (t, true)) (sym (take_none (suc n * 512)))
  read_sectors-write (suc n) lba (x ∷ xs) d D a done here =
      let bytes = x ∷ xs in
      let (ok, same) = write_sectors_step n lba x xs d done in
      let w = ata_write lba (sector_of (take 512 bytes)) d in
      let (b, found, holds) = read_written lba (sector_of (take 512 bytes)) d ok in
      let first =
        here lba (omega arith) (omega arith)
        ∙ ap (λ r. ata_read lba r.1.1) same
        ∙ write_sectors-other n (lba + 1) (drop 512 bytes) w.1 lba (inl (omega arith))
        ∙ found in
      let later =
        read_sectors-write n (lba + 1) (drop 512 bytes) w.1 D (IsByte-drop 512 bytes a)
          (sym (ap (λ r. r.0) same) ∙ done)
          (λ s low high.
            here s (omega (arith, low)) (omega (arith, high)) ∙ ap (λ r. ata_read s r.1.1) same) in
      rw (==_of_ne (length bytes) 0 (omega arith), first)
        (ap₂ (λ (u : List ℕ) (r : List ℕ × Bool). (u ++ r.0, r.1)) (sector_read bytes b a holds)
            (ap (λ k. read_sectors drive n (lba + 1) k D) (left_after bytes) ∙ later)
          ∙ ap (λ t. (t, true))
              (take-take-drop 512 (n * 512) bytes ∙ ap (λ k. take k bytes) (omega arith)))
