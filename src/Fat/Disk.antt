-- ===== src/Fat/Disk.antt =====
-- The disk as src/kernel/fs/fat.c sees it through ata_read_sectors and ata_write_sectors, and numbers
-- in its bytes, the low byte first. A sector is a function from offsets below 512 to bytes.
use bonfire_os.Base.{
  ℕ, zero, suc, ◌+◌, true, some, [], ◌∷◌, Option, Bool, ◌≡◌, ◌*◌, update, ◌/◌, List, ◌<◌, u8, ◌≢◌,
  false, refl, if◌then◌else◌,
}

-- bytes_per_sector: no volume is mounted with another size.
abbrev pub bytes_per_sector : ℕ
bytes_per_sector = 512

-- What the code relies on: a sector that has been written reads back, and no other sector changes,
-- also where a write fails. `none` and `false` are the return value -1. An image stands for the disk and for
-- the memory behind two of the static buffers, which other code changes and some reads run into: nothing is
-- known of that memory, and no operation promises to keep it.
pub record Drive : Type 1 where
  pub Image : Type 0
  -- The byte of memory behind `fat_sector_buf`, which a FAT12 entry across two sectors is read with.
  pub behind_fat_sector : Image → ℕ
  -- The memory behind `sector_buf`, which the last entries of a sector of the directory reach into.
  pub behind_sector_buf : Image → ℕ → ℕ
  pub ata_read : ℕ → Image → Option (ℕ → ℕ)
  pub ata_write : ℕ → (ℕ → ℕ) → Image → Bool × Image
  pub bytes : (lba : ℕ) (d : Image) (b : ℕ → ℕ) → ata_read lba d ≡ some b → (i : ℕ) → b i < 256
  pub read_written :
      (lba : ℕ) (b : ℕ → ℕ) (d : Image)
      → (ata_write lba b d).0 ≡ true
      → (b' : ℕ → ℕ) × (ata_read lba (ata_write lba b d).1 ≡ some b')
        × ((i : ℕ) → i < bytes_per_sector → b' i ≡ u8 (b i))
  pub read_other :
      (lba other : ℕ) (b : ℕ → ℕ) (d : Image)
      → other ≢ lba
      → ata_read other (ata_write lba b d).1 ≡ ata_read other d

-- The numbers at offset `i`.
abbrev pub rd16 : (ℕ → ℕ) → ℕ → ℕ
rd16 b i = b i + 256 * b (i + 1)

abbrev pub rd32 : (ℕ → ℕ) → ℕ → ℕ
rd32 b i = rd16 b i + 65536 * rd16 b (i + 2)

abbrev pub rd64 : (ℕ → ℕ) → ℕ → ℕ
rd64 b i = rd32 b i + 4294967296 * rd32 b (i + 4)

abbrev pub wr16 : (ℕ → ℕ) → ℕ → ℕ → ℕ → ℕ
wr16 b i n = update (update b i (u8 n)) (i + 1) (u8 (n / 256))

abbrev pub wr32 : (ℕ → ℕ) → ℕ → ℕ → ℕ → ℕ
wr32 b i n = wr16 (wr16 b i n) (i + 2) (n / 65536)

abbrev pub wr64 : (ℕ → ℕ) → ℕ → ℕ → ℕ → ℕ
wr64 b i n = wr32 (wr32 b i n) (i + 4) (n / 4294967296)

-- p[i] = v for the `n` offsets from `start` on.
unfoldable pub mem_set : (ℕ → ℕ) → ℕ → ℕ → ℕ → ℕ → ℕ
mem_set b start v zero = b
mem_set b start v (suc n) = mem_set (update b start v) (start + 1) v n

-- The bytes of a list at the offsets from `start` on.
unfoldable pub put_bytes : (ℕ → ℕ) → ℕ → List ℕ → ℕ → ℕ
put_bytes b start [] = b
put_bytes b start (c ∷ cs) = put_bytes (update b start c) (start + 1) cs

-- The `n` bytes from `start` on.
unfoldable pub get_bytes : (ℕ → ℕ) → ℕ → ℕ → List ℕ
get_bytes b start zero = []
get_bytes b start (suc n) = b start ∷ get_bytes b (start + 1) n

-- Two steps, the second only if the first succeeds: where both have, the outcome is that of the second.
pub both_done :
    {A : Type 0} (w later : Bool × A)
    → (if w.0 then later else w).0 ≡ true
    → (w.0 ≡ true) × ((if w.0 then later else w) ≡ later)
both_done (true, a) later h = (refl, refl)
both_done (false, a) later h = absurd (cc h)
