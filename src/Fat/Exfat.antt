-- ===== src/Fat/Exfat.antt =====
-- src/kernel/fs/fat.c: the directory entries and the FAT of an exFAT volume. Sectors have 512 bytes, so
-- that neither an entry of the directory, which stands at a multiple of 32, nor one of the FAT, at a
-- multiple of 4, reaches into a second sector: the branches for those that do are left out.
pub mod Bitmap
pub mod Root
pub mod Files
pub mod Insert
use bonfire_os.Base.{
  ℕ, zero, suc, true, false, none, some, ◌&&◌, Bool, leb, ◌*◌, u32, List, ltb, ◌+◌, ◌/◌,
  if◌then◌else◌, ◌%◌, ◌-◌, take, length, drop,
}
use bonfire_os.Fat.Disk.{Drive, rd32, wr32, put_bytes, get_bytes, bytes_per_sector}
use bonfire_os.Fat.Volume.{Volume}

-- `cluster >= 2 && cluster < 0xFFFFFFF8u`
abbrev pub in_exfat_chain : ℕ → Bool
in_exfat_chain cluster = leb 2 cluster && ltb cluster 4294967288

-- The bytes of a cluster, and the entries of the directory that it can hold.
abbrev pub dentries_per_cluster : Volume → ℕ
dentries_per_cluster v = v.sectors_per_cluster * 16

module _ (drive : Drive) where
  open drive use {Image, ata_read, ata_write}

  -- The entry at offset `off` of the cluster; zeros where the sector cannot be read.
  unfoldable pub copy_dentry_at : ℕ → ℕ → Image → ℕ → ℕ
  copy_dentry_at lba off d i = elim (ata_read (u32 (lba + off / bytes_per_sector)) d) [
    | none ↦ 0
    | some b ↦ b (off % bytes_per_sector + i)
  ]

  -- Bytes are put into one sector.
  unfoldable pub patch_sector : ℕ → ℕ → List ℕ → Image → Bool × Image
  patch_sector lba rel src d = elim (ata_read lba d) [
    | none ↦ (false, d)
    | some b ↦ ata_write lba (put_bytes b rel src) d
  ]

  unfoldable pub write_bytes_at_lba : ℕ → ℕ → List ℕ → Image → Bool × Image
  write_bytes_at_lba first_lba off src d =
      let lba = u32 (first_lba + off / bytes_per_sector) in
      let rel = off % bytes_per_sector in
      let n0 = bytes_per_sector - rel in
      let w = patch_sector lba rel (take n0 src) d in
      if leb (rel + length src) bytes_per_sector
      then patch_sector lba rel src d
      else if w.0
      then patch_sector (u32 (lba + 1)) 0 (drop n0 src) w.1
      else w

  -- The 32 bytes of an entry.
  unfoldable pub write_dentry_at : ℕ → ℕ → (ℕ → ℕ) → Image → Bool × Image
  write_dentry_at lba off e d = write_bytes_at_lba lba off (get_bytes e 0 32) d

  -- The loop over the FATs, `n` of them from `lba` on.
  unfoldable pub set_copies : ℕ → ℕ → Volume → ℕ → ℕ → Image → Bool × Image
  set_copies zero lba v off val d = (true, d)
  set_copies (suc n) lba v off val d = elim (ata_read lba d) [
    | none ↦ (false, d)
    | some b ↦
        let w = ata_write lba (wr32 b off val) d in
        let later = set_copies n (u32 (lba + v.fat_sectors)) v off val w.1 in
        if w.0 then later else w
  ]

  unfoldable pub exfat_set_fat_entry : Volume → ℕ → ℕ → Image → Bool × Image
  exfat_set_fat_entry v cluster val d =
      let offset = u32 (cluster * 4) in
      set_copies v.exfat_num_fats (u32 (v.fat_start_lba + offset / bytes_per_sector)) v
        (offset % bytes_per_sector) val d

  unfoldable pub get_fat_entry_exfat : Volume → ℕ → Image → ℕ
  get_fat_entry_exfat v cluster d =
      let offset = u32 (cluster * 4) in
      elim (ata_read (u32 (v.fat_start_lba + offset / bytes_per_sector)) d) [
        | none ↦ 4294967295
        | some b ↦ rd32 b (offset % bytes_per_sector)
      ]
