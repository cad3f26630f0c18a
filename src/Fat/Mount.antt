-- ===== src/Fat/Mount.antt =====
-- src/kernel/fs/fat.c: the four functions that the rest of the kernel calls, on volumes of each kind. The
-- rounds bound the chains of clusters that are walked without a count of bytes.
pub mod Kinds
pub mod ReadBack
use bonfire_os.Base.{
  ℕ, true, false, none, some, ◌==◌, ◌&&◌, Option, Bool, u8, if◌then◌else◌, List, ◌^◌, not, ◌%◌, ltb,
  ◌||◌,
}
use bonfire_os.Base.Text.{same, codes}
use bonfire_os.Fat.Disk.{Drive, rd16, rd32, get_bytes}
use bonfire_os.Fat.Volume.{Volume, fs_none, fs_fat1216, fs_exfat, fat1216_mount}
use bonfire_os.Fat.Files.{read_chain}
use bonfire_os.Fat.Root.{fat1216_find_root, fat1216_write_root}
use bonfire_os.Fat.Exfat.Bitmap.{exfat_locate_bitmap}
use bonfire_os.Fat.Exfat.Root.{exfat_find_root}
use bonfire_os.Fat.Exfat.Files.{exfat_read_chain}
use bonfire_os.Fat.Exfat.Insert.{exfat_write_root}

-- `1u << spc` in a byte; the processor takes the count modulo 32.
abbrev cluster_size : ℕ → ℕ
cluster_size spc = u8 (2 ^ (spc % 32))

-- The signature, the end of the boot sector, and sectors of 512 bytes.
abbrev pub is_exfat : (ℕ → ℕ) → Bool
is_exfat b = same (get_bytes b 3 8) (codes "EXFAT   ") && rd16 b 510 == 43605 && b 108 == 9

unfoldable pub exfat_geometry : (ℕ → ℕ) → Volume → Volume
exfat_geometry b v = record v {
  sectors_per_cluster = cluster_size (b 109);
  fat_start_lba = rd32 b 80;
  fat_sectors = rd32 b 84;
  data_start_lba = rd32 b 88;
  exfat_cluster_count = rd32 b 92;
  exfat_root_cluster = rd32 b 96;
  exfat_num_fats = (if b 110 == 0 then 1 else b 110);
}

module _ (drive : Drive) where
  open drive use {Image, ata_read}

  -- The result of looking for the bitmap is not looked at.
  unfoldable pub exfat_mount : ℕ → (ℕ → ℕ) → Volume → Image → Bool × Volume
  exfat_mount rounds b v d =
      let v0 = record v { exfat_nofatchain = false; exfat_bitmap_valid = false } in
      let v1 = exfat_geometry b v0 in
      let v2 = record v1 { fs_kind = fs_exfat } in
      if not (is_exfat b)
      then (false, v0)
      else if ltb v1.exfat_root_cluster 2
      then (false, v1)
      else if v1.fat_sectors == 0 || v1.data_start_lba == 0
      then (false, v1)
      else (true, (exfat_locate_bitmap drive rounds v2 d).1)

  unfoldable pub fat_mount : ℕ → Volume → Image → Bool × Volume
  fat_mount rounds v d =
      let v0 = record v { fs_kind = fs_none } in
      elim (ata_read 0 d) [
        | none ↦ (false, v0)
        | some b ↦ let m = exfat_mount rounds b v0 d in if m.0 then m else fat1216_mount b m.1
      ]

  -- The first cluster and the size. A volume that has not been mounted is taken for FAT12 or FAT16.
  unfoldable pub fat_find_root : ℕ → Volume → List ℕ → Image → Option (ℕ × ℕ) × Volume
  fat_find_root rounds v name d =
      let r = exfat_find_root drive rounds v name d in
      let first = fat1216_find_root drive v name d in
      elim v.fs_kind [
        | fs_exfat ↦ (elim r.0 [ none ↦ none | some f ↦ some (f.first_cluster, f.file_size) ], r.1)
        | fs_fat1216 ↦ (first, v)
        | fs_none ↦ (first, v)
      ]

  -- The rounds are as many as there are bytes to read.
  unfoldable pub fat_read_file : Volume → ℕ → ℕ → Image → List ℕ
  fat_read_file v start_cluster size d = elim v.fs_kind [
    | fs_exfat ↦ exfat_read_chain drive size v start_cluster size d
    | fs_fat1216 ↦ read_chain drive size v start_cluster size d
    | fs_none ↦ read_chain drive size v start_cluster size d
  ]

  unfoldable pub fat_write_root : ℕ → Volume → List ℕ → List ℕ → Image → (Bool × Volume) × Image
  fat_write_root rounds v name bytes d =
      let w = fat1216_write_root drive v name bytes d in
      elim v.fs_kind [
        | fs_none ↦ ((false, v), d)
        | fs_exfat ↦ exfat_write_root drive rounds v name bytes d
        | fs_fat1216 ↦ ((w.0, v), w.1)
      ]
