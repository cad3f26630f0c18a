-- ===== src/Fat/Volume.antt =====
-- src/kernel/fs/fat.c: what a mounted volume is, and where its clusters lie. The sectors of a FAT12 or
-- FAT16 volume are numbers below 2^25, so that only the sums of exFAT can wrap around.
use bonfire_os.Base.{
  ℕ, ◌+◌, ◌==◌, true, false, Bool, ◌-◌, u32, if◌then◌else◌, ◌*◌, ◌/◌, ◌^◌, not, ltb,
}
use bonfire_os.Fat.Disk.{rd16, rd32, bytes_per_sector}

pub data FsKind : Type 0 where
  fs_none : FsKind
  fs_fat1216 : FsKind
  fs_exfat : FsKind

-- The static variables but the buffers, each of which is filled before it is read.
pub record Volume : Type 0 where
  pub fs_kind : FsKind
  pub fat_start_lba : ℕ
  pub fat_sectors : ℕ
  pub root_start_lba : ℕ
  pub root_sectors : ℕ
  pub data_start_lba : ℕ
  pub sectors_per_cluster : ℕ
  pub is_fat12 : Bool
  pub fat_total_clusters : ℕ
  pub fat_num_fats : ℕ
  pub exfat_root_cluster : ℕ
  pub exfat_cluster_count : ℕ
  pub exfat_num_fats : ℕ
  pub exfat_bitmap_clu : ℕ
  pub exfat_bitmap_bytes : ℕ
  pub exfat_bitmap_valid : Bool
  pub exfat_nofatchain : Bool

unfoldable pub cluster_to_lba : Volume → ℕ → ℕ
cluster_to_lba v cluster = v.data_start_lba + (cluster - 2) * v.sectors_per_cluster

unfoldable pub exfat_cluster_to_lba : Volume → ℕ → ℕ
exfat_cluster_to_lba v cluster = u32 (v.data_start_lba + (cluster - 2) * v.sectors_per_cluster)

-- The end of a chain: 0x0FF8 or 0xFFF8.
abbrev pub eoc : Volume → ℕ
eoc v = if v.is_fat12 then 4088 else 65528

-- `fat1216_mount` of the boot sector, which returns 0 or -1. The fields of the BPB stand at their packed
-- offsets. The code divides by `sectors_per_cluster` without a test.
unfoldable pub fat1216_mount : (ℕ → ℕ) → Volume → Bool × Volume
fat1216_mount b v =
    let reserved = rd16 b 14 in
    let num_fats = b 16 in
    let root_entries = rd16 b 17 in
    let fat = rd16 b 22 in
    let root_sectors = (root_entries * 32 + 511) / 512 in
    let root_start = reserved + num_fats * fat in
    let total = if rd16 b 19 == 0 then rd32 b 32 else rd16 b 19 in
    let data_sectors = u32 (total + 2 ^ 32 - (reserved + num_fats * fat + root_sectors)) in
    let total_clusters = data_sectors / b 13 in
    let begun : Volume = record v {
      sectors_per_cluster = b 13;
      root_sectors = root_sectors;
      fat_sectors = fat;
    } in
    if not (rd16 b 11 == bytes_per_sector)
    then (false, v)
    else if fat == 0
    then (false, begun)
    else (
      true,
      record begun {
        fs_kind = fs_fat1216;
        fat_num_fats = (if num_fats == 0 then 1 else num_fats);
        fat_start_lba = reserved;
        root_start_lba = root_start;
        data_start_lba = root_start + root_sectors;
        fat_total_clusters = total_clusters;
        is_fat12 = ltb total_clusters 4085;
      },
    )
