-- ===== src/Fat/Example.antt =====
-- A disk in memory, and a small volume, for the theorems about src/kernel/fs/fat.c at concrete inputs.
use bonfire_os.Base.{
  ℕ, true, none, some, refl, Option, u8, false, update, subst, ◌<◌, arith, ap, update_self,
  update_ne,
}
use bonfire_os.Fat.Disk.{Drive}
use bonfire_os.Fat.Volume.{Volume, fs_fat1216}

-- Every read and write succeeds.
abbrev pub memory_drive : Drive
memory_drive = record {
  Image = ℕ → ℕ → ℕ;
  behind_fat_sector = λ d. u8 (d 7 0);
  behind_sector_buf = λ d i. u8 (d 7 i);
  ata_read = λ lba d. some (λ i. u8 (d lba i));
  ata_write = λ lba b d. (true, update d lba b);
  bytes = λ lba d b e i.
      subst (λ (o : Option (ℕ → ℕ)). elim o [ none ↦ Unit {0} | some f ↦ f i < 256 ]) e
        (omega arith);
  read_written = λ lba b d done. (
    (λ i. u8 (b i)),
    ap (λ (s : ℕ → ℕ). some (λ i. u8 (s i))) (update_self d lba b),
    λ i lt. refl,
  );
  read_other =
      λ lba other b d ne. ap (λ (s : ℕ → ℕ). some (λ i. u8 (s i))) (update_ne d lba b other ne);
}

abbrev pub floppy : Volume
floppy = record {
  fs_kind = fs_fat1216;
  fat_start_lba = 1;
  fat_sectors = 1;
  root_start_lba = 3;
  root_sectors = 1;
  data_start_lba = 4;
  sectors_per_cluster = 1;
  is_fat12 = true;
  fat_total_clusters = 8;
  fat_num_fats = 2;
  exfat_root_cluster = 0;
  exfat_cluster_count = 0;
  exfat_num_fats = 0;
  exfat_bitmap_clu = 0;
  exfat_bitmap_bytes = 0;
  exfat_bitmap_valid = false;
  exfat_nofatchain = false;
}
