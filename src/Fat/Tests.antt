-- ===== src/Fat/Tests.antt =====
-- A disk in memory, small volumes on it, and the properties of src/kernel/fs/fat.c at concrete inputs.
use bonfire_os.Base.{
  ℕ, suc, zero, true, some, [], refl, ◌∷◌, ◌==◌, u8, false, if◌then◌else◌, ◌<◌, get_or, All, ◌+◌,
  arith, ◌≡◌, List, length, ◌≤◌, ◌⊎◌, sym, ◌∙◌,
}
use bonfire_os.Base.Text.{codes}
use bonfire_os.Fat.Disk.{rd16, get_bytes}
use bonfire_os.Fat.Volume.{Volume, fs_exfat, cluster_to_lba, exfat_cluster_to_lba}
use bonfire_os.Fat.Table.{
  fat12_set_entry, fat12_put, read_span, write_span, write_spans, get_fat12_entry,
  fat_set_entry_fat1216, get_fat_entry_fat1216,
}
use bonfire_os.Fat.Table.RoundTrip.{get_fat_entry-set}
use bonfire_os.Fat.Files.{write_chain, write_sectors, fat1216_write_bytes}
use bonfire_os.Fat.Files.Sectors.{IsByte}
use bonfire_os.Fat.Files.RoundTrip.{IsChain}
use bonfire_os.Fat.Exfat.Bitmap.{
  grab_from, exfat_bitmap_is_free, exfat_bitmap_modify_bit, exfat_grab_cluster,
}
use bonfire_os.Fat.Exfat.Bitmap.RoundTrip.{exfat_bitmap_is_free-modify_bit}
use bonfire_os.Fat.Exfat.Bitmap.Grab.{exfat_grab_cluster_first}
use bonfire_os.Fat.Exfat.Insert.{chksum_entries, exfat_chksum16_buf, file_set}
use bonfire_os.Fat.Exfat.Insert.Checksum.{file_set-checksum}
use bonfire_os.Fat.Example.{memory_drive, floppy}
use bonfire_os.Fat.Mount.{fat_read_file, fat_mount, fat_write_root}
use bonfire_os.Fat.Mount.ReadBack.{fat_read_file-write_bytes}
use bonfire_os.Fat.Mount.Kinds.{is_mounted, fat_write_root-mount_fails}

-- A chain of the clusters 2 and 3.
abbrev floppy_disk : ℕ → ℕ → ℕ
floppy_disk lba i = if lba == 1 then get_or (0 ∷ 0 ∷ 0 ∷ 3 ∷ 240 ∷ 255 ∷ []) i 0 else 0

-- A volume whose bitmap is in cluster 2, and a disk on which the clusters 2 and 3 are in use.
abbrev card : Volume
card = record floppy {
  fs_kind = fs_exfat;
  exfat_root_cluster = 3;
  exfat_cluster_count = 8;
  exfat_num_fats = 1;
  exfat_bitmap_clu = 2;
  exfat_bitmap_bytes = 1;
  exfat_bitmap_valid = true;
}

abbrev card_disk : ℕ → ℕ → ℕ
card_disk lba i = if lba == 4 then if i == 0 then 3 else 0 else 0

get_bytes-IsByte :
    (b : ℕ → ℕ) (start n : ℕ) → ((i : ℕ) → b i < 256) → All IsByte (get_bytes b start n)
unfolding get_bytes
get_bytes-IsByte b start zero h = tt
get_bytes-IsByte b start (suc n) h = (h start, get_bytes-IsByte b (start + 1) n h)

floppy-IsChain : IsChain memory_drive floppy (2 ∷ 3 ∷ []) 2 floppy_disk
unfolding IsChain get_fat_entry_fat1216 get_fat12_entry
floppy-IsChain = (
  refl,
  refl,
  omega arith,
  (λ e. absurd (omega (arith, e))),
  (λ e. absurd (omega (arith, e)), tt),
  (refl, refl, omega arith, (λ e. absurd (omega (arith, e))), tt, refl),
)

entry_is_set : (fat_set_entry_fat1216 memory_drive floppy 3 4 floppy_disk).0 ≡ true
unfolding fat_set_entry_fat1216 fat12_set_entry fat12_put read_span write_span write_spans
entry_is_set = refl

get_fat_entry-set_example :
    get_fat_entry_fat1216 memory_drive floppy 3
      (fat_set_entry_fat1216 memory_drive floppy 3 4 floppy_disk).1
    ≡ 4
get_fat_entry-set_example =
    get_fat_entry-set memory_drive floppy 3 3 4 floppy_disk (omega arith)
      (λ e. absurd (omega (arith, e))) (λ e. absurd (omega (arith, e))) (omega arith) (omega arith)
      entry_is_set

abbrev contents : List ℕ
contents = get_bytes (λ i. u8 i) 1 514

contents_written : (fat1216_write_bytes memory_drive floppy 2 contents floppy_disk).0 ≡ true
unfolding fat1216_write_bytes write_chain write_sectors get_bytes cluster_to_lba
    get_fat_entry_fat1216 get_fat12_entry
contents_written = refl

fat_read_file-write_bytes_example :
    fat_read_file memory_drive floppy 2
      (length contents)
      (fat1216_write_bytes memory_drive floppy 2 contents floppy_disk).1
    ≡ contents
fat_read_file-write_bytes_example =
    fat_read_file-write_bytes memory_drive floppy 2 (2 ∷ 3 ∷ []) contents floppy_disk refl
      floppy-IsChain (get_bytes-IsByte (λ i. u8 i) 1 514 (λ i. omega arith)) contents_written

bit_is_set : (exfat_bitmap_modify_bit memory_drive card 5 true card_disk).0 ≡ true
unfolding exfat_bitmap_modify_bit exfat_cluster_to_lba
bit_is_set = refl

exfat_bitmap_is_free-modify_bit_example :
    exfat_bitmap_is_free memory_drive card 5
      (exfat_bitmap_modify_bit memory_drive card 5 true card_disk).1
    ≡ some false
exfat_bitmap_is_free-modify_bit_example =
    exfat_bitmap_is_free-modify_bit memory_drive card 5 5 true card_disk (omega arith) (omega arith)
      bit_is_set

grabs_four : (exfat_grab_cluster memory_drive card card_disk).0 ≡ 4
unfolding exfat_grab_cluster grab_from exfat_bitmap_is_free exfat_bitmap_modify_bit
    exfat_cluster_to_lba
grabs_four = refl

exfat_grab_cluster_first_example :
    let g = exfat_grab_cluster memory_drive card card_disk in
    (2 ≤ g.0)
    × (g.0 < 10)
    × (exfat_bitmap_is_free memory_drive card g.0 card_disk ≡ some true)
    × ((j : ℕ) → 2 ≤ j → j < g.0 → exfat_bitmap_is_free memory_drive card j card_disk ≡ some false)
    × ((j : ℕ)
        → j < 4294967296
        → exfat_bitmap_is_free memory_drive card j g.1
          ≡ (if j == g.0 then some false else exfat_bitmap_is_free memory_drive card j card_disk))
exfat_grab_cluster_first_example =
    exfat_grab_cluster_first memory_drive card card_disk (omega arith)
      (λ e. absurd (omega (arith, sym grabs_four ∙ e)))

file_set-checksum_example :
    let set = file_set (codes "A.TXT") 5 10 in
    rd16 set 2 ≡ chksum_entries 2 32 set (exfat_chksum16_buf (get_bytes set 0 32) 0 0 true)
file_set-checksum_example = file_set-checksum (codes "A.TXT") 5 10

fat_write_root-mount_fails_example :
    let m = fat_mount memory_drive 4 card card_disk in
    (m.0 ≡ is_mounted m.1)
    × ((m.0 ≡ true)
        ⊎ (((fat_write_root memory_drive 4 m.1 (codes "A       TXT") (1 ∷ []) card_disk).0.0
              ≡ false)
            × ((fat_write_root memory_drive 4 m.1 (codes "A       TXT") (1 ∷ []) card_disk).1
                ≡ card_disk)))
fat_write_root-mount_fails_example =
    fat_write_root-mount_fails memory_drive 4 card (codes "A       TXT") (1 ∷ []) card_disk
