-- ===== src/Fat/Exfat/Bitmap.antt =====
-- src/kernel/fs/fat.c: the bitmap of the clusters in use on an exFAT volume.
pub mod RoundTrip
pub mod Grab
use bonfire_os.Base.{
  ℕ, zero, suc, true, false, none, some, ◌==◌, ◌&&◌, Option, Bool, ◌-◌, leb, u32, ◌+◌,
  if◌then◌else◌, ◌^◌, ltb, ◌/◌, not, update, bit, ◌%◌,
}
use bonfire_os.Fat.Disk.{Drive, rd32, rd64, bytes_per_sector}
use bonfire_os.Fat.Volume.{Volume, exfat_cluster_to_lba}
use bonfire_os.Fat.Exfat.{in_exfat_chain, dentries_per_cluster, copy_dentry_at, get_fat_entry_exfat}

-- sector_buf[rel] |= 1u << k, or sector_buf[rel] &= ~(1u << k)
abbrev pub with_bit : ℕ → ℕ → Bool → ℕ
with_bit x k set_bit =
    let off = x - 2 ^ k in
    let on = x + 2 ^ k in if set_bit then if bit x k then x else on else if bit x k then off else x

-- Where the bit of a cluster stands, if the bitmap is known and has it.
abbrev pub has_bit : Volume → ℕ → Bool
has_bit v cluster =
    v.exfat_bitmap_valid && leb 2 cluster && ltb ((cluster - 2) / 8) v.exfat_bitmap_bytes

abbrev pub bitmap_lba : Volume → ℕ → ℕ
bitmap_lba v cluster =
    u32 (exfat_cluster_to_lba v v.exfat_bitmap_clu + u32 ((cluster - 2) / 8 / bytes_per_sector))

abbrev pub bitmap_byte : ℕ → ℕ
bitmap_byte cluster = (cluster - 2) / 8 % bytes_per_sector

module _ (drive : Drive) where
  open drive use {Image, ata_read, ata_write}

  -- The entries of a cluster of the root directory up to its end: the first of type 0x81.
  unfoldable pub find_bitmap : ℕ → ℕ → ℕ → Image → Option (ℕ → ℕ)
  find_bitmap zero lba off d = none
  find_bitmap (suc n) lba off d =
      let e = copy_dentry_at drive lba off d in
      let later = find_bitmap n lba (off + 32) d in
      if e 0 == 0 then none else if e 0 == 129 then some e else later

  unfoldable pub bitmap_at : (ℕ → ℕ) → Volume → Bool × Volume
  bitmap_at e v =
      let valid = leb 2 (rd32 e 20) && ltb 0 (rd64 e 24) in
      (
        valid,
        record v {
          exfat_bitmap_clu = rd32 e 20;
          exfat_bitmap_bytes = rd64 e 24;
          exfat_bitmap_valid = valid;
        },
      )

  -- The chain of the directory from `dir_clu` on; the rounds bound its length.
  unfoldable pub locate_bitmap : ℕ → ℕ → Volume → Image → Bool × Volume
  locate_bitmap zero dir_clu v d = (false, v)
  locate_bitmap (suc rounds) dir_clu v d =
      let later = locate_bitmap rounds (get_fat_entry_exfat drive v dir_clu d) v d in
      if in_exfat_chain dir_clu
      then elim (find_bitmap (dentries_per_cluster v) (exfat_cluster_to_lba v dir_clu) 0 d) [
        | none ↦ later
        | some e ↦ bitmap_at e v
      ]
      else (false, v)

  unfoldable pub exfat_locate_bitmap : ℕ → Volume → Image → Bool × Volume
  exfat_locate_bitmap rounds v d = locate_bitmap rounds v.exfat_root_cluster v d

  unfoldable pub exfat_bitmap_is_free : Volume → ℕ → Image → Option Bool
  exfat_bitmap_is_free v cluster d =
      if has_bit v cluster
      then elim (ata_read (bitmap_lba v cluster) d) [
        | none ↦ none
        | some b ↦ some (not (bit (b (bitmap_byte cluster)) ((cluster - 2) % 8)))
      ]
      else none

  unfoldable pub exfat_bitmap_modify_bit : Volume → ℕ → Bool → Image → Bool × Image
  exfat_bitmap_modify_bit v cluster set_bit d =
      let rel = bitmap_byte cluster in
      if has_bit v cluster
      then elim (ata_read (bitmap_lba v cluster) d) [
        | none ↦ (false, d)
        | some b ↦
            ata_write (bitmap_lba v cluster)
              (update b rel (with_bit (b rel) ((cluster - 2) % 8) set_bit)) d
      ]
      else (false, d)

  -- The loop of `exfat_grab_cluster` from `c` on; 0 where no cluster is free or the disk fails.
  unfoldable pub grab_from : ℕ → ℕ → Volume → Image → ℕ × Image
  grab_from zero c v d = (0, d)
  grab_from (suc n) c v d =
      let w = exfat_bitmap_modify_bit v c true d in
      let later = grab_from n (c + 1) v d in
      elim (exfat_bitmap_is_free v c d) [
        | none ↦ (0, d)
        | some free ↦ if free then ((if w.0 then c else 0), w.1) else later
      ]

  unfoldable pub exfat_grab_cluster : Volume → Image → ℕ × Image
  exfat_grab_cluster v d = grab_from (u32 (v.exfat_cluster_count + 2) - 2) 2 v d
