-- ===== src/Fat/Table.antt =====
-- src/kernel/fs/fat.c: the entries of the file allocation tables. A FAT is the bytes of its sectors.
pub mod Entries
pub mod Store
pub mod RoundTrip
use bonfire_os.Base.{
  ℕ, zero, suc, ◌+◌, true, false, none, some, ◌==◌, ◌&&◌, Option, Bool, if◌then◌else◌, ◌*◌, ◌%◌,
  ltb, update, leb, ◌/◌, ◌-◌, u8,
}
use bonfire_os.Fat.Disk.{Drive, rd16, wr16, bytes_per_sector}
use bonfire_os.Fat.Volume.{Volume}

-- Two sectors in a row, as a buffer of 1024 bytes.
abbrev two_sectors : (ℕ → ℕ) → (ℕ → ℕ) → ℕ → ℕ
two_sectors b c i = if ltb i bytes_per_sector then b i else c (i - bytes_per_sector)

-- The two bytes of a FAT12 entry: the 12 bits of an even cluster begin at a byte, those of an odd
-- cluster in the middle of one. Or'ed fields do not overlap, and are sums.
unfoldable pub put_fat12 : ℕ → ℕ → ℕ → (ℕ → ℕ) → ℕ → ℕ
put_fat12 cluster val rel b =
    if cluster % 2 == 0
    then update (update b rel (u8 val)) (rel + 1) (b (rel + 1) / 16 * 16 + val / 256 % 16)
    else update (update b rel (b rel % 16 + val % 16 * 16)) (rel + 1) (u8 (val / 16))

module _ (drive : Drive) where
  open drive use {Image, behind_fat_sector, ata_read, ata_write}

  -- The loop of `sync_fat_sector_index`, from copy `c` on.
  unfoldable pub write_copies : Volume → ℕ → ℕ → ℕ → (ℕ → ℕ) → Image → Bool × Image
  write_copies v zero c idx buf d = (true, d)
  write_copies v (suc n) c idx buf d =
      let w = ata_write (v.fat_start_lba + c * v.fat_sectors + idx) buf d in
      let later = write_copies v n (c + 1) idx buf w.1 in if w.0 then later else w

  unfoldable pub sync_fat_sector_index : Volume → ℕ → (ℕ → ℕ) → Image → Bool × Image
  sync_fat_sector_index v idx buf d =
      if leb v.fat_sectors idx then (false, d) else write_copies v v.fat_num_fats 0 idx buf d

  unfoldable pub fat16_set_entry : Volume → ℕ → ℕ → Image → Bool × Image
  fat16_set_entry v cluster val d =
      let sec = cluster * 2 / bytes_per_sector in
      elim (ata_read (v.fat_start_lba + sec) d) [
        | none ↦ (false, d)
        | some b ↦ sync_fat_sector_index v sec (wr16 b (cluster * 2 % bytes_per_sector) val) d
      ]

  -- One FAT of `fat12_set_entry`: one or two sectors of the buffer.
  unfoldable pub write_span : ℕ → Bool → (ℕ → ℕ) → Image → Bool × Image
  write_span lba span buf d =
      let w = ata_write lba buf d in
      if w.0 && span then ata_write (lba + 1) (λ i. buf (bytes_per_sector + i)) w.1 else w

  -- The loop over the other FATs, from copy `c` on.
  unfoldable pub write_spans : Volume → ℕ → ℕ → ℕ → Bool → (ℕ → ℕ) → Image → Bool × Image
  write_spans v zero c sec0 span buf d = (true, d)
  write_spans v (suc n) c sec0 span buf d =
      let w = write_span (v.fat_start_lba + c * v.fat_sectors + sec0) span buf d in
      let later = write_spans v n (c + 1) sec0 span buf w.1 in if w.0 then later else w

  -- The sector behind the first, if the entry reaches into it; else nothing of it is used.
  unfoldable pub read_span : ℕ → Bool → (ℕ → ℕ) → Image → Option (ℕ → ℕ)
  read_span lba span b d =
      if span
      then elim (ata_read (lba + 1) d) [ none ↦ none | some c ↦ some (two_sectors b c) ]
      else some b

  -- The entry at offset `rel` of the sector, whether it reaches into the next sector being known.
  unfoldable pub fat12_put : Volume → (cluster val sec0 rel : ℕ) → Bool → Image → Bool × Image
  fat12_put v cluster val sec0 rel span d =
      let lba = v.fat_start_lba + sec0 in
      elim (ata_read lba d) [
        | none ↦ (false, d)
        | some b ↦ elim (read_span lba span b d) [
          | none ↦ (false, d)
          | some buf ↦
              let new = put_fat12 cluster val rel buf in
              let w = write_span lba span new d in
              if w.0 then write_spans v (v.fat_num_fats - 1) 1 sec0 span new w.1 else w
        ]
      ]

  unfoldable pub fat12_set_entry : Volume → ℕ → ℕ → Image → Bool × Image
  fat12_set_entry v cluster val d =
      let o = cluster * 3 / 2 in
      let rel = o % bytes_per_sector in
      fat12_put v cluster (val % 4096) (o / bytes_per_sector) rel (leb bytes_per_sector (rel + 1)) d

  unfoldable pub fat_set_entry_fat1216 : Volume → ℕ → ℕ → Image → Bool × Image
  fat_set_entry_fat1216 v cluster val d =
      if v.is_fat12 then fat12_set_entry v cluster val d else fat16_set_entry v cluster val d

  -- A sector that cannot be read is an end of the chain.
  unfoldable pub get_fat12_entry : Volume → ℕ → Image → ℕ
  get_fat12_entry v cluster d =
      let o = cluster * 3 / 2 in
      let off = o % bytes_per_sector in
      elim (ata_read (v.fat_start_lba + o / bytes_per_sector) d) [
        | none ↦ 4095
        | some b ↦
            let high = if off == 511 then behind_fat_sector d else b (off + 1) in
            let w = b off + 256 * high in if cluster % 2 == 1 then w / 16 else w % 4096
      ]

  unfoldable pub get_fat16_entry : Volume → ℕ → Image → ℕ
  get_fat16_entry v cluster d =
      elim (ata_read (v.fat_start_lba + cluster * 2 / bytes_per_sector) d) [
        | none ↦ 65535
        | some b ↦ rd16 b (cluster * 2 % bytes_per_sector)
      ]

  -- The two branches of `get_fat_entry_fat1216`.
  unfoldable pub get_fat_entry_fat1216 : Volume → ℕ → Image → ℕ
  get_fat_entry_fat1216 v cluster d =
      if v.is_fat12 then get_fat12_entry v cluster d else get_fat16_entry v cluster d
