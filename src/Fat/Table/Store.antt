-- ===== src/Fat/Table/Store.antt =====
-- Entries of the first FAT after an entry has been put into all FATs.
use bonfire_os.Base.{
  ℕ, zero, suc, ◌+◌, true, some, refl, inl, inr, if◌then◌else◌, ◌%◌, ◌<◌, ◌≡◌, ◌*◌, ◌≢◌, ◌⊎◌, ◌/◌,
  ◌∙◌, arith, false, ap, ◌-◌, Bool-cases, leb, sym, ◌&&◌, Bool, subst, if_elim,
}
use bonfire_os.Fat.Disk.{Drive, bytes_per_sector, both_done}
use bonfire_os.Fat.Volume.{Volume}
use bonfire_os.Fat.Table.{
  put_fat12, write_copies, sync_fat_sector_index, write_span, write_spans, read_span, fat12_put,
  fat12_set_entry,
}
use bonfire_os.Fat.Table.Entries.{write_copies-other, Holds}

-- The sector of the first FAT that holds the first byte of the entry, and where it stands there.
abbrev pub first_byte : Volume → ℕ → ℕ
first_byte v cluster = if v.is_fat12 then cluster * 3 / 2 else cluster * 2

-- The entry does not reach into a second sector, as FAT16 entries never do.
abbrev pub IsWhole : Volume → ℕ → Type 0
IsWhole v cluster = first_byte v cluster % bytes_per_sector ≢ 511

-- The number fits into an entry.
abbrev pub FitsEntry : Volume → ℕ → Type 0
FitsEntry v val = val < (if v.is_fat12 then 4096 else 65536)

module _ (drive : Drive) where
  open drive use {Image, ata_read, ata_write, bytes, read_written, read_other}

  -- Sector `idx` of the first FAT holds these bytes, and its other sectors are as before.
  pub record Stored (v : Volume) (idx : ℕ) (buf : ℕ → ℕ) (d d' : Image) : Type 0 where
    pub sector : ℕ → ℕ
    pub here : ata_read (v.fat_start_lba + idx) d' ≡ some sector
    pub holds : Holds sector buf
    pub others :
        (s : ℕ)
        → s ≢ idx
        → s < v.fat_sectors
        → ata_read (v.fat_start_lba + s) d' ≡ ata_read (v.fat_start_lba + s) d

  -- A write to the first FAT, and what follows in the sectors behind it.
  Stored-first :
      (v : Volume) (idx : ℕ) (buf : ℕ → ℕ) (d d' : Image)
      → (ata_write (v.fat_start_lba + idx) buf d).0 ≡ true
      → ((lba : ℕ)
          → (lba < v.fat_start_lba + v.fat_sectors) ⊎ (lba ≡ v.fat_start_lba + idx)
          → ata_read lba d' ≡ ata_read lba (ata_write (v.fat_start_lba + idx) buf d).1)
      → Stored v idx buf d d'
  Stored-first v idx buf d d' done later =
      let (b, found, holds) = read_written (v.fat_start_lba + idx) buf d done in
      record {
        sector = b;
        here = later (v.fat_start_lba + idx) (inr refl) ∙ found;
        holds = holds;
        others = λ s ne lt.
            later (v.fat_start_lba + s) (inl (omega (arith, lt)))
            ∙ read_other (v.fat_start_lba + idx) (v.fat_start_lba + s) buf d
                (λ e. ne (omega (arith, e)));
      }

  copy_zero :
      (v : Volume) (idx : ℕ) → v.fat_start_lba + 0 * v.fat_sectors + idx ≡ v.fat_start_lba + idx
  copy_zero v idx = omega arith

  behind_first :
      (v : Volume) (idx lba : ℕ)
      → 0 < v.fat_sectors
      → (lba < v.fat_start_lba + v.fat_sectors) ⊎ (lba ≡ v.fat_start_lba + idx)
      → lba < v.fat_start_lba + 1 * v.fat_sectors + idx
  behind_first v idx lba h c = omega (arith, h, c)

  write_copies-Stored :
      (v : Volume) (n idx : ℕ) (buf : ℕ → ℕ) (d : Image)
      → 0 < v.fat_sectors
      → (write_copies drive v (suc n) 0 idx buf d).0 ≡ true
      → Stored v idx buf d (write_copies drive v (suc n) 0 idx buf d).1
  unfolding write_copies
  write_copies-Stored v n idx buf d some_sector = rw (copy_zero v idx) (λ done.
      let w = ata_write (v.fat_start_lba + idx) buf d in
      let (first, same) = both_done w (write_copies drive v n 1 idx buf w.1) done in
      Stored-first v idx buf d (if w.0 then write_copies drive v n 1 idx buf w.1 else w).1 first
        (λ lba near.
          ap (λ r. ata_read lba r.1) same
          ∙ write_copies-other drive v n 1 idx buf w.1 lba
              (behind_first v idx lba some_sector near)))

  pub sync-Stored :
      (v : Volume) (idx : ℕ) (buf : ℕ → ℕ) (d : Image)
      → 0 < v.fat_num_fats
      → (sync_fat_sector_index drive v idx buf d).0 ≡ true
      → Stored v idx buf d (sync_fat_sector_index drive v idx buf d).1
  unfolding sync_fat_sector_index
  sync-Stored v idx buf d fats = elim (Bool-cases (leb v.fat_sectors idx)) [
    | inl out ↦ rw out (λ done. absurd (cc done))
    | inr inside ↦ rw inside (
        subst
          (λ n.
            (write_copies drive v n 0 idx buf d).0 ≡ true
            → Stored v idx buf d (write_copies drive v n 0 idx buf d).1)
          (fats_suc v.fat_num_fats fats)
          (write_copies-Stored v (v.fat_num_fats - 1) idx buf d (ground (arith, inside))))
  ]
    where
      fats_suc : (n : ℕ) → 0 < n → suc (n - 1) ≡ n
      fats_suc n h = omega (arith, h)

  -- An entry in one sector.
  write_span_lem :
      (lba : ℕ) (buf : ℕ → ℕ) (d : Image) → write_span drive lba false buf d ≡ ata_write lba buf d
  unfolding write_span
  write_span_lem lba buf d =
      if_elim (λ (r : Bool × Image). r ≡ ata_write lba buf d) ((ata_write lba buf d).0 && false) _ _
        (λ e. absurd (ground (arith, e))) (λ _. refl)

  write_spans-other :
      (v : Volume) (n c idx : ℕ) (buf : ℕ → ℕ) (d : Image) (lba : ℕ)
      → lba < v.fat_start_lba + c * v.fat_sectors + idx
      → ata_read lba (write_spans drive v n c idx false buf d).1 ≡ ata_read lba d
  unfolding write_spans
  write_spans-other v zero c idx buf d lba h = refl
  write_spans-other v (suc n) c idx buf d lba h =
      let here = v.fat_start_lba + c * v.fat_sectors + idx in
      let w = ata_write here buf d in
      let first = read_other here lba buf d (λ e. absurd (omega (arith, e, h))) in
      rw (write_span_lem here buf d) (
        if_elim (λ (r : Bool × Image). ata_read lba r.1 ≡ ata_read lba d) w.0 _ _
          (λ _. write_spans-other v n (c + 1) idx buf w.1 lba (grind (arith, h)) ∙ first)
          (λ _. first))

  module _ (v : Volume) (c val : ℕ) (d : Image) (b : ℕ → ℕ)
      (found : ata_read (v.fat_start_lba + c * 3 / 2 / bytes_per_sector) d ≡ some b)
      (whole : c * 3 / 2 % bytes_per_sector ≢ 511) where
    abbrev sec : ℕ
    sec = c * 3 / 2 / bytes_per_sector

    abbrev new : ℕ → ℕ
    new = put_fat12 c (val % 4096) (c * 3 / 2 % bytes_per_sector) b

    first_write : Bool × Image
    first_write = ata_write (v.fat_start_lba + sec) new d

    other_writes : Bool × Image
    other_writes = write_spans drive v (v.fat_num_fats - 1) 1 sec false new first_write.1

    no_span : leb 512 (c * 3 / 2 % 512 + 1) ≡ false
    no_span = ground (arith, whole)

    fat12_put_lem :
        fat12_put drive v c (val % 4096) sec (c * 3 / 2 % bytes_per_sector) false d
        ≡ (if first_write.0 then other_writes else first_write)
    unfolding fat12_put read_span first_write other_writes
    fat12_put_lem =
        rw (found, fat12_put) (rw (write_span_lem (v.fat_start_lba + c * 3 / 2 / 512) new d) refl)

    fat12_set_lem :
        fat12_set_entry drive v c val d ≡ (if first_write.0 then other_writes else first_write)
    unfolding fat12_set_entry
    fat12_set_lem =
        ap (λ span. fat12_put drive v c (val % 4096) sec (c * 3 / 2 % bytes_per_sector) span d)
          no_span
        ∙ fat12_put_lem

    -- What a successful `fat12_set_entry` of a whole entry has written.
    pub fat12-Stored :
        0 < v.fat_sectors
        → (fat12_set_entry drive v c val d).0 ≡ true
        → Stored v sec new d (fat12_set_entry drive v c val d).1
    unfolding first_write other_writes
    fat12-Stored some_sector done =
        let (first, same) =
          both_done first_write other_writes (sym (ap (λ r. r.0) fat12_set_lem) ∙ done) in
        Stored-first v sec new d (fat12_set_entry drive v c val d).1 first (λ lba near.
          ap (λ r. ata_read lba r.1) (fat12_set_lem ∙ same)
          ∙ write_spans-other v (v.fat_num_fats - 1) 1 sec new first_write.1 lba
              (behind_first v sec lba some_sector near))
