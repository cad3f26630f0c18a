-- ===== src/Fat/Table/RoundTrip.antt =====
-- What is put into an entry of the FAT is got from it, and no other entry changes.
use bonfire_os.Base.{
  ℕ, ◌+◌, true, some, refl, inl, inr, ◌==◌, Bool, ◌*◌, ◌≡◌, ◌<◌, ◌/◌, ◌%◌, Option-cases,
  if◌then◌else◌, ◌≢◌, arith, subst, Bool-cases, ==_of_ne, sym, ==→eq, ◌∙◌, ==→ne, ap,
}
use bonfire_os.Fat.Disk.{Drive, rd16, wr16, bytes_per_sector}
use bonfire_os.Fat.Volume.{Volume}
use bonfire_os.Fat.Table.{
  sync_fat_sector_index, fat16_set_entry, fat12_set_entry, fat_set_entry_fat1216, get_fat12_entry,
  get_fat16_entry, get_fat_entry_fat1216, fat12_put,
}
use bonfire_os.Fat.Table.Entries.{
  fat12_value, rd16-wr16_self, rd16-wr16_ne, fat12_value-put_self, fat12_value-put_ne,
}
use bonfire_os.Fat.Table.Store.{first_byte, IsWhole, FitsEntry, Stored, sync-Stored, fat12-Stored}

module _ (drive : Drive) where
  open drive use {Image, ata_read, ata_write, bytes}

  -- An entry whose sector has been read.
  get12_lem :
      (v : Volume) (c : ℕ) (d : Image) (b : ℕ → ℕ)
      → ata_read (v.fat_start_lba + c * 3 / 2 / bytes_per_sector) d ≡ some b
      → c * 3 / 2 % bytes_per_sector ≢ 511
      → get_fat12_entry drive v c d ≡ fat12_value c b (c * 3 / 2 % bytes_per_sector)
  unfolding get_fat12_entry
  get12_lem v c d b found whole =
      rw (found, get_fat12_entry) (rw (==_of_ne (c * 3 / 2 % 512) 511 whole) refl)

  get16_lem :
      (v : Volume) (c : ℕ) (d : Image) (b : ℕ → ℕ)
      → ata_read (v.fat_start_lba + c * 2 / bytes_per_sector) d ≡ some b
      → get_fat16_entry drive v c d ≡ rd16 b (c * 2 % bytes_per_sector)
  unfolding get_fat16_entry
  get16_lem v c d b found = rw (found, get_fat16_entry) refl

  -- An entry in a sector that reads as before.
  get12_same :
      (v : Volume) (c : ℕ) (d d' : Image)
      → c * 3 / 2 % bytes_per_sector ≢ 511
      → ata_read (v.fat_start_lba + c * 3 / 2 / bytes_per_sector) d'
        ≡ ata_read (v.fat_start_lba + c * 3 / 2 / bytes_per_sector) d
      → get_fat12_entry drive v c d' ≡ get_fat12_entry drive v c d
  unfolding get_fat12_entry
  get12_same v c d d' whole e =
      elim (Option-cases (ata_read (v.fat_start_lba + c * 3 / 2 / bytes_per_sector) d)) [
        | inl failed ↦ rw (e, failed, get_fat12_entry) refl
        | inr (b, found) ↦
            get12_lem v c d' b (e ∙ found) whole ∙ sym (get12_lem v c d b found whole)
      ]

  get16_same :
      (v : Volume) (c : ℕ) (d d' : Image)
      → ata_read (v.fat_start_lba + c * 2 / bytes_per_sector) d'
        ≡ ata_read (v.fat_start_lba + c * 2 / bytes_per_sector) d
      → get_fat16_entry drive v c d' ≡ get_fat16_entry drive v c d
  unfolding get_fat16_entry
  get16_same v c d d' e = rw (e, get_fat16_entry) refl

  -- An entry whose sector reads as before.
  pub get_same :
      (v : Volume) (c : ℕ) (d d' : Image)
      → IsWhole v c
      → ata_read (v.fat_start_lba + first_byte v c / bytes_per_sector) d'
        ≡ ata_read (v.fat_start_lba + first_byte v c / bytes_per_sector) d
      → get_fat_entry_fat1216 drive v c d' ≡ get_fat_entry_fat1216 drive v c d
  unfolding get_fat_entry_fat1216
  get_same v c d d' = elim (Bool-cases v.is_fat12) [
    | inl fat12 ↦ subst Goal (sym fat12) (get12_same v c d d')
    | inr fat16 ↦ subst Goal (sym fat16) (λ _. get16_same v c d d')
  ]
    where
      Goal : Bool → Type 0
      Goal k =
          (if k then c * 3 / 2 else c * 2) % bytes_per_sector ≢ 511
          → ata_read (v.fat_start_lba + (if k then c * 3 / 2 else c * 2) / bytes_per_sector) d'
            ≡ ata_read (v.fat_start_lba + (if k then c * 3 / 2 else c * 2) / bytes_per_sector) d
          → (if k then get_fat12_entry drive v c d' else get_fat16_entry drive v c d')
            ≡ (if k then get_fat12_entry drive v c d else get_fat16_entry drive v c d)

  fat12_found :
      (v : Volume) (c val : ℕ) (d : Image)
      → (fat12_set_entry drive v c val d).0 ≡ true
      → (b : ℕ → ℕ) × (ata_read (v.fat_start_lba + c * 3 / 2 / bytes_per_sector) d ≡ some b)
  unfolding fat12_set_entry fat12_put
  fat12_found v c val d done =
      elim (Option-cases (ata_read (v.fat_start_lba + c * 3 / 2 / bytes_per_sector) d)) [
        | inl failed ↦ absurd (ground arith)
        | inr (b, found) ↦ (b, found)
      ]

  fat16_found :
      (v : Volume) (c val : ℕ) (d : Image)
      → (fat16_set_entry drive v c val d).0 ≡ true
      → (b : ℕ → ℕ) × (ata_read (v.fat_start_lba + c * 2 / bytes_per_sector) d ≡ some b)
  unfolding fat16_set_entry
  fat16_found v c val d done =
      elim (Option-cases (ata_read (v.fat_start_lba + c * 2 / bytes_per_sector) d)) [
        | inl failed ↦ absurd (ground arith)
        | inr (b, found) ↦ (b, found)
      ]

  fat16-Stored :
      (v : Volume) (c val : ℕ) (d : Image) (b : ℕ → ℕ)
      → ata_read (v.fat_start_lba + c * 2 / bytes_per_sector) d ≡ some b
      → 0 < v.fat_num_fats
      → (fat16_set_entry drive v c val d).0 ≡ true
      → Stored drive v
          (c * 2 / bytes_per_sector)
          (wr16 b (c * 2 % bytes_per_sector) val)
          d
          (fat16_set_entry drive v c val d).1
  unfolding fat16_set_entry
  fat16-Stored v c val d b found fats =
      subst
        (λ (r : Bool × Image).
          r.0 ≡ true
          → Stored drive v (c * 2 / bytes_per_sector) (wr16 b (c * 2 % bytes_per_sector) val) d r.1)
        (sym (set16_lem found))
        (sync-Stored drive v (c * 2 / bytes_per_sector) (wr16 b (c * 2 % bytes_per_sector) val) d
          fats)
    where
      set16_lem :
          ata_read (v.fat_start_lba + c * 2 / bytes_per_sector) d ≡ some b
          → fat16_set_entry drive v c val d
            ≡ sync_fat_sector_index drive v
                (c * 2 / bytes_per_sector)
                (wr16 b (c * 2 % bytes_per_sector) val)
                d
      set16_lem found = rw (found, fat16_set_entry) refl

  get16-set16 :
      (v : Volume) (c c' val : ℕ) (d : Image)
      → 0 < v.fat_num_fats
      → c' * 2 / bytes_per_sector < v.fat_sectors
      → val < 65536
      → (fat16_set_entry drive v c val d).0 ≡ true
      → get_fat16_entry drive v c' (fat16_set_entry drive v c val d).1
        ≡ (if c' == c then val else get_fat16_entry drive v c' d)
  get16-set16 v c c' val d fats inside fits done =
      let (b, found) = fat16_found v c val d done in
      let s = fat16-Stored v c val d b found fats done in
      let d' = (fat16_set_entry drive v c val d).1 in
      let small = bytes (v.fat_start_lba + c * 2 / 512) d b found in
      elim (Bool-cases (c' == c)) [
        | inl same ↦
            let e = ==→eq c' c same in
            rw (same, e)
              (get16_lem v c d' s.sector s.here
                ∙ rd16-wr16_self b s.sector small (c * 2 % 512) val (omega arith) fits s.holds)
        | inr apart ↦ rw apart (elim (Bool-cases (c' * 2 / 512 == c * 2 / 512)) [
          | inr other ↦ get16_same v c' d d' (s.others (c' * 2 / 512) (==→ne _ _ other) inside)
          | inl here ↦
              let at = ==→eq (c' * 2 / 512) (c * 2 / 512) here in
              get16_lem v c' d' s.sector (ap (λ k. ata_read (v.fat_start_lba + k) d') at ∙ s.here)
              ∙ rd16-wr16_ne b s.sector small (c * 2 % 512) (c' * 2 % 512) val (omega arith)
                  (ground (arith, at, apart)) s.holds
              ∙ sym (get16_lem v c' d b (ap (λ k. ata_read (v.fat_start_lba + k) d) at ∙ found))
        ])
      ]

  get12-set12 :
      (v : Volume) (c c' val : ℕ) (d : Image)
      → c * 3 / 2 % bytes_per_sector ≢ 511
      → c' * 3 / 2 % bytes_per_sector ≢ 511
      → c' * 3 / 2 / bytes_per_sector < v.fat_sectors
      → val < 4096
      → (fat12_set_entry drive v c val d).0 ≡ true
      → get_fat12_entry drive v c' (fat12_set_entry drive v c val d).1
        ≡ (if c' == c then val else get_fat12_entry drive v c' d)
  get12-set12 v c c' val d whole whole' inside fits done =
      let (b, found) = fat12_found v c val d done in
      let s = fat12-Stored drive v c val d b found whole (omega (arith, inside)) done in
      let d' = (fat12_set_entry drive v c val d).1 in
      let small = bytes (v.fat_start_lba + c * 3 / 2 / 512) d b found in
      elim (Bool-cases (c' == c)) [
        | inl same ↦
            let e = ==→eq c' c same in
            rw (same, e)
              (get12_lem v c d' s.sector s.here whole
                ∙ fat12_value-put_self b s.sector small c (c * 3 / 2 % 512) (val % 4096)
                    (omega (arith, whole)) (omega arith) s.holds
                ∙ omega (arith, fits))
        | inr apart ↦ rw apart (elim (Bool-cases (c' * 3 / 2 / 512 == c * 3 / 2 / 512)) [
          | inr other ↦
              get12_same v c' d d' whole' (s.others (c' * 3 / 2 / 512) (==→ne _ _ other) inside)
          | inl here ↦
              let at = ==→eq (c' * 3 / 2 / 512) (c * 3 / 2 / 512) here in
              get12_lem v c' d' s.sector (ap (λ k. ata_read (v.fat_start_lba + k) d') at ∙ s.here)
                whole'
              ∙ fat12_value-put_ne b s.sector small c c' (c * 3 / 2 / 512 * 512) (c * 3 / 2 % 512)
                  (c' * 3 / 2 % 512) (val % 4096) (omega arith) (omega (arith, at))
                  (omega (arith, whole)) (omega (arith, whole')) (==→ne c' c apart) s.holds
              ∙ sym (
                  get12_lem v c' d b (ap (λ k. ata_read (v.fat_start_lba + k) d) at ∙ found) whole')
        ])
      ]

  -- When a number that fits has been put into an entry of the FATs, it is got from that entry, and from
  -- every other entry of the table what was got before, on FAT12 and FAT16 volumes, if neither entry
  -- reaches from one sector into the next.
  pub get_fat_entry-set :
      (v : Volume) (c c' val : ℕ) (d : Image)
      → 0 < v.fat_num_fats
      → IsWhole v c
      → IsWhole v c'
      → first_byte v c' / bytes_per_sector < v.fat_sectors
      → FitsEntry v val
      → (fat_set_entry_fat1216 drive v c val d).0 ≡ true
      → get_fat_entry_fat1216 drive v c' (fat_set_entry_fat1216 drive v c val d).1
        ≡ (if c' == c then val else get_fat_entry_fat1216 drive v c' d)
  unfolding fat_set_entry_fat1216 get_fat_entry_fat1216
  get_fat_entry-set v c c' val d fats = elim (Bool-cases v.is_fat12) [
    | inl fat12 ↦ subst Goal (sym fat12) (get12-set12 v c c' val d)
    | inr fat16 ↦ subst Goal (sym fat16) (λ _ _. get16-set16 v c c' val d fats)
  ]
    where
      Goal : Bool → Type 0
      Goal k =
          (if k then c * 3 / 2 else c * 2) % bytes_per_sector ≢ 511
          → (if k then c' * 3 / 2 else c' * 2) % bytes_per_sector ≢ 511
          → (if k then c' * 3 / 2 else c' * 2) / bytes_per_sector < v.fat_sectors
          → val < (if k then 4096 else 65536)
          → let w =
              if k then fat12_set_entry drive v c val d else fat16_set_entry drive v c val d in
            w.0 ≡ true
            → (if k then get_fat12_entry drive v c' w.1 else get_fat16_entry drive v c' w.1) ≡ (
                if c' == c
                then val
                else if k
                then get_fat12_entry drive v c' d
                else get_fat16_entry drive v c' d)
