-- ===== src/Fat/Table/Entries.antt =====
-- What is put into an entry of a FAT is what is got from it, and no other entry changes.
use bonfire_os.Base.{
  ℕ, zero, suc, ◌+◌, refl, Bool, ◌<◌, ◌*◌, ◌≡◌, arith, if_elim, ◌∙◌, inl, inr, ◌==◌, if◌then◌else◌,
  ◌%◌, u8, ◌⊎◌, Bool-cases, ◌/◌, ◌≢◌, ap, ==→eq,
}
use bonfire_os.Fat.Disk.{Drive, bytes_per_sector, wr16, rd16}
use bonfire_os.Fat.Volume.{Volume}
use bonfire_os.Fat.Table.{write_copies, put_fat12}

module _ (drive : Drive) where
  open drive use {Image, ata_read, ata_write, bytes, read_written, read_other}

  -- Copies behind a sector do not reach it.
  pub write_copies-other :
      (v : Volume) (n c idx : ℕ) (buf : ℕ → ℕ) (d : Image) (lba : ℕ)
      → lba < v.fat_start_lba + c * v.fat_sectors + idx
      → ata_read lba (write_copies drive v n c idx buf d).1 ≡ ata_read lba d
  unfolding write_copies
  write_copies-other v zero c idx buf d lba h = refl
  write_copies-other v (suc n) c idx buf d lba h =
      let here = v.fat_start_lba + c * v.fat_sectors + idx in
      let w = ata_write here buf d in
      let first = read_other here lba buf d (λ e. absurd (omega (arith, e, h))) in
      if_elim (λ (r : Bool × Image). ata_read lba r.1 ≡ ata_read lba d) w.0 _ _
        (λ _. write_copies-other v n (c + 1) idx buf w.1 lba (grind (arith, h)) ∙ first)
        (λ _. first)

-- The number that the two bytes of a FAT12 entry hold.
abbrev pub fat12_value : ℕ → (ℕ → ℕ) → ℕ → ℕ
fat12_value cluster b off =
    if cluster % 2 == 1
    then (b off + 256 * b (off + 1)) / 16
    else (b off + 256 * b (off + 1)) % 4096

-- What a sector holds when these bytes have been written to it.
abbrev pub Holds : (ℕ → ℕ) → (ℕ → ℕ) → Type 0
Holds b' new = (i : ℕ) → i < bytes_per_sector → b' i ≡ u8 (new i)

module _ (b b' : ℕ → ℕ) (small : (i : ℕ) → b i < 256) where
  pub rd16-wr16_self :
      (off val : ℕ)
      → off + 1 < bytes_per_sector
      → val < 65536
      → Holds b' (wr16 b off val)
      → rd16 b' off ≡ val
  rd16-wr16_self off val h v holds = ground (arith, holds off (omega (arith, h)), holds (off + 1) h)

  pub rd16-wr16_ne :
      (off other val : ℕ)
      → other + 1 < bytes_per_sector
      → (other + 1 < off) ⊎ (off + 1 < other)
      → Holds b' (wr16 b off val)
      → rd16 b' other ≡ rd16 b other
  rd16-wr16_ne off other val h apart holds =
      ground
        (arith, holds other (omega (arith, h)), holds (other + 1) h, small other, small (other + 1))

  pub fat12_value-put_self :
      (c rel val : ℕ)
      → rel + 1 < bytes_per_sector
      → val < 4096
      → Holds b' (put_fat12 c val rel b)
      → fat12_value c b' rel ≡ val
  unfolding put_fat12
  fat12_value-put_self c rel val h v holds = elim (Bool-cases (c % 2 == 0)) [
    | inl even ↦ ground (arith, holds rel (omega (arith, h)), holds (rel + 1) h, small (rel + 1))
    | inr odd ↦ ground (arith, holds rel (omega (arith, h)), holds (rel + 1) h, small rel)
  ]

  fat12_value-same :
      (c off : ℕ)
      → b' off ≡ b off
      → b' (off + 1) ≡ b (off + 1)
      → fat12_value c b' off ≡ fat12_value c b off
  fat12_value-same c off p q = rw (p, q) refl

  -- An even entry shares the lower half of its second byte with the odd entry behind it.
  fat12_value-meet :
      (c' val rel rel' : ℕ)
      → rel' + 1 ≡ rel
      → c' % 2 ≡ 0
      → b' rel' ≡ b rel'
      → b' (rel' + 1) ≡ u8 (b rel % 16 + val % 16 * 16)
      → fat12_value c' b' rel' ≡ fat12_value c' b rel'
  fat12_value-meet c' val rel rel' next even p q = ground (arith, p, q, ap b next, small rel, even)

  pub fat12_value-put_ne :
      (c c' base rel rel' val : ℕ)
      → base + rel ≡ c * 3 / 2
      → base + rel' ≡ c' * 3 / 2
      → rel + 1 < bytes_per_sector
      → rel' + 1 < bytes_per_sector
      → c' ≢ c
      → Holds b' (put_fat12 c val rel b)
      → fat12_value c' b' rel' ≡ fat12_value c' b rel'
  unfolding put_fat12
  fat12_value-put_ne c c' base rel rel' val e e' h h' ne holds = elim (Bool-cases (c % 2 == 0)) [
    | inl even ↦
        ground
          (arith, holds rel' (omega (arith, h')), holds (rel' + 1) h', small rel', small (rel' + 1))
    | inr odd ↦ elim (Bool-cases (rel' + 1 == rel)) [
      | inl meets ↦
          let even' : c' % 2 ≡ 0 = ground (arith, meets, odd, e, e') in
          fat12_value-meet c' val rel rel' (==→eq (rel' + 1) rel meets) even'
            (holds rel' (omega (arith, h')) ∙ ground (arith, odd, meets, small rel'))
            (holds (rel' + 1) h' ∙ ground (arith, odd, meets))
      | inr apart ↦
          let low : rel' ≢ rel = λ same. ne (omega (arith, e, e', same)) in
          let high : rel' ≢ rel + 1 = λ same. ne (ground (arith, e, e', same, odd)) in
          fat12_value-same c' rel'
            (holds rel' (omega (arith, h')) ∙ ground (arith, odd, low, high, small rel'))
            (holds (rel' + 1) h' ∙ ground (arith, odd, low, apart, small (rel' + 1)))
    ]
  ]
