-- ===== src/Fat/Exfat/Insert.antt =====
-- src/kernel/fs/fat.c: a file is written into the root directory of an exFAT volume.
pub mod Checksum
use bonfire_os.Base.{
  ℕ, zero, suc, true, false, none, some, [], ◌∷◌, ◌==◌, ◌&&◌, Option, Bool, List, ◌+◌,
  if◌then◌else◌, u16, take, u8, drop, length, leb, ◌*◌, ◌%◌, ◌/◌, update, ◌-◌, ◌||◌, ltb, not,
}
use bonfire_os.Fat.Disk.{Drive, wr16, wr32, wr64, put_bytes, get_bytes, bytes_per_sector}
use bonfire_os.Fat.Volume.{Volume, exfat_cluster_to_lba}
use bonfire_os.Fat.Exfat.{
  in_exfat_chain, dentries_per_cluster, copy_dentry_at, write_dentry_at, get_fat_entry_exfat,
}
use bonfire_os.Fat.Exfat.Root.{expected_name, ExfatFile, exfat_find_root}
use bonfire_os.Fat.Exfat.Files.{exfat_free_chain, exfat_alloc_chain, exfat_write_chain}

-- The sum of the bytes from number `i` on, that of a directory entry without bytes 2 and 3, where the sum
-- itself stands.
unfoldable pub exfat_chksum16_buf : List ℕ → ℕ → ℕ → Bool → ℕ
exfat_chksum16_buf [] i sum dir_entry = sum
exfat_chksum16_buf (b ∷ bs) i sum dir_entry =
    let turned = u16 (sum % 2 * 32768 + sum / 2 + b) in
    exfat_chksum16_buf bs (i + 1) (if dir_entry && (i == 2 || i == 3) then sum else turned)
      dir_entry

abbrev exfat_name_utf16_from_83 : List ℕ → List ℕ
exfat_name_utf16_from_83 name_83 = take 255 (expected_name name_83)

-- The bytes of characters of 16 bits.
unfoldable pub utf16_bytes : List ℕ → List ℕ
utf16_bytes [] = []
utf16_bytes (c ∷ cs) = u8 c ∷ u8 (c / 256) ∷ utf16_bytes cs

-- The `n` entries of the name from `off` on.
unfoldable pub put_name_entries : ℕ → List ℕ → ℕ → (ℕ → ℕ) → ℕ → ℕ
put_name_entries zero w off set = set
put_name_entries (suc n) w off set =
    put_name_entries n (drop 15 w) (off + 32)
      (put_bytes (update (update set off 193) (off + 1) 0) (off + 2) (utf16_bytes (take 15 w)))

-- The sum of the `n` entries from `off` on.
unfoldable pub chksum_entries : ℕ → ℕ → (ℕ → ℕ) → ℕ → ℕ
chksum_entries zero off set sum = sum
chksum_entries (suc n) off set sum =
    chksum_entries n (off + 32) set (exfat_chksum16_buf (get_bytes set off 32) 0 sum false)

-- The entries of a file: the `set` of `exfat_write_root`.
unfoldable pub file_set : List ℕ → ℕ → ℕ → ℕ → ℕ
file_set w first size =
    let name_ent = (length w + 14) / 15 in
    let file : ℕ → ℕ = wr16 (update (update (λ _. 0) 0 133) 1 (1 + name_ent)) 4 32 in
    let named : ℕ → ℕ = update (update (update file 32 192) 33 1) 35 (u8 (length w)) in
    let hashed : ℕ → ℕ = wr16 named 36 (exfat_chksum16_buf (utf16_bytes w) 0 0 false) in
    let stream : ℕ → ℕ = wr64 (wr32 (wr32 (wr64 hashed 40 size) 48 0) 52 first) 56 size in
    let whole = put_name_entries name_ent w 64 stream in
    wr16 whole 2
      (chksum_entries (1 + name_ent) 32 whole (exfat_chksum16_buf (get_bytes whole 0 32) 0 0 true))

module _ (drive : Drive) where
  open drive use {Image}

  -- The entries of a cluster up to the end of the directory: where that stands.
  unfoldable pub find_end : ℕ → ℕ → ℕ → Image → Option ℕ
  find_end zero lba off d = none
  find_end (suc n) lba off d =
      let later = find_end n lba (off + 32) d in
      if copy_dentry_at drive lba off d 0 == 0 then some off else later

  -- The chain of the directory from `clu` on: the cluster and the offset of the end, in a cluster that has
  -- room for the entries and another end behind them.
  unfoldable pub insert_from : ℕ → Volume → ℕ → ℕ → Image → Option (ℕ × ℕ)
  insert_from zero v need clu d = none
  insert_from (suc rounds) v need clu d =
      let later = insert_from rounds v need (get_fat_entry_exfat drive v clu d) d in
      if in_exfat_chain clu
      then elim (find_end (dentries_per_cluster v) (exfat_cluster_to_lba v clu) 0 d) [
        | none ↦ later
        | some off ↦
            if leb (off + need + 32) (dentries_per_cluster v * 32) then some (clu, off) else later
      ]
      else none

  unfoldable pub exfat_find_insert : ℕ → Volume → ℕ → Image → Option (ℕ × ℕ)
  exfat_find_insert rounds v need d = insert_from rounds v need v.exfat_root_cluster d

  -- The `n` entries of the set from `at` on are written from `off` on.
  unfoldable pub write_set : ℕ → ℕ → ℕ → ℕ → (ℕ → ℕ) → Image → Bool × Image
  write_set zero lba off at set d = (true, d)
  write_set (suc n) lba off at set d =
      let w = write_dentry_at drive lba off (λ i. set (at + i)) d in
      let later = write_set n lba (off + 32) (at + 32) set w.1 in if w.0 then later else w

  -- Where the entries go: over those of the older file, if these are as many.
  unfoldable pub place_for : ℕ → Volume → Option ExfatFile → ℕ → Image → Option (ℕ × ℕ)
  place_for rounds v existed sec_count d = elim existed [
    | none ↦ exfat_find_insert rounds v ((1 + sec_count) * 32) d
    | some f ↦ if f.sec_count == sec_count then some (f.dir_clu, f.off) else none
  ]

  -- The entries are written, and behind those of a new file the end of the directory.
  unfoldable pub write_entries :
      Volume → Option ExfatFile → ℕ → (ℕ × ℕ) → (ℕ → ℕ) → Image → Bool × Image
  write_entries v existed nent (clu, off) set d =
      let lba = exfat_cluster_to_lba v clu in
      let w = write_set nent lba off 0 set d in
      let ended = write_dentry_at drive lba (off + nent * 32) (λ _. 0) w.1 in
      elim existed [ some f ↦ w | none ↦ (if w.0 then ended else w) ]

  -- The contents are in the chain that begins at `first`, which is given up where the entries fail.
  unfoldable pub enter_file :
      ℕ → Volume → Option ExfatFile → List ℕ → ℕ → ℕ → Image → (Bool × Volume) × Image
  enter_file rounds v existed w first size d =
      let sec_count = 1 + (length w + 14) / 15 in
      let fail : Image → (Bool × Volume) × Image =
        λ d'. ((false, v), exfat_free_chain drive rounds v first d') in
      if ltb 24 (1 + sec_count) then fail d else elim (place_for rounds v existed sec_count d) [
        | none ↦ fail d
        | some place ↦
            let e = write_entries v existed (1 + sec_count) place (file_set w first size) d in
            if e.0 then ((true, record v { exfat_nofatchain = false }), e.1) else fail e.1
      ]

  unfoldable pub drop_file : ℕ → Volume → Option ExfatFile → Image → Image
  drop_file rounds v existed d = elim existed [
    | none ↦ d
    | some f ↦ exfat_free_chain drive rounds v f.first_cluster d
  ]

  unfoldable pub exfat_write_root : ℕ → Volume → List ℕ → List ℕ → Image → (Bool × Volume) × Image
  exfat_write_root rounds v name_83 bytes d =
      let w = exfat_name_utf16_from_83 name_83 in
      let size = length bytes in
      let cbytes = v.sectors_per_cluster * bytes_per_sector in
      let found = exfat_find_root drive rounds v name_83 d in
      let ncl = (size + cbytes - 1) / cbytes in
      let a = exfat_alloc_chain drive rounds ncl found.1 (drop_file rounds found.1 found.0 d) in
      if not v.exfat_bitmap_valid || length w == 0 then ((false, v), d) else elim a.0 [
        | none ↦ ((false, found.1), a.1)
        | some first ↦
            let c = exfat_write_chain drive found.1 first bytes a.1 in
            if c.0
            then enter_file rounds found.1 found.0 w first size c.1
            else ((false, found.1), exfat_free_chain drive rounds found.1 first c.1)
      ]
