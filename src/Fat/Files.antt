-- ===== src/Fat/Files.antt =====
-- src/kernel/fs/fat.c: the contents of files on FAT12 and FAT16 volumes, along their chains of clusters,
-- and how chains are made and given up. Buffers are lists of bytes.
pub mod Sectors
pub mod RoundTrip
use bonfire_os.Base.{
  ℕ, zero, suc, ◌+◌, true, false, none, some, [], ◌==◌, ◌&&◌, ◌++◌, Option, Bool, leb, List,
  if◌then◌else◌, ltb, get_or, min, ◌-◌, take, length, ◌||◌, drop, not,
}
use bonfire_os.Fat.Disk.{Drive, bytes_per_sector, get_bytes}
use bonfire_os.Fat.Volume.{Volume, cluster_to_lba, eoc}
use bonfire_os.Fat.Table.{fat_set_entry_fat1216, get_fat_entry_fat1216}

-- `cluster >= 2 && cluster < eoc`
abbrev pub in_chain : Volume → ℕ → Bool
in_chain v cluster = leb 2 cluster && ltb cluster (eoc v)

-- A sector with these bytes, and zeros behind them.
abbrev pub sector_of : List ℕ → ℕ → ℕ
sector_of bytes i = get_or bytes i 0

module _ (drive : Drive) where
  open drive use {Image, ata_read, ata_write}

  -- The loop over the sectors of a cluster, with `left` bytes to go: what it reads, and whether no
  -- sector has failed.
  unfoldable pub read_sectors : ℕ → ℕ → ℕ → Image → List ℕ × Bool
  read_sectors zero lba left d = ([], true)
  read_sectors (suc n) lba left d =
      let chunk = min bytes_per_sector left in
      let later = read_sectors n (lba + 1) (left - chunk) d in
      if left == 0 then ([], true) else elim (ata_read lba d) [
        | none ↦ ([], false)
        | some b ↦ (get_bytes b 0 chunk ++ later.0, later.1)
      ]

  -- `fat_read_file` on a FAT12 or FAT16 volume: the bytes read, which the code counts. Each round of the
  -- loop reads a byte or more, if clusters have sectors.
  unfoldable pub read_chain : ℕ → Volume → ℕ → ℕ → Image → List ℕ
  read_chain zero v cluster left d = []
  read_chain (suc fuel) v cluster left d =
      let r = read_sectors v.sectors_per_cluster (cluster_to_lba v cluster) left d in
      let later =
        read_chain fuel v (get_fat_entry_fat1216 drive v cluster d) (left - length r.0) d in
      if left == 0 || not (in_chain v cluster) then [] else if r.1 then r.0 ++ later else r.0

  -- The loop over the sectors of a cluster: whether no write has failed, what is left to write, and the
  -- disk.
  unfoldable pub write_sectors : ℕ → ℕ → List ℕ → Image → Bool × (List ℕ × Image)
  write_sectors zero lba bytes d = (true, (bytes, d))
  write_sectors (suc n) lba bytes d =
      let w = ata_write lba (sector_of (take bytes_per_sector bytes)) d in
      let later = write_sectors n (lba + 1) (drop bytes_per_sector bytes) w.1 in
      if length bytes == 0 then (true, (bytes, d)) else if w.0 then later else (false, (bytes, w.1))

  -- The rounds are as many as there are bytes to write.
  unfoldable pub write_chain : ℕ → Volume → ℕ → List ℕ → Image → Bool × Image
  write_chain zero v cluster bytes d = (length bytes == 0, d)
  write_chain (suc fuel) v cluster bytes d =
      let w = write_sectors v.sectors_per_cluster (cluster_to_lba v cluster) bytes d in
      let later = write_chain fuel v (get_fat_entry_fat1216 drive v cluster w.1.1) w.1.0 w.1.1 in
      if length bytes == 0 || not (in_chain v cluster)
      then (length bytes == 0, d)
      else if w.0
      then later
      else (false, w.1.1)

  unfoldable pub fat1216_write_bytes : Volume → ℕ → List ℕ → Image → Bool × Image
  fat1216_write_bytes v first bytes d = write_chain (length bytes) v first bytes d

  -- The clusters from `c` on, of which `n` are left; 0 where none is free.
  unfoldable pub find_free : ℕ → ℕ → Volume → Image → ℕ
  find_free zero c v d = 0
  find_free (suc n) c v d =
      let later = find_free n (c + 1) v d in
      if get_fat_entry_fat1216 drive v c d == 0 then c else later

  unfoldable pub fat1216_find_free_cluster : Volume → Image → ℕ
  fat1216_find_free_cluster v d = find_free v.fat_total_clusters 2 v d

  -- The rounds bound the length of the chain.
  unfoldable pub fat1216_free_chain : ℕ → Volume → ℕ → Image → Image
  fat1216_free_chain zero v c d = d
  fat1216_free_chain (suc rounds) v c d =
      let next = get_fat_entry_fat1216 drive v c d in
      let later = fat1216_free_chain rounds v next (fat_set_entry_fat1216 drive v c 0 d).1 in
      if in_chain v c then later else d

  -- The rest of the loop of `fat1216_alloc_chain`, with `n` clusters to go behind `prev`.
  unfoldable pub extend_chain : ℕ → Volume → ℕ → ℕ → Image → Bool × Image
  extend_chain zero v first prev d = (true, d)
  extend_chain (suc n) v first prev d =
      let c = fat1216_find_free_cluster v d in
      let d1 = (fat_set_entry_fat1216 drive v prev c d).1 in
      let d2 = (fat_set_entry_fat1216 drive v c (eoc v) d1).1 in
      let later = extend_chain n v first c d2 in
      if c == 0 then (false, fat1216_free_chain 65536 v first d) else later

  -- The first cluster, if the chain could be made.
  unfoldable pub fat1216_alloc_chain : ℕ → Volume → Image → Option ℕ × Image
  fat1216_alloc_chain zero v d = (some 0, d)
  fat1216_alloc_chain (suc n) v d =
      let c = fat1216_find_free_cluster v d in
      let r = extend_chain n v c c (fat_set_entry_fat1216 drive v c (eoc v) d).1 in
      if c == 0 then (none, d) else ((if r.0 then some c else none), r.1)
