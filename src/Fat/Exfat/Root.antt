-- ===== src/Fat/Exfat/Root.antt =====
-- src/kernel/fs/fat.c: finding a file in the root directory of an exFAT volume. A file is a set of
-- entries: one of type 0x85, one of type 0xC0 with cluster and size, and those of type 0xC1 with its name.
use bonfire_os.Base.{
  ℕ, zero, suc, false, none, some, [], ◌∷◌, ◌==◌, ◌++◌, Option, Bool, List, if◌then◌else◌, ◌+◌, min,
  ◌*◌, ◌-◌, ltb, not, bit, ◌/◌, u32,
}
use bonfire_os.Fat.Disk.{Drive, rd16, rd32, rd64}
use bonfire_os.Fat.Names.{build_expected_from_83, name_matches_expected}
use bonfire_os.Fat.Volume.{Volume, exfat_cluster_to_lba}
use bonfire_os.Fat.Exfat.{in_exfat_chain, dentries_per_cluster, copy_dentry_at, get_fat_entry_exfat}

-- The characters before a 0.
unfoldable pub until_zero : List ℕ → List ℕ
until_zero [] = []
until_zero (c ∷ cs) = let later = until_zero cs in if c == 0 then [] else c ∷ later

abbrev pub expected_name : List ℕ → List ℕ
expected_name name_83 = until_zero (build_expected_from_83 name_83)

-- `n` characters of 16 bits.
unfoldable pub name_chars : (ℕ → ℕ) → ℕ → ℕ → List ℕ
name_chars e off zero = []
name_chars e off (suc n) = rd16 e off ∷ name_chars e (off + 2) n

-- What is found: the first cluster, the size, whether the clusters are contiguous (NoFatChain), and where
-- the entries stand, `struct exfat_loc`.
pub record ExfatFile : Type 0 where
  pub first_cluster : ℕ
  pub file_size : ℕ
  pub nofatchain : Bool
  pub dir_clu : ℕ
  pub off : ℕ
  pub sec_count : ℕ

-- What a cluster of the directory brings: the file, the return value -1, or the next cluster.
pub data RootScan : Type 0 where
  scan_found : ExfatFile → RootScan
  scan_fail : RootScan
  scan_next : RootScan

module _ (drive : Drive) where
  open drive use {Image}

  -- The name in the `n` entries from `off` on, of which `left` characters are to come; `none` if an entry
  -- has another type.
  unfoldable pub read_name : ℕ → ℕ → ℕ → ℕ → Image → Option (List ℕ)
  read_name zero lba off left d = some []
  read_name (suc n) lba off left d =
      let e = copy_dentry_at drive lba off d in
      let in_this = min 15 left in
      let later = read_name n lba (off + 32) (left - in_this) d in
      if e 0 == 193
      then elim later [ none ↦ none | some cs ↦ some (name_chars e 2 in_this ++ cs) ]
      else none

  -- The loop over the entries of a cluster from `off` on. It goes on by an entry or more in a round.
  unfoldable pub scan_dentries : ℕ → ℕ → Volume → List ℕ → ℕ → ℕ → Image → RootScan
  scan_dentries zero lba v expected clu off d = scan_next
  scan_dentries (suc n) lba v expected clu off d =
      let cluster_bytes = dentries_per_cluster v * 32 in
      let d0 = copy_dentry_at drive lba off d in
      let ds = copy_dentry_at drive lba (off + 32) d in
      let sec_count = d0 1 in
      let behind = off + (1 + sec_count) * 32 in
      let one = scan_dentries n lba v expected clu (off + 32) d in
      let set = scan_dentries n lba v expected clu behind d in
      let name_len = ds 3 in
      if ltb cluster_bytes (off + 32)
      then scan_next
      else if d0 0 == 0
      then scan_fail
      else if not (d0 0 == 133)
      then one
      else if bit (rd16 d0 4) 4
      then set
      else if ltb cluster_bytes behind
      then scan_fail
      else if not (ds 0 == 192)
      then one
      else if name_len == 0
      then set
      else elim (read_name ((name_len + 14) / 15) lba (off + 64) name_len d) [
        | none ↦ set
        | some w ↦
            if name_matches_expected expected w
            then scan_found (record {
              first_cluster = rd32 ds 20;
              file_size = u32 (rd64 ds 24);
              nofatchain = bit (ds 1) 1;
              dir_clu = clu;
              off = off;
              sec_count = sec_count;
            })
            else set
      ]

  -- The chain of the directory from `clu` on; the rounds bound its length.
  unfoldable pub scan_root : ℕ → Volume → List ℕ → ℕ → Image → Option ExfatFile
  scan_root zero v expected clu d = none
  scan_root (suc rounds) v expected clu d =
      let later = scan_root rounds v expected (get_fat_entry_exfat drive v clu d) d in
      if in_exfat_chain clu
      then elim (scan_dentries (dentries_per_cluster v) (exfat_cluster_to_lba v clu) v expected clu
          0 d) [ scan_found f ↦ some f | scan_fail ↦ none | scan_next ↦ later ]
      else none

  -- The flag of the last file found goes into the volume.
  unfoldable pub exfat_find_root : ℕ → Volume → List ℕ → Image → Option ExfatFile × Volume
  exfat_find_root rounds v name_83 d =
      let found = scan_root rounds v (expected_name name_83) v.exfat_root_cluster d in
      let flag : Bool = elim found [ none ↦ false | some f ↦ f.nofatchain ] in
      (found, record v { exfat_nofatchain = flag })
