-- ===== src/Fat/Exfat/Files.antt =====
-- src/kernel/fs/fat.c: the contents of files on an exFAT volume, and how chains are made and given up.
use bonfire_os.Base.{
  ℕ, zero, suc, true, false, none, some, [], ◌==◌, ◌++◌, Option, Bool, if◌then◌else◌, List, u32,
  ◌-◌, ltb, length, ◌+◌, ◌||◌, not,
}
use bonfire_os.Fat.Disk.{Drive}
use bonfire_os.Fat.Volume.{Volume, exfat_cluster_to_lba}
use bonfire_os.Fat.Files.{read_sectors, write_sectors}
use bonfire_os.Fat.Exfat.{in_exfat_chain, exfat_set_fat_entry, get_fat_entry_exfat}
use bonfire_os.Fat.Exfat.Bitmap.{exfat_bitmap_modify_bit, exfat_grab_cluster}

module _ (drive : Drive) where
  open drive use {Image}

  -- The cluster that `fat_read_file` reads behind this one.
  unfoldable pub next_cluster : Volume → ℕ → Image → ℕ
  next_cluster v cluster d =
      if v.exfat_nofatchain then u32 (cluster + 1) else get_fat_entry_exfat drive v cluster d

  -- `fat_read_file` on an exFAT volume: the bytes read, which the code counts.
  unfoldable pub exfat_read_chain : ℕ → Volume → ℕ → ℕ → Image → List ℕ
  exfat_read_chain zero v cluster left d = []
  exfat_read_chain (suc fuel) v cluster left d =
      let r = read_sectors drive v.sectors_per_cluster (exfat_cluster_to_lba v cluster) left d in
      let later = exfat_read_chain fuel v (next_cluster v cluster d) (left - length r.0) d in
      if left == 0 || not (in_exfat_chain cluster) then [] else if r.1 then r.0 ++ later else r.0

  -- The results of the two steps are not looked at.
  unfoldable pub exfat_release_cluster : Volume → ℕ → Image → Image
  exfat_release_cluster v c d =
      if ltb c 2
      then d
      else (exfat_bitmap_modify_bit drive v c false (exfat_set_fat_entry drive v c 0 d).1).1

  -- The rounds bound the length of the chain.
  unfoldable pub exfat_free_chain : ℕ → Volume → ℕ → Image → Image
  exfat_free_chain zero v c d = d
  exfat_free_chain (suc rounds) v c d =
      let next = get_fat_entry_exfat drive v c d in
      let later = exfat_free_chain rounds v next (exfat_release_cluster v c d) in
      if in_exfat_chain c then later else d

  -- The rest of the loop of `exfat_alloc_chain`, with `n` clusters to go behind `prev`.
  unfoldable pub exfat_extend_chain : ℕ → ℕ → Volume → ℕ → ℕ → Image → Bool × Image
  exfat_extend_chain rounds zero v first prev d = (true, d)
  exfat_extend_chain rounds (suc n) v first prev d =
      let g = exfat_grab_cluster drive v d in
      let d1 = (exfat_set_fat_entry drive v prev g.0 g.1).1 in
      let d2 = (exfat_set_fat_entry drive v g.0 4294967295 d1).1 in
      let later = exfat_extend_chain rounds n v first g.0 d2 in
      if g.0 == 0 then (false, exfat_free_chain rounds v first g.1) else later

  -- The first cluster, if the chain could be made.
  unfoldable pub exfat_alloc_chain : ℕ → ℕ → Volume → Image → Option ℕ × Image
  exfat_alloc_chain rounds zero v d = (some 0, d)
  exfat_alloc_chain rounds (suc n) v d =
      let g = exfat_grab_cluster drive v d in
      let d1 = (exfat_set_fat_entry drive v g.0 4294967295 g.1).1 in
      let r = exfat_extend_chain rounds n v g.0 g.0 d1 in
      if g.0 == 0 then (none, g.1) else ((if r.0 then some g.0 else none), r.1)

  -- The rounds are as many as there are bytes to write.
  unfoldable pub exfat_write_rest : ℕ → Volume → ℕ → List ℕ → Image → Bool × Image
  exfat_write_rest zero v cluster bytes d = (length bytes == 0, d)
  exfat_write_rest (suc fuel) v cluster bytes d =
      let w = write_sectors drive v.sectors_per_cluster (exfat_cluster_to_lba v cluster) bytes d in
      let later = exfat_write_rest fuel v (get_fat_entry_exfat drive v cluster w.1.1) w.1.0 w.1.1 in
      if length bytes == 0 || not (in_exfat_chain cluster)
      then (length bytes == 0, d)
      else if w.0
      then later
      else (false, w.1.1)

  unfoldable pub exfat_write_chain : Volume → ℕ → List ℕ → Image → Bool × Image
  exfat_write_chain v first bytes d = exfat_write_rest (length bytes) v first bytes d
