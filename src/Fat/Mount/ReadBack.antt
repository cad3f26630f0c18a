-- ===== src/Fat/Mount/ReadBack.antt =====
-- Files on FAT12 and FAT16 volumes, through the function that the kernel calls.
use bonfire_os.Base.{ℕ, true, List, ◌≡◌, All, length}
use bonfire_os.Fat.Disk.{Drive}
use bonfire_os.Fat.Volume.{Volume, fs_fat1216}
use bonfire_os.Fat.Files.{fat1216_write_bytes}
use bonfire_os.Fat.Files.Sectors.{IsByte}
use bonfire_os.Fat.Files.RoundTrip.{IsChain, read_chain-write_bytes}
use bonfire_os.Fat.Mount.{fat_read_file}

module _ (drive : Drive) where
  open drive use {Image}

  -- When `fat1216_write_bytes` of bytes has succeeded, `fat_read_file` of the same length along the
  -- same chain reads these bytes, on FAT12 and FAT16 volumes, if the chain has no cluster twice, its
  -- entries in the FAT lie before the clusters, and none of them reaches from one sector into the next.
  pub fat_read_file-write_bytes :
      (v : Volume) (first : ℕ) (clusters xs : List ℕ) (d : Image)
      → v.fs_kind ≡ fs_fat1216
      → IsChain drive v clusters first d
      → All IsByte xs
      → (fat1216_write_bytes drive v first xs d).0 ≡ true
      → fat_read_file drive v first (length xs) (fat1216_write_bytes drive v first xs d).1 ≡ xs
  unfolding fat_read_file
  fat_read_file-write_bytes v first clusters xs d kind chain a done =
      rw (kind, fat_read_file) (read_chain-write_bytes drive v first clusters xs d chain a done)
