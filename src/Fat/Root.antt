-- ===== src/Fat/Root.antt =====
-- src/kernel/fs/fat.c: the root directory of a FAT12 or FAT16 volume. `struct fat_dir_entry` has 38 bytes
-- and not 32, so that the entries of a sector, walked by pointers to it, stand 38 bytes apart, and those
-- from the fourteenth on reach behind `sector_buf`.
use bonfire_os.Base.{
  ℕ, zero, suc, ◌+◌, true, false, none, some, [], ◌∷◌, ◌==◌, ◌&&◌, Option, Bool, ◌/◌, if◌then◌else◌,
  List, bit, ◌*◌, ltb, ◌||◌, take, update, not, length, ◌-◌,
}
use bonfire_os.Fat.Disk.{Drive, rd16, rd32, wr16, wr32, mem_set, put_bytes, bytes_per_sector}
use bonfire_os.Fat.Volume.{Volume}
use bonfire_os.Fat.Names.{normalize_83}
use bonfire_os.Fat.Files.{fat1216_free_chain, fat1216_alloc_chain, fat1216_write_bytes}

-- FAT_ROOT_ENTRY_SIZE, and sizeof(struct fat_dir_entry)
abbrev fat_root_entry_size : ℕ
fat_root_entry_size = 32

abbrev dir_entry_bytes : ℕ
dir_entry_bytes = 38

abbrev entries_per_sector : ℕ
entries_per_sector = bytes_per_sector / fat_root_entry_size

-- The bytes from `off` on begin with these.
unfoldable pub begins_with : List ℕ → (ℕ → ℕ) → ℕ → Bool
begins_with [] b off = true
begins_with (c ∷ cs) b off =
    let later = begins_with cs b (off + 1) in if b off == c then later else false

-- A volume label or a directory.
abbrev skipped : ℕ → Bool
skipped attr = bit attr 3 || bit attr 4

-- The loop of `fat_find_root` over the entries of a sector from entry `i` on: `some none` is the return
-- value -1, and `none` goes on with the next sector. Cluster and size stand where the structure has them.
unfoldable pub find_in_sector : List ℕ → (ℕ → ℕ) → ℕ → ℕ → Option (Option (ℕ × ℕ))
find_in_sector name b i zero = none
find_in_sector name b i (suc n) =
    let off = i * dir_entry_bytes in
    let later = find_in_sector name b (i + 1) n in
    if b off == 0
    then some none
    else if b off == 229
    then later
    else if skipped (b (off + 11))
    then later
    else if begins_with (take 11 name) b off
    then some (some (rd16 b (off + 32) + 65536 * rd16 b (off + 26), rd32 b (off + 34)))
    else later

-- A slot of the directory: the sector, and the number of the entry.
abbrev Slot : Type 0
Slot = ℕ × ℕ

-- What a sector brings to `fat1216_find_slot`: the entry of that name, the end of the directory, or
-- neither, with the first deleted entry so far.
pub data SlotScan : Type 0 where
  slot_match : Slot → SlotScan
  slot_end : Slot → Option Slot → SlotScan
  slot_more : Option Slot → SlotScan

unfoldable pub scan_slots : List ℕ → (ℕ → ℕ) → ℕ → ℕ → ℕ → Option Slot → SlotScan
scan_slots name11 b lba i zero deleted = slot_more deleted
scan_slots name11 b lba i (suc n) deleted =
    let off = i * dir_entry_bytes in
    let here : Option Slot = some (lba, i) in
    let first : Option Slot = elim deleted [
      | none ↦ (if b off == 229 then here else none)
      | some s ↦ some s
    ] in
    let later = scan_slots name11 b lba (i + 1) n first in
    if b off == 0
    then slot_end (lba, i) deleted
    else if begins_with name11 b off
    then slot_match (lba, i)
    else later

-- Whether an entry of that name was found, and the slot to write to; `none` is -1.
abbrev pub chosen : Option Slot → Option Slot → Option (Bool × Slot)
chosen deleted last = elim deleted [
  | some s ↦ some (false, s)
  | none ↦ elim last [ none ↦ none | some s ↦ some (false, s) ]
]

module _ (drive : Drive) where
  open drive use {Image, behind_sector_buf, ata_read, ata_write}

  -- What a pointer into `sector_buf` reads, also behind its end.
  abbrev pub sector_memory : Image → (ℕ → ℕ) → ℕ → ℕ
  sector_memory d b i =
      if ltb i bytes_per_sector then b i else behind_sector_buf d (i - bytes_per_sector)

  -- The loop of `fat_find_root` over the sectors, from `lba` on.
  unfoldable pub find_in_root : ℕ → ℕ → Volume → List ℕ → Image → Option (ℕ × ℕ)
  find_in_root zero lba v name d = none
  find_in_root (suc n) lba v name d =
      let later = find_in_root n (lba + 1) v name d in
      elim (ata_read lba d) [
        | none ↦ none
        | some b ↦ elim (find_in_sector name (sector_memory d b) 0 entries_per_sector) [
          | none ↦ later
          | some found ↦ found
        ]
      ]

  -- `fat_find_root` on a FAT12 or FAT16 volume: the first cluster and the size.
  unfoldable pub fat1216_find_root : Volume → List ℕ → Image → Option (ℕ × ℕ)
  fat1216_find_root v name d = find_in_root v.root_sectors v.root_start_lba v name d

  unfoldable pub find_slots : ℕ → ℕ → Volume → List ℕ → Option Slot → Image → Option (Bool × Slot)
  find_slots zero lba v name11 deleted d = chosen deleted none
  find_slots (suc n) lba v name11 deleted d =
      let later = λ (e5 : Option Slot). find_slots n (lba + 1) v name11 e5 d in
      elim (ata_read lba d) [
        | none ↦ none
        | some b ↦ elim (scan_slots name11 (sector_memory d b) lba 0 entries_per_sector deleted) [
          | slot_match s ↦ some (true, s)
          | slot_end s e5 ↦ chosen e5 (some s)
          | slot_more e5 ↦ later e5
        ]
      ]

  unfoldable pub fat1216_find_slot : Volume → List ℕ → Image → Option (Bool × Slot)
  fat1216_find_slot v name11 d = find_slots v.root_sectors v.root_start_lba v name11 none d

  -- The structure, filled at `off`; what lies behind the sector is lost.
  unfoldable pub fill_entry : List ℕ → ℕ → ℕ → ℕ → (ℕ → ℕ) → ℕ → ℕ
  fill_entry up first size off b =
      let named = put_bytes (mem_set b off 0 dir_entry_bytes) off up in
      let b1 = wr32 (update named (off + 11) 32) (off + 34) size in
      wr16 (wr16 b1 (off + 32) first) (off + 26) (first / 65536)

  -- The entry behind a new one, if it is in the same sector, is made the end of the directory.
  unfoldable pub end_directory : Slot → Image → Bool × Image
  end_directory (lba, i) d =
      let off = (i + 1) * fat_root_entry_size in
      elim (ata_read lba d) [
        | none ↦ (false, d)
        | some b ↦
            if b off == 0 then (true, d) else ata_write lba (mem_set b off 0 dir_entry_bytes) d
      ]

  -- The end of `fat1216_write_root`, which writes the entry 32 bytes times its number into the sector.
  unfoldable pub store_entry : Bool → Slot → List ℕ → ℕ → ℕ → Image → Bool × Image
  store_entry found (lba, i) up first size d = elim (ata_read lba d) [
    | none ↦ (false, d)
    | some b ↦
        let w = ata_write lba (fill_entry up first size (i * fat_root_entry_size) b) d in
        if not w.0
        then (false, w.1)
        else if not found && ltb (i + 1) entries_per_sector
        then end_directory (lba, i) w.1
        else (true, w.1)
  ]

  -- The chain of an older file of that name is given up.
  unfoldable pub drop_old : Bool → Volume → List ℕ → Image → Image
  drop_old found v name d =
      if found
      then elim (fat1216_find_root v name d) [
        | none ↦ d
        | some file ↦ fat1216_free_chain drive 65536 v file.0 d
      ]
      else d

  unfoldable pub fat1216_write_root : Volume → List ℕ → List ℕ → Image → Bool × Image
  fat1216_write_root v name bytes d =
      let up = normalize_83 name in
      let size = length bytes in
      let cbytes = v.sectors_per_cluster * bytes_per_sector in
      let ncl = (size + cbytes - 1) / cbytes in
      elim (fat1216_find_slot v up d) [
        | none ↦ (false, d)
        | some (found, slot) ↦
            let r = fat1216_alloc_chain drive ncl v (drop_old found v name d) in
            elim r.0 [
              | none ↦ (false, r.1)
              | some first ↦
                  let w = fat1216_write_bytes drive v first bytes r.1 in
                  if not w.0
                  then (false, fat1216_free_chain drive 65536 v first w.1)
                  else store_entry found slot up first size w.1
            ]
      ]
