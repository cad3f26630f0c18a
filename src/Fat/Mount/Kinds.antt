-- ===== src/Fat/Mount/Kinds.antt =====
-- What mounting leaves as the kind of the volume.
use mathlib.Core.Bool.{◌||◌}
use bonfire_os.Base.{
  ℕ, suc, zero, true, false, inl, inr, Bool, ◌≡◌, arith, Bool-cases, Option-cases, refl, ◌==◌,
  if_elim, if◌then◌else◌, List, not, sym, ◌⊎◌, ltb, ◌∙◌,
}
use bonfire_os.Fat.Disk.{Drive}
use bonfire_os.Fat.Volume.{Volume, FsKind, fs_none, fs_fat1216, fs_exfat, fat1216_mount}
use bonfire_os.Fat.Exfat.{in_exfat_chain, dentries_per_cluster, get_fat_entry_exfat}
use bonfire_os.Fat.Volume.{exfat_cluster_to_lba}
use bonfire_os.Fat.Exfat.Bitmap.{find_bitmap, locate_bitmap, bitmap_at, exfat_locate_bitmap}
use bonfire_os.Fat.Mount.{is_exfat, exfat_geometry, exfat_mount, fat_mount, fat_write_root}

-- The outcome of mounting: a volume of a kind, or none.
abbrev pub is_mounted : Volume → Bool
is_mounted v = elim v.fs_kind [ fs_none ↦ false | fs_fat1216 ↦ true | fs_exfat ↦ true ]

none_kind :
    (k : FsKind)
    → (elim k as (λ _. Bool) [ fs_none ↦ false | fs_fat1216 ↦ true | fs_exfat ↦ true ]) ≡ false
    → k ≡ fs_none
none_kind fs_none h = refl
none_kind fs_fat1216 h = absurd (cc h)
none_kind fs_exfat h = absurd (cc h)

fat1216_mount_kind :
    (b : ℕ → ℕ) (v : Volume)
    → is_mounted v ≡ false
    → (fat1216_mount b v).0 ≡ is_mounted (fat1216_mount b v).1
unfolding fat1216_mount
fat1216_mount_kind b v h = ground (arith, h)

module _ (drive : Drive) where
  open drive use {Image, ata_read}

  locate_bitmap_kind :
      (rounds c : ℕ) (v : Volume) (d : Image)
      → is_mounted v ≡ true
      → is_mounted (locate_bitmap drive rounds c v d).1 ≡ true
  unfolding locate_bitmap bitmap_at
  locate_bitmap_kind zero c v d h = h
  locate_bitmap_kind (suc rounds) c v d h =
      let later = locate_bitmap_kind rounds (get_fat_entry_exfat drive v c d) v d h in
      elim (Bool-cases (in_exfat_chain c)) [
        | inr out ↦ rw (out, locate_bitmap) h
        | inl inside ↦
            elim (Option-cases
              (find_bitmap drive (dentries_per_cluster v) (exfat_cluster_to_lba v c) 0 d)) [
                | inl nowhere ↦ rw (inside, nowhere, locate_bitmap) later
                | inr (e, found) ↦ rw (inside, found, locate_bitmap) h
              ]
      ]

  exfat_mount_kind :
      (rounds : ℕ) (b : ℕ → ℕ) (v : Volume) (d : Image)
      → is_mounted v ≡ false
      → (exfat_mount drive rounds b v d).0 ≡ is_mounted (exfat_mount drive rounds b v d).1
  unfolding exfat_mount exfat_geometry exfat_locate_bitmap
  exfat_mount_kind rounds b v d h =
      let P = λ (r : Bool × Volume). r.0 ≡ is_mounted r.1 in
      let v1 =
        exfat_geometry b (record v { exfat_nofatchain = false; exfat_bitmap_valid = false }) in
      if_elim P (not (is_exfat b)) _ _ (λ _. sym h)
        (λ _.
          if_elim P (ltb v1.exfat_root_cluster 2) _ _ (λ _. sym h)
            (λ _.
              if_elim P (v1.fat_sectors == 0 || v1.data_start_lba == 0) _ _ (λ _. sym h)
                (λ _. sym (
                  locate_bitmap_kind rounds v1.exfat_root_cluster (record v1 { fs_kind = fs_exfat })
                    d refl))))

  fat_mount_step :
      (b : ℕ → ℕ) (m : Bool × Volume)
      → m.0 ≡ is_mounted m.1
      → let r = if m.0 then m else fat1216_mount b m.1 in r.0 ≡ is_mounted r.1
  fat_mount_step b (true, v) h = h
  fat_mount_step b (false, v) h = fat1216_mount_kind b v (sym h)

  fat_mount_kind :
      (rounds : ℕ) (v : Volume) (d : Image)
      → (fat_mount drive rounds v d).0 ≡ is_mounted (fat_mount drive rounds v d).1
  unfolding fat_mount
  fat_mount_kind rounds v d = elim (Option-cases (ata_read 0 d)) [
    | inl failed ↦ rw (failed, fat_mount) refl
    | inr (b, found) ↦
        rw (found, fat_mount)
          (fat_mount_step b _ (exfat_mount_kind rounds b (record v { fs_kind = fs_none }) d refl))
  ]

  unmounted_write :
      (rounds : ℕ) (v : Volume) (name bytes : List ℕ) (d : Image)
      → is_mounted v ≡ false
      → ((fat_write_root drive rounds v name bytes d).0.0 ≡ false)
        × ((fat_write_root drive rounds v name bytes d).1 ≡ d)
  unfolding fat_write_root
  unmounted_write rounds v name bytes d h = rw (none_kind v.fs_kind h, fat_write_root) (refl, refl)

  -- `fat_mount` returns 0 exactly if there is a volume of some kind afterwards, and after it has failed,
  -- `fat_write_root` fails and leaves the disk as it is.
  pub fat_write_root-mount_fails :
      (rounds : ℕ) (v : Volume) (name bytes : List ℕ) (d : Image)
      → let m = fat_mount drive rounds v d in
        (m.0 ≡ is_mounted m.1)
        × ((m.0 ≡ true)
            ⊎ (((fat_write_root drive rounds m.1 name bytes d).0.0 ≡ false)
                × ((fat_write_root drive rounds m.1 name bytes d).1 ≡ d)))
  fat_write_root-mount_fails rounds v name bytes d =
      let m = fat_mount drive rounds v d in
      let kind = fat_mount_kind rounds v d in
      (
        kind,
        elim (Bool-cases m.0) [
          | inl mounted ↦ inl mounted
          | inr failed ↦ inr (unmounted_write rounds m.1 name bytes d (sym kind ∙ failed))
        ],
      )
