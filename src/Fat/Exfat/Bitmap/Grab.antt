-- ===== src/Fat/Exfat/Bitmap/Grab.antt =====
-- The cluster that is taken from the bitmap of an exFAT volume.
use bonfire_os.Base.{
  ℕ, suc, zero, true, false, some, refl, inl, inr, ◌==◌, ◌≤◌, ◌≡◌, ◌≢◌, ◌<◌, ◌+◌, arith,
  Option-cases, Bool-cases, ap, ◌∙◌, ==→eq, if◌then◌else◌, u32, ◌-◌,
}
use bonfire_os.Fat.Disk.{Drive}
use bonfire_os.Fat.Volume.{Volume}
use bonfire_os.Fat.Exfat.Bitmap.{
  exfat_bitmap_is_free, exfat_bitmap_modify_bit, grab_from, exfat_grab_cluster,
}
use bonfire_os.Fat.Exfat.Bitmap.RoundTrip.{exfat_bitmap_is_free-modify_bit}

module _ (drive : Drive) (v : Volume) where
  open drive use {Image}

  -- `r` is the first free cluster of the `n` from `c` on, and the disk with its bit set.
  record Taken (n c : ℕ) (d : Image) (r : ℕ × Image) : Type 0 where
    pub from : c ≤ r.0
    pub to : r.0 < c + n
    pub was_free : exfat_bitmap_is_free drive v r.0 d ≡ some true
    pub smaller_used : (j : ℕ) → c ≤ j → j < r.0 → exfat_bitmap_is_free drive v j d ≡ some false
    pub done : (exfat_bitmap_modify_bit drive v r.0 true d).0 ≡ true
    pub image : r.1 ≡ (exfat_bitmap_modify_bit drive v r.0 true d).1

  later_Taken :
      (n c : ℕ) (d : Image) (r : ℕ × Image)
      → exfat_bitmap_is_free drive v c d ≡ some false
      → Taken n (c + 1) d r
      → Taken (suc n) c d r
  later_Taken n c d r used t = record {
    from = omega (arith, t.from);
    to = omega (arith, t.to);
    was_free = t.was_free;
    smaller_used = λ j low high. elim (Bool-cases (j == c)) [
      | inl same ↦ ap (λ k. exfat_bitmap_is_free drive v k d) (==→eq j c same) ∙ used
      | inr apart ↦ t.smaller_used j (ground (arith, low, apart)) high
    ];
    done = t.done;
    image = t.image;
  }

  here_Taken :
      (n c : ℕ) (d : Image)
      → exfat_bitmap_is_free drive v c d ≡ some true
      → (exfat_bitmap_modify_bit drive v c true d).0 ≡ true
      → Taken (suc n) c d (c, (exfat_bitmap_modify_bit drive v c true d).1)
  here_Taken n c d free done = record {
    from = omega arith;
    to = omega arith;
    was_free = free;
    smaller_used = λ j low high. absurd (omega (arith, low, high));
    done = done;
    image = refl;
  }

  grab_from-Taken :
      (n c : ℕ) (d : Image)
      → (grab_from drive n c v d).0 ≢ 0
      → Taken n c d (grab_from drive n c v d)
  unfolding grab_from
  grab_from-Taken zero c d = λ some_cluster. absurd (some_cluster refl)
  grab_from-Taken (suc n) c d = elim (Option-cases (exfat_bitmap_is_free drive v c d)) [
    | inl failed ↦ rw (failed, grab_from) (λ h. absurd (h refl))
    | inr (free, found) ↦ elim (Bool-cases free) [
      | inr used ↦
          rw (found, used, grab_from)
            (λ h. later_Taken n c d _ (found ∙ ap some used) (grab_from-Taken n (c + 1) d h))
      | inl unused ↦
          rw (found, unused, grab_from)
            (elim (Bool-cases (exfat_bitmap_modify_bit drive v c true d).0) [
              | inr not_done ↦ rw not_done (λ h. absurd (h refl))
              | inl done ↦ rw done (λ h. here_Taken n c d (found ∙ ap some unused) done)
            ])
    ]
  ]

  -- When `exfat_grab_cluster` returns a cluster, that was the first free one of the bitmap, it is in the
  -- volume, and afterwards it is in use, while the bit of every other cluster is as it was, for volumes
  -- with less than 2^32 - 2 clusters.
  pub exfat_grab_cluster_first :
      (d : Image)
      → v.exfat_cluster_count < 4294967294
      → let g = exfat_grab_cluster drive v d in
        g.0 ≢ 0
        → (2 ≤ g.0)
          × (g.0 < 2 + v.exfat_cluster_count)
          × (exfat_bitmap_is_free drive v g.0 d ≡ some true)
          × ((j : ℕ) → 2 ≤ j → j < g.0 → exfat_bitmap_is_free drive v j d ≡ some false)
          × ((j : ℕ)
              → j < 4294967296
              → exfat_bitmap_is_free drive v j g.1
                ≡ (if j == g.0 then some false else exfat_bitmap_is_free drive v j d))
  unfolding exfat_grab_cluster
  exfat_grab_cluster_first d small h =
      let t = grab_from-Taken (u32 (v.exfat_cluster_count + 2) - 2) 2 d h in
      (
        t.from,
        omega (arith, t.to, small),
        t.was_free,
        t.smaller_used,
        λ j lt.
            ap (λ d'. exfat_bitmap_is_free drive v j d') t.image
            ∙ exfat_bitmap_is_free-modify_bit drive v _ j true d (omega (arith, t.to, small)) lt
                t.done,
      )
