-- ===== src/Fat/Files/RoundTrip.antt =====
-- What is written along a chain of clusters is read back along it.
use bonfire_os.Base.{
  ℕ, zero, suc, ◌+◌, true, false, [], ◌∷◌, ◌≢◌, List, ◌≤◌, ◌≡◌, All, ◌<◌, ◌-◌, ◌/◌, ◌⊎◌, subst, ◌*◌,
  sym, arith, refl, inl, inr, ◌==◌, Bool, Bool-cases, if_elim, ltb, length, not, ◌∙◌, ◌++◌, drop,
  ==_of_ne, ap, take, length-take, length-drop,
}
use bonfire_os.Fat.Disk.{Drive, bytes_per_sector}
use bonfire_os.Fat.Volume.{Volume, cluster_to_lba}
use mathlib.Core.Path.{ap₂}
use mathlib.Core.Bool.{◌||◌}
use bonfire_os.Fat.Table.{get_fat_entry_fat1216}
use bonfire_os.Fat.Table.Store.{first_byte, IsWhole}
use bonfire_os.Fat.Table.RoundTrip.{get_same}
use bonfire_os.Fat.Files.{
  in_chain, read_sectors, read_chain, write_sectors, write_chain, fat1216_write_bytes,
}
use bonfire_os.Fat.Files.Sectors.{
  IsByte, IsByte-drop, passed, take-drop, write_sectors-other, write_sectors-rest,
  read_sectors-write,
}

blocks_apart : (a k n : ℕ) → a * n + n ≤ (a + 1 + k) * n
blocks_apart a k n = grind arith

-- Two clusters have no sector in common.
clusters_apart :
    (a b n : ℕ)
    → a ≢ b
    → 2 ≤ a
    → 2 ≤ b
    → ((a - 2) * n + n ≤ (b - 2) * n) ⊎ ((b - 2) * n + n ≤ (a - 2) * n)
clusters_apart a b n ne ha hb = elim (Bool-cases (ltb a b)) [
  | inl less ↦
      inl (subst (λ m. (a - 2) * n + n ≤ m * n) (ground arith) (blocks_apart (a - 2) (b - a - 1) n))
  | inr more ↦
      inr (subst (λ m. (b - 2) * n + n ≤ m * n) (ground arith) (blocks_apart (b - 2) (a - b - 1) n))
]

left_over :
    (n : ℕ) (xs rest : List ℕ) → rest ≡ drop n xs → length xs - length (take n xs) ≡ length rest
left_over n xs rest e = omega (arith, ap length e, length-take n xs, length-drop n xs)

module _ (drive : Drive) (v : Volume) where
  open drive use {Image, ata_read, ata_write}

  -- The chain that begins at `c` has these clusters, none of them twice, and their entries lie before
  -- the clusters and do not reach from one sector into the next.
  unfoldable pub IsChain : List ℕ → ℕ → Image → Type 0
  IsChain [] c d = in_chain v c ≡ false
  IsChain (k ∷ ks) c d =
      (k ≡ c)
      × (in_chain v c ≡ true)
      × (v.fat_start_lba + first_byte v c / bytes_per_sector < v.data_start_lba)
      × IsWhole v c
      × All (λ later. later ≢ c) ks
      × IsChain ks (get_fat_entry_fat1216 drive v c d) d

  -- The sector is not in one of these clusters.
  unfoldable IsOutside : ℕ → List ℕ → Type 0
  IsOutside s ks =
      All (λ k. (s < cluster_to_lba v k) ⊎ (cluster_to_lba v k + v.sectors_per_cluster ≤ s)) ks

  IsChain-same :
      (ks : List ℕ) (c : ℕ) (d d' : Image)
      → ((s : ℕ) → s < v.data_start_lba → ata_read s d' ≡ ata_read s d)
      → IsChain ks c d
      → IsChain ks c d'
  unfolding IsChain
  IsChain-same [] c d d' same h = h
  IsChain-same (k ∷ ks) c d d' same (e, inside, low, whole, once, more) = (
    e,
    inside,
    low,
    whole,
    once,
    subst (λ next. IsChain ks next d') (sym (get_same drive v c d d' whole (same _ low)))
        (IsChain-same ks _ d d' same more),
  )

  IsOutside-other :
      (ks : List ℕ) (c s : ℕ)
      → All (λ later. later ≢ c) ks
      → All (λ later. 2 ≤ later) ks
      → 2 ≤ c
      → cluster_to_lba v c ≤ s
      → s < cluster_to_lba v c + v.sectors_per_cluster
      → IsOutside s ks
  unfolding IsOutside cluster_to_lba
  IsOutside-other [] c s ne two here low high = tt
  IsOutside-other (k ∷ ks) c s (ne, nes) (two, twos) here low high = (
    omega (arith, clusters_apart k c v.sectors_per_cluster ne two here, low, high),
    IsOutside-other ks c s nes twos here low high,
  )

  IsOutside-low : (ks : List ℕ) (s : ℕ) → s < v.data_start_lba → IsOutside s ks
  unfolding IsOutside cluster_to_lba
  IsOutside-low [] s h = tt
  IsOutside-low (k ∷ ks) s h = (inl (omega (arith, h)), IsOutside-low ks s h)

  IsChain-two : (ks : List ℕ) (c : ℕ) (d : Image) → IsChain ks c d → All (λ k. 2 ≤ k) ks
  unfolding IsChain
  IsChain-two [] c d h = tt
  IsChain-two (k ∷ ks) c d (e, inside, low, whole, once, more) =
      (ground (arith, e, inside), IsChain-two ks _ d more)

  -- Writing into a cluster leaves what lies before the clusters as it is.
  write_sectors-low :
      (c : ℕ) (xs : List ℕ) (d : Image) (s : ℕ)
      → s < v.data_start_lba
      → ata_read s (write_sectors drive v.sectors_per_cluster (cluster_to_lba v c) xs d).1.1
        ≡ ata_read s d
  unfolding cluster_to_lba
  write_sectors-low c xs d s h =
      write_sectors-other drive v.sectors_per_cluster _ xs d s (inl (omega (arith, h)))

  after_write :
      (ks : List ℕ) (c k : ℕ) (xs : List ℕ) (d : Image)
      → IsChain ks c d
      → IsChain ks c (write_sectors drive v.sectors_per_cluster (cluster_to_lba v k) xs d).1.1
  after_write ks c k xs d = IsChain-same ks c d _ (write_sectors-low k xs d)

  write_chain-other :
      (ks : List ℕ) (fuel c : ℕ) (xs : List ℕ) (d : Image) (s : ℕ)
      → IsChain ks c d
      → IsOutside s ks
      → ata_read s (write_chain drive fuel v c xs d).1 ≡ ata_read s d
  unfolding write_chain IsChain IsOutside
  write_chain-other ks zero c xs d s h out = refl
  write_chain-other [] (suc fuel) c xs d s h out =
      if_elim (λ (r : Bool × Image). ata_read s r.1 ≡ ata_read s d)
        (length xs == 0 || not (in_chain v c)) _ _ (λ _. refl) (λ b. absurd (ground (arith, b, h)))
  write_chain-other (k ∷ ks) (suc fuel) c xs d s (e, inside, low, whole, once, more) (out, outs) =
      let w = write_sectors drive v.sectors_per_cluster (cluster_to_lba v c) xs d in
      let P = λ (r : Bool × Image). ata_read s r.1 ≡ ata_read s d in
      let first = write_sectors-other drive v.sectors_per_cluster (cluster_to_lba v c) xs d s (
        subst (λ j. (s < cluster_to_lba v j) ⊎ (cluster_to_lba v j + v.sectors_per_cluster ≤ s)) e
          out) in
      if_elim P (length xs == 0 || not (in_chain v c)) _ _ (λ _. refl)
        (λ _.
          if_elim P w.0 _ _
            (λ _.
              write_chain-other ks fuel _ w.1.0 w.1.1 s
                (after_write (k ∷ ks) c c xs d (e, inside, low, whole, once, more)).5 outs
              ∙ first)
            (λ _. first))

  -- A round that writes: the sectors of the cluster could be written, and the rest of the chain follows.
  write_chain_step :
      (fuel c x : ℕ) (xs : List ℕ) (d : Image)
      → in_chain v c ≡ true
      → let w = write_sectors drive v.sectors_per_cluster (cluster_to_lba v c) (x ∷ xs) d in
        (write_chain drive (suc fuel) v c (x ∷ xs) d).0 ≡ true
        → (w.0 ≡ true)
          × (write_chain drive (suc fuel) v c (x ∷ xs) d
              ≡ write_chain drive fuel v (get_fat_entry_fat1216 drive v c w.1.1) w.1.0 w.1.1)
  unfolding write_chain
  write_chain_step fuel c x xs d inside done =
      let w = write_sectors drive v.sectors_per_cluster (cluster_to_lba v c) (x ∷ xs) d in
      passed (length (x ∷ xs) == 0 || not (in_chain v c)) w.0 _ _ _ (ground (arith, inside)) done

  read_chain_step :
      (fuel c left : ℕ) (xs : List ℕ) (D : Image)
      → left ≢ 0
      → in_chain v c ≡ true
      → read_sectors drive v.sectors_per_cluster (cluster_to_lba v c) left D ≡ (xs, true)
      → read_chain drive (suc fuel) v c left D
        ≡ xs ++ read_chain drive fuel v (get_fat_entry_fat1216 drive v c D) (left - length xs) D
  unfolding read_chain
  read_chain_step fuel c left xs D some_left inside reads =
      rw (==_of_ne left 0 some_left, inside, reads, read_chain) refl

  -- What has been written along a chain is read along it from any disk that reads the same in the
  -- chain's clusters and before the clusters.
  read_chain-write :
      (ks : List ℕ) (fuel c : ℕ) (xs : List ℕ) (d D : Image)
      → IsChain ks c d
      → All IsByte xs
      → (write_chain drive fuel v c xs d).0 ≡ true
      → ((s : ℕ) → s < v.data_start_lba → ata_read s D ≡ ata_read s d)
      → ((s : ℕ) → ata_read s D ≡ ata_read s (write_chain drive fuel v c xs d).1)
      → read_chain drive fuel v c (length xs) D ≡ xs
  unfolding read_chain write_chain IsChain
  read_chain-write ks zero c [] d D chain a done before after = refl
  read_chain-write ks zero c (x ∷ xs) d D chain a done before after = absurd (ground (arith, done))
  read_chain-write ks (suc fuel) c [] d D chain a done before after = refl
  read_chain-write [] (suc fuel) c (x ∷ xs) d D chain a done before after =
      absurd (ground (arith, chain, done))
  read_chain-write (k ∷ ks) (suc fuel) c (x ∷ xs) d D (e, inside, low, whole, once, more) a done
        before after =
      let bytes = x ∷ xs in
      let (ok, same) = write_chain_step fuel c x xs d inside done in
      let w = write_sectors drive v.sectors_per_cluster (cluster_to_lba v c) bytes d in
      let size = v.sectors_per_cluster * bytes_per_sector in
      let rest = write_sectors-rest drive v.sectors_per_cluster (cluster_to_lba v c) bytes d ok in
      let next = get_fat_entry_fat1216 drive v c w.1.1 in
      let chain = (after_write (k ∷ ks) c c bytes d (e, inside, low, whole, once, more)).5 in
      let end = λ (s : ℕ). after s ∙ ap (λ r. ata_read s r.1) same in
      let unchanged = λ (s : ℕ) (lt : s < v.data_start_lba).
        before s lt ∙ sym (write_sectors-low c bytes d s lt) in
      let here =
        read_sectors-write drive v.sectors_per_cluster (cluster_to_lba v c) bytes d D a ok
          (λ s from to.
            end s
            ∙ write_chain-other ks fuel next w.1.0 w.1.1 s chain (
                IsOutside-other ks c s once (IsChain-two ks _ d more) (ground (arith, inside)) from
                  to)) in
      let later =
        read_chain-write ks fuel next w.1.0 w.1.1 D chain
          (subst (All IsByte) (sym rest) (IsByte-drop size bytes a))
          (sym (ap (λ r. r.0) same) ∙ done) unchanged end in
      read_chain_step fuel c (length bytes) (take size bytes) D (omega arith) inside here
      ∙ ap₂ (λ (n m : ℕ). take size bytes ++ read_chain drive fuel v n m D)
          (get_same drive v c w.1.1 D whole (unchanged _ low)) (left_over size bytes w.1.0 rest)
      ∙ ap (λ t. take size bytes ++ t) (later ∙ rest)
      ∙ take-drop size bytes

  pub read_chain-write_bytes :
      (first : ℕ) (clusters xs : List ℕ) (d : Image)
      → IsChain clusters first d
      → All IsByte xs
      → (fat1216_write_bytes drive v first xs d).0 ≡ true
      → read_chain drive (length xs) v first (length xs) (fat1216_write_bytes drive v first xs d).1
        ≡ xs
  unfolding fat1216_write_bytes
  read_chain-write_bytes first clusters xs d chain a done =
      read_chain-write clusters (length xs) first xs d _ chain a done
        (λ s lt.
          write_chain-other clusters (length xs) first xs d s chain (IsOutside-low clusters s lt))
        (λ s. refl)
