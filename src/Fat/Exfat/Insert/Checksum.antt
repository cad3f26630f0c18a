-- ===== src/Fat/Exfat/Insert/Checksum.antt =====
-- The sum in the entries of a file on an exFAT volume.
use mathlib.Core.Path.{ap₂}
use mathlib.Core.Bool.{◌||◌}
use bonfire_os.Base.{
  ℕ, suc, zero, true, false, [], refl, ◌∷◌, ◌==◌, ◌&&◌, Bool, List, ◌<◌, ◌≢◌, ◌≤◌, ◌≡◌, ◌+◌,
  if◌then◌else◌, arith, ap, if_elim, u16, ◌∙◌, length, ◌%◌, ◌/◌, ◌*◌, inl, inr, Bool-cases,
}
use bonfire_os.Fat.Disk.{rd16, wr16, get_bytes}
use bonfire_os.Fat.Exfat.Insert.{exfat_chksum16_buf, chksum_entries, file_set}

chksum_small :
    (xs : List ℕ) (i sum : ℕ) (t : Bool) → sum < 65536 → exfat_chksum16_buf xs i sum t < 65536
unfolding exfat_chksum16_buf
chksum_small [] i sum t h = h
chksum_small (b ∷ bs) i sum t h =
    chksum_small bs (i + 1) _ t
      (if_elim (λ s. s < 65536) (t && (i == 2 || i == 3)) _ _ (λ _. h) (λ _. omega arith))

entries_small :
    (n off : ℕ) (set : ℕ → ℕ) (sum : ℕ) → sum < 65536 → chksum_entries n off set sum < 65536
unfolding chksum_entries
entries_small zero off set sum h = h
entries_small (suc n) off set sum h =
    entries_small n (off + 32) set _ (chksum_small (get_bytes set off 32) 0 sum false h)

-- Bytes 2 and 3 do not count.
chksum_first :
    (f g : ℕ → ℕ) (n i sum : ℕ)
    → ((j : ℕ) → j ≢ 2 → j ≢ 3 → f j ≡ g j)
    → exfat_chksum16_buf (get_bytes f i n) i sum true
      ≡ exfat_chksum16_buf (get_bytes g i n) i sum true
unfolding exfat_chksum16_buf get_bytes
chksum_first f g zero i sum same = refl
chksum_first f g (suc n) i sum same =
    ap (λ s. exfat_chksum16_buf (get_bytes f (i + 1) n) (i + 1) s true) step
    ∙ chksum_first f g n (i + 1) _ same
  where
    step :
        (if true && (i == 2 || i == 3) then sum else u16 (sum % 2 * 32768 + sum / 2 + f i))
        ≡ (if true && (i == 2 || i == 3) then sum else u16 (sum % 2 * 32768 + sum / 2 + g i))
    step = elim (Bool-cases (i == 2 || i == 3)) [
      | inl skip ↦ rw (skip) refl
      | inr counts ↦
          ap (λ x. if i == 2 || i == 3 then sum else u16 (sum % 2 * 32768 + sum / 2 + x))
            (same i (λ e. absurd (ground (arith, e, counts)))
              (λ e. absurd (ground (arith, e, counts))))
    ]

get_bytes_same :
    (f g : ℕ → ℕ) (n i : ℕ) → ((j : ℕ) → i ≤ j → f j ≡ g j) → get_bytes f i n ≡ get_bytes g i n
unfolding get_bytes
get_bytes_same f g zero i same = refl
get_bytes_same f g (suc n) i same =
    ap₂ ◌∷◌ (same i (omega arith)) (get_bytes_same f g n (i + 1) (λ j h. same j (omega (arith, h))))

entries_same :
    (f g : ℕ → ℕ) (n off sum : ℕ)
    → ((j : ℕ) → off ≤ j → f j ≡ g j)
    → chksum_entries n off f sum ≡ chksum_entries n off g sum
unfolding chksum_entries
entries_same f g zero off sum same = refl
entries_same f g (suc n) off sum same =
    ap (λ bs. chksum_entries n (off + 32) f (exfat_chksum16_buf bs 0 sum false))
      (get_bytes_same f g 32 off same)
    ∙ entries_same f g n (off + 32) _ (λ j h. same j (omega (arith, h)))

stored_word : (s : ℕ) → s < 65536 → s % 256 + 256 * (s / 256 % 256) ≡ s
stored_word s h = omega (arith, h)

wr16_other : (f : ℕ → ℕ) (j s : ℕ) → j ≢ 2 → j ≢ 3 → f j ≡ wr16 f 2 s j
wr16_other f j s h2 h3 = ground arith

-- A sum of a set of entries that is put into bytes 2 and 3 of it.
stored_sum :
    (f : ℕ → ℕ) (n : ℕ)
    → let sum = chksum_entries n 32 f (exfat_chksum16_buf (get_bytes f 0 32) 0 0 true) in
      let set = wr16 f 2 sum in
      rd16 set 2 ≡ chksum_entries n 32 set (exfat_chksum16_buf (get_bytes set 0 32) 0 0 true)
stored_sum f n =
    let sum = chksum_entries n 32 f (exfat_chksum16_buf (get_bytes f 0 32) 0 0 true) in
    let set = wr16 f 2 sum in
    let small = entries_small n 32 f _ (chksum_small (get_bytes f 0 32) 0 0 true (omega arith)) in
    stored_word sum small
    ∙ ap (chksum_entries n 32 f) (chksum_first f set 32 0 0 (λ j h2 h3. wr16_other f j sum h2 h3))
    ∙ entries_same f set n 32 _ (λ j h.
      wr16_other f j sum (λ e. absurd (omega (arith, e, h))) (λ e. absurd (omega (arith, e, h))))

-- The sum that stands in the entries which `exfat_write_root` writes for a file is the sum that a reader
-- of the directory computes over these entries, for every name, first cluster and size.
pub file_set-checksum :
    (w : List ℕ) (first size : ℕ)
    → let set = file_set w first size in
      rd16 set 2
      ≡ chksum_entries
          (1 + (length w + 14) / 15)
          32
          set
          (exfat_chksum16_buf (get_bytes set 0 32) 0 0 true)
unfolding file_set
file_set-checksum w first size = stored_sum _ (1 + (length w + 14) / 15)
