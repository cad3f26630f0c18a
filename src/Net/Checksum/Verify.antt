-- ===== src/Net/Checksum/Verify.antt =====
-- Checksums, written back into the data, make the receiver's sum come out as 0xFFFF, or do not.
use bonfire_os.Base.{
  ℕ, ◌+◌, ◌-◌, ◌*◌, ◌/◌, ◌%◌, ◌^◌, ◌≤◌, ◌<◌, ◌≡◌, refl, ◌∙◌, List, [], ◌∷◌, ◌++◌, arith, length,
  u32, All, ap, sym,
}
use bonfire_os.Net.Checksum.{
  fold, fold_lem, sum_words, net_checksum16, sum_network, pseudo_sum, tcp_cksum,
}

-- The sums without wrapping.
abbrev total_network : List ℕ → ℕ
total_network [] = 0
total_network (a ∷ []) = a * 256
total_network (a ∷ b ∷ rest) = (a * 256 + b) + total_network rest

abbrev total_words : List ℕ → ℕ
total_words [] = 0
total_words (a ∷ []) = a * 256 % 65536
total_words (a ∷ b ∷ rest) = (a + b * 256) + total_words rest

abbrev pub Bytes : List ℕ → Type 0
Bytes = All (λ b. b < 256)

network_bound : (xs : List ℕ) → Bytes xs → total_network xs ≤ length xs * 65535
network_bound [] h = omega arith
network_bound (a ∷ []) h = omega arith
network_bound (a ∷ b ∷ rest) h = omega (arith, network_bound rest h.1.1)

words_bound : (xs : List ℕ) → Bytes xs → total_words xs ≤ length xs * 65535
words_bound [] h = omega arith
words_bound (a ∷ []) h = omega arith
words_bound (a ∷ b ∷ rest) h = omega (arith, words_bound rest h.1.1)

sum_network_lem :
    (s : ℕ) (xs : List ℕ) → s + total_network xs < 2 ^ 32 → sum_network s xs ≡ s + total_network xs
unfolding sum_network
sum_network_lem s [] h = omega arith
sum_network_lem s (a ∷ []) h = omega arith
sum_network_lem s (a ∷ b ∷ rest) h =
    sum_network_lem (u32 (s + (a * 256 + b))) rest (omega arith) ∙ omega arith

sum_words_lem :
    (s : ℕ) (xs : List ℕ) → s + total_words xs < 2 ^ 32 → sum_words s xs ≡ s + total_words xs
unfolding sum_words
sum_words_lem s [] h = omega arith
sum_words_lem s (a ∷ []) h = omega arith
sum_words_lem s (a ∷ c ∷ rest) h =
    sum_words_lem (u32 (s + (a + c * 256))) rest (omega arith) ∙ omega arith

total_network-insert :
    (pre post : List ℕ) (hi lo : ℕ)
    → length pre % 2 ≡ 0
    → total_network (pre ++ hi ∷ lo ∷ post) ≡ total_network (pre ++ 0 ∷ 0 ∷ post) + (hi * 256 + lo)
total_network-insert [] post hi lo e = omega arith
total_network-insert (a ∷ []) post hi lo e = absurd (omega arith)
total_network-insert (a ∷ b ∷ pre) post hi lo e =
    omega (arith, total_network-insert pre post hi lo (omega arith))

total_words-insert :
    (pre post : List ℕ) (lo hi : ℕ)
    → length pre % 2 ≡ 0
    → total_words (pre ++ lo ∷ hi ∷ post) ≡ total_words (pre ++ 0 ∷ 0 ∷ post) + (lo + hi * 256)
total_words-insert [] post lo hi e = omega arith
total_words-insert (a ∷ []) post lo hi e = absurd (omega arith)
total_words-insert (a ∷ b ∷ pre) post lo hi e =
    omega (arith, total_words-insert pre post lo hi (omega arith))

length-insert :
    (pre post : List ℕ) (a b : ℕ) → length (pre ++ a ∷ b ∷ post) ≡ length (pre ++ 0 ∷ 0 ∷ post)
length-insert [] post a b = refl
length-insert (x ∷ pre) post a b = omega (arith, length-insert pre post a b)

pseudo_sum_bound :
    (saddr daddr n : ℕ)
    → saddr < 2 ^ 32
    → daddr < 2 ^ 32
    → (pseudo_sum saddr daddr n < 2 ^ 31 - 2 ^ 30) × (0 < pseudo_sum saddr daddr n)
unfolding pseudo_sum
pseudo_sum_bound saddr daddr n hs hd = omega arith

fold_complement : (s : ℕ) → 0 < s → s < 2 ^ 31 → fold 3 (s + (65535 - fold 3 s)) ≡ 65535
fold_complement s pos h = omega (
  arith,
  fold_lem s 0 (omega arith),
  fold_lem (s + (65535 - fold 3 s)) 0 (omega arith),
  λ (e : fold 3 (s + (65535 - fold 3 s)) ≡ 0). empty e,
)
  where
    empty : fold 3 (s + (65535 - fold 3 s)) ≡ 0 → ⊥
    empty e = absurd (
        omega (
          arith,
          (fold_lem (s + (65535 - fold 3 s)) 0 (omega (arith, fold_lem s 0 (omega arith)))).2 e,
        ))

-- For a segment of at most 2048 bytes whose checksum field (two bytes behind an even number of
-- others) is 0, and any addresses: with the value of `tcp_cksum` in the field, high byte first, the
-- folded sum over the pseudo-header and the segment is 0xFFFF, as RFC 1071 asks of a receiver.
pub tcp_cksum_verifies :
    (saddr daddr : ℕ) (pre post : List ℕ)
    → saddr < 2 ^ 32
    → daddr < 2 ^ 32
    → length pre % 2 ≡ 0
    → length (pre ++ 0 ∷ 0 ∷ post) ≤ 2048
    → Bytes (pre ++ 0 ∷ 0 ∷ post)
    → let c = tcp_cksum saddr daddr (pre ++ 0 ∷ 0 ∷ post) in
      let sent = pre ++ c / 256 ∷ c % 256 ∷ post in
      fold 3 (sum_network (pseudo_sum saddr daddr (length sent)) sent) ≡ 65535
unfolding tcp_cksum
tcp_cksum_verifies saddr daddr pre post hs hd even short bytes =
    ap (fold 3) received
    ∙ fold_complement (p + total_network empty) (omega (arith, range)) (omega (arith, range, bound))
  where
    empty : List ℕ
    empty = pre ++ 0 ∷ 0 ∷ post

    p : ℕ
    p = pseudo_sum saddr daddr (length empty)

    range : (p < 2 ^ 31 - 2 ^ 30) × (0 < p)
    range = pseudo_sum_bound saddr daddr (length empty) hs hd

    bound : total_network empty ≤ length empty * 65535
    bound = network_bound empty bytes

    c : ℕ
    c = tcp_cksum saddr daddr empty

    sent : List ℕ
    sent = pre ++ c / 256 ∷ c % 256 ∷ post

    same : pseudo_sum saddr daddr (length sent) ≡ p
    same = ap (pseudo_sum saddr daddr) (length-insert pre post (c / 256) (c % 256))

    field : c ≡ 65535 - fold 3 (p + total_network empty)
    field = ap (λ s. 65535 - fold 3 s) (sum_network_lem p empty (omega (arith, range, bound)))

    inserted : total_network sent ≡ total_network empty + (c / 256 * 256 + c % 256)
    inserted = total_network-insert pre post (c / 256) (c % 256) even

    received :
        sum_network (pseudo_sum saddr daddr (length sent)) sent
        ≡ p + total_network empty + (65535 - fold 3 (p + total_network empty))
    received =
        sum_network_lem (pseudo_sum saddr daddr (length sent)) sent
          (omega (arith, range, bound, same, inserted, field))
        ∙ omega (arith, same, inserted, field)

-- The same for `net_checksum16`, whose words are read low byte first: the sum verifies with the
-- checksum stored low byte first. Stored high byte first, as `ipv4_output` and `icmp_input` store
-- it, it verifies only where its two bytes happen to be equal.
pub net_checksum16_verifies :
    (pre post : List ℕ)
    → length pre % 2 ≡ 0
    → length (pre ++ 0 ∷ 0 ∷ post) ≤ 2048
    → Bytes (pre ++ 0 ∷ 0 ∷ post)
    → 0 < total_words (pre ++ 0 ∷ 0 ∷ post)
    → let c = net_checksum16 (pre ++ 0 ∷ 0 ∷ post) in
      (fold 3 (sum_words 0 (pre ++ c % 256 ∷ c / 256 ∷ post)) ≡ 65535)
      × (fold 3 (sum_words 0 (pre ++ c / 256 ∷ c % 256 ∷ post)) ≡ 65535 → c / 256 ≡ c % 256)
unfolding net_checksum16
net_checksum16_verifies pre post even short bytes positive = (
  ap (fold 3) (received (c % 256) (c / 256) (omega (arith, field, bound)))
      ∙ ap (fold 3) (omega (arith, field, bound))
      ∙ fold_complement t positive small,
  λ e. omega (
    arith,
    field,
    fold_lem t 0 (omega (arith, small)),
    fold_lem (t + (c / 256 + c % 256 * 256)) 0 (omega (arith, small, field)),
    sym (ap (fold 3) (received (c / 256) (c % 256) (omega (arith, field, bound)))) ∙ e,
  ),
)
  where
    empty : List ℕ
    empty = pre ++ 0 ∷ 0 ∷ post

    t : ℕ
    t = total_words empty

    bound : t ≤ length empty * 65535
    bound = words_bound empty bytes

    small : t < 2 ^ 31
    small = omega (arith, bound)

    c : ℕ
    c = net_checksum16 empty

    field : c ≡ 65535 - fold 3 t
    field = ap (λ s. 65535 - fold 3 s) (sum_words_lem 0 empty (omega (arith, bound)) ∙ omega arith)

    received :
        (x y : ℕ) → x + y * 256 < 2 ^ 30 → sum_words 0 (pre ++ x ∷ y ∷ post) ≡ t + (x + y * 256)
    received x y h =
        sum_words_lem 0 (pre ++ x ∷ y ∷ post)
          (omega (arith, bound, total_words-insert pre post x y even))
        ∙ omega (arith, total_words-insert pre post x y even)
