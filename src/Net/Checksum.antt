-- ===== src/Net/Checksum.antt =====
-- src/kernel/net/net_checksum.c, and the sum that net_tcp.c computes over a segment.
pub mod Verify
use bonfire_os.Base.{
  ℕ, zero, suc, ◌+◌, ◌-◌, ◌*◌, ◌/◌, ◌%◌, ◌^◌, ◌≤◌, ◌<◌, ◌≡◌, ◌≢◌, refl, List, [], ◌∷◌, ◌++◌, arith,
  length, ◌==◌, if◌then◌else◌, u16, u32, All,
}

-- while (sum >> 16) sum = (sum & 0xFFFF) + (sum >> 16);
unfoldable pub fold : ℕ → ℕ → ℕ
fold zero sum = sum
fold (suc fuel) sum =
    let rest = fold fuel (sum % 65536 + sum / 65536) in if sum / 65536 == 0 then sum else rest

-- The 16-bit words of the data as the processor reads them, low byte first; a last odd byte is
-- added as a high byte.
unfoldable pub sum_words : ℕ → List ℕ → ℕ
sum_words sum [] = sum
sum_words sum (a ∷ []) = u32 (sum + u16 (a * 256))
sum_words sum (a ∷ b ∷ rest) = sum_words (u32 (sum + (a + b * 256))) rest

unfoldable pub net_checksum16 : List ℕ → ℕ
net_checksum16 bytes = 65535 - fold 3 (sum_words 0 bytes)

-- The sum of `tcp_cksum` over the segment: words in network order, high byte first.
unfoldable pub sum_network : ℕ → List ℕ → ℕ
sum_network sum [] = sum
sum_network sum (a ∷ []) = u32 (sum + a * 256)
sum_network sum (a ∷ b ∷ rest) = sum_network (u32 (sum + (a * 256 + b))) rest

unfoldable pub pseudo_sum : ℕ → ℕ → ℕ → ℕ
pseudo_sum saddr daddr tcp_len =
    u32 (saddr / 65536 + saddr % 65536 + (daddr / 65536 + daddr % 65536) + 6 + u16 tcp_len)

unfoldable pub tcp_cksum : ℕ → ℕ → List ℕ → ℕ
tcp_cksum saddr daddr tcp = 65535 - fold 3 (sum_network (pseudo_sum saddr daddr (length tcp)) tcp)

fold_stable : (fuel sum : ℕ) → sum < 65536 → fold fuel sum ≡ sum
unfolding fold
fold_stable zero sum h = refl
fold_stable (suc fuel) sum h = ground arith

-- Two rounds bring every 32-bit sum below 2^16, where the loop's test ends it: more fuel than 3
-- makes no difference. The sum stays the same modulo 65535, and only 0 becomes 0.
pub fold_lem :
    (sum n : ℕ)
    → sum < 2 ^ 32
    → (fold 3 sum < 65536)
      × (fold 3 sum % 65535 ≡ sum % 65535)
      × (fold 3 sum ≡ 0 → sum ≡ 0)
      × (fold (suc (suc (suc n))) sum ≡ fold 3 sum)
unfolding fold
fold_lem sum n h = (
  ground arith,
  ground arith,
  λ e. ground arith,
  ground (arith, fold_stable n, fold_stable n (third sum), third_small),
)
  where
    third : ℕ → ℕ
    third s =
        let t = s % 65536 + s / 65536 in let u = t % 65536 + t / 65536 in u % 65536 + u / 65536

    third_small : third sum < 65536
    third_small = omega arith
