-- ===== src/Net/Tcp/Data.antt =====
-- The client's receive buffer.
use bonfire_os.Base.{
  ℕ, ◌+◌, ◌≤◌, ◌≡◌, ◌⊎◌, inl, inr, refl, some, List, ◌++◌, arith, length, Option-cases,
  length-append, ◌<◌, ap,
}
use bonfire_os.Net.Tcp.Dispatch.{input_short, input_parsed}
use bonfire_os.Net.Tcp.Dispatch.{all_branches}
use bonfire_os.Net.Tcp.{Net, Segment, parse_segment, tcp_segment_input, tcp_ipv4_input}

segment_input-rx :
    (src dst : ℕ) (s : Segment) (n : Net)
    → let n' = tcp_segment_input src dst s n in
      (n'.cli.rx ≡ n.cli.rx)
      ⊎ ((n'.cli.rx ≡ n.cli.rx ++ s.payload) × (length s.payload + length n.cli.rx < 4096))
unfolding all_branches
segment_input-rx src dst s n = ground arith

-- Whatever segment arrives, the client's data stays as it is or grows by the whole payload, and its
-- 4096-byte buffer is never overrun: it holds at most 4095 bytes if it did before.
pub tcp_ipv4_input-rx :
    (pkt : List ℕ) (src dst : ℕ) (n : Net)
    → length n.cli.rx ≤ 4095
    → let n' = tcp_ipv4_input pkt src dst n in
      (length n'.cli.rx ≤ 4095)
      × ((n'.cli.rx ≡ n.cli.rx)
          ⊎ ((s : Segment) × (parse_segment pkt ≡ some s) × (n'.cli.rx ≡ n.cli.rx ++ s.payload)))
tcp_ipv4_input-rx pkt src dst n fits = elim (Option-cases (parse_segment pkt)) [
  | inl short ↦ rw (input_short pkt src dst n short) (fits, inl refl)
  | inr (s, parsed) ↦
      rw (input_parsed pkt src dst n s parsed) (elim (segment_input-rx src dst s n) [
        | inl same ↦ (rw same fits, inl same)
        | inr (grown, room) ↦ (
          omega (arith, ap length grown, length-append n.cli.rx s.payload),
          inr (s, parsed, grown),
        )
      ])
]
