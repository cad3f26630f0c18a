-- ===== src/Net/Tcp/Dispatch.antt =====
-- `tcp_ipv4_input` where the segment is too short, and where it is read.
use bonfire_os.Base.{ℕ, ◌≡◌, none, some, List}
use bonfire_os.Net.Tcp.{
  Net, Segment, parse_segment, tcp_segment_input, tcp_ipv4_input, opens, confirms, requests,
  answers, brings_data, finishes, confirm_open, close_client, accept_syn, serve, complete_handshake,
  receive,
}

module _ (pkt : List ℕ) (src dst : ℕ) (n : Net) where
  pub input_short : parse_segment pkt ≡ none → tcp_ipv4_input pkt src dst n ≡ n
  unfolding tcp_ipv4_input
  input_short e = rw (e, tcp_ipv4_input)

  pub input_parsed :
      (s : Segment)
      → parse_segment pkt ≡ some s
      → tcp_ipv4_input pkt src dst n ≡ tcp_segment_input src dst s n
  unfolding tcp_ipv4_input
  input_parsed s e = rw (e, tcp_ipv4_input)

-- Unfolding this opens every branch of the input.
unfoldable pub all_branches : Unit {0}
unfolding tcp_segment_input opens confirms requests answers brings_data finishes confirm_open
    close_client accept_syn serve complete_handshake receive
all_branches = tt
