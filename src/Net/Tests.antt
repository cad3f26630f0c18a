-- ===== src/Net/Tests.antt =====
-- The network's theorems at concrete inputs.
use bonfire_os.Base.{
  ℕ, ◌+◌, ◌/◌, ◌%◌, ◌≤◌, ◌≡◌, ◌≢◌, ◌⊎◌, refl, arith, some, List, [], ◌∷◌, ◌++◌, false, true, length,
  u32, replicate,
}
use bonfire_os.Net.Checksum.{fold, sum_words, sum_network, pseudo_sum, net_checksum16, tcp_cksum}
use bonfire_os.Net.Checksum.Verify.{tcp_cksum_verifies, net_checksum16_verifies}
use bonfire_os.Net.Loopback.{Loopback, loopback_xmit, loopback_fetch}
use bonfire_os.Net.Loopback.Queue.{
  packets, IsValid, loopback_xmit-packets, loopback_xmit-IsValid, loopback_fetch-packets,
}
use bonfire_os.Net.Tcp.{
  TcpState, closed, listen, syn_rcvd, established, Tcb, Net, Segment, parse_segment, tcp_ipv4_input,
  has_ack, has_syn, srv_port,
}
use bonfire_os.Net.Tcp.Dispatch.{all_branches}
use bonfire_os.Net.Tcp.States.{ServerStep, ClientStep, tcp_ipv4_input-steps, established_needs_ack}
use bonfire_os.Net.Tcp.Data.{tcp_ipv4_input-rx}
use bonfire_os.Net.Stack.Ping.{net_ping_succeeds}
use bonfire_os.Net.Stack.{net_ping, net_poll, poll_fuel}
use bonfire_os.Net.Stack.Polling.{net_poll_terminates}

abbrev no_packets : Loopback
no_packets = record { lb_buf = λ i. []; lb_len = λ i. 0; lb_head = 15; lb_tail = 15 }

no_packets-IsValid : IsValid no_packets
no_packets-IsValid = record { head_in = omega arith; tail_in = omega arith; datagrams = tt }

abbrev packet : List ℕ
packet = 1 ∷ 2 ∷ 3 ∷ []

loopback_xmit-packets_example : packets (loopback_xmit packet no_packets) ≡ packet ∷ []
loopback_xmit-packets_example =
    loopback_xmit-packets packet no_packets no_packets-IsValid (omega arith, omega arith)

abbrev one_packet : Loopback
one_packet = loopback_xmit packet no_packets

one_packet-IsValid : IsValid one_packet
one_packet-IsValid = loopback_xmit-IsValid packet no_packets no_packets-IsValid

loopback_fetch-packets_example :
    (packets one_packet ≡ [] → loopback_fetch 2048 one_packet ≡ ([], one_packet))
    × ((p : List ℕ) (ps : List (List ℕ))
        → packets one_packet ≡ p ∷ ps
        → ((loopback_fetch 2048 one_packet).0 ≡ p)
          × (packets (loopback_fetch 2048 one_packet).1 ≡ ps)
          × IsValid (loopback_fetch 2048 one_packet).1)
loopback_fetch-packets_example = loopback_fetch-packets one_packet one_packet-IsValid

tcp_cksum_verifies_example :
    let c = tcp_cksum 0x7f000001 0x7f000001 (1 ∷ 200 ∷ 0 ∷ 0 ∷ 7 ∷ []) in
    let sent = 1 ∷ 200 ∷ c / 256 ∷ c % 256 ∷ 7 ∷ [] in
    fold 3 (sum_network (pseudo_sum 0x7f000001 0x7f000001 (length sent)) sent) ≡ 65535
tcp_cksum_verifies_example =
    tcp_cksum_verifies 0x7f000001 0x7f000001 (1 ∷ 200 ∷ []) (7 ∷ []) (omega arith) (omega arith)
      refl (omega arith)
      (omega arith, (omega arith, (omega arith, (omega arith, (omega arith, tt)))))

net_checksum16_verifies_example :
    let c = net_checksum16 (8 ∷ 0 ∷ 0 ∷ 0 ∷ 0x12 ∷ 0x34 ∷ []) in
    (fold 3 (sum_words 0 (8 ∷ 0 ∷ c % 256 ∷ c / 256 ∷ 0x12 ∷ 0x34 ∷ [])) ≡ 65535)
    × (fold 3 (sum_words 0 (8 ∷ 0 ∷ c / 256 ∷ c % 256 ∷ 0x12 ∷ 0x34 ∷ [])) ≡ 65535
        → c / 256 ≡ c % 256)
net_checksum16_verifies_example =
    net_checksum16_verifies (8 ∷ 0 ∷ []) (0x12 ∷ 0x34 ∷ []) refl (omega arith)
      (omega arith, (omega arith, (omega arith, (omega arith, (omega arith, (omega arith, tt))))))
      (omega arith)

abbrev tcb : TcpState → Tcb
tcb s = record {
  state = s;
  local_port = 0;
  remote_ip = 0;
  remote_port = 0;
  snd_una = 0;
  snd_nxt = 0;
  iss = 50000;
  rcv_nxt = 0;
  rx = [];
}

abbrev half_open : Net
half_open = record {
  srv = tcb syn_rcvd;
  cli = tcb established;
  lb = no_packets;
  icmp_echo_reply_rx = 0;
}

-- From port 49152 to port 80, acknowledging 50001, with ACK.
abbrev ack_segment : List ℕ
ack_segment =
    0x45 ∷ replicate 19 0
    ++ (192 ∷ 0 ∷ 0 ∷ 80 ∷ 0 ∷ 0 ∷ 0 ∷ 5 ∷ 0 ∷ 0 ∷ 195 ∷ 81 ∷ 0x50 ∷ 16 ∷ replicate 6 0)

tcp_ipv4_input-steps_example :
    let n' = tcp_ipv4_input ack_segment 1 1 half_open in
    ServerStep syn_rcvd n'.srv.state × ClientStep established n'.cli.state
tcp_ipv4_input-steps_example = tcp_ipv4_input-steps ack_segment 1 1 half_open

different : syn_rcvd ≢ established
different e = cc e

established_needs_ack_example :
    (s : Segment) × (parse_segment ack_segment ≡ some s)
    × (syn_rcvd ≡ syn_rcvd)
    × (s.dport ≡ srv_port)
    × (has_ack s.fl ≡ true)
    × (has_syn s.fl ≡ false)
    × (s.ack ≡ u32 (50000 + 1))
unfolding tcp_ipv4_input parse_segment all_branches
established_needs_ack_example = established_needs_ack ack_segment 1 1 half_open different refl

tcp_ipv4_input-rx_example :
    let n' = tcp_ipv4_input ack_segment 1 1 half_open in
    (length n'.cli.rx ≤ 4095)
    × ((n'.cli.rx ≡ [])
        ⊎ ((s : Segment) × (parse_segment ack_segment ≡ some s) × (n'.cli.rx ≡ [] ++ s.payload)))
tcp_ipv4_input-rx_example = tcp_ipv4_input-rx ack_segment 1 1 half_open (omega arith)

abbrev listening : Net
listening = record half_open { srv = tcb listen; cli = tcb closed; lb = one_packet }

net_poll_terminates_example :
    (n' : Net) × (net_poll poll_fuel listening ≡ some n') × (packets n'.lb ≡ []) × IsValid n'.lb
net_poll_terminates_example = net_poll_terminates listening one_packet-IsValid

abbrev quiet : Net
quiet = record listening { lb = no_packets }

net_ping_succeeds_example :
    (n' : Net) × (net_ping 0x7f000001 quiet ≡ some (true, n'))
    × (packets n'.lb ≡ [])
    × IsValid n'.lb
    × (n'.srv ≡ quiet.srv)
    × (n'.cli ≡ quiet.cli)
net_ping_succeeds_example = net_ping_succeeds 0x7f000001 quiet no_packets-IsValid refl
