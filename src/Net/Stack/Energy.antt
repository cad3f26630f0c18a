-- ===== src/Net/Stack/Energy.antt =====
-- A measure of the work that is left for `net_poll`: what each waiting datagram can cause, and what
-- the two connections can still send. Every datagram taken lowers it.
use bonfire_os.Base.{
  ℕ, ◌+◌, ◌*◌, ◌/◌, ◌%◌, ◌≤◌, ◌<◌, ◌≡◌, refl, ap, inl, inr, true, List, [], ◌∷◌, ◌++◌, arith, ltb,
  ◌==◌, if◌then◌else◌, length, get_or, Bool-cases, if_elim, u32, u32, subst,
}
use bonfire_os.Net.Checksum.{tcp_cksum}
use bonfire_os.Net.Loopback.{Loopback, loopback_xmit}
use bonfire_os.Net.Loopback.Queue.{
  packets, queued, IsValid, IsDatagram-cases, loopback_xmit-packets, loopback_xmit-IsValid,
  loopback_xmit_refused,
}
use bonfire_os.Net.Ipv4.{ip_proto_tcp, datagram, ipv4_output}
use bonfire_os.Net.Tcp.{
  TcpState, closed, listen, syn_sent, syn_rcvd, established, Net, Segment, has_psh, segment,
  tcp_send_flags, tcp_segment_input, accept_syn, serve, complete_handshake, receive, tcp_ack,
  tcp_psh, tcp_syn, resp, opens, confirms, requests, answers, brings_data, finishes, confirm_open,
  close_client, srv_port, cli_port,
}

-- 2 for a TCP segment with PSH and for an ICMP echo request, 1 for all else.
unfoldable pub weight : List ℕ → ℕ
weight pkt =
    let ihl = get_or pkt 0 0 % 16 * 4 in
    if get_or pkt 9 0 == ip_proto_tcp
    then (if has_psh (get_or pkt (ihl + 13) 0) then 2 else 1)
    else (if get_or pkt ihl 0 == 8 then 2 else 1)

unfoldable pub weights : List (List ℕ) → ℕ
weights [] = 0
weights (p ∷ ps) = weight p + weights ps

-- What the waiting datagrams weigh.
unfoldable pub load : Loopback → ℕ
load q = weights (packets q)

-- What the server can still send of its own, and the client.
abbrev pub server_potential : TcpState → ℕ
server_potential listen = 3
server_potential syn_rcvd = 2
server_potential established = 2
server_potential _ = 0

abbrev pub client_potential : TcpState → ℕ
client_potential syn_sent = 1
client_potential _ = 0

unfoldable pub energy : Net → ℕ
energy n = load n.lb + server_potential n.srv.state + client_potential n.cli.state

weights-snoc : (ps : List (List ℕ)) (p : List ℕ) → weights (ps ++ p ∷ []) ≡ weights ps + weight p
unfolding weights
weights-snoc [] p = omega arith
weights-snoc (x ∷ ps) p = omega (arith, weights-snoc ps p)

pub load-xmit :
    (ip : List ℕ) (q : Loopback) → IsValid q → load (loopback_xmit ip q) ≤ load q + weight ip
unfolding load
load-xmit ip q v = elim (IsDatagram-cases ip) [
  | inr bad ↦ rw (loopback_xmit_refused ip q bad) (omega arith)
  | inl d ↦ elim (Bool-cases (ltb (queued q) 15)) [
    | inl room ↦ omega (
      arith,
      ap weights (loopback_xmit-packets ip q v d),
      ap (λ b. weights (if b then packets q ++ ip ∷ [] else packets q)) room,
      weights-snoc (packets q) ip,
    )
    | inr full ↦ omega (
      arith,
      ap weights (loopback_xmit-packets ip q v d),
      ap (λ b. weights (if b then packets q ++ ip ∷ [] else packets q)) full,
    )
  ]
]

weight-segment :
    (src dst sport dport seq ack flags hi lo : ℕ) (bytes : List ℕ)
    → weight (datagram ip_proto_tcp src dst (segment sport dport seq ack flags hi lo bytes))
      ≡ (if has_psh flags then 2 else 1)
unfolding weight
weight-segment src dst sport dport seq ack flags hi lo bytes = refl

load-output :
    (proto src dst : ℕ) (payload : List ℕ) (q : Loopback)
    → IsValid q
    → (load (ipv4_output proto src dst payload q)
        ≤ load q + weight (datagram proto src dst payload))
      × IsValid (ipv4_output proto src dst payload q)
unfolding ipv4_output
load-output proto src dst payload q v = elim (Bool-cases (ltb 2048 (20 + length payload))) [
  | inl long ↦ rw long (omega arith, v)
  | inr fits ↦ rw fits (
    load-xmit (datagram proto src dst payload) q v,
    loopback_xmit-IsValid (datagram proto src dst payload) q v,
  )
]

load-send :
    (src dst sport dport seq ack flags : ℕ) (bytes : List ℕ) (q : Loopback)
    → IsValid q
    → (load (tcp_send_flags src dst sport dport seq ack flags bytes q)
        ≤ load q + (if has_psh flags then 2 else 1))
      × IsValid (tcp_send_flags src dst sport dport seq ack flags bytes q)
unfolding tcp_send_flags
load-send src dst sport dport seq ack flags bytes q v =
    let (lighter, valid) = load-output ip_proto_tcp src dst sent q v in
    (
      subst (λ w. load (ipv4_output ip_proto_tcp src dst sent q) ≤ load q + w)
          (weight-segment src dst sport dport seq ack flags (c / 256) (c % 256) bytes) lighter,
      valid,
    )
  where
    c : ℕ
    c = tcp_cksum src dst (segment sport dport seq ack flags 0 0 bytes)

    sent : List ℕ
    sent = segment sport dport seq ack flags (c / 256) (c % 256) bytes

-- One answer of the stack: the state after keeps a valid queue, with so much more load at most.
record Sends (n n' : Net) (k : ℕ) : Type 0 where
  pub heavier : load n'.lb ≤ load n.lb + k
  pub valid : IsValid n'.lb

module _ (src dst : ℕ) (s : Segment) (n : Net) (v : IsValid n.lb) where
  accept_syn-Sends : Sends n (accept_syn src dst s n) 1
  unfolding accept_syn
  accept_syn-Sends =
      let (h, w) =
        load-send dst src srv_port s.sport 50000 (u32 (s.seq + 1)) (tcp_syn + tcp_ack) [] n.lb v in
      record { heavier = h; valid = w }

  complete_handshake-Sends : Sends n (complete_handshake src dst s n) 1
  unfolding complete_handshake
  complete_handshake-Sends =
      let (h, w) = load-send dst src cli_port s.sport s.ack (u32 (s.seq + 1)) tcp_ack [] n.lb v in
      record { heavier = h; valid = w }

  receive-Sends : Sends n (receive src dst s n) 1
  unfolding receive
  receive-Sends =
      let rcv = u32 (s.seq + length s.payload) in
      let (h, w) = load-send dst src cli_port s.sport n.cli.snd_nxt rcv tcp_ack [] n.lb v in
      record { heavier = h; valid = w }

  serve-Sends : Sends n (serve src dst s n) 3
  unfolding serve
  serve-Sends =
      let rcv = u32 (s.seq + length s.payload) in
      let nxt = n.srv.snd_nxt in
      let lb1 = tcp_send_flags dst src srv_port s.sport nxt rcv tcp_ack [] n.lb in
      let (h, w) = load-send dst src srv_port s.sport nxt rcv tcp_ack [] n.lb v in
      let (h', w') = load-send dst src srv_port s.sport nxt rcv (tcp_ack + tcp_psh) resp lb1 w in
      record { heavier = omega (arith, h, h'); valid = w' }

  states_after :
      ((accept_syn src dst s n).srv.state ≡ syn_rcvd)
      × ((accept_syn src dst s n).cli ≡ n.cli)
      × ((serve src dst s n).srv.state ≡ closed)
      × ((serve src dst s n).cli ≡ n.cli)
      × ((complete_handshake src dst s n).cli.state ≡ established)
      × ((complete_handshake src dst s n).srv ≡ n.srv)
      × ((receive src dst s n).cli.state ≡ n.cli.state)
      × ((receive src dst s n).srv ≡ n.srv)
  unfolding accept_syn serve complete_handshake receive
  states_after = (refl, refl, refl, refl, refl, refl, refl, refl)

  -- The energy is lower than that of the state before with the segment, and the queue is valid.
  abbrev Lowers : Net → Type 0
  Lowers n' = (energy n' < (if has_psh s.fl then 2 else 1) + energy n) × IsValid n'.lb

  accept_syn-Lowers : opens s n ≡ true → Lowers (accept_syn src dst s n)
  unfolding energy opens
  accept_syn-Lowers e = (ground (arith, accept_syn-Sends, states_after), accept_syn-Sends.valid)

  serve-Lowers : requests s n ≡ true → Lowers (serve src dst s n)
  unfolding energy requests
  serve-Lowers e = (ground (arith, serve-Sends, states_after), serve-Sends.valid)

  complete_handshake-Lowers : answers s n ≡ true → Lowers (complete_handshake src dst s n)
  unfolding energy answers
  complete_handshake-Lowers e =
      (ground (arith, complete_handshake-Sends, states_after), complete_handshake-Sends.valid)

  receive-Lowers : brings_data s n ≡ true → Lowers (receive src dst s n)
  unfolding energy brings_data
  receive-Lowers e = (ground (arith, receive-Sends, states_after), receive-Sends.valid)

  confirm_open-Lowers : confirms s n ≡ true → Lowers (confirm_open s n)
  unfolding energy confirms confirm_open
  confirm_open-Lowers e = (ground arith, ground arith)

  same-Lowers : Lowers n
  unfolding energy
  same-Lowers = (ground arith, v)

  close_client-Lowers : Lowers (close_client n)
  unfolding energy close_client
  close_client-Lowers = (ground arith, v)

  pub segment_input-Lowers : Lowers (tcp_segment_input src dst s n)
  unfolding tcp_segment_input
  segment_input-Lowers = if_elim Lowers (opens s n) _ _ accept_syn-Lowers λ _.
      if_elim Lowers (confirms s n) _ _ confirm_open-Lowers λ _.
        if_elim Lowers (requests s n) _ _ serve-Lowers λ _.
          if_elim Lowers (answers s n) _ _ complete_handshake-Lowers λ _.
            if_elim Lowers (brings_data s n) _ _ receive-Lowers
              λ _. if_elim Lowers (finishes s n) _ _ (λ _. close_client-Lowers) λ _. same-Lowers
