-- ===== src/Net/Stack/Polling.antt =====
-- `net_poll` of src/kernel/net/net.c comes to an end: every datagram taken lowers the energy.
use bonfire_os.Base.{
  ℕ, ◌-◌, ◌||◌, ◌∙◌, ==→eq, ap, subst, All, zero, suc, ◌+◌, ◌*◌, ◌≤◌, ◌<◌, ◌≡◌, ◌%◌, refl, inl, inr,
  some, List, [], ◌∷◌, arith, ltb, ◌==◌, if◌then◌else◌, length, get_or, drop, get_or-drop,
  Option-cases, if_elim,
}
use bonfire_os.Base.Window.{length-cells}
use bonfire_os.Net.Loopback.{loopback_xmit, loopback_fetch, lb_q}
use bonfire_os.Net.Loopback.Queue.{
  packets, IsDatagram, IsValid, loopback_fetch-packets, loopback_xmit-IsValid, slot, queued,
}
use bonfire_os.Net.Ipv4.{rd_ip4}
use bonfire_os.Net.Tcp.{
  TcpState, closed, listen, syn_sent, syn_rcvd, established, Net, Segment, has_psh, parse_segment,
  tcp_ipv4_input,
}
use bonfire_os.Net.Tcp.Dispatch.{input_short, input_parsed}
use bonfire_os.Net.Input.{echo_reply, icmp_input, ipv4_input}
use bonfire_os.Net.Stack.{net_poll, poll_fuel, net_polls}
use bonfire_os.Net.Stack.Energy.{
  weight, weights, load, load-xmit, energy, segment_input-Lowers, server_potential,
  client_potential,
}

header_length : List ℕ → ℕ
header_length pkt = get_or pkt 0 0 % 16 * 4

parsed_flags :
    (pkt : List ℕ) (s : Segment)
    → parse_segment pkt ≡ some s
    → s.fl ≡ get_or (drop (header_length pkt) pkt) 13 0
unfolding parse_segment header_length
parsed_flags pkt s e = ground arith

-- With the datagram the state before weighs more than the state after, and the queue is valid.
abbrev Drained : List ℕ → Net → Net → Type 0
Drained pkt n n' = (energy n' < weight pkt + energy n) × IsValid n'.lb

module _ (pkt : List ℕ) (n : Net) (v : IsValid n.lb) where
  weighs : 1 ≤ weight pkt
  unfolding weight
  weighs = ground arith

  ignored : Drained pkt n n
  ignored = (omega (arith, weighs), v)

  tcp_weight :
      get_or pkt 9 0 ≡ 6
      → (s : Segment) → parse_segment pkt ≡ some s
      → weight pkt ≡ (if has_psh s.fl then 2 else 1)
  unfolding weight header_length
  tcp_weight proto s parsed =
      let flags = parsed_flags pkt s parsed ∙ get_or-drop (header_length pkt) pkt 13 0 in
      rw (proto, flags) refl

  tcp-Drained : get_or pkt 9 0 ≡ 6 → (src dst : ℕ) → Drained pkt n (tcp_ipv4_input pkt src dst n)
  tcp-Drained proto src dst = elim (Option-cases (parse_segment pkt)) [
    | inl short ↦ rw (input_short pkt src dst n short) ignored
    | inr (s, parsed) ↦
        let (lower, valid) = segment_input-Lowers src dst s n v in
        rw (input_parsed pkt src dst n s parsed)
          (omega (arith, lower, tcp_weight proto s parsed), valid)
  ]

  module _ (proto : get_or pkt 9 0 ≡ 1) where
    request_weight : get_or (drop (header_length pkt) pkt) 0 0 ≡ 8 → weight pkt ≡ 2
    unfolding weight header_length
    request_weight e = let at = get_or-drop (header_length pkt) pkt 0 0 in ground arith

    counted : Drained pkt n (record n { icmp_echo_reply_rx = n.icmp_echo_reply_rx + 1 })
    unfolding energy
    counted = (omega (arith, weighs), v)

    reply_weight : weight (echo_reply pkt (drop (header_length pkt) pkt)) ≡ 1
    unfolding weight
    reply_weight = refl

    replied :
        get_or (drop (header_length pkt) pkt) 0 0 ≡ 8
        → Drained pkt n
            (record n { lb = loopback_xmit (echo_reply pkt (drop (header_length pkt) pkt)) n.lb })
    unfolding energy
    replied e =
        let reply = echo_reply pkt (drop (header_length pkt) pkt) in
        (
          omega (arith, load-xmit reply n.lb v, reply_weight, request_weight e),
          loopback_xmit-IsValid reply n.lb v,
        )

    icmp-Drained : Drained pkt n (icmp_input pkt (header_length pkt) n)
    unfolding icmp_input
    icmp-Drained =
        let kind = get_or (drop (header_length pkt) pkt) 0 0 in
        if_elim (Drained pkt n) (ltb (length pkt) (header_length pkt + 8)) _ _ (λ _. ignored)
          λ _.
            if_elim (Drained pkt n) (kind == 0) _ _ (λ _. counted)
              λ _.
                if_elim (Drained pkt n) (kind == 8) _ _
                  (λ e.
                    if_elim (Drained pkt n) (ltb 576 (20 + (length pkt - header_length pkt))) _ _
                      (λ _. ignored) λ _. replied (==→eq kind 8 e))
                  λ _. ignored

  ipv4_input-Drained : Drained pkt n (ipv4_input pkt n)
  unfolding ipv4_input header_length
  ipv4_input-Drained =
      let ihl = get_or pkt 0 0 % 16 * 4 in
      if_elim (Drained pkt n) (ltb (length pkt) 20) _ _ (λ _. ignored)
        λ _.
          if_elim (Drained pkt n) (ltb ihl 20 || ltb (length pkt) ihl) _ _ (λ _. ignored)
            λ _.
              if_elim (Drained pkt n) (get_or pkt 9 0 == 1) _ _
                (λ e. icmp-Drained (==→eq (get_or pkt 9 0) 1 e))
                λ _.
                  if_elim (Drained pkt n) (get_or pkt 9 0 == 6) _ _
                    (λ e. tcp-Drained (==→eq (get_or pkt 9 0) 6 e) (rd_ip4 pkt 12) (rd_ip4 pkt 16))
                    λ _. ignored

-- A poll of the state `n` that ends, with an empty queue.
abbrev Ends : ℕ → Net → Type 0
Ends fuel n = (n' : Net) × (net_poll fuel n ≡ some n') × (packets n'.lb ≡ []) × IsValid n'.lb

module _ (fuel : ℕ) (n : Net) where
  pub idle : loopback_fetch 2048 n.lb ≡ ([], n.lb) → net_poll (suc fuel) n ≡ some n
  unfolding net_poll
  idle e = rw (e, net_poll) refl

  pub busy :
      (b : ℕ) (bytes : List ℕ)
      → (loopback_fetch 2048 n.lb).0 ≡ b ∷ bytes
      → net_poll (suc fuel) n
        ≡ net_poll fuel (ipv4_input (b ∷ bytes) (record n { lb = (loopback_fetch 2048 n.lb).1 }))
  unfolding net_poll
  busy b bytes e = rw (e, net_poll) refl

  taken :
      (p : List ℕ) (ps : List (List ℕ))
      → packets n.lb ≡ p ∷ ps
      → packets (loopback_fetch 2048 n.lb).1 ≡ ps
      → weight p + energy (record n { lb = (loopback_fetch 2048 n.lb).1 }) ≡ energy n
  unfolding energy load weights
  taken p ps before after = omega (arith, ap weights before, ap weights after)

  poll_step :
      IsValid n.lb
      → energy n < suc fuel
      → ((n1 : Net) → IsValid n1.lb → energy n1 < fuel → Ends fuel n1)
      → (ps : List (List ℕ)) → packets n.lb ≡ ps
      → Ends (suc fuel) n
  poll_step v enough rec [] e = (n, idle ((loopback_fetch-packets n.lb v).0 e), e, v)
  poll_step v enough rec ([] ∷ ps) e =
      let (bad, _) = subst (All IsDatagram) e v.datagrams in absurd (omega (arith, bad))
  poll_step v enough rec ((b ∷ bytes) ∷ ps) e =
      let (first, rest, valid) = (loopback_fetch-packets n.lb v).1 (b ∷ bytes) ps e in
      let n1 = record n { lb = (loopback_fetch 2048 n.lb).1 } in
      let (lower, valid2) = ipv4_input-Drained (b ∷ bytes) n1 valid in
      let (n', polled, empty, valid3) =
        rec (ipv4_input (b ∷ bytes) n1) valid2
          (omega (arith, enough, lower, taken (b ∷ bytes) ps e rest)) in
      (n', busy b bytes first ∙ polled, empty, valid3)

-- `net_poll` ends with an empty queue where it has more fuel than the state has energy.
net_poll-Ends : (fuel : ℕ) (n : Net) → IsValid n.lb → energy n < fuel → Ends fuel n
net_poll-Ends zero n v enough = absurd (omega (arith, enough))
net_poll-Ends (suc fuel) n v enough =
    poll_step fuel n v enough (net_poll-Ends fuel) (packets n.lb) refl

weight_at_most : (pkt : List ℕ) → weight pkt ≤ 2
unfolding weight
weight_at_most pkt = ground arith

weights_at_most : (ps : List (List ℕ)) → weights ps ≤ 2 * length ps
unfolding weights
weights_at_most [] = omega arith
weights_at_most (p ∷ ps) = omega (arith, weight_at_most p, weights_at_most ps)

server_at_most : (s : TcpState) → server_potential s ≤ 3
server_at_most closed = ground arith
server_at_most listen = ground arith
server_at_most syn_sent = ground arith
server_at_most syn_rcvd = ground arith
server_at_most established = ground arith

client_at_most : (s : TcpState) → client_potential s ≤ 1
client_at_most closed = ground arith
client_at_most listen = ground arith
client_at_most syn_sent = ground arith
client_at_most syn_rcvd = ground arith
client_at_most established = ground arith

-- A queue holds at most 15 datagrams.
energy_at_most : (n : Net) → energy n ≤ 34
unfolding energy load
energy_at_most n = omega (
  arith,
  weights_at_most (packets n.lb),
  length-cells lb_q (slot n.lb) n.lb.lb_head 0 (queued n.lb),
  server_at_most n.srv.state,
  client_at_most n.cli.state,
)

-- From every state whose queue is valid, `net_poll` ends after at most 35 datagrams, with an empty
-- queue that is valid: datagrams that answer datagrams do not go round for ever.
pub net_poll_terminates : (n : Net) → IsValid n.lb → Ends poll_fuel n
net_poll_terminates n v = net_poll-Ends poll_fuel n v (omega (arith, energy_at_most n))

polls_idle : (rounds : ℕ) (n : Net) → packets n.lb ≡ [] → IsValid n.lb → net_polls rounds n ≡ some n
unfolding net_polls
polls_idle zero n e v = refl
polls_idle (suc rounds) n e v =
    rw (idle 35 n ((loopback_fetch-packets n.lb v).0 e), net_polls) (polls_idle rounds n e v)

-- The 8000 polls of `net_ping` and of the HTTP client come to the state of the first of them: the
-- queue is empty after it, and the others change nothing.
pub net_polls_once :
    (rounds : ℕ) (n : Net) → IsValid n.lb → net_polls (suc rounds) n ≡ net_poll poll_fuel n
unfolding net_polls
net_polls_once rounds n v =
    let (n', polled, empty, valid) = net_poll_terminates n v in
    rw (polled, net_polls) (polls_idle rounds n' empty valid)
