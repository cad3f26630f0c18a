-- ===== src/Net/Tcp/States.antt =====
-- How the two connections move between their states.
use bonfire_os.Base.{
  if_elim, refl, ℕ, ◌+◌, ◌≡◌, ◌≢◌, true, false, some, List, arith, u32, Option-cases, inl, inr, ap,
  sym, ◌⊎◌, subst,
}
use mathlib.Core.Path.{subst₂, ◌∙◌}
use bonfire_os.Net.Tcp.Dispatch.{input_short, input_parsed}
use bonfire_os.Net.Tcp.Dispatch.{all_branches}
use bonfire_os.Net.Tcp.{
  accept_syn, serve, complete_handshake, receive, close_client, confirm_open, opens, confirms,
  requests, answers, brings_data, finishes, TcpState, closed, listen, syn_sent, syn_rcvd,
  established, Net, Segment, parse_segment, tcp_segment_input, tcp_ipv4_input, has_ack, has_syn,
  srv_port,
}

-- The passive side: a connection is accepted, confirmed, and closed once it has been served.
pub data ServerStep : TcpState → TcpState → Type 0 where
  stay : {s : TcpState} → ServerStep s s
  accept : ServerStep listen syn_rcvd
  confirm : ServerStep syn_rcvd established
  answer : ServerStep established closed

-- The active side: the handshake completes, or the connection is closed by the peer.
pub data ClientStep : TcpState → TcpState → Type 0 where
  stay : {s : TcpState} → ClientStep s s
  complete : ClientStep syn_sent established
  finish : ClientStep established closed

abbrev Moves : TcpState → TcpState → TcpState → TcpState → Type 0
Moves s t a b = (s ≡ a) × (t ≡ b)

ServerStep-of :
    (s t : TcpState)
    → (t ≡ s)
      ⊎ Moves s t listen syn_rcvd
      ⊎ Moves s t syn_rcvd established
      ⊎ Moves s t established closed
    → ServerStep s t
ServerStep-of s t (inl e) = subst (ServerStep s) (sym e) ServerStep.stay
ServerStep-of s t (inr (inl (e, f))) = subst₂ ServerStep (sym e) (sym f) accept
ServerStep-of s t (inr (inr (inl (e, f)))) = subst₂ ServerStep (sym e) (sym f) confirm
ServerStep-of s t (inr (inr (inr (e, f)))) = subst₂ ServerStep (sym e) (sym f) answer

ClientStep-of :
    (s t : TcpState)
    → (t ≡ s) ⊎ Moves s t syn_sent established ⊎ Moves s t established closed
    → ClientStep s t
ClientStep-of s t (inl e) = subst (ClientStep s) (sym e) ClientStep.stay
ClientStep-of s t (inr (inl (e, f))) = subst₂ ClientStep (sym e) (sym f) complete
ClientStep-of s t (inr (inr (e, f))) = subst₂ ClientStep (sym e) (sym f) finish

module _ (src dst : ℕ) (s : Segment) (n : Net) where
  server-Moves :
      let t = (tcp_segment_input src dst s n).srv.state in
      (t ≡ n.srv.state)
      ⊎ Moves n.srv.state t listen syn_rcvd
      ⊎ Moves n.srv.state t syn_rcvd established
      ⊎ Moves n.srv.state t established closed
  unfolding all_branches
  server-Moves = ground arith

  client-Moves :
      let t = (tcp_segment_input src dst s n).cli.state in
      (t ≡ n.cli.state)
      ⊎ Moves n.cli.state t syn_sent established
      ⊎ Moves n.cli.state t established closed
  unfolding all_branches
  client-Moves = ground arith

  segment_input-steps :
      let n' = tcp_segment_input src dst s n in
      ServerStep n.srv.state n'.srv.state × ClientStep n.cli.state n'.cli.state
  segment_input-steps = (
    ServerStep-of n.srv.state (tcp_segment_input src dst s n).srv.state server-Moves,
    ClientStep-of n.cli.state (tcp_segment_input src dst s n).cli.state client-Moves,
  )

-- Whatever segment arrives, the server's state takes at most one step of `ServerStep` and the
-- client's at most one of `ClientStep`.
pub tcp_ipv4_input-steps :
    (pkt : List ℕ) (src dst : ℕ) (n : Net)
    → let n' = tcp_ipv4_input pkt src dst n in
      ServerStep n.srv.state n'.srv.state × ClientStep n.cli.state n'.cli.state
tcp_ipv4_input-steps pkt src dst n = elim (Option-cases (parse_segment pkt)) [
  | inl short ↦ rw (input_short pkt src dst n short) (ServerStep.stay, ClientStep.stay)
  | inr (s, parsed) ↦ rw (input_parsed pkt src dst n s parsed) (segment_input-steps src dst s n)
]

complete_handshake-srv :
    (src dst : ℕ) (s : Segment) (n : Net) → (complete_handshake src dst s n).srv ≡ n.srv
unfolding complete_handshake
complete_handshake-srv src dst s n = refl

receive-srv : (src dst : ℕ) (s : Segment) (n : Net) → (receive src dst s n).srv ≡ n.srv
unfolding receive
receive-srv src dst s n = refl

close_client-srv : (n : Net) → (close_client n).srv ≡ n.srv
unfolding close_client
close_client-srv n = refl

-- What a segment fulfils that makes the server established.
Confirms : Segment → Net → Type 0
Confirms s n =
    (n.srv.state ≡ syn_rcvd)
    × (s.dport ≡ srv_port)
    × (has_ack s.fl ≡ true)
    × (has_syn s.fl ≡ false)
    × (s.ack ≡ u32 (n.srv.iss + 1))

module _ (src dst : ℕ) (s : Segment) (n : Net) (before : n.srv.state ≢ established) where
  IfEstablished : Net → Type 0
  IfEstablished m = m.srv.state ≡ established → Confirms s n

  accepted : IfEstablished (accept_syn src dst s n)
  unfolding IfEstablished accept_syn
  accepted e = cc e

  served : IfEstablished (serve src dst s n)
  unfolding IfEstablished serve
  served e = cc e

  unmoved : (m : Net) → m.srv ≡ n.srv → IfEstablished m
  unfolding IfEstablished
  unmoved m same e = absurd (before (ap (λ t. t.state) (sym same) ∙ e))

  confirmed_open : confirms s n ≡ true → IfEstablished (confirm_open s n)
  unfolding IfEstablished Confirms confirms confirm_open
  confirmed_open e after = ground arith

  confirmed : IfEstablished (tcp_segment_input src dst s n)
  unfolding tcp_segment_input
  confirmed =
      if_elim IfEstablished (opens s n) _ _ (λ _. accepted)
        λ _. if_elim IfEstablished (confirms s n) _ _ confirmed_open λ _.
          if_elim IfEstablished (requests s n) _ _ (λ _. served)
            λ _.
              if_elim IfEstablished (answers s n) _ _
                (λ _. unmoved (complete_handshake src dst s n) (complete_handshake-srv src dst s n))
                λ _.
                  if_elim IfEstablished (brings_data s n) _ _
                    (λ _. unmoved (receive src dst s n) (receive-srv src dst s n))
                    λ _.
                      if_elim IfEstablished (finishes s n) _ _
                        (λ _. unmoved (close_client n) (close_client-srv n)) λ _. unmoved n refl

-- The server becomes established only out of the half-open state, by a segment to its port that has
-- ACK and not SYN and acknowledges the server's initial sequence number plus one.
pub established_needs_ack :
    (pkt : List ℕ) (src dst : ℕ) (n : Net)
    → n.srv.state ≢ established
    → (tcp_ipv4_input pkt src dst n).srv.state ≡ established
    → (s : Segment) × (parse_segment pkt ≡ some s)
      × (n.srv.state ≡ syn_rcvd)
      × (s.dport ≡ srv_port)
      × (has_ack s.fl ≡ true)
      × (has_syn s.fl ≡ false)
      × (s.ack ≡ u32 (n.srv.iss + 1))
unfolding Confirms IfEstablished
established_needs_ack pkt src dst n before after = elim (Option-cases (parse_segment pkt)) [
  | inl short ↦
      absurd (before (ap (λ m. m.srv.state) (sym (input_short pkt src dst n short)) ∙ after))
  | inr (s, parsed) ↦
      let reached = ap (λ m. m.srv.state) (sym (input_parsed pkt src dst n s parsed)) ∙ after in
      let (half_open, port, ack, syn, number) = confirmed src dst s n before reached in
      (s, parsed, half_open, port, ack, syn, number)
]
