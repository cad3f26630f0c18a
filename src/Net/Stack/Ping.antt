-- ===== src/Net/Stack/Ping.antt =====
-- A whole ping: the request through the queue to the input, the reply through the queue back.
use bonfire_os.Base.{
  ℕ, suc, ◌+◌, ◌/◌, ◌%◌, ◌≡◌, refl, ap, ◌∙◌, true, none, some, List, [], ◌∷◌, ◌++◌, arith, length,
  drop, ltb, if◌then◌else◌,
}
use bonfire_os.Base.Window.{length-cells}
use bonfire_os.Net.Checksum.{net_checksum16}
use bonfire_os.Net.Loopback.{Loopback, lb_q, loopback_xmit, loopback_fetch}
use bonfire_os.Net.Loopback.Queue.{
  packets, slot, queued, IsDatagram, IsValid, loopback_xmit-packets, loopback_xmit-IsValid,
  loopback_fetch-packets,
}
use bonfire_os.Net.Ipv4.{datagram, ip_proto_icmp, echo_request, icmp_send_echo_request, ipv4_output}
use bonfire_os.Net.Tcp.{Net}
use bonfire_os.Net.Input.{echo_reply, icmp_input, ipv4_input}
use bonfire_os.Net.Stack.{net_poll, net_polls, net_ping, poll_fuel}
use bonfire_os.Net.Stack.Polling.{idle, busy, net_polls_once}

request : ℕ → List ℕ
request dst =
    let c = net_checksum16 (echo_request 0 0) in
    datagram ip_proto_icmp dst dst (echo_request (c / 256) (c % 256))

reply : ℕ → List ℕ
unfolding request
reply dst = echo_reply (request dst) (drop 20 (request dst))

module _ (dst : ℕ) where
  sent : (q : Loopback) → icmp_send_echo_request dst q ≡ loopback_xmit (request dst) q
  unfolding icmp_send_echo_request ipv4_output request
  sent q = refl

  request_answered :
      (n : Net) → ipv4_input (request dst) n ≡ record n { lb = loopback_xmit (reply dst) n.lb }
  unfolding ipv4_input icmp_input request reply
  request_answered n = refl

  reply_counted :
      (n : Net)
      → ipv4_input (reply dst) n ≡ record n { icmp_echo_reply_rx = n.icmp_echo_reply_rx + 1 }
  unfolding ipv4_input icmp_input request reply
  reply_counted n = refl

  request-IsDatagram : IsDatagram (request dst)
  unfolding request
  request-IsDatagram = (omega arith, omega arith)

  reply-IsDatagram : IsDatagram (reply dst)
  unfolding request reply
  reply-IsDatagram = (omega arith, omega arith)

-- One datagram, sent to an empty queue, is taken by the next round of `net_poll`.
module _ (p : List ℕ) (d : IsDatagram p) (n : Net) (v : IsValid n.lb)
    (empty : packets n.lb ≡ []) where
  none_queued : ltb (queued n.lb) 15 ≡ true
  none_queued =
      let count = length-cells lb_q (slot n.lb) n.lb.lb_head 0 (queued n.lb) in
      ground (arith, ap length empty)

  one_packet : packets (loopback_xmit p n.lb) ≡ p ∷ []
  one_packet =
      loopback_xmit-packets p n.lb v d
      ∙ ap (λ b. if b then packets n.lb ++ p ∷ [] else packets n.lb) none_queued
      ∙ ap (λ ps. ps ++ p ∷ []) empty

-- The queue once `p` is taken, and the round of `net_poll` that hands `p` to the input.
record Delivers (p : List ℕ) (n : Net) : Type 0 where
  pub after : Loopback
  pub none_left : packets after ≡ []
  pub valid : IsValid after
  pub round :
      (fuel : ℕ)
      → net_poll (suc fuel) (record n { lb = loopback_xmit p n.lb })
        ≡ net_poll fuel (ipv4_input p (record n { lb = after }))

delivered : (p : List ℕ) (n : Net) → IsDatagram p → IsValid n.lb → packets n.lb ≡ [] → Delivers p n
delivered [] n d v empty = absurd (omega (arith, d.0))
delivered (b ∷ bytes) n d v empty =
    let p = b ∷ bytes in
    let q = loopback_xmit p n.lb in
    let (first, rest, valid) =
      (loopback_fetch-packets q (loopback_xmit-IsValid p n.lb v)).1 p []
        (one_packet p d n v empty) in
    record {
      after = (loopback_fetch 2048 q).1;
      none_left = rest;
      valid = valid;
      round = λ fuel. busy fuel (record n { lb = q }) b bytes first;
    }

module _ (dst : ℕ) (n : Net) (v : IsValid n.lb) (empty : packets n.lb ≡ []) where
  start : Net
  start = record n { icmp_echo_reply_rx = 0 }

  there : Delivers (request dst) start
  unfolding start
  there = delivered (request dst) start (request-IsDatagram dst) v empty

  between : Net
  unfolding start
  between = record start { lb = there.after }

  back : Delivers (reply dst) between
  unfolding between
  back = delivered (reply dst) between (reply-IsDatagram dst) there.valid there.none_left

  done : Net
  unfolding between
  done = record between { lb = back.after; icmp_echo_reply_rx = 1 }

  polled : net_poll poll_fuel (record start { lb = loopback_xmit (request dst) n.lb }) ≡ some done
  unfolding done
  polled =
      there.round 35
      ∙ ap (net_poll 35) (request_answered dst (record start { lb = there.after }))
      ∙ back.round 34
      ∙ ap (net_poll 34) (reply_counted dst (record between { lb = back.after }))
      ∙ idle 33 done ((loopback_fetch-packets back.after back.valid).0 back.none_left)

  polls : net_polls 8000 (record start { lb = icmp_send_echo_request dst n.lb }) ≡ some done
  polls =
      ap (λ q. net_polls 8000 (record start { lb = q })) (sent dst n.lb)
      ∙ net_polls_once 7999 (record start { lb = loopback_xmit (request dst) n.lb })
          (loopback_xmit-IsValid (request dst) n.lb v)
      ∙ polled

  pinged : net_ping dst n ≡ some (true, done)
  unfolding net_ping done
  pinged = ap (λ o. elim o [ none ↦ none | some n2 ↦ some (ltb 0 n2.icmp_echo_reply_rx, n2) ]) polls

  -- With an empty queue, a ping of any address succeeds: the request is answered, the reply counted,
  -- the queue is empty again, and both TCP connections are as before.
  pub net_ping_succeeds :
      (n' : Net) × (net_ping dst n ≡ some (true, n'))
      × (packets n'.lb ≡ [])
      × IsValid n'.lb
      × (n'.srv ≡ n.srv)
      × (n'.cli ≡ n.cli)
  unfolding done
  net_ping_succeeds = (done, pinged, back.none_left, back.valid, refl, refl)
