-- ===== src/Net/Stack.antt =====
-- src/kernel/net/net.c: polling until the queue is empty, ping, and HTTP over the loopback.
pub mod Energy
pub mod Polling
pub mod Ping
use bonfire_os.Base.{
  ℕ, zero, suc, ◌+◌, ◌-◌, ◌*◌, Bool, true, false, ◌&&◌, Option, none, some, List, [], ◌∷◌, ◌++◌,
  ltb, ◌==◌, if◌then◌else◌, length, drop, take,
}
use bonfire_os.Base.Text.{codes}
use bonfire_os.Net.Loopback.{Loopback, loopback_fetch, loopback_clear}
use bonfire_os.Net.Ipv4.{icmp_send_echo_request}
use bonfire_os.Net.Tcp.{Net, net_ipv4_loopback, tcp_init, tcp_connect_send_get, tcp_send_data}
use bonfire_os.Net.Input.{ipv4_input}

-- `while ((n = loopback_fetch(buf, sizeof(buf))) > 0) ipv4_input(buf, n);` with fuel: `none` where
-- it runs out.
unfoldable pub net_poll : ℕ → Net → Option Net
net_poll zero n = none
net_poll (suc fuel) n =
    let (pkt, lb') = loopback_fetch 2048 n.lb in
    elim pkt [
      | [] ↦ some n
      | b ∷ bytes ↦ net_poll fuel (ipv4_input (b ∷ bytes) (record n { lb = lb' }))
    ]

-- Enough fuel for every queue: see `Polling`.
abbrev pub poll_fuel : ℕ
poll_fuel = 36

-- for (int i = 0; i < rounds; i++) net_poll();
unfoldable pub net_polls : ℕ → Net → Option Net
net_polls zero n = some n
net_polls (suc rounds) n = elim (net_poll poll_fuel n) [
  | none ↦ none
  | some n' ↦ net_polls rounds n'
]

unfoldable net_init : Net → Net
unfolding loopback_clear tcp_init
net_init n = tcp_init (record n { lb = loopback_clear n.lb; icmp_echo_reply_rx = 0 })

-- Whether a reply came, and the state after; the outer `none` is a poll that does not end.
unfoldable pub net_ping : ℕ → Net → Option (Bool × Net)
net_ping dst n =
    let n1 = record n { icmp_echo_reply_rx = 0; lb = icmp_send_echo_request dst n.lb } in
    elim (net_polls 8000 n1) [ none ↦ none | some n2 ↦ some (ltb 0 n2.icmp_echo_reply_rx, n2) ]

-- What follows the first empty line, and everything where there is none.
unfoldable pub body_of : List ℕ → List ℕ → List ℕ
body_of all (a ∷ b ∷ c ∷ d ∷ rest) =
    let later = body_of all (b ∷ c ∷ d ∷ rest) in
    if a == 13 && (b == 10 && (c == 13 && d == 10)) then rest else later
body_of all _ = all

abbrev req : List ℕ
req = codes "GET / HTTP/1.0" ++ (13 ∷ 10 ∷ codes "Host: 127.0.0.1") ++ (13 ∷ 10 ∷ 13 ∷ 10 ∷ [])

-- The bytes put into `out`, less the terminator; the inner `none` is the return value -1.
unfoldable pub net_http_get_loopback : ℕ → Net → Option (Option (List ℕ) × Net)
net_http_get_loopback max_out n =
    if ltb max_out 2
    then some (none, n)
    else elim (net_polls 8000 (tcp_connect_send_get net_ipv4_loopback (tcp_init n))) [
      | none ↦ none
      | some n1 ↦
          let (sent, n2) = tcp_send_data req n1 in
          elim sent [
            | none ↦ some (none, n2)
            | some u ↦ elim (net_polls 8000 n2) [
              | none ↦ none
              | some n3 ↦
                  if length n3.cli.rx == 0
                  then some (none, n3)
                  else some (some (take (max_out - 1) (body_of n3.cli.rx n3.cli.rx)), n3)
            ]
          ]
    ]
