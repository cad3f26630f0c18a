-- ===== src/Net/Input.antt =====
-- src/kernel/net/net_ipv4.c: what is done with a datagram that arrives.
use bonfire_os.Base.{
  ℕ, ◌+◌, ◌-◌, ◌*◌, ◌/◌, ◌%◌, ◌||◌, List, [], ◌∷◌, ltb, ◌==◌, if◌then◌else◌, u16, length, drop,
  get_or,
}
use bonfire_os.Net.Checksum.{net_checksum16}
use bonfire_os.Net.Loopback.{loopback_xmit}
use bonfire_os.Net.Ipv4.{ip_proto_icmp, ip_proto_tcp, rd_ip4, ip_header}
use bonfire_os.Net.Tcp.{Net, tcp_ipv4_input}

-- The echo reply to the ICMP message `icmp` of the datagram `ip`: addresses exchanged, type 0.
abbrev pub echo_reply : List ℕ → List ℕ → List ℕ
echo_reply ip icmp =
    let total = u16 (20 + length icmp) in
    let message = λ (hi lo : ℕ). 0 ∷ get_or icmp 1 0 ∷ hi ∷ lo ∷ drop 4 icmp in
    let csum = net_checksum16 (message 0 0) in
    let hc = net_checksum16 (ip_header ip_proto_icmp (rd_ip4 ip 16) (rd_ip4 ip 12) total 0 0 []) in
    ip_header ip_proto_icmp (rd_ip4 ip 16) (rd_ip4 ip 12) total (hc / 256) (hc % 256)
      (message (csum / 256) (csum % 256))

unfoldable pub icmp_input : List ℕ → ℕ → Net → Net
icmp_input ip ip_hdr_len n =
    let icmp = drop ip_hdr_len ip in
    if ltb (length ip) (ip_hdr_len + 8)
    then n
    else if get_or icmp 0 0 == 0
    then record n { icmp_echo_reply_rx = n.icmp_echo_reply_rx + 1 }
    else if get_or icmp 0 0 == 8
    then (if ltb 576 (20 + (length ip - ip_hdr_len))
        then n
        else record n { lb = loopback_xmit (echo_reply ip icmp) n.lb })
    else n

unfoldable pub ipv4_input : List ℕ → Net → Net
ipv4_input pkt n =
    let ihl = get_or pkt 0 0 % 16 * 4 in
    let proto = get_or pkt 9 0 in
    if ltb (length pkt) 20
    then n
    else if ltb ihl 20 || ltb (length pkt) ihl
    then n
    else if proto == ip_proto_icmp
    then icmp_input pkt ihl n
    else if proto == ip_proto_tcp
    then tcp_ipv4_input pkt (rd_ip4 pkt 12) (rd_ip4 pkt 16) n
    else n
