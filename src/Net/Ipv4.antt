-- ===== src/Net/Ipv4.antt =====
-- src/kernel/net/net_ipv4.c: addresses in network order, and datagrams sent.
use bonfire_os.Base.{ℕ, ◌+◌, ◌*◌, ◌/◌, ◌%◌, ◌^◌, List, [], ◌∷◌, ltb, if◌then◌else◌, length, get_or}
use bonfire_os.Net.Checksum.{net_checksum16}
use bonfire_os.Net.Loopback.{Loopback, loopback_xmit}

abbrev pub ip_proto_icmp : ℕ
ip_proto_icmp = 1

abbrev pub ip_proto_tcp : ℕ
ip_proto_tcp = 6

-- The 32-bit number at offset `i`, high byte first.
abbrev pub rd_ip4 : List ℕ → ℕ → ℕ
rd_ip4 p i =
    get_or p i 0 * 2 ^ 24
    + get_or p (i + 1) 0 * 2 ^ 16
    + get_or p (i + 2) 0 * 2 ^ 8
    + get_or p (i + 3) 0

abbrev pub wr_ip4 : ℕ → List ℕ → List ℕ
wr_ip4 v rest = v / 2 ^ 24 % 256 ∷ v / 2 ^ 16 % 256 ∷ v / 2 ^ 8 % 256 ∷ v % 256 ∷ rest

-- The 20 bytes of a header with the checksum bytes `hi` and `lo`, in front of the payload.
abbrev pub ip_header : (proto src dst total hi lo : ℕ) → List ℕ → List ℕ
ip_header proto src dst total hi lo payload =
    0x45
    ∷ 0
    ∷ total / 256 % 256
    ∷ total % 256
    ∷ 0
    ∷ 0
    ∷ 0
    ∷ 0
    ∷ 64
    ∷ proto
    ∷ hi
    ∷ lo
    ∷ wr_ip4 src (wr_ip4 dst payload)

abbrev pub datagram : (proto src dst : ℕ) → List ℕ → List ℕ
datagram proto src dst payload =
    let total = 20 + length payload in
    let hc = net_checksum16 (ip_header proto src dst total 0 0 []) in
    ip_header proto src dst total (hc / 256) (hc % 256) payload

unfoldable pub ipv4_output : (proto src dst : ℕ) → List ℕ → Loopback → Loopback
ipv4_output proto src dst payload q =
    if ltb 2048 (20 + length payload) then q else loopback_xmit (datagram proto src dst payload) q

-- The 8 bytes of an ICMP echo request.
abbrev pub echo_request : (hi lo : ℕ) → List ℕ
echo_request hi lo = 8 ∷ 0 ∷ hi ∷ lo ∷ 0x12 ∷ 0x34 ∷ 0 ∷ 1 ∷ []

unfoldable pub icmp_send_echo_request : ℕ → Loopback → Loopback
unfolding ipv4_output
icmp_send_echo_request dst q =
    let c = net_checksum16 (echo_request 0 0) in
    ipv4_output ip_proto_icmp dst dst (echo_request (c / 256) (c % 256)) q
