-- ===== src/Net/Tcp.antt =====
-- src/kernel/net/net_tcp.c: one passive and one active connection over the loopback queue.
pub mod Dispatch
pub mod States
pub mod Data
use bonfire_os.Base.{
  ℕ, ◌+◌, ◌-◌, ◌*◌, ◌/◌, ◌%◌, ◌^◌, ◌≡◌, Bool, true, false, ◌&&◌, ◌||◌, not, Option, none, some,
  List, [], ◌∷◌, ◌++◌, ltb, leb, ◌==◌, if◌then◌else◌, u16, u32, bit, length, drop, get_or,
}
use bonfire_os.Base.Text.{codes}
use bonfire_os.Net.Checksum.{tcp_cksum}
use bonfire_os.Net.Loopback.{Loopback}
use bonfire_os.Net.Ipv4.{ip_proto_tcp, rd_ip4, wr_ip4, ipv4_output}

-- ST_CLOSED, ST_LISTEN, ST_SYN_SENT, ST_SYN_RCVD, ST_ESTABLISHED
pub data TcpState : Type 0 where
  closed listen syn_sent syn_rcvd established : TcpState

-- `Tcb`; `rx` is the first `rx_len` bytes of the receive buffer.
pub record Tcb : Type 0 where
  pub state : TcpState
  pub local_port : ℕ
  pub remote_ip : ℕ
  pub remote_port : ℕ
  pub snd_una : ℕ
  pub snd_nxt : ℕ
  pub iss : ℕ
  pub rcv_nxt : ℕ
  pub rx : List ℕ

-- The two connections, the queue they send to, and the count of ICMP echo replies seen.
pub record Net : Type 0 where
  pub srv : Tcb
  pub cli : Tcb
  pub lb : Loopback
  pub icmp_echo_reply_rx : ℕ

abbrev pub srv_port : ℕ
srv_port = 80

abbrev pub cli_port : ℕ
cli_port = 49152

abbrev pub net_ipv4_loopback : ℕ
net_ipv4_loopback = 0x7f000001

abbrev pub tcp_syn : ℕ
tcp_syn = 2

abbrev pub tcp_psh : ℕ
tcp_psh = 8

abbrev pub tcp_ack : ℕ
tcp_ack = 16

abbrev has_fin : ℕ → Bool
has_fin fl = bit fl 0

abbrev pub has_syn : ℕ → Bool
has_syn fl = bit fl 1

abbrev pub has_psh : ℕ → Bool
has_psh fl = bit fl 3

abbrev pub has_ack : ℕ → Bool
has_ack fl = bit fl 4

abbrev pub rd16 : List ℕ → ℕ → ℕ
rd16 p i = get_or p i 0 * 256 + get_or p (i + 1) 0

-- A segment with the checksum bytes `hi` and `lo`.
abbrev pub segment : (sport dport seq ack flags hi lo : ℕ) → List ℕ → List ℕ
segment sport dport seq ack flags hi lo bytes =
    sport / 256 % 256
    ∷ sport % 256
    ∷ dport / 256 % 256
    ∷ dport % 256
    ∷ wr_ip4 seq (wr_ip4 ack (0x50 ∷ flags ∷ 16384 / 256 ∷ 16384 % 256 ∷ hi ∷ lo ∷ 0 ∷ 0 ∷ bytes))

-- The segment buffer of 1280 bytes is not checked against; its callers send at most 1260.
unfoldable pub tcp_send_flags :
    (src_ip dst_ip sport dport seq ack flags : ℕ) → List ℕ → Loopback → Loopback
tcp_send_flags src_ip dst_ip sport dport seq ack flags bytes q =
    let c = tcp_cksum src_ip dst_ip (segment sport dport seq ack flags 0 0 bytes) in
    ipv4_output ip_proto_tcp src_ip dst_ip
      (segment sport dport seq ack flags (c / 256) (c % 256) bytes) q

unfoldable pub tcp_init : Net → Net
tcp_init n = record n {
  srv = record (n.srv) { state = listen; local_port = srv_port; rx = [] };
  cli = record (n.cli) { state = closed; rx = [] };
}

abbrev crlf : List ℕ
crlf = 13 ∷ 10 ∷ []

-- The page that the server answers with.
abbrev pub resp : List ℕ
resp =
    codes "HTTP/1.0 200 OK"
    ++ (crlf
        ++ (codes "Content-Type: text/html"
            ++ (crlf
                ++ (crlf
                    ++ codes
                        "<html><head><title>BonfireOS</title></head><body><h1>Hello from loopback</h1><p>Lynx-style host / HTTP test</p></body></html>"))))

-- What `tcp_ipv4_input` reads from the segment: ports, numbers, flags and payload.
pub record Segment : Type 0 where
  pub sport : ℕ
  pub dport : ℕ
  pub seq : ℕ
  pub ack : ℕ
  pub fl : ℕ
  pub payload : List ℕ

-- `none` where the segment is too short for its headers.
unfoldable pub parse_segment : List ℕ → Option Segment
parse_segment pkt =
    let ihl = get_or pkt 0 0 % 16 * 4 in
    let th = drop ihl pkt in
    let off = get_or th 12 0 / 16 * 4 in
    if ltb (length pkt) (ihl + 20)
    then none
    else if ltb off 20 || ltb (length pkt - ihl) off
    then none
    else some (record {
      sport = rd16 th 0;
      dport = rd16 th 2;
      seq = rd_ip4 th 4;
      ack = rd_ip4 th 8;
      fl = get_or th 13 0;
      payload = drop off th;
    })

abbrev is_state : TcpState → TcpState → Bool
is_state closed closed = true
is_state listen listen = true
is_state syn_sent syn_sent = true
is_state syn_rcvd syn_rcvd = true
is_state established established = true
is_state _ _ = false

-- The server's answer to a SYN.
unfoldable pub accept_syn : (src dst : ℕ) → Segment → Net → Net
accept_syn src dst s n = record n {
  srv = record (n.srv) {
    state = syn_rcvd;
    remote_ip = src;
    remote_port = s.sport;
    rcv_nxt = u32 (s.seq + 1);
    iss = 50000;
    snd_una = 50000;
    snd_nxt = 50001;
  };
  lb = tcp_send_flags dst src srv_port s.sport 50000 (u32 (s.seq + 1)) (tcp_syn + tcp_ack) [] n.lb;
}

-- The server's acknowledgement of a request, and the page.
unfoldable pub serve : (src dst : ℕ) → Segment → Net → Net
serve src dst s n =
    let rcv = u32 (s.seq + length s.payload) in
    let nxt = n.srv.snd_nxt in
    let lb1 = tcp_send_flags dst src srv_port s.sport nxt rcv tcp_ack [] n.lb in
    record n {
      srv = record (n.srv) { state = closed; rcv_nxt = rcv; snd_nxt = u32 (nxt + length resp) };
      lb = tcp_send_flags dst src srv_port s.sport nxt rcv (tcp_ack + tcp_psh) resp lb1;
    }

-- The client's answer to a SYN with ACK.
unfoldable pub complete_handshake : (src dst : ℕ) → Segment → Net → Net
complete_handshake src dst s n = record n {
  cli = record (n.cli) { state = established; rcv_nxt = u32 (s.seq + 1); snd_nxt = s.ack };
  lb = tcp_send_flags dst src cli_port s.sport s.ack (u32 (s.seq + 1)) tcp_ack [] n.lb;
}

-- The client takes data while its buffer of 4096 bytes has room for all of it.
unfoldable pub receive : (src dst : ℕ) → Segment → Net → Net
receive src dst s n =
    let rcv = u32 (s.seq + length s.payload) in
    record n {
      cli = record (n.cli) {
        rx =
            if ltb (length s.payload + length n.cli.rx) 4096
            then n.cli.rx ++ s.payload
            else n.cli.rx;
        rcv_nxt = rcv;
      };
      lb = tcp_send_flags dst src cli_port s.sport n.cli.snd_nxt rcv tcp_ack [] n.lb;
    }

-- The tests on a segment, in the order of the code.
unfoldable pub opens : Segment → Net → Bool
opens s n =
    s.dport == srv_port && (is_state n.srv.state listen && (has_syn s.fl && not (has_ack s.fl)))

unfoldable pub confirms : Segment → Net → Bool
confirms s n =
    s.dport == srv_port && (is_state n.srv.state syn_rcvd && (has_ack s.fl && not (has_syn s.fl)))

unfoldable pub requests : Segment → Net → Bool
requests s n = s.dport == srv_port && (is_state n.srv.state established && has_psh s.fl)

unfoldable pub answers : Segment → Net → Bool
answers s n =
    s.dport == cli_port && (is_state n.cli.state syn_sent && (has_syn s.fl && has_ack s.fl))

unfoldable pub brings_data : Segment → Net → Bool
brings_data s n = s.dport == cli_port && (is_state n.cli.state established && has_psh s.fl)

unfoldable pub finishes : Segment → Net → Bool
finishes s n = s.dport == cli_port && (has_fin s.fl && is_state n.cli.state established)

-- A half-open connection is confirmed by the right number only.
unfoldable pub confirm_open : Segment → Net → Net
confirm_open s n =
    if s.ack == u32 (n.srv.iss + 1)
    then record n { srv = record (n.srv) { state = established; rcv_nxt = u32 (s.seq + 1) } }
    else n

unfoldable pub close_client : Net → Net
close_client n = record n { cli = record (n.cli) { state = closed } }

unfoldable pub tcp_segment_input : (src dst : ℕ) → Segment → Net → Net
tcp_segment_input src dst s n =
    if opens s n
    then accept_syn src dst s n
    else if confirms s n
    then confirm_open s n
    else if requests s n
    then serve src dst s n
    else if answers s n
    then complete_handshake src dst s n
    else if brings_data s n
    then receive src dst s n
    else if finishes s n
    then close_client n
    else n

unfoldable pub tcp_ipv4_input : List ℕ → (src dst : ℕ) → Net → Net
tcp_ipv4_input pkt src dst n = elim (parse_segment pkt) [
  | none ↦ n
  | some s ↦ tcp_segment_input src dst s n
]

unfoldable pub tcp_connect_send_get : ℕ → Net → Net
tcp_connect_send_get ip n = record n {
  cli = record (n.cli) {
    state = syn_sent;
    local_port = cli_port;
    remote_ip = ip;
    remote_port = srv_port;
    iss = 10000;
    snd_una = 10000;
    snd_nxt = 10001;
    rx = [];
  };
  srv = record (n.srv) { state = listen; rx = [] };
  lb = tcp_send_flags net_ipv4_loopback net_ipv4_loopback cli_port srv_port 10000 0 tcp_syn [] n.lb;
}

-- `none` is the return value -1.
unfoldable pub tcp_send_data : List ℕ → Net → Option (Unit {0}) × Net
tcp_send_data bytes n = if not (is_state n.cli.state established) then (none, n) else (
  some tt,
  record n {
    lb =
        tcp_send_flags net_ipv4_loopback net_ipv4_loopback cli_port srv_port n.cli.snd_nxt
          n.cli.rcv_nxt (tcp_ack + tcp_psh) bytes n.lb;
    cli = record (n.cli) { snd_nxt = u32 (n.cli.snd_nxt + length bytes) };
  },
)
