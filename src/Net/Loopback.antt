-- ===== src/Net/Loopback.antt =====
-- src/kernel/net/net_loopback.c: the queue of datagrams. A datagram is the list of its bytes.
pub mod Queue
use bonfire_os.Base.{
  ℕ, ◌+◌, ◌-◌, ◌%◌, ◌||◌, List, [], ◌∷◌, ◌++◌, ltb, leb, ◌==◌, if◌then◌else◌, update, length, take,
  drop, min,
}

abbrev pub lb_q : ℕ
lb_q = 16

abbrev pub lb_mtu : ℕ
lb_mtu = 2048

-- The static variables of net_loopback.c.
pub record Loopback : Type 0 where
  pub lb_buf : ℕ → List ℕ
  pub lb_len : ℕ → ℕ
  pub lb_head : ℕ
  pub lb_tail : ℕ

-- The bytes of a slot that lie behind the new datagram keep their old values.
unfoldable pub loopback_xmit : List ℕ → Loopback → Loopback
loopback_xmit ip q =
    let len = length ip in
    if len == 0 || ltb lb_mtu len
    then q
    else let next = (q.lb_tail + 1) % lb_q in
      if next == q.lb_head then q else record q {
        lb_buf = update q.lb_buf q.lb_tail (ip ++ drop len (q.lb_buf q.lb_tail));
        lb_len = update q.lb_len q.lb_tail len;
        lb_tail = next;
      }

-- The bytes copied out, none of them where the queue is empty.
unfoldable pub loopback_fetch : ℕ → Loopback → List ℕ × Loopback
loopback_fetch max q = if q.lb_head == q.lb_tail then ([], q) else (
  take (min (q.lb_len q.lb_head) max) (q.lb_buf q.lb_head),
  record q { lb_head = (q.lb_head + 1) % lb_q },
)

unfoldable pub loopback_clear : Loopback → Loopback
loopback_clear q = record q { lb_head = 0; lb_tail = 0 }
