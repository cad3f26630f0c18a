-- ===== src/Net/Loopback/Queue.antt =====
-- The ring of slots refines a queue of at most 15 datagrams.
use mathlib.Core.Path.{fun_ext}
use bonfire_os.Base.{
  ◌||◌, ℕ, ◌+◌, ◌-◌, ◌%◌, ◌≤◌, ◌<◌, ◌≡◌, refl, sym, ap, ◌∙◌, List, [], ◌∷◌, ◌++◌, arith, ltb, ◌==◌,
  if◌then◌else◌, update, length, take, drop, All, zero, suc, take-length-append, Bool-cases, inl,
  ltb→lt, inr, ◌⊎◌, subst, min,
}
use bonfire_os.Base.Window.{window, window_push, window_pop, length-cells}
use bonfire_os.Net.Loopback.{Loopback, lb_q, lb_mtu, loopback_xmit, loopback_fetch}

abbrev pub queued : Loopback → ℕ
queued q = (q.lb_tail + 16 - q.lb_head) % 16

-- The datagram in slot `i`.
abbrev pub slot : Loopback → ℕ → List ℕ
slot q i = take (q.lb_len i) (q.lb_buf i)

-- The datagrams that wait, the oldest first.
abbrev pub packets : Loopback → List (List ℕ)
packets q = window lb_q (slot q) q.lb_head (queued q)

abbrev pub IsDatagram : List ℕ → Type 0
IsDatagram p = (0 < length p) × (length p ≤ lb_mtu)

pub record IsValid (q : Loopback) : Type 0 where
  pub head_in : q.lb_head < lb_q
  pub tail_in : q.lb_tail < lb_q
  pub datagrams : All IsDatagram (packets q)

xmit_full : (ip : List ℕ) (q : Loopback) → IsValid q → queued q ≡ 15 → loopback_xmit ip q ≡ q
unfolding loopback_xmit
xmit_full ip q v full = ground arith

module _ (ip : List ℕ) (q : Loopback) (head_in : q.lb_head < 16) (tail_in : q.lb_tail < 16)
    (d : IsDatagram ip) (room : queued q < 15) where
  xmit_indices :
      ((loopback_xmit ip q).lb_head ≡ q.lb_head)
      × ((loopback_xmit ip q).lb_tail ≡ (q.lb_tail + 1) % 16)
      × (queued (loopback_xmit ip q) ≡ queued q + 1)
      × (q.lb_tail ≡ (q.lb_head + queued q) % 16)
  unfolding loopback_xmit
  xmit_indices = (ground arith, ground arith, ground arith, omega arith)

  xmit_slot : (i : ℕ) → slot (loopback_xmit ip q) i ≡ update (slot q) q.lb_tail ip i
  unfolding loopback_xmit
  xmit_slot i =
      ground (arith, take-length-append (length ip) ip (drop (length ip) (q.lb_buf q.lb_tail)))

  xmit_packets : packets (loopback_xmit ip q) ≡ packets q ++ ip ∷ []
  xmit_packets =
      let (head, tail, count, at) = xmit_indices in
      ap
        (λ (f : ℕ → List ℕ).
          window lb_q f (loopback_xmit ip q).lb_head (queued (loopback_xmit ip q)))
        (fun_ext xmit_slot)
      ∙ ap (λ h. window lb_q (update (slot q) q.lb_tail ip) h (queued (loopback_xmit ip q))) head
      ∙ ap (window lb_q (update (slot q) q.lb_tail ip) q.lb_head) count
      ∙ window_push lb_q (slot q) ip q.lb_head (queued q) q.lb_tail head_in (omega arith) at

All-snoc :
    (ps : List (List ℕ)) (p : List ℕ)
    → All IsDatagram ps
    → IsDatagram p
    → All IsDatagram (ps ++ p ∷ [])
All-snoc [] p h d = (d, tt)
All-snoc (x ∷ ps) p h d = (h.0, All-snoc ps p h.1 d)

-- A datagram of 1 to 2048 bytes goes behind the others while fewer than 15 wait; with 15 waiting it
-- is dropped, and the queue is as before.
pub loopback_xmit-packets :
    (ip : List ℕ) (q : Loopback)
    → IsValid q
    → IsDatagram ip
    → packets (loopback_xmit ip q) ≡ (if ltb (queued q) 15 then packets q ++ ip ∷ [] else packets q)
loopback_xmit-packets ip q v d = elim (Bool-cases (ltb (queued q) 15)) [
  | inl room ↦ rw room (xmit_packets ip q v.head_in v.tail_in d (ltb→lt (queued q) 15 room))
  | inr full ↦ rw full (ap packets (xmit_full ip q v (ground arith)))
]

-- What is no datagram, an empty one or one of more than 2048 bytes, is dropped.
pub loopback_xmit_refused : (ip : List ℕ) (q : Loopback) → ¬ IsDatagram ip → loopback_xmit ip q ≡ q
unfolding loopback_xmit
loopback_xmit_refused ip q n = elim (Bool-cases (length ip == 0 || ltb 2048 (length ip))) [
  | inl e ↦ rw e refl
  | inr e ↦ absurd (n (ground arith))
]

pub IsDatagram-cases : (ip : List ℕ) → IsDatagram ip ⊎ (¬ IsDatagram ip)
IsDatagram-cases ip = elim (Bool-cases (length ip == 0 || ltb 2048 (length ip))) [
  | inl e ↦ inr (λ d. ground arith)
  | inr e ↦ inl (ground arith)
]

pub loopback_xmit-IsValid : (ip : List ℕ) (q : Loopback) → IsValid q → IsValid (loopback_xmit ip q)
loopback_xmit-IsValid ip q v = elim (IsDatagram-cases ip) [
  | inr bad ↦ rw (loopback_xmit_refused ip q bad) v
  | inl d ↦ elim (Bool-cases (ltb (queued q) 15)) [
    | inr full ↦ rw (xmit_full ip q v (ground arith)) v
    | inl free ↦
        let room = ltb→lt (queued q) 15 free in
        let (head, tail, count, at) = xmit_indices ip q v.head_in v.tail_in d room in
        record {
          head_in = omega (arith, head, v.head_in);
          tail_in = omega (arith, tail);
          datagrams =
              subst (All IsDatagram) (sym (xmit_packets ip q v.head_in v.tail_in d room))
                (All-snoc (packets q) ip v.datagrams d);
        }
  ]
]

take-nil : {A : Type 0} (k : ℕ) → ◌≡◌ {A = List A} (take k []) []
take-nil zero = refl
take-nil (suc k) = refl

take-min :
    {A : Type 0} (n m : ℕ) (xs : List A) → length (take n xs) ≤ m → take (min n m) xs ≡ take n xs
take-min zero m xs h = ap (λ k. take k xs) {y = 0} (omega arith)
take-min (suc n) m [] h = take-nil (min (suc n) m)
take-min (suc n) zero (x ∷ xs) h = absurd (omega arith)
take-min (suc n) (suc m) (x ∷ xs) h =
    ap (λ k. take k (x ∷ xs)) {y = suc (min n m)} (omega arith)
    ∙ ap (λ t. x ∷ t) (take-min n m xs (omega arith))

fetch_none : (q : Loopback) → IsValid q → packets q ≡ [] → loopback_fetch 2048 q ≡ ([], q)
unfolding loopback_fetch
fetch_none q v e = ground (arith, length-cells lb_q (slot q) q.lb_head 0 (queued q), ap length e)

module _ (q : Loopback) (v : IsValid q) (wait : 0 < queued q) where
  fetch_lem : loopback_fetch 2048 q ≡ (
    take (min (q.lb_len q.lb_head) 2048) (q.lb_buf q.lb_head),
    record q { lb_head = (q.lb_head + 1) % 16 },
  )
  unfolding loopback_fetch
  fetch_lem = ground arith

  fetch_queued : queued (record q { lb_head = (q.lb_head + 1) % 16 }) ≡ queued q - 1
  fetch_queued = omega (arith, v)

-- With a buffer of 2048 bytes, `loopback_fetch` hands out the oldest datagram, whole, and leaves the
-- others in order; from an empty queue it takes nothing.
pub loopback_fetch-packets :
    (q : Loopback)
    → IsValid q
    → (packets q ≡ [] → loopback_fetch 2048 q ≡ ([], q))
      × ((p : List ℕ) (ps : List (List ℕ))
          → packets q ≡ p ∷ ps
          → ((loopback_fetch 2048 q).0 ≡ p)
            × (packets (loopback_fetch 2048 q).1 ≡ ps)
            × IsValid (loopback_fetch 2048 q).1)
loopback_fetch-packets q v = (fetch_none q v, taken)
  where
    taken :
        (p : List ℕ) (ps : List (List ℕ))
        → packets q ≡ p ∷ ps
        → ((loopback_fetch 2048 q).0 ≡ p)
          × (packets (loopback_fetch 2048 q).1 ≡ ps)
          × IsValid (loopback_fetch 2048 q).1
    taken p ps e =
        let wait : 0 < queued q =
          omega (arith, length-cells lb_q (slot q) q.lb_head 0 (queued q), ap length e) in
        let split = sym e ∙ window_pop lb_q (slot q) q.lb_head (queued q) v.head_in wait in
        let all : All IsDatagram (p ∷ ps) = subst (All IsDatagram) e v.datagrams in
        let first : p ≡ slot q q.lb_head = cc split in
        let rest : ps ≡ window lb_q (slot q) ((q.lb_head + 1) % 16) (queued q - 1) = cc split in
        let left =
          ap (window lb_q (slot q) ((q.lb_head + 1) % 16)) (fetch_queued q v wait) ∙ sym rest in
        rw (fetch_lem q v wait) (
          take-min (q.lb_len q.lb_head) 2048 (q.lb_buf q.lb_head)
                (omega (arith, ap length first, all.0))
              ∙ sym first,
          left,
          record {
            head_in = omega arith;
            tail_in = v.tail_in;
            datagrams = subst (All IsDatagram) (sym left) all.1;
          },
        )
