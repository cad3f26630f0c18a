-- ===== src/Drivers/Keyboard/Queue.antt =====
-- The two rings of the keyboard refine bounded first-in first-out queues.
use bonfire_os.Base.{
  refl, zero, suc, ◌==◌, ℕ, ◌+◌, ◌-◌, ◌%◌, ◌≤◌, ◌<◌, ◌≡◌, ◌∙◌, Bool, true, false, List, [], ◌∷◌,
  ◌++◌, arith, if◌then◌else◌, Bool-cases, lt→ltb, inl, inr, ap, Option, ltb, ◌≢◌, none, some,
  ltb→lt, sym, length, suc,
}
use bonfire_os.Base.Window.{window, window_push, length-cells, window_pop}
use bonfire_os.Drivers.Keyboard.{
  Keyboard, keybuf_size, scev_buf_size, record_event, put_char, keyboard_irq_handler,
  keyboard_getchar, keyboard_get_scancode, keyboard_clear_scancodes, scancode_to_ascii,
}

-- How many characters wait.
abbrev pending : Keyboard → ℕ
pending k = if k.keybuf_full then 256 else (k.keybuf_head + 256 - k.keybuf_tail) % 256

-- The characters that wait, the oldest first.
abbrev pub chars : Keyboard → List ℕ
chars k = window keybuf_size k.keybuf k.keybuf_tail (pending k)

-- The scancode events that wait, the oldest first.
abbrev pub events : Keyboard → List (ℕ × Bool)
events k = window scev_buf_size k.scev_buf k.scev_tail k.scev_count

-- The indices lie in the buffers, and each ring's head is where its contents end.
pub record IsValid (k : Keyboard) : Type 0 where
  pub head_in : k.keybuf_head < keybuf_size
  pub tail_in : k.keybuf_tail < keybuf_size
  pub full_meets : k.keybuf_full ≡ true → k.keybuf_head ≡ k.keybuf_tail
  pub scev_tail_in : k.scev_tail < scev_buf_size
  pub scev_fits : k.scev_count ≤ scev_buf_size
  pub scev_head_at : k.scev_head ≡ (k.scev_tail + k.scev_count) % scev_buf_size

record_event-IsValid :
    (sc : ℕ) (down : Bool) (k : Keyboard) → IsValid k → IsValid (record_event sc down k)
unfolding record_event
record_event-IsValid sc down k v = ground arith

put_char-IsValid : (c : ℕ) (k : Keyboard) → IsValid k → IsValid (put_char c k)
unfolding put_char
put_char-IsValid c k v = ground arith

-- Every interrupt keeps the rings well formed, whatever byte the port gives.
pub keyboard_irq_handler-IsValid :
    (b : ℕ) (k : Keyboard) → IsValid k → IsValid (keyboard_irq_handler b k)
unfolding keyboard_irq_handler
keyboard_irq_handler-IsValid b k v = grind (arith, record_event-IsValid, put_char-IsValid)

-- So do the three readers.
pub readers-IsValid :
    (k : Keyboard)
    → IsValid k
    → IsValid (keyboard_getchar k).1
      × IsValid (keyboard_get_scancode k).1
      × IsValid (keyboard_clear_scancodes k)
unfolding keyboard_getchar keyboard_get_scancode keyboard_clear_scancodes
readers-IsValid k v = (ground arith, ground arith, ground arith)

head_at :
    (k : Keyboard)
    → IsValid k
    → k.keybuf_full ≡ false
    → (pending k < 256) × (k.keybuf_head ≡ (k.keybuf_tail + pending k) % 256)
head_at k v e = ground arith

put_char_full : (c : ℕ) (k : Keyboard) → k.keybuf_full ≡ true → put_char c k ≡ k
unfolding put_char
put_char_full c k e = ground arith

pending-put_char :
    (c : ℕ) (k : Keyboard)
    → IsValid k
    → k.keybuf_full ≡ false
    → pending (put_char c k) ≡ pending k + 1
unfolding put_char
pending-put_char c k v e = ground arith

put_char-window :
    (c n : ℕ) (k : Keyboard)
    → k.keybuf_full ≡ false
    → k.keybuf_tail < 256
    → n < 256
    → k.keybuf_head ≡ (k.keybuf_tail + n) % 256
    → window keybuf_size (put_char c k).keybuf (put_char c k).keybuf_tail (n + 1)
      ≡ window keybuf_size k.keybuf k.keybuf_tail n ++ c ∷ []
unfolding put_char
put_char-window c n k room ht hn e =
    rw room (window_push keybuf_size k.keybuf c k.keybuf_tail n k.keybuf_head ht hn e)

-- A character is appended where there is room, and dropped where there is none.
put_char-chars :
    (c : ℕ) (k : Keyboard)
    → IsValid k
    → chars (put_char c k) ≡ (if k.keybuf_full then chars k else chars k ++ c ∷ [])
put_char-chars c k v = elim (Bool-cases k.keybuf_full) [
  | inl full ↦ ground (arith, put_char_full c k full)
  | inr room ↦ ground (
    arith,
    ap (window keybuf_size (put_char c k).keybuf (put_char c k).keybuf_tail)
        (pending-put_char c k v room),
    put_char-window c (pending k) k room v.tail_in (head_at k v room).0 (head_at k v room).1,
  )
]

record_event_keeps :
    (sc : ℕ) (down : Bool) (k : Keyboard)
    → (chars (record_event sc down k) ≡ chars k)
      × ((record_event sc down k).keybuf_full ≡ k.keybuf_full)
unfolding record_event
record_event_keeps sc down k = (ground arith, ground arith)

-- The character that a port byte types: that of a make code which the table knows.
abbrev pub typed : ℕ → Option ℕ
typed b =
    if ltb b 128
    then (if scancode_to_ascii b == 0 then none else some (scancode_to_ascii b))
    else none

-- What the queue of characters becomes when one is typed.
abbrev enqueue_typed : Option ℕ → Bool → List ℕ → List ℕ
enqueue_typed none full q = q
enqueue_typed (some c) full q = if full then q else q ++ c ∷ []

-- What the handler does with the character, once the event is recorded.
abbrev deliver : Option ℕ → Keyboard → Keyboard
deliver none k = k
deliver (some c) k = put_char c k

deliver_lem :
    (b : ℕ) (k : Keyboard)
    → b < 256
    → keyboard_irq_handler b k ≡ deliver (typed b) (record_event (b % 128) (ltb b 128) k)
unfolding keyboard_irq_handler
deliver_lem b k byte = ground arith

deliver-chars :
    (o : Option ℕ) (sc : ℕ) (down : Bool) (k : Keyboard)
    → IsValid k
    → chars (deliver o (record_event sc down k)) ≡ enqueue_typed o k.keybuf_full (chars k)
deliver-chars none sc down k v = (record_event_keeps sc down k).0
deliver-chars (some c) sc down k v = ground (
  arith,
  put_char-chars c (record_event sc down k) (record_event-IsValid sc down k v),
  record_event_keeps sc down k,
)

deliver-events : (o : Option ℕ) (k : Keyboard) → events (deliver o k) ≡ events k
unfolding put_char
deliver-events none k = refl
deliver-events (some c) k = ground arith

-- An interrupt with the byte `b` appends the character that `b` types, if it types one and the ring
-- of 256 is not full; otherwise the waiting characters stay as they are.
pub keyboard_irq_handler-chars :
    (b : ℕ) (k : Keyboard)
    → IsValid k
    → b < 256
    → chars (keyboard_irq_handler b k) ≡ enqueue_typed (typed b) k.keybuf_full (chars k)
keyboard_irq_handler-chars b k v byte =
    ap chars (deliver_lem b k byte) ∙ deliver-chars (typed b) (b % 128) (ltb b 128) k v

put_event :
    (sc : ℕ) (down : Bool) (k : Keyboard)
    → IsValid k
    → k.scev_count < 64
    → events (record_event sc down k) ≡ events k ++ (sc, down) ∷ []
unfolding record_event
put_event sc down k v room = rw (lt→ltb k.scev_count 64 room) (
    window_push scev_buf_size k.scev_buf (sc, down) k.scev_tail k.scev_count k.scev_head
      v.scev_tail_in room v.scev_head_at)

record_event_full :
    (sc : ℕ) (down : Bool) (k : Keyboard) → ltb k.scev_count 64 ≡ false → record_event sc down k ≡ k
unfolding record_event
record_event_full sc down k h = ground arith

put_event_or_drop :
    (sc : ℕ) (down : Bool) (k : Keyboard)
    → IsValid k
    → events (record_event sc down k)
      ≡ (if ltb k.scev_count 64 then events k ++ (sc, down) ∷ [] else events k)
put_event_or_drop sc down k v = elim (Bool-cases (ltb k.scev_count 64)) [
  | inl room ↦ rw room (put_event sc down k v (ltb→lt k.scev_count 64 room))
  | inr full ↦ rw full (ap events (record_event_full sc down k full))
]

-- An interrupt with the byte `b` appends the event (`b` without bit 7, whether bit 7 is clear)
-- while fewer than 64 events wait, and leaves the events alone otherwise.
pub keyboard_irq_handler-events :
    (b : ℕ) (k : Keyboard)
    → IsValid k
    → b < 256
    → events (keyboard_irq_handler b k)
      ≡ (if ltb k.scev_count 64 then events k ++ (b % 128, ltb b 128) ∷ [] else events k)
keyboard_irq_handler-events b k v byte =
    ap events (deliver_lem b k byte)
    ∙ deliver-events (typed b) (record_event (b % 128) (ltb b 128) k)
    ∙ put_event_or_drop (b % 128) (ltb b 128) k v

chars_none : (k : Keyboard) → chars k ≡ [] → pending k ≡ 0
chars_none k e = sym (length-cells keybuf_size k.keybuf k.keybuf_tail 0 (pending k)) ∙ ap length e

getchar_none : (k : Keyboard) → IsValid k → chars k ≡ [] → keyboard_getchar k ≡ (0, k)
unfolding keyboard_getchar
getchar_none k v e = ground (arith, chars_none k e)

pending-getchar :
    (k : Keyboard) → IsValid k → 0 < pending k → pending (keyboard_getchar k).1 ≡ pending k - 1
unfolding keyboard_getchar
pending-getchar k v h = ground arith

getchar_moves :
    (k : Keyboard)
    → IsValid k
    → 0 < pending k
    → ((keyboard_getchar k).0 ≡ k.keybuf k.keybuf_tail)
      × ((keyboard_getchar k).1.keybuf_tail ≡ (k.keybuf_tail + 1) % 256)
      × ((keyboard_getchar k).1.keybuf ≡ k.keybuf)
unfolding keyboard_getchar
getchar_moves k v h = (ground arith, ground arith, ground arith)

getchar_some :
    (k : Keyboard)
    → IsValid k
    → chars k ≢ []
    → chars k ≡ (keyboard_getchar k).0 ∷ chars (keyboard_getchar k).1
getchar_some k v ne =
    let some_wait = positive (pending k) refl in
    let (first, moved, kept) = getchar_moves k v some_wait in
    rw (pending-getchar k v some_wait, first, moved, kept)
      (window_pop keybuf_size k.keybuf k.keybuf_tail (pending k) v.tail_in some_wait)
  where
    positive : (n : ℕ) → n ≡ pending k → 0 < pending k
    positive zero e = absurd (ne (ap (window keybuf_size k.keybuf k.keybuf_tail) (sym e)))
    positive (suc n) e = omega arith

-- `keyboard_getchar` takes the oldest character, and returns 0 and changes nothing where none
-- waits.
pub keyboard_getchar-chars :
    (k : Keyboard)
    → IsValid k
    → (chars k ≡ [] → keyboard_getchar k ≡ (0, k))
      × (chars k ≢ [] → chars k ≡ (keyboard_getchar k).0 ∷ chars (keyboard_getchar k).1)
keyboard_getchar-chars k v = (getchar_none k v, getchar_some k v)

get_scancode_none : (k : Keyboard) → events k ≡ [] → keyboard_get_scancode k ≡ (none, k)
unfolding keyboard_get_scancode
get_scancode_none k e =
    ground (arith, length-cells scev_buf_size k.scev_buf k.scev_tail 0 k.scev_count, ap length e)

get_scancode_some :
    (k : Keyboard)
    → IsValid k
    → (e : ℕ × Bool) (es : List (ℕ × Bool)) → events k ≡ e ∷ es
    → ((keyboard_get_scancode k).0 ≡ some e) × (events (keyboard_get_scancode k).1 ≡ es)
unfolding keyboard_get_scancode
get_scancode_some k v e es h =
    let n : 0 < k.scev_count =
      omega
        (arith, length-cells scev_buf_size k.scev_buf k.scev_tail 0 k.scev_count, ap length h) in
    let split = window_pop scev_buf_size k.scev_buf k.scev_tail k.scev_count v.scev_tail_in n in
    (ground (arith, split), ground (arith, split))

-- `keyboard_get_scancode` takes the oldest event.
pub keyboard_get_scancode-events :
    (k : Keyboard)
    → IsValid k
    → (events k ≡ [] → keyboard_get_scancode k ≡ (none, k))
      × ((e : ℕ × Bool) (es : List (ℕ × Bool))
          → events k ≡ e ∷ es
          → ((keyboard_get_scancode k).0 ≡ some e) × (events (keyboard_get_scancode k).1 ≡ es))
keyboard_get_scancode-events k v = (get_scancode_none k, get_scancode_some k v)
