-- ===== src/Drivers/Keyboard.antt =====
-- src/kernel/drivers/keyboard.c: the character ring and the scancode ring that the interrupt
-- handler fills. The byte read from the data port is an argument of the handler.
pub mod Queue
use bonfire_os.Base.{
  ℕ, ◌+◌, ◌-◌, ◌%◌, Bool, true, false, ◌&&◌, not, Option, none, some, List, [], ◌∷◌, ltb, leb, ◌==◌,
  if◌then◌else◌, bit, update, get_or,
}

abbrev pub keybuf_size : ℕ
keybuf_size = 256

abbrev pub scev_buf_size : ℕ
scev_buf_size = 64

-- The static variables of keyboard.c; an event is a scancode and whether the key went down.
pub record Keyboard : Type 0 where
  pub keybuf : ℕ → ℕ
  pub keybuf_head : ℕ
  pub keybuf_tail : ℕ
  pub keybuf_full : Bool
  pub scev_buf : ℕ → ℕ × Bool
  pub scev_head : ℕ
  pub scev_tail : ℕ
  pub scev_count : ℕ

abbrev scancode_table : List ℕ
scancode_table =
    0 ∷ 27 ∷ b'1' ∷ b'2' ∷ b'3' ∷ b'4' ∷ b'5' ∷ b'6' ∷ b'7' ∷ b'8' ∷ b'9' ∷ b'0' ∷ b'-' ∷ b'=' ∷ 8
    ∷ 9 ∷ b'q' ∷ b'w' ∷ b'e' ∷ b'r' ∷ b't' ∷ b'y' ∷ b'u' ∷ b'i' ∷ b'o' ∷ b'p' ∷ b'[' ∷ b']' ∷ 10 ∷ 0
    ∷ b'a' ∷ b's' ∷ b'd' ∷ b'f' ∷ b'g' ∷ b'h' ∷ b'j' ∷ b'k' ∷ b'l' ∷ b';' ∷ 39 ∷ b'`' ∷ 0 ∷ 92
    ∷ b'z' ∷ b'x' ∷ b'c' ∷ b'v' ∷ b'b' ∷ b'n' ∷ b'm' ∷ b',' ∷ b'.' ∷ b'/' ∷ 0 ∷ b'*' ∷ 0 ∷ b' ' ∷ 0
    ∷ 0 ∷ 0 ∷ 0 ∷ 0 ∷ 0 ∷ 0 ∷ 0 ∷ 0 ∷ 0 ∷ 0 ∷ 0 ∷ 0 ∷ b'7' ∷ b'8' ∷ b'9' ∷ b'-' ∷ b'4' ∷ b'5' ∷ b'6'
    ∷ b'+' ∷ b'1' ∷ b'2' ∷ b'3' ∷ b'0' ∷ b'.' ∷ []

-- The table's cells behind its initialiser are 0.
unfoldable pub scancode_to_ascii : ℕ → ℕ
scancode_to_ascii sc = get_or scancode_table sc 0

-- The scancode event goes into its ring, and is dropped where the ring is full.
unfoldable pub record_event : ℕ → Bool → Keyboard → Keyboard
record_event sc down k =
    if ltb k.scev_count scev_buf_size
    then record k {
      scev_buf = update k.scev_buf k.scev_head (sc, down);
      scev_head = (k.scev_head + 1) % scev_buf_size;
      scev_count = k.scev_count + 1;
    }
    else k

-- The character goes into its ring, and is dropped where the ring is full.
unfoldable pub put_char : ℕ → Keyboard → Keyboard
put_char c k =
    if k.keybuf_full
    then k
    else let head' = (k.keybuf_head + 1) % keybuf_size in
      record k {
        keybuf = update k.keybuf k.keybuf_head c;
        keybuf_head = head';
        keybuf_full = head' == k.keybuf_tail;
      }

unfoldable pub keyboard_irq_handler : ℕ → Keyboard → Keyboard
keyboard_irq_handler port_byte k =
    let down = not (bit port_byte 7) in
    let sc = (if down then port_byte else port_byte % 128) in
    let k1 = record_event sc down k in
    let c = scancode_to_ascii sc in
    if not down then k1 else if leb 128 sc then k1 else if c == 0 then k1 else put_char c k1

-- 0 where no character waits.
unfoldable pub keyboard_getchar : Keyboard → ℕ × Keyboard
keyboard_getchar k = if not k.keybuf_full && k.keybuf_head == k.keybuf_tail then (0, k) else (
  k.keybuf k.keybuf_tail,
  record k { keybuf_tail = (k.keybuf_tail + 1) % keybuf_size; keybuf_full = false },
)

-- `none` is the return value 0.
unfoldable pub keyboard_get_scancode : Keyboard → Option (ℕ × Bool) × Keyboard
keyboard_get_scancode k = if k.scev_count == 0 then (none, k) else (
  some (k.scev_buf k.scev_tail),
  record k { scev_tail = (k.scev_tail + 1) % scev_buf_size; scev_count = k.scev_count - 1 },
)

unfoldable pub keyboard_clear_scancodes : Keyboard → Keyboard
keyboard_clear_scancodes k = record k { scev_tail = k.scev_head; scev_count = 0 }
