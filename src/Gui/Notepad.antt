-- ===== src/Gui/Notepad.antt =====
-- src/kernel/gui/gui.c: the text editor. A key is a character code.
pub mod Edit
use bonfire_os.Base.{
  ℕ, zero, suc, ◌+◌, [], ◌∷◌, ◌==◌, ◌&&◌, List, update, ◌-◌, if◌then◌else◌, ltb, ◌||◌, length, leb,
}
use bonfire_os.Fs.Tree.{Fs}
use bonfire_os.Fs.Ops.{fs_create, fs_write, fs_exists}

abbrev pub note_size : ℕ
note_size = 4096

-- The variables of the editor; `note_size` is NOTE_BUF.
pub record Notepad : Type 0 where
  pub note_buf : ℕ → ℕ
  pub note_len : ℕ
  pub note_cursor : ℕ
  pub note_path : List ℕ

-- for (i = start; i < start + n; i++) note_buf[i] = note_buf[i + 1];
unfoldable pub shift_down : ℕ → ℕ → (ℕ → ℕ) → ℕ → ℕ
shift_down zero start buf = buf
shift_down (suc n) start buf = shift_down n (start + 1) (update buf start (buf (start + 1)))

-- for (i = start + n; i > start; i--) note_buf[i] = note_buf[i - 1];
unfoldable pub shift_up : ℕ → ℕ → (ℕ → ℕ) → ℕ → ℕ
shift_up zero start buf = buf
shift_up (suc n) start buf = shift_up n start (update buf (start + suc n) (buf (start + n)))

unfoldable pub note_backspace : Notepad → Notepad
note_backspace n =
    let at = n.note_cursor - 1 in
    let len = n.note_len - 1 in
    if ltb 0 n.note_cursor && ltb 0 n.note_len
    then record n {
      note_buf = update (shift_down (n.note_len - at) at n.note_buf) len 0;
      note_len = len;
      note_cursor = at;
    }
    else n

-- The character goes before the cursor.
unfoldable pub note_insert : ℕ → Notepad → Notepad
note_insert c n =
    if ltb (n.note_len + 1) note_size
    then record n {
      note_buf =
          update (shift_up (n.note_len - n.note_cursor) n.note_cursor n.note_buf) n.note_cursor c;
      note_len = n.note_len + 1;
      note_cursor = n.note_cursor + 1;
    }
    else n

-- A character other than a new line is followed by a terminator behind the text.
unfoldable pub note_type : ℕ → Notepad → Notepad
note_type c n =
    let n1 = note_insert c n in
    if ltb (n.note_len + 1) note_size
    then record n1 { note_buf = update n1.note_buf n1.note_len 0 }
    else n

-- The first `len` bytes of a buffer, from `i` on.
unfoldable pub text_from : ℕ → (ℕ → ℕ) → ℕ → List ℕ
text_from i buf zero = []
text_from i buf (suc len) = buf i ∷ text_from (i + 1) buf len

abbrev pub note_text : Notepad → List ℕ
note_text n = text_from 0 n.note_buf n.note_len

unfoldable pub note_save : Notepad → Fs → Fs
note_save n fs =
    let made = if fs_exists n.note_path fs then fs else (fs_create n.note_path fs).1 in
    if ltb 0 (length n.note_path) then (fs_write n.note_path (note_text n) made).1 else fs

-- The keys of the editor in `handle_key`.
unfoldable note_key : ℕ → Notepad → Fs → Notepad × Fs
note_key c n fs =
    if c == 19
    then (n, note_save n fs)
    else if c == 8
    then (note_backspace n, fs)
    else if c == 10 || c == 13
    then (note_insert 10 n, fs)
    else if leb 32 c && ltb c 127
    then (note_type c n, fs)
    else (n, fs)
