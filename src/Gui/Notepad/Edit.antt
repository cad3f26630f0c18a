-- ===== src/Gui/Notepad/Edit.antt =====
-- Typing and deleting, and what is saved.
use bonfire_os.Base.{
  ℕ, suc, ◌+◌, update, ◌<◌, ◌≤◌, ◌≡◌, ◌-◌, arith, lt→ltb, true, false, some, [], ◌∷◌, List, ltb,
  get_or, length, take,
}
use bonfire_os.Fs.Path.{slash, fs_name_max}
use bonfire_os.Fs.Tree.{Fs, fs_file_buf}
use bonfire_os.Fs.Ops.{fs_create, fs_exists}
use bonfire_os.Fs.Ops.RoundTrip.{name_of, stored_at, fs_write-fs_create}
use bonfire_os.Gui.Notepad.{Notepad, note_size, shift_down, shift_up, note_text, note_save}

path_there : (p : List ℕ) → get_or p 0 0 ≡ slash → ltb 0 (length p) ≡ true
path_there [] e = absurd (omega (arith, e))
path_there (c ∷ p) e = lt→ltb 0 (suc (length p)) (omega arith)

module _ (c : ℕ) (n : Notepad) (inside : n.note_cursor ≤ n.note_len)
    (room : n.note_len + 1 < note_size) where
  -- The buffer with the character in its place, and with the terminator.
  shifted : ℕ → ℕ
  shifted = shift_up (n.note_len - n.note_cursor) n.note_cursor n.note_buf

  placed : ℕ → ℕ
  placed = update shifted n.note_cursor c

  typed : ℕ → ℕ
  typed = update placed (n.note_len + 1) 0

  -- The buffer after the character is deleted again.
  deleted : ℕ → ℕ
  deleted = update (shift_down (n.note_len + 1 - n.note_cursor) n.note_cursor typed) n.note_len 0

-- What `note_save` puts into a file that did not exist, under an absolute path with a last name of at
-- most 31 characters, is the text, cut to the 4096 bytes that a file holds: this then stands in the file
-- system under the path.
pub stored_at-note_save :
    (n : Notepad) (fs : Fs)
    → get_or n.note_path 0 0 ≡ slash
    → length (name_of n.note_path) < fs_name_max
    → fs_exists n.note_path fs ≡ false
    → (fs_create n.note_path fs).0 ≡ true
    → stored_at n.note_path (note_save n fs) ≡ some (take fs_file_buf (note_text n))
unfolding note_save
stored_at-note_save n fs absolute short missing made =
    rw (missing, path_there n.note_path absolute)
      (fs_write-fs_create n.note_path (note_text n) fs short made).1
