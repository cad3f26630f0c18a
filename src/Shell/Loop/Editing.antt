-- ===== src/Shell/Loop/Editing.antt =====
-- The text that the command edit reads.
use mathlib.Core.List.{append-nil, append_assoc}
use bonfire_os.Base.{
  ℕ, zero, suc, true, false, some, [], refl, ◌∷◌, ◌++◌, Bool, ◌≢◌, List, ◌≡◌, All, length, get_or,
  if◌then◌else◌, ◌+◌, ◌<◌, ltb, ◌≤◌, ap, ==_of_ne, sym, ◌∙◌, arith, length-append, if_elim, take,
}
use bonfire_os.Drivers.Vga.{vga_puts}
use bonfire_os.Fs.Path.{slash, fs_name_max, fs_path_max}
use bonfire_os.Fs.Tree.{fs_file_buf}
use bonfire_os.Fs.Ops.{fs_create, fs_write, fs_exists}
use bonfire_os.Fs.Ops.RoundTrip.{name_of, stored_at, fs_write-fs_create}
use bonfire_os.Fat.Disk.{Drive}
use bonfire_os.Shell.Commands.{Command, Machine, puts, next_arg, cmd_edit}
use bonfire_os.Shell.Loop.{writing, Shell, after_command, save_text, text_key, shell_key, shell_run}
use bonfire_os.Shell.Loop.Typing.{shell_run-append}

-- A key that is neither missing nor a line feed.
abbrev IsText : ℕ → Type 0
IsText c = (c ≢ 0) × (c ≢ 10)

absolute_length : (path : List ℕ) → get_or path 0 0 ≡ slash → length path ≢ 0
absolute_length [] h = absurd (omega (arith, h))
absolute_length (c ∷ path) h = λ e. absurd (omega (arith, e))

take_whole : (n : ℕ) (xs : List ℕ) → length xs ≤ n → take n xs ≡ xs
take_whole zero [] h = refl
take_whole zero (x ∷ xs) h = absurd (omega (arith, h))
take_whole (suc n) [] h = refl
take_whole (suc n) (x ∷ xs) h = ap (λ t. x ∷ t) (take_whole n xs (omega (arith, h)))

module _ (drive : Drive) (rounds : ℕ)
    (other_program : Command → List ℕ → Machine (drive.Image) → Machine (drive.Image))
    (dead_name : Machine (drive.Image) → List ℕ → List ℕ) where
  abbrev State : Type 0
  State = Machine (drive.Image)

  abbrev at : List ℕ → List ℕ → State → Shell (drive.Image)
  at path text m = record { mode = writing path text; machine = m }

  abbrev run : List ℕ → Shell (drive.Image) → Shell (drive.Image)
  run keys s = shell_run drive rounds other_program dead_name keys s

  typed_key :
      (c : ℕ) (path text : List ℕ) (m : State)
      → IsText c
      → shell_key drive rounds other_program dead_name c (at path text m)
        ≡ at path (if ltb (length text) 4095 then text ++ c ∷ [] else text) (puts (c ∷ []) m)
  unfolding shell_key text_key
  typed_key c path text m (n0, n10) = rw (==_of_ne c 0 n0, ==_of_ne c 10 n10) refl

  typed_text :
      (keys path text : List ℕ) (m : State)
      → All IsText keys
      → length text + length keys ≤ 4095
      → run keys (at path text m) ≡ at path (text ++ keys) (puts keys m)
  unfolding shell_run vga_puts
  typed_text [] path text m a h = ap (λ t. at path t m) (sym (append-nil text))
  typed_text (c ∷ keys) path text m (p, a) h =
      ap (run keys) (
        typed_key c path text m p
        ∙ ap (λ (t : Bool). at path (if t then text ++ c ∷ [] else text) (puts (c ∷ []) m))
            {x = ltb (length text) 4095} {y = true} (ground (arith, h)))
      ∙ typed_text keys path (text ++ c ∷ []) (puts (c ∷ []) m) a
          (omega (arith, h, length-append text (c ∷ [])))
      ∙ ap (λ t. at path t (puts (c ∷ keys) m)) (append_assoc text (c ∷ []) keys)

  saved_fs :
      (path text : List ℕ) (m : State) → (save_text path text m).fs ≡ (fs_write path text m.fs).1
  unfolding save_text
  saved_fs path text m =
      if_elim (λ (n : State). n.fs ≡ (fs_write path text m.fs).1) (fs_write path text m.fs).0 _ _
        (λ _. refl) (λ _. refl)

  -- What `cmd_edit` waits with: the new file is there.
  asked :
      (args : List ℕ) (m : State)
      → let path = (next_arg fs_path_max args).0 in
        length path ≢ 0
        → fs_exists path m.fs ≡ false
        → (fs_create path m.fs).0 ≡ true
        → let s = after_command (cmd_edit drive rounds other_program dead_name args m) in
          (s ≡ at path [] (s.machine)) × (s.machine.fs ≡ (fs_create path m.fs).1)
  unfolding cmd_edit after_command
  asked args m some_path missing made =
      rw (==_of_ne (length (next_arg fs_path_max args).0) 0 some_path, missing, made, cmd_edit)
        (refl, refl)

  -- When the command edit has made a new file under an absolute path with a last name of at most 31
  -- characters, the text of at most 4095 characters that is typed up to Enter stands in the file system
  -- under this path afterwards.
  pub stored_at-cmd_edit :
      (args keys : List ℕ) (m : Machine (drive.Image))
      → get_or (next_arg fs_path_max args).0 0 0 ≡ slash
      → length (name_of (next_arg fs_path_max args).0) < fs_name_max
      → fs_exists (next_arg fs_path_max args).0 m.fs ≡ false
      → (fs_create (next_arg fs_path_max args).0 m.fs).0 ≡ true
      → All IsText keys
      → length keys < fs_file_buf
      → let s = after_command (cmd_edit drive rounds other_program dead_name args m) in
        stored_at
          (next_arg fs_path_max args).0
          (shell_run drive rounds other_program dead_name (keys ++ 10 ∷ []) s).machine.fs
        ≡ some keys
  unfolding shell_run shell_key text_key
  stored_at-cmd_edit args keys m absolute short missing made a fits =
      let path = (next_arg fs_path_max args).0 in
      let s = after_command (cmd_edit drive rounds other_program dead_name args m) in
      let (waits, created) = asked args m (absolute_length path absolute) missing made in
      ap (λ r. stored_at path r.machine.fs)
        (shell_run-append drive rounds other_program dead_name keys (10 ∷ []) s
          ∙ ap (λ r. run (10 ∷ []) (run keys r)) waits
          ∙ ap (run (10 ∷ [])) (typed_text keys path [] s.machine a (omega (arith, fits))))
      ∙ ap (stored_at path) (saved_fs path keys (puts keys s.machine))
      ∙ ap (λ f. stored_at path (fs_write path keys f).1) created
      ∙ (fs_write-fs_create path keys m.fs short made).1
      ∙ ap some (take_whole 4096 keys (omega (arith, fits)))
