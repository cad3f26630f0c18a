-- ===== src/Shell/Loop/Typing.antt =====
-- Lines and texts that are typed.
use mathlib.Core.List.{append-nil, append_assoc}
use bonfire_os.Base.{
  ℕ, zero, suc, [], refl, ◌∷◌, ◌++◌, ◌≢◌, List, ◌≡◌, All, if◌then◌else◌, length, ltb, ◌+◌, ==_of_ne,
  take, Bool, ap, sym, ◌∙◌, ◌-◌, ◌<◌, false, arith, true, length-append, take-length-append,
}
use bonfire_os.Drivers.Vga.{vga_puts}
use bonfire_os.Fat.Disk.{Drive}
use bonfire_os.Shell.Commands.{Command, Machine, puts}
use bonfire_os.Shell.Loop.{
  line_max, typing, Shell, after_command, run_command, line_key, shell_key, shell_run,
}

-- A key that is neither missing nor a line feed, a carriage return or a backspace.
abbrev pub IsPlain : ℕ → Type 0
IsPlain c = (c ≢ 0) × (c ≢ 10) × (c ≢ 13) × (c ≢ 8)

module _ (drive : Drive) (rounds : ℕ)
    (other_program : Command → List ℕ → Machine (drive.Image) → Machine (drive.Image))
    (dead_name : Machine (drive.Image) → List ℕ → List ℕ) where
  abbrev State : Type 0
  State = Machine (drive.Image)

  abbrev at : List ℕ → State → Shell (drive.Image)
  at line m = record { mode = typing line; machine = m }

  abbrev run : List ℕ → Shell (drive.Image) → Shell (drive.Image)
  run keys s = shell_run drive rounds other_program dead_name keys s

  plain_key :
      (c : ℕ) (line : List ℕ) (m : State)
      → IsPlain c
      → shell_key drive rounds other_program dead_name c (at line m)
        ≡ (if ltb (length line) 255 then at (line ++ c ∷ []) (puts (c ∷ []) m) else at line m)
  unfolding shell_key line_key
  plain_key c line m (n0, n10, n13, n8) =
      rw (==_of_ne c 0 n0, ==_of_ne c 10 n10, ==_of_ne c 13 n13, ==_of_ne c 8 n8) refl

  backspace_key :
      (line : List ℕ) (m : State)
      → length line ≢ 0
      → (shell_key drive rounds other_program dead_name 8 (at line m)).mode
        ≡ typing (take (length line - 1) line)
  unfolding shell_key line_key
  backspace_key line m h = rw (==_of_ne (length line) 0 h) refl

  typed_line :
      (keys line : List ℕ) (room : ℕ) (m : State)
      → All IsPlain keys
      → length line + room ≡ 255
      → run keys (at line m) ≡ at (line ++ take room keys) (puts (take room keys) m)
  unfolding shell_run vga_puts
  typed_line [] line zero m a e = ap (λ l. at l m) (sym (append-nil line))
  typed_line [] line (suc room) m a e = ap (λ l. at l m) (sym (append-nil line))
  typed_line (c ∷ keys) line zero m (h, a) e =
      ap (run keys) (
        plain_key c line m h
        ∙ ap (λ (t : Bool). if t then at (line ++ c ∷ []) (puts (c ∷ []) m) else at line m)
            {x = ltb (length line) 255} {y = false} (ground (arith, e)))
      ∙ typed_line keys line zero m a e
  typed_line (c ∷ keys) line (suc room) m (h, a) e =
      ap (run keys) (
        plain_key c line m h
        ∙ ap (λ (t : Bool). if t then at (line ++ c ∷ []) (puts (c ∷ []) m) else at line m)
            {x = ltb (length line) 255} {y = true} (ground (arith, e)))
      ∙ typed_line keys (line ++ c ∷ []) room (puts (c ∷ []) m) a
          (omega (arith, e, length-append line (c ∷ [])))
      ∙ ap (λ l. at l (puts (c ∷ take room keys) m)) (append_assoc line (c ∷ []) (take room keys))

  pub shell_run-append :
      (keys more : List ℕ) (s : Shell (drive.Image)) → run (keys ++ more) s ≡ run more (run keys s)
  unfolding shell_run
  shell_run-append [] more s = refl
  shell_run-append (c ∷ keys) more s = shell_run-append keys more _

  -- Plain keys typed at a prompt, and Enter behind them, run the first 255 of them as a command, after
  -- these, and no others, have been shown.
  pub shell_run_line :
      (keys : List ℕ) (m : Machine (drive.Image))
      → All IsPlain keys
      → let line = take (line_max - 1) keys in
        shell_run drive rounds other_program dead_name
          (keys ++ 10 ∷ [])
          (record { mode = typing []; machine = m })
        ≡ after_command
            (run_command drive rounds other_program dead_name line (puts (10 ∷ []) (puts line m)))
  unfolding shell_run shell_key line_key
  shell_run_line keys m a =
      shell_run-append keys (10 ∷ []) (at [] m)
      ∙ ap (run (10 ∷ [])) (typed_line keys [] 255 m a (omega arith))

  -- A key and a backspace behind it leave the line as it was, if it has room for the key.
  shell_run_backspace :
      (c : ℕ) (line : List ℕ) (m : Machine (drive.Image))
      → IsPlain c
      → length line < line_max - 1
      → (shell_run drive rounds other_program dead_name
          (c ∷ 8 ∷ [])
          (record { mode = typing line; machine = m })).mode
        ≡ typing line
  unfolding shell_run
  shell_run_backspace c line m h room =
      ap (λ s. (shell_key drive rounds other_program dead_name 8 s).mode)
        (plain_key c line m h
          ∙ ap (λ (t : Bool). if t then at (line ++ c ∷ []) (puts (c ∷ []) m) else at line m)
              {x = ltb (length line) 255} {y = true} (ground (arith, room)))
      ∙ backspace_key (line ++ c ∷ []) (puts (c ∷ []) m)
          (omega (arith, length-append line (c ∷ [])))
      ∙ ap typing (
          take-length-append (length (line ++ c ∷ []) - 1) line (c ∷ [])
            (omega (arith, length-append line (c ∷ []))))
