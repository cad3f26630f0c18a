-- ===== src/Shell/Loop.antt =====
-- src/kernel/shell/shell.c: a line is typed and run as a command.
pub mod Typing
pub mod Editing
use bonfire_os.Base.{ℕ, [], ◌∷◌, ◌==◌, ◌++◌, List, if◌then◌else◌, length, ◌||◌, ltb, take, ◌-◌}
use bonfire_os.Base.Text.{codes}
use bonfire_os.Drivers.Vga.{vga_clear}
use bonfire_os.Fs.Tree.{fs_file_buf, fs_init}
use bonfire_os.Fs.Ops.{fs_write}
use bonfire_os.Fat.Disk.{Drive}
use bonfire_os.Shell.Alias.{skip_spaces, alias_parse_and_expand}
use bonfire_os.Shell.Commands.{
  Command, help, clear, echo, ls, cd, mkdir, cat, edit, set_alias, fatcat, fatput, doom, redalert,
  gui, ping, httpget, lynx, unknown, next_arg, command_of, Machine, Outcome, finished, editing,
  puts, cmd_ls, cmd_cd, cmd_mkdir, cmd_cat, cmd_fatcat, cmd_fatput, cmd_edit, cmd_alias, cmd_ping,
  cmd_httpget,
}

abbrev pub line_max : ℕ
line_max = 256

-- What the keys go to: `line_buf` up to `line_len`, or the path and the text so far of the file that
-- `cmd_edit` reads.
pub data Mode : Type 0 where
  typing : List ℕ → Mode
  writing : List ℕ → List ℕ → Mode

pub record Shell (Image : Type 0) : Type 0 where
  pub mode : Mode
  pub machine : Machine Image

-- A new prompt.
abbrev pub prompt : {Image : Type 0} → Machine Image → Shell Image
prompt m = record { mode = typing []; machine = puts (62 ∷ 32 ∷ []) m }

abbrev shell_init : {Image : Type 0} → Shell Image → Shell Image
shell_init s = record {
  mode = typing [];
  machine = record (s.machine) { fs = fs_init s.machine.fs };
}

-- The end of the command that has been run.
unfoldable pub after_command : {Image : Type 0} → Outcome Image → Shell Image
after_command (finished m) = prompt m
after_command (editing path m) = record { mode = writing path []; machine = m }

-- The end of `cmd_edit`.
unfoldable pub save_text : {Image : Type 0} → List ℕ → List ℕ → Machine Image → Machine Image
save_text path text m =
    let shown = puts (10 ∷ []) m in
    let r = fs_write path text m.fs in
    let saved = record shown { fs = r.1 } in
    if r.0 then puts (codes "Saved.\n") saved else puts (codes "edit: write failed\n") saved

module _ (drive : Drive) (rounds : ℕ)
    (other_program : Command → List ℕ → Machine (drive.Image) → Machine (drive.Image))
    (dead_name : Machine (drive.Image) → List ℕ → List ℕ) where
  abbrev commands_text : List ℕ
  commands_text =
      codes
        "Commands: help clear echo ls cd mkdir cat edit alias fatcat fatput DOOM REDALERT gui ping httpget LYNX\n"

  -- The branches of `run_command`, with the text behind the first word.
  unfoldable pub dispatch : Command → List ℕ → Machine (drive.Image) → Outcome (drive.Image)
  dispatch help args m = finished (puts commands_text m)
  dispatch clear args m = finished (record m { vga = vga_clear m.vga })
  dispatch echo args m = finished (puts (10 ∷ []) (puts (skip_spaces args) m))
  dispatch ls args m = finished (cmd_ls drive rounds other_program dead_name args m)
  dispatch cd args m = finished (cmd_cd drive rounds other_program dead_name args m)
  dispatch mkdir args m = finished (cmd_mkdir drive rounds other_program dead_name args m)
  dispatch cat args m = finished (cmd_cat drive rounds other_program dead_name args m)
  dispatch edit args m = cmd_edit drive rounds other_program dead_name args m
  dispatch set_alias args m = finished (cmd_alias drive rounds other_program dead_name args m)
  dispatch fatcat args m = finished (cmd_fatcat drive rounds other_program dead_name args m)
  dispatch fatput args m = finished (cmd_fatput drive rounds other_program dead_name args m)
  dispatch doom args m = finished (other_program doom args m)
  dispatch redalert args m = finished (other_program redalert args m)
  dispatch gui args m = finished (other_program gui args m)
  dispatch ping args m = finished (cmd_ping drive rounds other_program dead_name m)
  dispatch httpget args m = finished (cmd_httpget drive rounds other_program dead_name m)
  dispatch lynx args m = finished (other_program lynx args m)
  dispatch unknown args m = finished (puts (codes "Unknown command. Type 'help' for list.\n") m)

  unfoldable pub run_command : List ℕ → Machine (drive.Image) → Outcome (drive.Image)
  run_command line m =
      let p = skip_spaces (alias_parse_and_expand line line_max m.aliases) in
      let (cmd, args) = next_arg 32 p in
      if length p == 0 then finished m else dispatch (command_of cmd) args m

  -- A key in the loop of `shell_run`. A 0 is no key.
  unfoldable pub line_key : ℕ → List ℕ → Machine (drive.Image) → Shell (drive.Image)
  line_key c line m =
      let run = after_command (run_command line (puts (10 ∷ []) m)) in
      if c == 0
      then record { mode = typing line; machine = m }
      else if c == 10 || c == 13
      then run
      else if c == 8
      then (if length line == 0 then record { mode = typing line; machine = m } else record {
        mode = typing (take (length line - 1) line);
        machine = puts (8 ∷ 32 ∷ 8 ∷ []) m;
      })
      else if ltb (length line) (line_max - 1)
      then record { mode = typing (line ++ c ∷ []); machine = puts (c ∷ []) m }
      else record { mode = typing line; machine = m }

  -- A key in the loop of `cmd_edit`.
  unfoldable pub text_key : ℕ → List ℕ → List ℕ → Machine (drive.Image) → Shell (drive.Image)
  text_key c path text m =
      let longer = if ltb (length text) (fs_file_buf - 1) then text ++ c ∷ [] else text in
      if c == 0
      then record { mode = writing path text; machine = m }
      else if c == 10
      then prompt (save_text path text m)
      else record { mode = writing path longer; machine = puts (c ∷ []) m }

  unfoldable pub shell_key : ℕ → Shell (drive.Image) → Shell (drive.Image)
  shell_key c s = elim s.mode [
    | typing line ↦ line_key c line s.machine
    | writing path text ↦ text_key c path text s.machine
  ]

  -- `shell_run` on the keys that have been typed.
  unfoldable pub shell_run : List ℕ → Shell (drive.Image) → Shell (drive.Image)
  shell_run [] s = s
  shell_run (c ∷ keys) s = shell_run keys (shell_key c s)
