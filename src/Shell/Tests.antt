-- ===== src/Shell/Tests.antt =====
-- The shell's theorems at concrete inputs.
use bonfire_os.Base.Text.{same}
use bonfire_os.Base.{
  ℕ, ◌+◌, ◌≤◌, ◌≡◌, ◌≢◌, refl, arith, some, List, [], ◌∷◌, ◌++◌, length, false, ◌==◌, ==→ne,
}
use bonfire_os.Base.Text.{codes}
use bonfire_os.Fs.Path.{normalize_path, normal_out, normal_loop, normal_step, path_parts, last_from}
use bonfire_os.Fs.Tree.{fs_init, node_by_name, dir_by_name, file_by_name, walk, path_to_dir}
use bonfire_os.Fs.Ops.RoundTrip.{stored_at}
use bonfire_os.Fs.Ops.{parent_dir, fs_create, fs_exists}
use bonfire_os.Net.Tcp.{Tcb, closed}
use bonfire_os.Fat.Names.{ascii_upper, build_expected_from_83}
use bonfire_os.Fat.Example.{memory_drive, floppy}
use bonfire_os.Shell.Commands.{Command, Machine, puts, next_arg, cmd_edit, name_83}
use bonfire_os.Shell.Commands.FileNames.{build_expected_from_83-name_83}
use bonfire_os.Shell.Loop.{typing, after_command, run_command, shell_run}
use bonfire_os.Shell.Loop.Typing.{IsPlain, shell_run_line}
use bonfire_os.Shell.Loop.Editing.{stored_at-cmd_edit}
use bonfire_os.Shell.Alias.{
  split_word, skip_spaces, Aliases, alias_set, alias_get, alias_parse_and_expand, replace_value,
  split_word, skip_spaces,
}
use bonfire_os.Shell.Alias.Table.{alias_set-get}
use bonfire_os.Shell.Alias.Bounds.{IsValid}
use bonfire_os.Shell.Alias.Expand.{alias_parse_and_expand-first}

abbrev rows : Aliases
rows = (codes "ll", codes "ls -l") ∷ []

rows-IsValid : IsValid rows
rows-IsValid = record { rows_fit = omega arith; texts_fit = ((omega arith, omega arith), tt) }

alias_set-get_example :
    let rows' = (alias_set (codes "ll") (codes "ls") rows).1 in
    (alias_get (codes "ll") rows' ≡ some (codes "ls"))
    × ((other : List ℕ) → other ≢ codes "ll" → alias_get other rows' ≡ alias_get other rows)
    × (length rows' ≤ length rows + 1)
unfolding alias_set replace_value same
alias_set-get_example =
    alias_set-get (codes "ll") (codes "ls") rows (omega arith) (omega arith) refl

-- The line "  ll /x".
alias_parse_and_expand-first_example :
    alias_parse_and_expand (32 ∷ 32 ∷ 108 ∷ 108 ∷ 32 ∷ 47 ∷ 120 ∷ []) 16 rows
    ≡ codes "ls -l" ++ (32 ∷ 47 ∷ 120 ∷ [])
unfolding alias_get same
alias_parse_and_expand-first_example =
    alias_parse_and_expand-first 2 108 47 (108 ∷ []) (120 ∷ []) rows 16
      (omega arith, (omega arith, tt)) (omega arith) (omega arith)

abbrev idle_tcb : Tcb
idle_tcb = record {
  state = closed;
  local_port = 0;
  remote_ip = 0;
  remote_port = 0;
  snd_una = 0;
  snd_nxt = 0;
  iss = 0;
  rcv_nxt = 0;
  rx = [];
}

-- After the start: an empty file system, screen, network and disk.
abbrev machine : Machine (memory_drive.Image)
machine = record {
  fs = fs_init (record { files = []; dirs = []; cwd = 0 });
  aliases = rows;
  vga = record { vga_buffer = λ _. 0; vga_row = 0; vga_column = 0; vga_fg = 7; vga_bg = 0 };
  net = record {
    srv = idle_tcb;
    cli = idle_tcb;
    lb = record { lb_buf = λ _. []; lb_len = λ _. 0; lb_head = 0; lb_tail = 0 };
    icmp_echo_reply_rx = 0;
  };
  volume = floppy;
  disk = λ _ _. 0;
}

abbrev no_program : Command → List ℕ → Machine (memory_drive.Image) → Machine (memory_drive.Image)
no_program c args m = m

-- The name is still there.
abbrev intact : Machine (memory_drive.Image) → List ℕ → List ℕ
intact m name = name

different : (a b : ℕ) → (a == b) ≡ false → a ≢ b
different a b h = ==→ne a b h

-- The line "ll".
shell_run_line_example :
    shell_run memory_drive 8 no_program intact
      (108 ∷ 108 ∷ 10 ∷ [])
      (record { mode = typing []; machine = machine })
    ≡ after_command (
        run_command memory_drive 8 no_program intact
          (108 ∷ 108 ∷ [])
          (puts (10 ∷ []) (puts (108 ∷ 108 ∷ []) machine)))
shell_run_line_example =
    let plain : IsPlain 108 =
      (different 108 0 refl, different 108 10 refl, different 108 13 refl, different 108 8 refl) in
    shell_run_line memory_drive 8 no_program intact (108 ∷ 108 ∷ []) machine (plain, (plain, tt))

stored_at-cmd_edit_example :
    stored_at
      (codes "/f")
      (shell_run memory_drive 8 no_program intact (104 ∷ 105 ∷ 10 ∷ []) (
        after_command (cmd_edit memory_drive 8 no_program intact (codes " /f") machine))).machine.fs
    ≡ some (104 ∷ 105 ∷ [])
unfolding split_word skip_spaces last_from normalize_path normal_out normal_loop normal_step
    fs_exists fs_create parent_dir file_by_name node_by_name dir_by_name path_to_dir walk path_parts
    same fs_init
stored_at-cmd_edit_example =
    stored_at-cmd_edit memory_drive 8 no_program intact (codes " /f") (104 ∷ 105 ∷ []) machine refl
      (omega arith) refl refl
      (
        (different 104 0 refl, different 104 10 refl),
        ((different 105 0 refl, different 105 10 refl), tt),
      )
      (omega arith)

build_expected_from_83-name_83_example :
    let expected = λ (args : List ℕ). build_expected_from_83 (name_83 (next_arg 12 args).0) in
    (expected (codes "a.c") ≡ codes "A.C") × (expected (codes "a.c hi") ≡ codes "A.C")
unfolding ascii_upper
build_expected_from_83-name_83_example =
    build_expected_from_83-name_83 (97 ∷ []) 99 [] (codes "hi")
      ((different 97 46 refl, different 97 32 refl), tt)
      ((different 99 46 refl, different 99 32 refl), tt) (omega arith) (omega arith) (omega arith)
