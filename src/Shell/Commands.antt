-- ===== src/Shell/Commands.antt =====
-- src/kernel/shell/shell.c: the commands, built with the GUI and the network. A string is the list of its
-- characters. Keys come one by one, so that the command which reads keys of its own leaves the shell in a
-- state in which it waits for them.
pub mod FileNames
use bonfire_os.Base.{
  ℕ, zero, suc, none, some, [], ◌∷◌, ◌==◌, ◌&&◌, ◌++◌, List, ◌-◌, if◌then◌else◌, take, ltb, length,
  not, min, get_or,
}
use bonfire_os.Base.Text.{codes, same}
use bonfire_os.Drivers.Vga.{Vga, vga_clear, vga_puts, vga_putchar}
use bonfire_os.Fs.Path.{fs_path_max}
use bonfire_os.Fs.Tree.{Fs, fs_file_buf}
use bonfire_os.Fs.Ops.{fs_mkdir, fs_create, fs_write, fs_read, fs_list, fs_chdir, fs_exists}
use bonfire_os.Net.Tcp.{Net, net_ipv4_loopback}
use bonfire_os.Net.Stack.{net_ping, net_http_get_loopback}
use bonfire_os.Fat.Disk.{Drive}
use bonfire_os.Fat.Volume.{Volume}
use bonfire_os.Fat.Exfat.Root.{until_zero}
use bonfire_os.Fat.Mount.{fat_find_root, fat_read_file, fat_write_root}
use bonfire_os.Shell.Alias.{
  Aliases, alias_name_max, alias_value_max, alias_set, alias_parse_and_expand, skip_spaces,
  split_word,
}

-- The word that `next_arg` puts into a buffer of `max_len` characters, and where it leaves the pointer.
abbrev pub next_arg : ℕ → List ℕ → List ℕ × List ℕ
next_arg max_len p = split_word (max_len - 1) (skip_spaces p)

-- for (; name[i] && name[i] != '.' && j < 8; i++) name_83[j++] = name[i];
unfoldable pub split_dot : ℕ → List ℕ → List ℕ × List ℕ
split_dot zero name = ([], name)
split_dot (suc room) [] = ([], [])
split_dot (suc room) (c ∷ name) =
    let (stem, rest) = split_dot room name in if c == b'.' then ([], c ∷ name) else (c ∷ stem, rest)

-- At most `n` characters, filled with spaces.
unfoldable pub padded : ℕ → List ℕ → List ℕ
padded zero xs = []
padded (suc n) [] = 32 ∷ padded n []
padded (suc n) (x ∷ xs) = x ∷ padded n xs

unfoldable pub skip_dot : List ℕ → List ℕ
skip_dot [] = []
skip_dot (c ∷ cs) = if c == b'.' then cs else c ∷ cs

-- The 8.3 form of a name, in `cmd_fatcat` and `cmd_fatput`.
unfoldable pub name_83 : List ℕ → List ℕ
name_83 name = let (stem, rest) = split_dot 8 name in padded 8 stem ++ padded 3 (skip_dot rest)

pub data Command : Type 0 where
  help clear echo ls cd mkdir cat edit set_alias fatcat fatput doom redalert gui ping httpget lynx
        unknown :
      Command

-- The comparisons of `run_command` in their order.
unfoldable pub command_of : List ℕ → Command
command_of cmd =
    if same cmd (codes "help")
    then help
    else if same cmd (codes "clear")
    then clear
    else if same cmd (codes "echo")
    then echo
    else if same cmd (codes "ls")
    then ls
    else if same cmd (codes "cd")
    then cd
    else if same cmd (codes "mkdir")
    then mkdir
    else if same cmd (codes "cat")
    then cat
    else if same cmd (codes "edit")
    then edit
    else if same cmd (codes "alias")
    then set_alias
    else if same cmd (codes "fatcat")
    then fatcat
    else if same cmd (codes "fatput")
    then fatput
    else if same cmd (codes "DOOM")
    then doom
    else if same cmd (codes "REDALERT")
    then redalert
    else if same cmd (codes "gui")
    then gui
    else if same cmd (codes "ping")
    then ping
    else if same cmd (codes "httpget")
    then httpget
    else if same cmd (codes "LYNX")
    then lynx
    else unknown

-- What the commands work on.
pub record Machine (Image : Type 0) : Type 0 where
  pub fs : Fs
  pub aliases : Aliases
  pub vga : Vga
  pub net : Net
  pub volume : Volume
  pub disk : Image

-- A command ends, or waits for the text of a file.
pub data Outcome (Image : Type 0) : Type 0 where
  finished : Machine Image → Outcome Image
  editing : List ℕ → Machine Image → Outcome Image

abbrev pub puts : {Image : Type 0} → List ℕ → Machine Image → Machine Image
puts text m = record m { vga = vga_puts text m.vga }

-- A text, and a line feed if its last character is another one.
abbrev put_lines : {Image : Type 0} → List ℕ → ℕ → Machine Image → Machine Image
put_lines text last m =
    let shown = puts text m in
    if ltb 0 (length text) && not (last == 10) then puts (10 ∷ []) shown else shown

-- The rounds are those of fat.c. `other_program` is what runs behind the commands DOOM, REDALERT, gui and
-- LYNX, and `dead_name` what `fs_read` finds of a name, in each state of the machine.
module _ (drive : Drive) (rounds : ℕ)
    (other_program : Command → List ℕ → Machine (drive.Image) → Machine (drive.Image))
    (dead_name : Machine (drive.Image) → List ℕ → List ℕ) where
  abbrev State : Type 0
  State = Machine (drive.Image)

  unfoldable pub cmd_ls : List ℕ → State → State
  cmd_ls args m = elim (fs_list (next_arg fs_path_max args).0 512 m.fs) [
    | none ↦ puts (codes "ls: cannot list\n") m
    | some out ↦ puts (10 ∷ []) (puts out m)
  ]

  unfoldable pub cmd_cd : List ℕ → State → State
  cmd_cd args m =
      let path = (next_arg fs_path_max args).0 in
      let r = fs_chdir path m.fs in
      let moved = record m { fs = r.1 } in
      if length path == 0
      then puts (codes "cd: missing path\n") m
      else if r.0
      then moved
      else puts (codes "cd: no such directory\n") moved

  unfoldable pub cmd_mkdir : List ℕ → State → State
  cmd_mkdir args m =
      let path = (next_arg fs_path_max args).0 in
      let r = fs_mkdir path m.fs in
      let made = record m { fs = r.1 } in
      if length path == 0
      then puts (codes "mkdir: missing path\n") m
      else if r.0
      then made
      else puts (codes "mkdir: failed\n") made

  unfoldable pub cmd_cat : List ℕ → State → State
  cmd_cat args m =
      let path = (next_arg fs_path_max args).0 in
      if length path == 0
      then puts (codes "cat: missing file\n") m
      else elim (fs_read (dead_name m) path fs_file_buf m.fs) [
        | none ↦ puts (codes "cat: cannot read file\n") m
        | some text ↦
            let shown = puts (until_zero text) m in
            if ltb 0 (length text) && not (get_or text (length text - 1) 0 == 10)
            then puts (10 ∷ []) shown
            else shown
      ]

  unfoldable pub cmd_fatcat : List ℕ → State → State
  cmd_fatcat args m =
      let name = (next_arg 12 args).0 in
      let r = fat_find_root drive rounds m.volume (name_83 name) m.disk in
      let looked = record m { volume = r.1 } in
      if length name == 0 then puts (codes "fatcat: missing 8.3 filename\n") m else elim r.0 [
        | none ↦ puts (codes "fatcat: file not found on disk\n") looked
        | some (cluster, size) ↦
            let text = fat_read_file drive r.1 cluster (min size fs_file_buf) m.disk in
            put_lines text (get_or text (length text - 1) 0) looked
      ]

  unfoldable pub cmd_fatput : List ℕ → State → State
  cmd_fatput args m =
      let (name, rest) = next_arg 12 args in
      let text = take (fs_file_buf - 1) (skip_spaces rest) in
      let r = fat_write_root drive rounds m.volume (name_83 name) text m.disk in
      let written = record m { volume = r.0.1; disk = r.1 } in
      if length name == 0
      then puts (codes "fatput: missing filename\n") m
      else if r.0.0
      then written
      else puts (codes "fatput: write failed\n") written

  -- Up to the loop that reads the text.
  unfoldable pub cmd_edit : List ℕ → State → Outcome (drive.Image)
  cmd_edit args m =
      let path = (next_arg fs_path_max args).0 in
      let r = fs_create path m.fs in
      let ask = λ (fs' : Fs).
        editing path (
          puts (codes "Enter content (single line), then press Enter:\n")
            (record m { fs = fs' })) in
      if length path == 0
      then finished (puts (codes "edit: missing file\n") m)
      else if fs_exists path m.fs
      then ask m.fs
      else if r.0
      then ask r.1
      else finished (puts (codes "edit: cannot create file\n") (record m { fs = r.1 }))

  unfoldable pub cmd_alias : List ℕ → State → State
  cmd_alias args m =
      let (name, rest) = next_arg alias_name_max args in
      let r = alias_set name (take (alias_value_max - 1) (skip_spaces rest)) m.aliases in
      let done = record m { aliases = r.1 } in
      if length name == 0
      then puts (codes "alias: usage alias <name> <value>\n") m
      else if r.0
      then puts (codes "ok\n") done
      else puts (codes "alias: failed\n") done

  -- Polls that had no end would leave the shell waiting for ever.
  unfoldable pub cmd_ping : State → State
  cmd_ping m = elim (net_ping net_ipv4_loopback m.net) [
    | none ↦ m
    | some (ok, n) ↦
        let done = record m { net = n } in
        if ok
        then puts (codes "ping 127.0.0.1: ok\n") done
        else puts (codes "ping 127.0.0.1: no reply\n") done
  ]

  unfoldable pub cmd_httpget : State → State
  cmd_httpget m = elim (net_http_get_loopback 4096 m.net) [
    | none ↦ m
    | some (answer, n) ↦
        let done = record m { net = n } in
        elim answer [
          | none ↦ puts (codes "httpget: failed\n") done
          | some text ↦ puts (10 ∷ []) (puts (until_zero text) done)
        ]
  ]
