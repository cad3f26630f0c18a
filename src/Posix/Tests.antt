-- ===== src/Posix/Tests.antt =====
-- The theorems on descriptors at concrete inputs.
use bonfire_os.Base.{ℕ, ◌≡◌, ◌⊎◌, refl, true, false, some, none, [], ◌∷◌, take, arith, replicate}
use bonfire_os.Base.Text.{codes, same}
use bonfire_os.Fs.Path.{
  slash, normalize_path, normal_out, normal_loop, normal_step, path_parts, last_from,
}
use bonfire_os.Fs.Tree.{node_by_name, dir_by_name, file_by_name, walk, path_to_dir}
use bonfire_os.Fs.Ops.{parent_dir, fs_create, fs_exists}
use bonfire_os.Posix.{
  fd_none, FdEntry, Posix, fresh_table, fd_table_init, in_use, alloc_from, alloc_fd, open_path,
  read, write, close,
}
use bonfire_os.Posix.Descriptors.{
  Opened, table_of, open_path-Opened, open_path_fails, open_path-close,
}
use bonfire_os.Fs.Ops.RoundTrip.{stored_at}
use bonfire_os.Posix.Files.{file_at, open_path-write-read}

abbrev blank_entry : FdEntry
blank_entry = record { kind = fd_none; path = []; offset = 0 }

-- The state after the start, with the empty root directory.
abbrev at_start : Posix
at_start = record {
  fd_table = replicate 16 blank_entry;
  fd_init = false;
  errno = 0;
  fs = record {
    files = [];
    dirs = record { name = slash ∷ []; parent = 0; content = none } ∷ [];
    cwd = 0;
  };
  keyboard = record {
    keybuf = λ _. 0;
    keybuf_head = 0;
    keybuf_tail = 0;
    keybuf_full = false;
    scev_buf = λ _. (0, false);
    scev_head = 0;
    scev_tail = 0;
    scev_count = 0;
  };
  vga = record { vga_buffer = λ _. 0; vga_row = 0; vga_column = 0; vga_fg = 7; vga_bg = 0 };
}

open_path-Opened_example : Opened (codes "/f") 3 at_start
unfolding open_path fd_table_init fresh_table alloc_fd alloc_from fs_exists fs_create parent_dir
    normalize_path normal_out normal_loop normal_step last_from file_by_name node_by_name
    dir_by_name path_to_dir walk path_parts same
open_path-Opened_example = open_path-Opened (codes "/f") 3 at_start refl

-- The empty path cannot be created.
open_path_fails_example :
    ((j : ℕ) → in_use j (open_path [] at_start).1.fd_table ≡ in_use j (table_of at_start))
    × (((open_path [] at_start).1.errno ≡ 24) × (alloc_fd (table_of at_start) ≡ none)
        ⊎ ((open_path [] at_start).1.errno ≡ 2)
          × (fs_exists [] at_start.fs ≡ false)
          × ((fs_create [] at_start.fs).0 ≡ false))
unfolding open_path fd_table_init fresh_table alloc_fd alloc_from fs_exists fs_create parent_dir
    normalize_path normal_out normal_loop normal_step last_from file_by_name node_by_name
    dir_by_name path_to_dir walk path_parts same
open_path_fails_example = open_path_fails [] at_start refl

open_path-close_example :
    let t = (close 3 (open_path (codes "/f") at_start).1).1 in
    ((open_path (codes "/g") t).0 ≡ some 3)
    ⊎ ((fs_exists (codes "/g") t.fs ≡ false) × ((fs_create (codes "/g") t.fs).0 ≡ false))
unfolding open_path fd_table_init fresh_table alloc_fd alloc_from fs_exists fs_create parent_dir
    normalize_path normal_out normal_loop normal_step last_from file_by_name node_by_name
    dir_by_name path_to_dir walk path_parts same
open_path-close_example = open_path-close (codes "/f") (codes "/g") 3 at_start refl refl

-- With the file "/f" behind descriptor 0.
abbrev with_file : Posix
with_file = record at_start { fd_init = true; fd_table = file_at (codes "/f") 7 ∷ [] }

open_path-write-read_example :
    let w = write 3 (codes "hello") (open_path (codes "/f") at_start).1 in
    (w.0 ≡ some 5)
    × (stored_at (codes "/f") w.1.fs ≡ some (take 4096 (codes "hello")))
    × ((read (λ n. n) 3 4 w.1).0 ≡ some (take 3 (take 4096 (codes "hello"))))
unfolding open_path fd_table_init fresh_table alloc_fd alloc_from fs_exists fs_create parent_dir
    normalize_path normal_out normal_loop normal_step last_from file_by_name node_by_name
    dir_by_name path_to_dir walk path_parts same
open_path-write-read_example =
    open_path-write-read (λ n. n) (codes "/f") (codes "hello") 4 3 at_start refl refl (omega arith)
      (omega arith) refl (omega arith) refl
