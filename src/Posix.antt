-- ===== src/Posix.antt =====
-- src/kernel/posix/posix.c: the table of file descriptors over the in-memory file system, the
-- keyboard and the text screen. A descriptor is a natural number: a negative one takes the branches
-- of one from OPEN_MAX on. `none` is the return value -1, and `errno` holds the error's number
-- without its sign.
pub mod Table
pub mod Descriptors
pub mod Files
mod Tests
use bonfire_os.Base.{
  ℕ, zero, suc, ◌+◌, List, if◌then◌else◌, Bool, Option, ◌%◌, ◌∷◌, true, none, take, get_elem?, ◌^◌,
  [], leb, some, not, ◌==◌, false, ◌&&◌, ◌-◌, length,
}
use bonfire_os.Fs.Path.{fs_path_max}
use bonfire_os.Fs.Tree.{Fs, fs_file_buf, fs_get_cwd}
use bonfire_os.Fs.Ops.{fs_mkdir, fs_create, fs_write, fs_read, fs_chdir, fs_exists}
use bonfire_os.Drivers.Keyboard.{Keyboard, keyboard_getchar}
use bonfire_os.Drivers.Vga.{Vga, vga_puts}

abbrev pub open_max : ℕ
open_max = 16

-- enum fd_type
pub data FdType : Type 0 where
  fd_none : FdType
  fd_console_in : FdType
  fd_console_out : FdType
  fd_imem : FdType

-- struct fd_entry
pub record FdEntry : Type 0 where
  pub kind : FdType
  pub path : List ℕ
  pub offset : ℕ

-- The static variables, and what the calls work on. The table has OPEN_MAX entries, so that an index
-- behind its end is a descriptor out of range.
pub record Posix : Type 0 where
  pub fd_table : List FdEntry
  pub fd_init : Bool
  pub errno : ℕ
  pub fs : Fs
  pub keyboard : Keyboard
  pub vga : Vga

abbrev pub with_kind : FdType → FdEntry → FdEntry
with_kind k e = record e { kind = k }

-- fd_table[fd] = f (fd_table[fd])
unfoldable pub at_fd : ℕ → (FdEntry → FdEntry) → List FdEntry → List FdEntry
at_fd fd f [] = []
at_fd zero f (e ∷ table) = f e ∷ table
at_fd (suc fd) f (e ∷ table) = e ∷ at_fd fd f table

-- All entries free, but those of the console.
unfoldable pub fresh_table : ℕ → List FdEntry → List FdEntry
fresh_table i [] = []
fresh_table i (e ∷ table) =
    let kind = if i == 0 then fd_console_in else if leb i 2 then fd_console_out else fd_none in
    with_kind kind e ∷ fresh_table (i + 1) table

unfoldable pub fd_table_init : Posix → Posix
fd_table_init s =
    if s.fd_init then s else record s { fd_init = true; fd_table = fresh_table 0 s.fd_table }

abbrev pub is_free : FdEntry → Bool
is_free e = elim e.kind [ fd_none ↦ true | _ ↦ false ]

-- The first free entry from 3 on, in the part of the table from entry `i` on.
unfoldable pub alloc_from : ℕ → List FdEntry → Option ℕ
alloc_from i [] = none
alloc_from i (e ∷ table) =
    let later = alloc_from (i + 1) table in if leb 3 i && is_free e then some i else later

unfoldable pub alloc_fd : List FdEntry → Option ℕ
alloc_fd table = alloc_from 0 table

-- return (errno = -n, -1);
abbrev pub fail {ℓ} : {A : Type ℓ} → ℕ → Posix → Option A × Posix
fail n s = (none, record s { errno = n })

abbrev pub opened : List ℕ → FdEntry → FdEntry
opened p e = record { kind = fd_imem; path = take (fs_path_max - 1) p; offset = 0 }

-- The function `open`.
unfoldable pub open_path : List ℕ → Posix → Option ℕ × Posix
open_path p s0 =
    let s = fd_table_init s0 in
    elim (alloc_fd s.fd_table) [
      | none ↦ fail 24 s
      | some fd ↦
          let s1 = record s { fd_table = at_fd fd (opened p) s.fd_table } in
          let made = fs_create p s.fs in
          if fs_exists p s.fs
          then (some fd, s1)
          else if made.0
          then (some fd, record s1 { fs = made.1 })
          else fail 2 (record s1 { fd_table = at_fd fd (with_kind fd_none) s1.fd_table })
    ]

-- The entry of a descriptor in use.
abbrev pub in_use : ℕ → List FdEntry → Option FdEntry
in_use fd table = elim (get_elem? table fd) [
  | none ↦ none
  | some e ↦ if is_free e then none else some e
]

-- `offset` is of 64 bits.
abbrev pub advance : ℕ → FdEntry → FdEntry
advance n e = record e { offset = (e.offset + n) % 2 ^ 64 }

-- The console's loop: at most `count` characters, until none waits.
unfoldable pub read_chars : ℕ → Keyboard → List ℕ × Keyboard
read_chars zero k = ([], k)
read_chars (suc count) k =
    let next = keyboard_getchar k in
    let later = read_chars count next.1 in
    if next.0 == 0 then ([], next.1) else (next.0 ∷ later.0, later.1)

-- The bytes that are put into the buffer, for `count` > 0; the code returns their number.
-- `dead` is that of `fs_read`.
unfoldable pub read : (List ℕ → List ℕ) → ℕ → ℕ → Posix → Option (List ℕ) × Posix
read dead fd count s0 =
    let s = fd_table_init s0 in
    elim (in_use fd s.fd_table) [
      | none ↦ fail 9 s
      | some e ↦ elim e.kind [
        | fd_console_in ↦
            let r = read_chars count s.keyboard in (some r.0, record s { keyboard = r.1 })
        | fd_imem ↦ elim (fs_read dead e.path count s.fs) [
          | none ↦ fail 2 s
          | some bytes ↦
              (some bytes, record s { fd_table = at_fd fd (advance (length bytes)) s.fd_table })
        ]
        | _ ↦ fail 9 s
      ]
    ]

-- The loop over `vga_putchar` is that of `vga_puts`.
unfoldable pub write : ℕ → List ℕ → Posix → Option ℕ × Posix
write fd buf s0 =
    let s = fd_table_init s0 in
    elim (in_use fd s.fd_table) [
      | none ↦ fail 9 s
      | some e ↦ elim e.kind [
        | fd_console_out ↦ (some (length buf), record s { vga = vga_puts buf s.vga })
        | fd_imem ↦
            let done = fs_write e.path buf s.fs in
            if not done.0 then fail 2 s else (
              some (length buf),
              record s { fs = done.1; fd_table = at_fd fd (advance (length buf)) s.fd_table },
            )
        | _ ↦ fail 9 s
      ]
    ]

unfoldable pub close : ℕ → Posix → Option ℕ × Posix
close fd s0 =
    let s = fd_table_init s0 in
    if leb open_max fd
    then fail 9 s
    else if leb fd 2
    then (some 0, s)
    else (some 0, record s { fd_table = at_fd fd (with_kind fd_none) s.fd_table })

abbrev pub seek_set : ℕ
seek_set = 0

abbrev pub seek_cur : ℕ
seek_cur = 1

abbrev pub is_imem : FdEntry → Bool
is_imem e = elim e.kind [ fd_imem ↦ true | _ ↦ false ]

abbrev pub moved : ℕ → ℕ → Posix → Option ℕ × Posix
moved fd n s = (some n, record s { fd_table = at_fd fd (λ e. record e { offset = n }) s.fd_table })

-- `offset` and the result are 64-bit patterns.
unfoldable pub lseek : ℕ → ℕ → ℕ → Posix → Option ℕ × Posix
lseek fd offset whence s0 =
    let s = fd_table_init s0 in
    elim (get_elem? s.fd_table fd) [
      | none ↦ fail 9 s
      | some e ↦
          if not (is_imem e)
          then fail 9 s
          else if whence == seek_set
          then moved fd offset s
          else if whence == seek_cur
          then moved fd ((e.offset + offset) % 2 ^ 64) s
          else fail 22 s
    ]

abbrev pub getcwd : ℕ → Posix → List ℕ
getcwd size s = fs_get_cwd size s.fs

-- A call of the file system that fails sets `errno`.
abbrev pub fs_call : Bool × Fs → Posix → Option ℕ × Posix
fs_call r s = if r.0 then (some 0, record s { fs = r.1 }) else fail 2 s

unfoldable pub chdir : List ℕ → Posix → Option ℕ × Posix
chdir p s = fs_call (fs_chdir p s.fs) s

unfoldable pub mkdir : List ℕ → Posix → Option ℕ × Posix
mkdir p s = fs_call (fs_mkdir p s.fs) s

-- struct stat
pub record Stat : Type 0 where
  pub st_mode : ℕ
  pub st_size : ℕ

-- 0100000 in octal
abbrev pub s_ifreg : ℕ
s_ifreg = 32768

-- `st` says whether the pointer is not null, and `dead` is that of `fs_read`.
unfoldable pub stat : (List ℕ → List ℕ) → List ℕ → Bool → Posix → Option Stat × Posix
stat dead p st s =
    if not st
    then fail 14 s
    else let size : ℕ = elim (fs_read dead p fs_file_buf s.fs) [
      | none ↦ 0
      | some bytes ↦ length bytes
    ] in
      let found = if fs_exists p s.fs then size else 0 in
      (some (record { st_mode = s_ifreg; st_size = found }), s)
