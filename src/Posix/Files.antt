-- ===== src/Posix/Files.antt =====
-- Files behind descriptors: what is written through a descriptor, and what is read back through it.
use bonfire_os.Base.{
  ℕ, ◌+◌, ◌-◌, ◌<◌, ◌≡◌, ◌⊎◌, inl, inr, refl, ap, sym, ◌∙◌, subst, true, false, some, List, arith,
  length, get_or, take, take_all, get_elem?, Bool-cases, ◌%◌, ◌^◌,
}
use bonfire_os.Fs.Path.{fs_path_max, fs_name_max, slash}
use bonfire_os.Fs.Tree.{Fs, fs_file_buf}
use bonfire_os.Fs.Ops.{fs_create, fs_write, fs_exists, fs_read}
use bonfire_os.Fs.Ops.RoundTrip.{
  name_of, stored_at, fs_read_stored, fs_read-fs_write, fs_write-fs_create,
}
use bonfire_os.Posix.{
  fd_imem, FdEntry, Posix, at_fd, fd_table_init, in_use, alloc_fd, advance, open_path, read, write,
  fail,
}
use bonfire_os.Posix.Table.{at_fd-same}
use bonfire_os.Posix.Descriptors.{
  table_of, opened_lem, init_fs, init_again, none_some, open_creates, open_not_made,
  open_path-fd_init, open_path-Opened,
}

-- The entry of a file.
abbrev pub file_at : List ℕ → ℕ → FdEntry
file_at p offset = record { kind = fd_imem; path = p; offset = offset }

in_use_lem :
    (fd : ℕ) (p : List ℕ) (offset : ℕ) (table : List FdEntry)
    → get_elem? table fd ≡ some (file_at p offset)
    → in_use fd table ≡ some (file_at p offset)
in_use_lem fd p offset table h = rw (h, in_use) refl

-- The state after a write through `fd` that the file system has done.
abbrev written : ℕ → List ℕ → Fs → Posix → Posix
written fd buf fs s = record s { fs = fs; fd_table = at_fd fd (advance (length buf)) s.fd_table }

module _ (fd : ℕ) (p : List ℕ) (offset : ℕ) (s : Posix) (ready : s.fd_init ≡ true)
    (entry : get_elem? s.fd_table fd ≡ some (file_at p offset)) where
  write_file :
      (buf : List ℕ)
      → (fs_write p buf s.fs).0 ≡ true
      → write fd buf s ≡ (some (length buf), written fd buf (fs_write p buf s.fs).1 s)
  unfolding write
  write_file buf done =
      rw (init_again s ready, write) (rw (entry, init_again s ready) (rw done refl))

  read_file :
      (dead : List ℕ → List ℕ) (count : ℕ) (bytes : List ℕ)
      → fs_read dead p count s.fs ≡ some bytes
      → (read dead fd count s).0 ≡ some bytes
  unfolding read
  read_file dead count bytes found =
      rw (init_again s ready, read) (rw (entry, init_again s ready) (rw found refl))

  entry-written :
      (buf : List ℕ) (fs : Fs)
      → get_elem? (written fd buf fs s).fd_table fd
        ≡ some (file_at p ((offset + length buf) % 2 ^ 64))
  entry-written buf fs = at_fd-same (advance (length buf)) fd s.fd_table (file_at p offset) entry

  write_file_fails : (buf : List ℕ) → (fs_write p buf s.fs).0 ≡ false → write fd buf s ≡ fail 2 s
  unfolding write
  write_file_fails buf failed =
      rw (init_again s ready, write) (rw (entry, init_again s ready) (rw failed refl))

-- What `open` of a new file has done in the file system.
open_path-new :
    (p : List ℕ) (fd : ℕ) (s : Posix)
    → fs_exists p s.fs ≡ false
    → (open_path p s).0 ≡ some fd
    → ((fs_create p s.fs).0 ≡ true) × ((open_path p s).1.fs ≡ (fs_create p s.fs).1)
open_path-new p fd s e h =
    subst (λ f. ((fs_create p f).0 ≡ true) × ((open_path p s).1.fs ≡ (fs_create p f).1)) (init_fs s)
      (go (Bool-cases (fs_create p (fd_table_init s).fs).0))
  where
    found : alloc_fd (table_of s) ≡ some fd
    found = (opened_lem p fd s h).0

    missing : fs_exists p (fd_table_init s).fs ≡ false
    missing = ap (fs_exists p) (init_fs s) ∙ e

    go :
        ((fs_create p (fd_table_init s).fs).0 ≡ true)
          ⊎ ((fs_create p (fd_table_init s).fs).0 ≡ false)
        → ((fs_create p (fd_table_init s).fs).0 ≡ true)
          × ((open_path p s).1.fs ≡ (fs_create p (fd_table_init s).fs).1)
    go (inl c) = (c, ap (λ r. r.1.fs) (open_creates p fd s found missing c))
    go (inr c) = absurd (none_some (sym (ap (λ r. r.0) (open_not_made p fd s found missing c)) ∙ h))

-- What a write through a descriptor and a read through it do.
write-read_file :
    (dead : List ℕ → List ℕ) (fd : ℕ) (p : List ℕ) (offset : ℕ) (s : Posix) (buf : List ℕ)
    (count : ℕ) (bytes : List ℕ)
    → s.fd_init ≡ true
    → get_elem? s.fd_table fd ≡ some (file_at p offset)
    → (fs_write p buf s.fs).0 ≡ true
    → fs_read dead p count (fs_write p buf s.fs).1 ≡ some bytes
    → ((write fd buf s).0 ≡ some (length buf))
      × ((read dead fd count (write fd buf s).1).0 ≡ some bytes)
write-read_file dead fd p offset s buf count bytes ready entry done found =
    let w = write_file fd p offset s ready entry buf done in
    let fs = (fs_write p buf s.fs).1 in
    (
      ap (λ r. r.0) w,
      ap (λ r. (read dead fd count r.1).0) w
          ∙ read_file fd p ((offset + length buf) % 2 ^ 64) (written fd buf fs s) ready
              (entry-written fd p offset s ready entry buf fs) dead count bytes found,
    )

-- A write through the descriptor of a file whose path is absolute either returns -1, with errno 2
-- and nothing else changed, or returns the number of bytes given; then a read of `count` > 0 bytes
-- through the same descriptor returns the first count - 1 of them and at most 4096, whatever the
-- descriptor's offset was, while the dead array still holds the name.
read-write :
    (dead : List ℕ → List ℕ) (fd : ℕ) (p : List ℕ) (offset : ℕ) (s : Posix) (buf : List ℕ)
    (count : ℕ)
    → dead (name_of p) ≡ name_of p
    → s.fd_init ≡ true
    → get_elem? s.fd_table fd ≡ some (file_at p offset)
    → get_or p 0 0 ≡ slash
    → 0 < count
    → (write fd buf s ≡ fail 2 s)
      ⊎ ((write fd buf s).0 ≡ some (length buf))
        × ((read dead fd count (write fd buf s).1).0
            ≡ some (take (count - 1) (take fs_file_buf buf)))
read-write dead fd p offset s buf count alive ready entry absolute positive =
    elim (Bool-cases (fs_write p buf s.fs).0) [
      | inr failed ↦ inl (write_file_fails fd p offset s ready entry buf failed)
      | inl done ↦ inr (
          write-read_file dead fd p offset s buf count (take (count - 1) (take fs_file_buf buf))
            ready entry done (fs_read-fs_write dead p buf count s.fs alive absolute done))
    ]

-- Where `open` returns a descriptor for an absolute path of at most 127 characters that did not
-- exist, and whose last name has at most 31 characters, a write through this descriptor succeeds, and
-- what has been written then stands in the file system under the path, cut to 4096 bytes. A read of
-- `count` > 0 bytes through the descriptor returns this, cut to count - 1, if the memory of the array that
-- `resolve_file_path` points into after its end still holds the name.
pub open_path-write-read :
    (dead : List ℕ → List ℕ) (p buf : List ℕ) (count fd : ℕ) (s : Posix)
    → dead (name_of p) ≡ name_of p
    → get_or p 0 0 ≡ slash
    → length p < fs_path_max
    → length (name_of p) < fs_name_max
    → fs_exists p s.fs ≡ false
    → 0 < count
    → (open_path p s).0 ≡ some fd
    → let w = write fd buf (open_path p s).1 in
      (w.0 ≡ some (length buf))
      × (stored_at p w.1.fs ≡ some (take fs_file_buf buf))
      × ((read dead fd count w.1).0 ≡ some (take (count - 1) (take fs_file_buf buf)))
open_path-write-read dead p buf count fd s alive absolute short name missing positive h =
    let u = (open_path p s).1 in
    let (made, after) = open_path-new p fd s missing h in
    let (made_done, made_stored) = fs_write-fs_create p buf s.fs name made in
    let done = ap (λ f. (fs_write p buf f).0) after ∙ made_done in
    let stored = ap (λ f. stored_at p (fs_write p buf f).1) after ∙ made_stored in
    let ready = open_path-fd_init p fd s h in
    let entry =
      (open_path-Opened p fd s h).entry
      ∙ ap (λ q. some (file_at q 0)) (take_all 127 p (omega (arith, short))) in
    let (ends, back) =
      write-read_file dead fd p 0 u buf count (take (count - 1) (take fs_file_buf buf)) ready entry
        done
        (fs_read_stored dead p count (fs_write p buf u.fs).1 (take fs_file_buf buf) alive absolute
          stored) in
    (ends, ap (λ r. stored_at p r.1.fs) (write_file fd p 0 u ready entry buf done) ∙ stored, back)
