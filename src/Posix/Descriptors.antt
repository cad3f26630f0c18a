-- ===== src/Posix/Descriptors.antt =====
-- Which descriptors `open` returns, and what `close` gives back.
use bonfire_os.Base.{
  ℕ, ◌+◌, List, get_elem?, ◌≢◌, ◌≡◌, some, ◌∷◌, ap, suc, true, leb, Option, ◌≤◌, ◌<◌, false, subst,
  arith, Bool-cases, inl, inr, [], refl, none, sym, take, Option-cases, ◌∙◌, ◌-◌, ◌⊎◌, if_elim,
  length, get_elem?-lt,
}
use bonfire_os.Fs.Tree.{Fs}
use bonfire_os.Fs.Ops.{fs_create, fs_exists}
use bonfire_os.Posix.{
  fd_none, fd_imem, FdEntry, Posix, with_kind, at_fd, fd_table_init, fresh_table, alloc_fd, fail,
  opened, open_path, close, open_max, fs_path_max, in_use,
}
use bonfire_os.Posix.Table.{
  at_fd-same, at_fd-other, at_fd-at_fd, alloc_fd-FirstFree, alloc_from-free, in_use-free, FirstFree,
}

-- The table that the calls work on.
abbrev pub table_of : Posix → List FdEntry
table_of s = (fd_table_init s).fd_table

-- What an `open` that succeeds has done.
pub record Opened (p : List ℕ) (fd : ℕ) (s : Posix) : Type 0 where
  pub first : FirstFree 0 fd (table_of s)
  pub entry :
      get_elem? (open_path p s).1.fd_table fd
      ≡ some (record { kind = fd_imem; path = take (fs_path_max - 1) p; offset = 0 })
  pub others : (j : ℕ) → j ≢ fd → get_elem? (open_path p s).1.fd_table j ≡ get_elem? (table_of s) j

pub opened_lem :
    (p : List ℕ) (fd : ℕ) (s : Posix)
    → (open_path p s).0 ≡ some fd
    → (alloc_fd (table_of s) ≡ some fd)
      × ((open_path p s).1.fd_table ≡ at_fd fd (opened p) (table_of s))
unfolding open_path
opened_lem p fd s h = elim (Option-cases (alloc_fd (table_of s))) [
  | inl full ↦ absurd (ground arith)
  | inr (i, found) ↦ ground arith
]

-- Where `open` returns a descriptor, it is the smallest one from 3 on that was free, its entry is
-- that of a file with the path's first 127 characters and the offset 0, and no other entry has changed.
pub open_path-Opened :
    (p : List ℕ) (fd : ℕ) (s : Posix) → (open_path p s).0 ≡ some fd → Opened p fd s
open_path-Opened p fd s h =
    let (found, table) = opened_lem p fd s h in
    let first_free = alloc_fd-FirstFree fd (table_of s) found in
    record {
      first = first_free;
      entry =
          ap (λ t. get_elem? t fd) table
          ∙ at_fd-same (opened p) fd (table_of s) first_free.entry first_free.found;
      others = λ j ne. ap (λ t. get_elem? t j) table ∙ at_fd-other (opened p) fd j (table_of s) ne;
    }

pub none_some : {n : ℕ} → ◌≢◌ {A = Option ℕ} none (some n)
none_some h = cc h

-- The entry of a descriptor that was opened and given up again.
abbrev released : List ℕ → FdEntry → FdEntry
released p e = with_kind fd_none (opened p e)

pub init_fs : (s : Posix) → (fd_table_init s).fs ≡ s.fs
unfolding fd_table_init
init_fs s = if_elim (λ (t : Posix). t.fs ≡ s.fs) s.fd_init _ _ (λ _. refl) (λ _. refl)

init_done : (s : Posix) → (fd_table_init s).fd_init ≡ true
unfolding fd_table_init
init_done s = if_elim (λ (t : Posix). t.fd_init ≡ true) s.fd_init _ _ (λ h. h) (λ _. refl)

pub init_again : (s : Posix) → s.fd_init ≡ true → fd_table_init s ≡ s
unfolding fd_table_init
init_again s h = rw h refl

-- What `open` does, case by case.
open_full :
    (p : List ℕ) (s : Posix)
    → alloc_fd (table_of s) ≡ none
    → open_path p s ≡ fail 24 (fd_table_init s)
unfolding open_path
open_full p s full = rw (full, open_path) refl

module _ (p : List ℕ) (fd : ℕ) (s : Posix) (found : alloc_fd (table_of s) ≡ some fd) where
  -- The state with the new entry.
  unfoldable pub entered : Posix
  entered = record (fd_table_init s) { fd_table = at_fd fd (opened p) (table_of s) }

  open_exists : fs_exists p (fd_table_init s).fs ≡ true → open_path p s ≡ (some fd, entered)
  unfolding open_path entered
  open_exists e = rw (found, open_path) (rw e refl)

  pub open_creates :
      fs_exists p (fd_table_init s).fs ≡ false
      → (fs_create p (fd_table_init s).fs).0 ≡ true
      → open_path p s ≡ (some fd, record entered { fs = (fs_create p (fd_table_init s).fs).1 })
  unfolding open_path entered
  open_creates e c = rw (found, open_path) (rw (e, c) refl)

  pub open_not_made :
      fs_exists p (fd_table_init s).fs ≡ false
      → (fs_create p (fd_table_init s).fs).0 ≡ false
      → open_path p s
        ≡ fail 2 (record entered { fd_table = at_fd fd (with_kind fd_none) entered.fd_table })
  unfolding open_path entered
  open_not_made e c = rw (found, open_path) (rw (e, c) refl)

  -- The table once the new descriptor is given up.
  given_up : at_fd fd (with_kind fd_none) entered.fd_table ≡ at_fd fd (released p) (table_of s)
  unfolding entered
  given_up = at_fd-at_fd (opened p) (with_kind fd_none) fd (table_of s)

  in_use-given_up :
      (j : ℕ) → in_use j (at_fd fd (with_kind fd_none) entered.fd_table) ≡ in_use j (table_of s)
  in_use-given_up j =
      let first = alloc_fd-FirstFree fd (table_of s) found in
      ap (in_use j) given_up
      ∙ in_use-free (released p) (λ e. refl) j fd (table_of s) first.entry first.found first.free

  alloc_fd-given_up : alloc_fd (at_fd fd (with_kind fd_none) entered.fd_table) ≡ some fd
  unfolding alloc_fd
  alloc_fd-given_up =
      let first = alloc_fd-FirstFree fd (table_of s) found in
      ap alloc_fd given_up
      ∙ (alloc_from-free (released p) (λ e. refl) 0 fd (table_of s) first.entry first.found
            first.free
          ∙ found)

absent :
    (p : List ℕ) {f g : Fs}
    → f ≡ g
    → fs_exists p f ≡ false
    → (fs_create p f).0 ≡ false
    → (fs_exists p g ≡ false) × ((fs_create p g).0 ≡ false)
absent p same e c = subst (λ f. (fs_exists p f ≡ false) × ((fs_create p f).0 ≡ false)) same (e, c)

-- When `open` returns -1, the descriptors in use are the same as before with the same entries, and
-- `errno` says whether no descriptor was free (24), or the path neither exists nor can be created (2).
pub open_path_fails :
    (p : List ℕ) (s : Posix)
    → (open_path p s).0 ≡ none
    → ((j : ℕ) → in_use j (open_path p s).1.fd_table ≡ in_use j (table_of s))
      × (((open_path p s).1.errno ≡ 24) × (alloc_fd (table_of s) ≡ none)
          ⊎ ((open_path p s).1.errno ≡ 2)
            × (fs_exists p s.fs ≡ false)
            × ((fs_create p s.fs).0 ≡ false))
open_path_fails p s h = elim (Option-cases (alloc_fd (table_of s))) [
  | inl full ↦ rw (open_full p s full) (λ j. refl, inl (refl, full))
  | inr (fd, found) ↦ elim (Bool-cases (fs_exists p (fd_table_init s).fs)) [
    | inl e ↦ absurd (none_some (sym h ∙ ap (λ r. r.0) (open_exists p fd s found e)))
    | inr e ↦ elim (Bool-cases (fs_create p (fd_table_init s).fs).0) [
      | inl c ↦ absurd (none_some (sym h ∙ ap (λ r. r.0) (open_creates p fd s found e c)))
      | inr c ↦ rw (open_not_made p fd s found e c) (
        in_use-given_up p fd s found,
        inr (refl, (absent p (init_fs s) e c).0, (absent p (init_fs s) e c).1),
      )
    ]
  ]
]

-- Where a descriptor is free, `open` returns it, or the path neither exists nor can be created.
open_free :
    (p : List ℕ) (fd : ℕ) (s : Posix)
    → alloc_fd (table_of s) ≡ some fd
    → ((open_path p s).0 ≡ some fd)
      ⊎ ((fs_exists p (fd_table_init s).fs ≡ false)
          × ((fs_create p (fd_table_init s).fs).0 ≡ false))
open_free p fd s found = elim (Bool-cases (fs_exists p (fd_table_init s).fs)) [
  | inl e ↦ inl (ap (λ r. r.0) (open_exists p fd s found e))
  | inr e ↦ elim (Bool-cases (fs_create p (fd_table_init s).fs).0) [
    | inl c ↦ inl (ap (λ r. r.0) (open_creates p fd s found e c))
    | inr c ↦ inr (e, c)
  ]
]

leb_of_lt : (a b : ℕ) → b < a → leb a b ≡ false
leb_of_lt a b h = ground arith

length-fresh_table : (i : ℕ) (table : List FdEntry) → length (fresh_table i table) ≡ length table
unfolding fresh_table
length-fresh_table i [] = refl
length-fresh_table i (e ∷ table) = ap suc (length-fresh_table (i + 1) table)

length-table_of : (s : Posix) → length (table_of s) ≡ length s.fd_table
unfolding fd_table_init
length-table_of s =
    if_elim (λ (t : Posix). length t.fd_table ≡ length s.fd_table) s.fd_init _ _ (λ _. refl)
      (λ _. length-fresh_table 0 s.fd_table)

pub open_path-fd_init :
    (p : List ℕ) (fd : ℕ) (s : Posix)
    → (open_path p s).0 ≡ some fd
    → (open_path p s).1.fd_init ≡ true
unfolding open_path
open_path-fd_init p fd s h = elim (Option-cases (alloc_fd (table_of s))) [
  | inl full ↦ absurd (ground arith)
  | inr (i, found) ↦ ground (arith, init_done s)
]

-- What `close` does with a descriptor that `open` may return.
close_lem :
    (fd : ℕ) (s : Posix)
    → s.fd_init ≡ true
    → 3 ≤ fd
    → fd < open_max
    → close fd s ≡ (some 0, record s { fd_table = at_fd fd (with_kind fd_none) s.fd_table })
unfolding close
close_lem fd s ready three lt =
    rw (init_again s ready, leb_of_lt 16 fd lt, leb_of_lt fd 2 (omega (arith, three)), close) refl

reopen :
    (q : List ℕ) (fd : ℕ) (t : Posix)
    → t.fd_init ≡ true
    → alloc_fd t.fd_table ≡ some fd
    → ((open_path q t).0 ≡ some fd) ⊎ ((fs_exists q t.fs ≡ false) × ((fs_create q t.fs).0 ≡ false))
reopen q fd t ready found =
    subst
      (λ u.
        ((open_path q t).0 ≡ some fd)
        ⊎ ((fs_exists q u.fs ≡ false) × ((fs_create q u.fs).0 ≡ false)))
      (init_again t ready)
      (open_free q fd t (ap (λ u. alloc_fd u.fd_table) (init_again t ready) ∙ found))

-- When `open` has returned a descriptor, and the process closes it, the next `open` returns the same
-- descriptor again, whatever the two paths are, unless its path neither exists nor can be created.
pub open_path-close :
    (p q : List ℕ) (fd : ℕ) (s : Posix)
    → length s.fd_table ≡ open_max
    → (open_path p s).0 ≡ some fd
    → let t = (close fd (open_path p s).1).1 in
      ((open_path q t).0 ≡ some fd) ⊎ ((fs_exists q t.fs ≡ false) × ((fs_create q t.fs).0 ≡ false))
unfolding entered
open_path-close p q fd s full h =
    let u = (open_path p s).1 in
    let (found, table) = opened_lem p fd s h in
    let ready = open_path-fd_init p fd s h in
    let first = alloc_fd-FirstFree fd (table_of s) found in
    let lt = get_elem?-lt (table_of s) fd first.found in
    let closed =
      ap (λ r. r.1)
        (close_lem fd u ready (omega (arith, first.three))
          (omega (arith, lt, length-table_of s, full))) in
    reopen q fd (close fd u).1 (ap (λ t. t.fd_init) closed ∙ ready) (
      ap (λ t. alloc_fd t.fd_table) closed
      ∙ (ap (λ t. alloc_fd (at_fd fd (with_kind fd_none) t)) table
          ∙ alloc_fd-given_up p fd s found))
