-- ===== src/Posix/Table.antt =====
-- The table of descriptors: single entries, and the first free one.
use bonfire_os.Base.{
  ℕ, ◌+◌, List, get_elem?, ◌≢◌, ◌≡◌, some, ◌∷◌, ap, suc, true, leb, ◌≤◌, ◌&&◌, ◌<◌, false, subst,
  arith, Bool-cases, inl, &&_right, &&_left, inr, zero, [], refl, none, sym, ◌∙◌, if◌then◌else◌,
}
use bonfire_os.Posix.{FdEntry, at_fd, is_free, alloc_from, alloc_fd, in_use}

-- Entry `fd` of a table changes, and no other.
pub at_fd-same :
    (f : FdEntry → FdEntry) (fd : ℕ) (table : List FdEntry) (e : FdEntry)
    → get_elem? table fd ≡ some e
    → get_elem? (at_fd fd f table) fd ≡ some (f e)
unfolding at_fd
at_fd-same f fd [] e h = cc h
at_fd-same f zero (x ∷ table) e h = cc (h)
at_fd-same f (suc fd) (x ∷ table) e h = at_fd-same f fd table e h

pub at_fd-other :
    (f : FdEntry → FdEntry) (fd j : ℕ) (table : List FdEntry)
    → j ≢ fd
    → get_elem? (at_fd fd f table) j ≡ get_elem? table j
unfolding at_fd
at_fd-other f fd j [] ne = refl
at_fd-other f zero zero (x ∷ table) ne = absurd (ne refl)
at_fd-other f zero (suc j) (x ∷ table) ne = refl
at_fd-other f (suc fd) zero (x ∷ table) ne = refl
at_fd-other f (suc fd) (suc j) (x ∷ table) ne = at_fd-other f fd j table (λ e. ne (ap suc e))

pub at_fd-at_fd :
    (f g : FdEntry → FdEntry) (fd : ℕ) (table : List FdEntry)
    → at_fd fd g (at_fd fd f table) ≡ at_fd fd (λ e. g (f e)) table
unfolding at_fd
at_fd-at_fd f g fd [] = refl
at_fd-at_fd f g zero (x ∷ table) = refl
at_fd-at_fd f g (suc fd) (x ∷ table) = ap (λ t. x ∷ t) (at_fd-at_fd f g fd table)

-- Entry `k` of a table that begins with descriptor `i` is the first free one from 3 on.
pub record FirstFree (i k : ℕ) (table : List FdEntry) : Type 0 where
  pub entry : FdEntry
  pub found : get_elem? table k ≡ some entry
  pub free : is_free entry ≡ true
  pub three : 3 ≤ i + k
  pub before :
      (j : ℕ) (e : FdEntry) → j < k → 3 ≤ i + j → get_elem? table j ≡ some e → is_free e ≡ false

open_test : (i : ℕ) (x : FdEntry) → (leb 3 i && is_free x) ≡ false → 3 ≤ i → is_free x ≡ false
open_test i x n three = ground arith

same_free : (x e : FdEntry) → some x ≡ some e → is_free x ≡ false → is_free e ≡ false
same_free x e h p = sym (ap (λ o. elim o [ none ↦ true | some d ↦ is_free d ]) h) ∙ p

same_free_true : (e x : FdEntry) → some e ≡ some x → is_free e ≡ true → is_free x ≡ true
same_free_true e x h p = sym (ap (λ o. elim o [ none ↦ true | some d ↦ is_free d ]) h) ∙ p

alloc_from-FirstFree :
    (i fd : ℕ) (table : List FdEntry)
    → alloc_from i table ≡ some fd
    → (k : ℕ) × (fd ≡ i + k) × FirstFree i k table
unfolding alloc_from
alloc_from-FirstFree i fd [] h = cc h
alloc_from-FirstFree i fd (x ∷ table) h = elim (Bool-cases (leb 3 i && is_free x)) [
  | inl here ↦ (
    0,
    ground (arith, h),
    record {
      entry = x;
      found = refl;
      free = &&_right (leb 3 i) (is_free x) here;
      three = ground (arith, &&_left (leb 3 i) (is_free x) here);
      before = λ j e lt. absurd (omega (arith, lt));
    },
  )
  | inr not_here ↦
      let (k, at, first) = alloc_from-FirstFree (i + 1) fd table (ground (arith, h)) in
      (
        suc k,
        omega (arith, at),
        record {
          entry = first.entry;
          found = first.found;
          free = first.free;
          three = omega (arith, first.three);
          before = before_suc k first not_here;
        },
      )
]
  where
    before_suc :
        (k : ℕ)
        → FirstFree (i + 1) k table
        → (leb 3 i && is_free x) ≡ false
        → (j : ℕ) (e : FdEntry) → j < suc k
        → 3 ≤ i + j
        → get_elem? (x ∷ table) j ≡ some e
        → is_free e ≡ false
    before_suc k first n zero e lt three h =
        same_free x e h (open_test i x n (omega (arith, three)))
    before_suc k first n (suc j) e lt three h =
        first.before j e (omega (arith, lt)) (omega (arith, three)) h

pub alloc_fd-FirstFree :
    (fd : ℕ) (table : List FdEntry) → alloc_fd table ≡ some fd → FirstFree 0 fd table
unfolding alloc_fd
alloc_fd-FirstFree fd table found =
    let (k, at, first) = alloc_from-FirstFree 0 fd table found in
    subst (λ j. FirstFree 0 j table) (omega (arith, at)) first

-- A free entry that stays free is of no account.
module _ (g : FdEntry → FdEntry) (stays : (e : FdEntry) → is_free (g e) ≡ true) where
  pub alloc_from-free :
      (i k : ℕ) (table : List FdEntry) (e : FdEntry)
      → get_elem? table k ≡ some e
      → is_free e ≡ true
      → alloc_from i (at_fd k g table) ≡ alloc_from i table
  unfolding alloc_from at_fd
  alloc_from-free i k [] e h free = refl
  alloc_from-free i zero (x ∷ table) e h free = rw (stays x, same_free_true e x (sym h) free) refl
  alloc_from-free i (suc k) (x ∷ table) e h free =
      ap (λ o. if leb 3 i && is_free x then some i else o)
        (alloc_from-free (i + 1) k table e h free)

  pub in_use-free :
      (j k : ℕ) (table : List FdEntry) (e : FdEntry)
      → get_elem? table k ≡ some e
      → is_free e ≡ true
      → in_use j (at_fd k g table) ≡ in_use j table
  unfolding at_fd
  in_use-free j k [] e h free = refl
  in_use-free zero zero (x ∷ table) e h free = rw (stays x, same_free_true e x (sym h) free) refl
  in_use-free (suc j) zero (x ∷ table) e h free = refl
  in_use-free zero (suc k) (x ∷ table) e h free = refl
  in_use-free (suc j) (suc k) (x ∷ table) e h free = in_use-free j k table e h free
