-- ===== src/Kernel/Process/Ring.antt =====
-- The circular list of processes: `process_create` puts a process behind the tail, and ticks go
-- round the members in order.
use bonfire_os.Base.{ℕ, ◌≡◌, ◌≢◌, sym, ◌∙◌, none, some, List, [], ◌∷◌, ◌++◌, arith, All}
use bonfire_os.Kernel.Process.{Process, Kernel, enqueue_last}

-- From `a` the `next` pointers lead through `xs`, in order, to `b`.
abbrev pub Links : (ℕ → Process) → ℕ → List ℕ → ℕ → Type 0
Links ps a [] b = (ps a).next ≡ some b
Links ps a (x ∷ xs) b = ((ps a).next ≡ some x) × Links ps x xs b

-- No member of `xs` is `p`.
abbrev pub Without : ℕ → List ℕ → Type 0
Without p = All (λ x. x ≢ p)

abbrev Distinct : List ℕ → Type 0
Distinct [] = Unit
Distinct (x ∷ xs) = Without x xs × Distinct xs

-- `run_list` is the tail `l`, and the other members, from the head on, are `xs`.
pub record IsRing (k : Kernel) (l : ℕ) (xs : List ℕ) : Type 0 where
  pub tail : k.run_list ≡ some l
  pub cycle : Links k.processes l xs l
  pub tail_once : Without l xs
  pub distinct : Distinct xs

-- Two process tables with the same `next` at the source of every link.
pub Links-frame :
    (ps qs : ℕ → Process) (a b : ℕ) (xs : List ℕ)
    → (qs a).next ≡ (ps a).next
    → All (λ x. (qs x).next ≡ (ps x).next) xs
    → Links ps a xs b
    → Links qs a xs b
Links-frame ps qs a b [] e es h = e ∙ h
Links-frame ps qs a b (x ∷ xs) e es h = (e ∙ h.0, Links-frame ps qs x b xs es.0 es.1 h.1)

Links-snoc :
    (ps : ℕ → Process) (a b c : ℕ) (xs : List ℕ)
    → Links ps a xs b
    → (ps b).next ≡ some c
    → Links ps a (xs ++ b ∷ []) c
Links-snoc ps a b c [] h e = (h, e)
Links-snoc ps a b c (x ∷ xs) h e = (h.0, Links-snoc ps x b c xs h.1 e)

module _ (p l : ℕ) (k : Kernel) (apart : p ≢ l) (tail : k.run_list ≡ some l) where
  next_of_new : ((enqueue_last p k).processes p).next ≡ (k.processes l).next
  unfolding enqueue_last
  next_of_new = ground arith

  next_of_old : ((enqueue_last p k).processes l).next ≡ some p
  unfolding enqueue_last
  next_of_old = ground arith

  tail_of_new : (enqueue_last p k).run_list ≡ some p
  unfolding enqueue_last
  tail_of_new = ground arith

  next_of_other :
      (x : ℕ) → x ≢ p → x ≢ l → ((enqueue_last p k).processes x).next ≡ (k.processes x).next
  unfolding enqueue_last
  next_of_other x np nl = ground arith

  next_of_others :
      (xs : List ℕ)
      → Without p xs
      → Without l xs
      → All (λ x. ((enqueue_last p k).processes x).next ≡ (k.processes x).next) xs
  next_of_others [] np nl = tt
  next_of_others (x ∷ xs) np nl = (next_of_other x np.0 nl.0, next_of_others xs np.1 nl.1)

Without-snoc : (p b : ℕ) (xs : List ℕ) → Without p xs → b ≢ p → Without p (xs ++ b ∷ [])
Without-snoc p b [] h n = (n, tt)
Without-snoc p b (x ∷ xs) h n = (h.0, Without-snoc p b xs h.1 n)

Distinct-snoc : (b : ℕ) (xs : List ℕ) → Without b xs → Distinct xs → Distinct (xs ++ b ∷ [])
Distinct-snoc b [] h d = (tt, tt)
Distinct-snoc b (x ∷ xs) h d =
    (Without-snoc x b xs d.0 (λ e. h.0 (sym e)), Distinct-snoc b xs h.1 d.1)

-- The old way from the tail, walked from `p` on in the new table.
enqueue_last-Links :
    (p l : ℕ) (k : Kernel) (xs : List ℕ)
    → p ≢ l
    → k.run_list ≡ some l
    → Without p xs
    → Without l xs
    → Links k.processes l xs l
    → Links (enqueue_last p k).processes p xs l
enqueue_last-Links p l k [] apart t np nl h = next_of_new p l k apart t ∙ h
enqueue_last-Links p l k (x ∷ xs) apart t np nl h = (
  next_of_new p l k apart t ∙ h.0,
  Links-frame k.processes (enqueue_last p k).processes x l xs
      (next_of_other p l k apart t x np.0 nl.0) (next_of_others p l k apart t xs np.1 nl.1) h.1,
)

-- A process that is not yet a member goes behind the tail: the ring, read from its head, becomes
-- the old ring followed by the new process.
pub enqueue_last-IsRing :
    (p l : ℕ) (k : Kernel) (xs : List ℕ)
    → IsRing k l xs
    → p ≢ l
    → Without p xs
    → IsRing (enqueue_last p k) p (xs ++ l ∷ [])
enqueue_last-IsRing p l k xs r apart np = record {
  tail = tail_of_new p l k apart r.tail;
  cycle =
      Links-snoc (enqueue_last p k).processes p l p xs
        (enqueue_last-Links p l k xs apart r.tail np r.tail_once r.cycle)
        (next_of_old p l k apart r.tail);
  tail_once = Without-snoc p l xs np (λ e. apart (sym e));
  distinct = Distinct-snoc l xs r.tail_once r.distinct;
}

-- The first process is a ring of its own.
pub enqueue_last_first : (p : ℕ) (k : Kernel) → k.run_list ≡ none → IsRing (enqueue_last p k) p []
unfolding enqueue_last
enqueue_last_first p k e = record {
  tail = ground arith;
  cycle = ground arith;
  tail_once = tt;
  distinct = tt;
}
