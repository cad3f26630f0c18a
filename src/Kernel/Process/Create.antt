-- ===== src/Kernel/Process/Create.antt =====
-- `process_create` on a well-formed process table.
use bonfire_os.Base.{
  ℕ, ◌+◌, ◌≤◌, ◌<◌, ◌≡◌, ◌≢◌, none, some, List, [], ◌∷◌, ◌++◌, arith, All, update,
}
use bonfire_os.Kernel.Heap.{Heap, kmalloc}
use bonfire_os.Kernel.Process.{
  Process, Kernel, runnable, process_stack_size, max_processes, alloc_process, enqueue_last,
  fill_process, process_setup_stack, process_create,
}
use bonfire_os.Kernel.Process.Ring.{Links, Without, IsRing, enqueue_last-IsRing}

-- Every member of the ring is an allocated slot.
abbrev Allocated : Kernel → List ℕ → Type 0
Allocated k = All (λ x. x < k.process_count)

Allocated-Without : (k : Kernel) (xs : List ℕ) → Allocated k xs → Without k.process_count xs
Allocated-Without k [] h = tt
Allocated-Without k (x ∷ xs) h = (omega arith, Allocated-Without k xs h.1)

-- A table whose fresh slot is filled has the same links among the members.
fill-Links :
    (p : ℕ) (k : Kernel) (v : Process) (a b : ℕ) (xs : List ℕ)
    → a ≢ p
    → Without p xs
    → Links k.processes a xs b
    → Links (update k.processes p v) a xs b
fill-Links p k v a b [] n np h = ground arith
fill-Links p k v a b (x ∷ xs) n np h = (ground arith, fill-Links p k v x b xs np.0 np.1 h.1)

abbrev fresh_slot : Kernel → Heap → Kernel
fresh_slot k h = record k { process_count = k.process_count + 1; heap = h }

process_create_lem :
    (entry : ℕ) (k : Kernel) {stack : ℕ}
    → k.process_count < max_processes
    → (kmalloc process_stack_size k.heap).0 ≡ some stack
    → process_create entry k
      ≡ enqueue_last k.process_count (
          fill_process k.process_count stack entry
            (fresh_slot k (kmalloc process_stack_size k.heap).1))
unfolding process_create alloc_process
process_create_lem entry k room e = ground arith

fill_process-IsRing :
    (p stack entry l : ℕ) (k : Kernel) (xs : List ℕ)
    → l ≢ p
    → Without p xs
    → IsRing k l xs
    → IsRing (fill_process p stack entry k) l xs
unfolding fill_process
fill_process-IsRing p stack entry l k xs n np r = record {
  tail = r.tail;
  cycle = fill-Links p k _ l l xs n np r.cycle;
  tail_once = r.tail_once;
  distinct = r.distinct;
}

-- With a free slot and memory for a stack, `process_create` appends exactly one process, in the
-- slot `process_count`, to the ring: the order of the others is kept, the new one comes last.
pub process_create-IsRing :
    (entry l : ℕ) (k : Kernel) (xs : List ℕ) {stack : ℕ}
    → IsRing k l xs
    → Allocated k (l ∷ xs)
    → k.process_count < max_processes
    → (kmalloc process_stack_size k.heap).0 ≡ some stack
    → IsRing (process_create entry k) k.process_count (xs ++ l ∷ [])
process_create-IsRing entry l k xs {stack} r al room e = rw (process_create_lem entry k room e) (
    enqueue_last-IsRing k.process_count l filled xs
      (fill_process-IsRing k.process_count stack entry l slot xs (λ q. omega (arith, al.0)) fresh
        (record { tail = r.tail; cycle = r.cycle; tail_once = r.tail_once; distinct = r.distinct }))
      (λ q. omega (arith, al.0)) fresh)
  where
    slot : Kernel
    slot = fresh_slot k (kmalloc process_stack_size k.heap).1

    filled : Kernel
    filled = fill_process k.process_count stack entry slot

    fresh : Without k.process_count xs
    fresh = Allocated-Without k xs al.1

-- The new slot holds the next pid, is runnable, and will be resumed at the stack that
-- `process_setup_stack` built for `entry`; the pid counter moves on.
process_create-fields :
    (entry : ℕ) (k : Kernel) {stack l : ℕ}
    → k.run_list ≡ some l
    → l < k.process_count
    → k.process_count < max_processes
    → (kmalloc process_stack_size k.heap).0 ≡ some stack
    → let k' = process_create entry k in
      let p = k'.processes k.process_count in
      (p.pid ≡ k.next_pid)
      × (p.state ≡ runnable)
      × (p.kernel_stack ≡ stack)
      × (p.saved_rsp ≡ (process_setup_stack stack entry k.memory).1)
      × (k'.memory ≡ (process_setup_stack stack entry k.memory).0)
      × (k'.process_count ≡ k.process_count + 1)
unfolding enqueue_last fill_process
process_create-fields entry k {stack} {l} t al room e =
    rw (process_create_lem entry k room e)
      (ground arith, ground arith, ground arith, ground arith, ground arith, ground arith)

-- With the table full, nothing changes. With a slot left and no memory, the slot is used up all the
-- same: the count grows, and the ring and the pid counter stay as they were.
process_create_fails :
    (entry : ℕ) (k : Kernel)
    → (max_processes ≤ k.process_count → process_create entry k ≡ k)
      × (k.process_count < max_processes
          → (kmalloc process_stack_size k.heap).0 ≡ none
          → ((process_create entry k).process_count ≡ k.process_count + 1)
            × ((process_create entry k).run_list ≡ k.run_list)
            × ((process_create entry k).next_pid ≡ k.next_pid))
unfolding process_create alloc_process
process_create_fails entry k =
    (λ full. ground arith, λ room e. (ground arith, ground arith, ground arith))
