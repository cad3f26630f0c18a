-- ===== src/Games/Malloc/Total.antt =====
-- No byte of the region is lost: what is free and what is taken add up.
use bonfire_os.Base.{
  ℕ, ◌≢◌, ==_of_ne, ==→eq, ==→ne, ◌+◌, ◌-◌, ◌^◌, ◌≤◌, ◌<◌, ◌≡◌, refl, ap, sym, ◌∙◌, true, none,
  some, List, [], ◌∷◌, arith, leb, ◌==◌, update, Bool-cases, Option-cases, inl, inr,
}
use bonfire_os.Kernel.Heap.{align_up}
use bonfire_os.Games.Malloc.{
  Block, GameHeap, header, doom_heap_init, take_block, doom_malloc_impl, coalesce, insert_block,
  doom_free_impl,
}

-- The bytes of the blocks of a list, with their headers.
abbrev pub total : List Block → ℕ
total [] = 0
total (b ∷ bs) = header + b.size + total bs

total-coalesce : (b : Block) (bs : List Block) → total (coalesce b bs) ≡ total (b ∷ bs)
unfolding coalesce
total-coalesce b [] = refl
total-coalesce b (c ∷ cs) = ground arith

total-insert_block : (b : Block) (bs : List Block) → total (insert_block b bs) ≡ total (b ∷ bs)
unfolding insert_block
total-insert_block b [] = total-coalesce b []
total-insert_block b (c ∷ cs) = ground (arith, total-insert_block b cs, total-coalesce b (c ∷ cs))

-- A block that is taken and the list that is left are what was there.
total-take_block :
    (n : ℕ) (bs rest : List Block) (b : Block)
    → n < 2 ^ 63
    → take_block n bs ≡ some (b, rest)
    → (total bs ≡ header + b.size + total rest) × (n ≤ b.size)
unfolding take_block
total-take_block n [] rest b small e = cc e
total-take_block n (c ∷ cs) rest b small e = elim (Bool-cases (leb n c.size)) [
  | inl fits ↦ ground arith
  | inr small_block ↦ elim (Option-cases (take_block n cs)) [
    | inl missing ↦ absurd (ground arith)
    | inr ((found, left), taken) ↦
        let (sum, room) = total-take_block n cs left found small taken in
        let same_block : found ≡ b = ground arith in
        let same_rest : c ∷ left ≡ rest = ground arith in
        omega (arith, sum, room, ap (λ x. x.size) same_block, ap total same_rest)
  ]
]

-- What is put into the list is what the header says.
total-doom_free_impl :
    (p : ℕ) (h : GameHeap)
    → h.doom_heap_inited ≡ true
    → total (doom_free_impl (some p) h).free_list
      ≡ header + h.sizes (p - header) + total h.free_list
unfolding doom_free_impl doom_heap_init
total-doom_free_impl p h e =
    rw e
      (total-insert_block (record { addr = p - header; size = h.sizes (p - header) }) h.free_list)

module _ (size : ℕ) (h : GameHeap) (e : h.doom_heap_inited ≡ true) where
  init_idle : doom_heap_init h ≡ h
  unfolding doom_heap_init
  init_idle = rw e refl

  malloc_zero : size ≡ 0 → (doom_malloc_impl size h).0 ≡ none
  unfolding doom_malloc_impl
  malloc_zero z = ground arith

  malloc_none :
      size ≢ 0 → take_block (align_up size) h.free_list ≡ none → (doom_malloc_impl size h).0 ≡ none
  unfolding doom_malloc_impl
  malloc_none nz missing = rw (==_of_ne size 0 nz, init_idle, missing) refl

  malloc_some :
      (b : Block) (rest : List Block)
      → size ≢ 0
      → take_block (align_up size) h.free_list ≡ some (b, rest)
      → doom_malloc_impl size h ≡ (
        some (b.addr + header),
        record h { free_list = rest; sizes = update h.sizes b.addr b.size },
      )
  unfolding doom_malloc_impl
  malloc_some b rest nz found =
      rw (==_of_ne size 0 nz, init_idle, found)
        (ap
          (λ g. (
            some (b.addr + header),
            record g { free_list = rest; sizes = update g.sizes b.addr b.size },
          ))
          init_idle)

-- On an initialised heap, a request of less than half the address space that succeeds takes its
-- header and at least the requested bytes out of the free list; freeing the block brings the free
-- list back to as many bytes as before, headers counted.
pub doom_free_impl-malloc :
    (size : ℕ) (h : GameHeap) {p : ℕ}
    → h.doom_heap_inited ≡ true
    → size < 2 ^ 63 - 8
    → (doom_malloc_impl size h).0 ≡ some p
    → let h' = (doom_malloc_impl size h).1 in
      (total h'.free_list + header + size ≤ total h.free_list)
      × (total (doom_free_impl (some p) h').free_list ≡ total h.free_list)
doom_free_impl-malloc size h {p} e small got = elim (Bool-cases (size == 0)) [
  | inl z ↦ absurd (cc (got, malloc_zero size h e (==→eq size 0 z)))
  | inr nz ↦ elim (Option-cases (take_block (align_up size) h.free_list)) [
    | inl missing ↦ absurd (cc (got, malloc_none size h e (==→ne size 0 nz) missing))
    | inr ((b, rest), found) ↦
        let made = malloc_some size h e b rest (==→ne size 0 nz) found in
        let at : b.addr + header ≡ p = cc (got, made) in
        let (sum, room) =
          total-take_block (align_up size) h.free_list rest b (omega (arith, small)) found in
        rw made (
          rw (sym at) (
            omega (arith, sum, room, small),
            total-doom_free_impl (b.addr + header)
                  (record h { free_list = rest; sizes = update h.sizes b.addr b.size }) e
                ∙ ground (arith, sum),
          ))
  ]
]
