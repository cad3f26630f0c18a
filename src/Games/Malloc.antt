-- ===== src/Games/Malloc.antt =====
-- src/kernel/doom_host/doom_malloc.c: a heap with a free list. redalert_malloc.c has the same code
-- for a region of 4 MiB. The free list is the list of its blocks, in the order of the pointers; the
-- header words of the blocks that are in use are a function from their addresses.
pub mod Total
use bonfire_os.Base.{
  ℕ, ◌+◌, ◌-◌, ◌*◌, Bool, true, false, Option, none, some, List, [], ◌∷◌, ltb, leb, ◌==◌,
  if◌then◌else◌, u64, update,
}
use bonfire_os.Kernel.Heap.{align_up}

abbrev pub doom_heap_size : ℕ
doom_heap_size = 2 * 1024 * 1024

-- sizeof(struct block)
abbrev pub header : ℕ
header = 16

-- `struct block` at its address.
pub record Block : Type 0 where
  pub addr : ℕ
  pub size : ℕ

-- The region starts at `doom_heap`.
pub record GameHeap : Type 0 where
  pub doom_heap : ℕ
  pub doom_heap_inited : Bool
  pub free_list : List Block
  pub sizes : ℕ → ℕ

unfoldable pub doom_heap_init : GameHeap → GameHeap
doom_heap_init h = if h.doom_heap_inited then h else record h {
  doom_heap_inited = true;
  free_list = record { addr = h.doom_heap; size = doom_heap_size - header } ∷ [];
}

-- The loop of `doom_malloc_impl`: the first block that is large enough, and the list without it. A
-- block with room for another header and 8 bytes is cut.
unfoldable pub take_block : ℕ → List Block → Option (Block × List Block)
take_block size [] = none
take_block size (b ∷ bs) =
    let later = take_block size bs in
    if leb size b.size
    then (if leb (u64 (size + header + 8)) b.size
        then some (
          record { addr = b.addr; size = size },
          record { addr = b.addr + header + size; size = b.size - size - header } ∷ bs,
        )
        else some (b, bs))
    else elim later [ none ↦ none | some r ↦ some (r.0, b ∷ r.1) ]

-- `none` is the null pointer.
unfoldable pub doom_malloc_impl : ℕ → GameHeap → Option ℕ × GameHeap
doom_malloc_impl size h =
    if size == 0
    then (none, h)
    else let h1 = doom_heap_init h in
      elim (take_block (align_up size) h1.free_list) [
        | none ↦ (none, h1)
        | some r ↦ (
          some ((r.0).addr + header),
          record h1 { free_list = r.1; sizes = update h1.sizes ((r.0).addr) ((r.0).size) },
        )
      ]

-- Coalesce with next if adjacent.
unfoldable pub coalesce : Block → List Block → List Block
coalesce b [] = b ∷ []
coalesce b (c ∷ cs) =
    if b.addr + header + b.size == c.addr
    then record { addr = b.addr; size = b.size + (header + c.size) } ∷ cs
    else b ∷ c ∷ cs

-- The block goes in front of the first one that does not lie below it.
unfoldable pub insert_block : Block → List Block → List Block
insert_block b [] = coalesce b []
insert_block b (c ∷ cs) =
    let later = insert_block b cs in if ltb c.addr b.addr then c ∷ later else coalesce b (c ∷ cs)

-- A block that is in the list already is outside the model: there the pointers would form a cycle.
unfoldable pub doom_free_impl : Option ℕ → GameHeap → GameHeap
doom_free_impl none h = h
doom_free_impl (some ptr) h =
    let h1 = doom_heap_init h in
    let b : Block = record { addr = ptr - header; size = h1.sizes (ptr - header) } in
    record h1 { free_list = insert_block b h1.free_list }
