-- ===== src/Games/Tests.antt =====
-- The theorems about the games' heap at concrete inputs.
use bonfire_os.Base.{◌+◌, ◌≤◌, ◌≡◌, refl, arith, true, [], ◌∷◌, some}
use bonfire_os.Games.Malloc.{
  GameHeap, header, take_block, doom_heap_init, doom_malloc_impl, doom_free_impl,
}
use bonfire_os.Games.Malloc.Total.{total, doom_free_impl-malloc}

abbrev heap : GameHeap
heap = record {
  doom_heap = 0x100000;
  doom_heap_inited = true;
  free_list = record { addr = 0x100000; size = 8 } ∷ record { addr = 0x100100; size = 100 } ∷ [];
  sizes = λ a. 0;
}

doom_free_impl-malloc_example :
    let h' = (doom_malloc_impl 13 heap).1 in
    (total h'.free_list + header + 13 ≤ total heap.free_list)
    × (total (doom_free_impl (some 0x100110) h').free_list ≡ total heap.free_list)
unfolding doom_malloc_impl take_block doom_heap_init
doom_free_impl-malloc_example = doom_free_impl-malloc 13 heap refl (omega arith) refl
