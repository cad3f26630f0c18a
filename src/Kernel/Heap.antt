-- ===== src/Kernel/Heap.antt =====
-- src/kernel/mm/heap.c: the bump allocator behind `kmalloc`. Pointers are 64-bit words.
use bonfire_os.Base.{
  ℕ, ◌+◌, ◌-◌, ◌*◌, ◌/◌, ◌%◌, ◌^◌, ◌≤◌, ◌<◌, ◌≡◌, Option, none, some, arith, ltb, if◌then◌else◌,
  u64,
}

-- `heap_start`, `heap_cur`, `heap_end`
pub record Heap : Type 0 where
  pub heap_start : ℕ
  pub heap_cur : ℕ
  pub heap_end : ℕ

-- `ALIGN_UP(x, 8)`: the low three bits are cleared after a 64-bit sum.
abbrev pub align_up : ℕ → ℕ
align_up x = u64 (x + 7) / 8 * 8

unfoldable heap_init : ℕ → ℕ → Heap
heap_init region size = record {
  heap_start = region;
  heap_cur = region;
  heap_end = u64 (region + size);
}

-- `none` is the null pointer.
unfoldable pub kmalloc : ℕ → Heap → Option ℕ × Heap
kmalloc size h =
    let n = align_up size in
    let top = u64 (h.heap_cur + n) in
    if ltb h.heap_end top then (none, h) else (some h.heap_cur, record h { heap_cur = top })

unfoldable kfree : ℕ → Heap → Heap
kfree ptr h = h

-- The bump pointer is aligned and lies in the region, which is in the lower half of the addresses.
pub record IsValid (h : Heap) : Type 0 where
  pub start_le_cur : h.heap_start ≤ h.heap_cur
  pub cur_le_end : h.heap_cur ≤ h.heap_end
  pub end_low : h.heap_end < 2 ^ 63
  pub aligned : h.heap_cur % 8 ≡ 0

-- For a valid heap and a request of less than half the address space, a block that `kmalloc`
-- returns is 8-aligned, starts at the old bump pointer, ends by the new one, and the new one is
-- within the region; the heap stays valid. Blocks of successive calls are therefore disjoint.
pub kmalloc-block :
    (size : ℕ) (h : Heap) {p : ℕ}
    → IsValid h
    → size < 2 ^ 63 - 8
    → (kmalloc size h).0 ≡ some p
    → (p ≡ h.heap_cur)
      × (p % 8 ≡ 0)
      × (p + size ≤ (kmalloc size h).1.heap_cur)
      × ((kmalloc size h).1.heap_cur < p + size + 8)
      × IsValid (kmalloc size h).1
unfolding kmalloc
kmalloc-block size h v small e = ground arith

-- Under the same conditions `kmalloc` fails exactly when the request, rounded up to a multiple of
-- 8, exceeds what is left of the region, and a failed call changes nothing.
kmalloc_fails_iff :
    (size : ℕ) (h : Heap)
    → IsValid h
    → size < 2 ^ 63 - 8
    → (h.heap_end < h.heap_cur + (size + 7) / 8 * 8 → kmalloc size h ≡ (none, h))
      × ((kmalloc size h).0 ≡ none → h.heap_end < h.heap_cur + (size + 7) / 8 * 8)
unfolding kmalloc
kmalloc_fails_iff size h v small = (λ full. ground arith, λ e. ground arith)

-- A request of the last seven sizes below 2^64 wraps to 0 when it is rounded up: it succeeds on
-- every valid heap and reserves nothing.
kmalloc_wraps :
    (size : ℕ) (h : Heap)
    → IsValid h
    → 2 ^ 64 - 8 < size
    → size < 2 ^ 64
    → kmalloc size h ≡ (some h.heap_cur, h)
unfolding kmalloc
kmalloc_wraps size h v lo hi = ground arith

kmalloc-IsValid : (size : ℕ) (h : Heap) → IsValid h → size < 2 ^ 63 - 8 → IsValid (kmalloc size h).1
unfolding kmalloc
kmalloc-IsValid size h v small = ground arith
