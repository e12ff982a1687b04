-- ===== src/Heap/Large.antt =====
-- The large allocations of kernel/core/heap.c.
use afriyie_os.Common.{
  ℕ, ◌+◌, ◌-◌, ◌*◌, ◌/◌, ◌%◌, ◌^◌, Option, none, some, ltb, if◌then◌else◌, update,
}
use afriyie_os.Heap.State.{Heap, heap_page_size, trailer_size}

-- How many frames a request takes, and where its memory begins in them.
unfoldable pub large_frames : ℕ → ℕ
large_frames size =
    let total = (size + trailer_size + heap_page_size) % 2 ^ 64 in
    (total + heap_page_size - 1) % 2 ^ 64 / heap_page_size % 2 ^ 32

unfoldable pub large_user : (base alignment : ℕ) → ℕ
large_user base alignment =
    if ltb 8 alignment
    then (base + trailer_size + alignment - 1) / alignment * alignment
    else base + trailer_size

-- What `pmm_alloc_frames` returned is an argument.
unfoldable pub large_alloc : Heap → (size alignment : ℕ) → Option ℕ → Heap × Option ℕ
large_alloc h size alignment none = (h, none)
large_alloc h size alignment (some base) = (
  record h {
    trailer =
        update h.trailer (large_user base alignment) (
          some
            (record { base = base; frame_count = large_frames size; requested = size % 2 ^ 32 }));
  },
  some (large_user base alignment),
)
