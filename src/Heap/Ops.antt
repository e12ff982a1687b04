-- ===== src/Heap/Ops.antt =====
-- The calls of kernel/core/heap.c.
use afriyie_os.Common.{
  ℕ, zero, suc, ◌+◌, ◌-◌, ◌*◌, ◌%◌, ◌^◌, Bool, true, false, not, ◌&&◌, Option, none, some, List, [],
  ◌∷◌, ◌++◌, length, ltb, leb, ◌==◌, if◌then◌else◌, update, bit_and, Status, ok, fs_corrupt,
}
use afriyie_os.Heap.State.{
  Heap, Slab, Cache, Trailer, class_for_size, fresh_slab, page_of, heap_page_size,
}
use afriyie_os.Heap.Large.{large_alloc}

abbrev pub put_slab : Heap → ℕ → Slab → Heap
put_slab h page s = record h { slab = update h.slab page (some s) }

abbrev pub put_cache : Heap → ℕ → Cache → Heap
put_cache h i c = record h { caches = update h.caches i c }

unfoldable pub heap_init : Heap → Heap
heap_init h = record h {
  caches = λ i. record { slabs = []; slab_count = 0; live_objects = 0 };
  is_ready = true;
}

-- The free list of the slab of a page; a page that has lost its header has none.
unfoldable pub free_of : Heap → ℕ → List ℕ
free_of h page = elim (h.slab page) [ none ↦ [] | some s ↦ s.free_list ]

-- `cache->slabs->free_list` is NULL, or there is no slab.
unfoldable pub is_exhausted : Heap → List ℕ → Bool
is_exhausted h [] = true
is_exhausted h (page ∷ pages) = elim (free_of h page) [ [] ↦ true | o ∷ os ↦ false ]

-- A new slab becomes the first of its cache.
unfoldable pub add_slab : Heap → (class page : ℕ) → Heap
add_slab h class page =
    let c = h.caches class in
    put_cache (put_slab h page (fresh_slab page class)) class
      (record c { slabs = page ∷ c.slabs; slab_count = (c.slab_count + 1) % 2 ^ 32 })

-- The first slab with a free object, or the one at hand.
unfoldable pub first_free : Heap → ℕ → List ℕ → ℕ
first_free h own [] = own
first_free h own (page ∷ pages) =
    let rest = first_free h own pages in elim (free_of h page) [ [] ↦ rest | o ∷ os ↦ page ]

-- The object is taken off the free list of the slab. An empty one would be a NULL dereference.
unfoldable pub take_object : Heap → (class page size : ℕ) → Heap × Option ℕ
take_object h class page size = elim (h.slab page) [
  | none ↦ (record h { halted = true }, none)
  | some s ↦ elim s.free_list [
    | [] ↦ (record h { halted = true }, none)
    | o ∷ rest ↦ (
      record (put_cache
          (put_slab h page (record s { free_list = rest; in_use = (s.in_use + 1) % 2 ^ 32 })) class
          (record (h.caches class) {
            live_objects = ((h.caches class).live_objects + 1) % 2 ^ 32;
          })) {
            allocated_bytes = (h.allocated_bytes + size) % 2 ^ 64;
            live_allocations = (h.live_allocations + 1) % 2 ^ 32;
            total_allocations = (h.total_allocations + 1) % 2 ^ 32;
          },
      some o,
    )
  ]
]

unfoldable pub from_slabs : Heap → (class size : ℕ) → Heap × Option ℕ
from_slabs h class size = elim (h.caches class).slabs [
  | [] ↦ (record h { halted = true }, none)
  | own ∷ pages ↦ take_object h class (first_free h own (own ∷ pages)) size
]

unfoldable pub small_alloc : Heap → (class size : ℕ) → Option ℕ → Heap × Option ℕ
small_alloc h class size frame =
    if is_exhausted h (h.caches class).slabs
    then elim frame [ none ↦ (h, none) | some page ↦ from_slabs (add_slab h class page) class size ]
    else from_slabs h class size

unfoldable pub count_large : Heap × Option ℕ → ℕ → Heap × Option ℕ
count_large (h, none) size = (h, none)
count_large (h, some p) size = (
  record h {
    allocated_bytes = (h.allocated_bytes + size) % 2 ^ 64;
    live_allocations = (h.live_allocations + 1) % 2 ^ 32;
    total_allocations = (h.total_allocations + 1) % 2 ^ 32;
  },
  some p,
)

-- What `pmm_alloc_frame_z` and `pmm_alloc_frames` return, where they are called, are arguments.
unfoldable pub kmalloc : Heap → ℕ → (frame run : Option ℕ) → Heap × Option ℕ
kmalloc h wanted frame run =
    let size = if wanted == 0 then 1 else wanted in
    if not h.is_ready then (h, none) else elim (class_for_size size) [
      | none ↦ count_large (large_alloc h size 8 run) size
      | some class ↦ small_alloc h class size frame
    ]

unfoldable pub usable_size : Heap → Option ℕ → ℕ
usable_size h none = 0
usable_size h (some p) = elim (h.slab (page_of p)) [
  | some s ↦ s.object_size
  | none ↦ elim (h.trailer p) [ some t ↦ t.requested | none ↦ 0 ]
]

unfoldable pub free_small : Heap → (p : ℕ) → Slab → Heap
free_small h p s =
    let c = h.caches s.class_index in
    record (put_cache
      (put_slab h (page_of p) (record s {
        free_list = p ∷ s.free_list;
        in_use = if s.in_use == 0 then 2 ^ 32 - 1 else s.in_use - 1;
      }))
      s.class_index
      (record c {
        live_objects = if ltb 0 c.live_objects then c.live_objects - 1 else c.live_objects;
      })) {
        free_allocations = (h.free_allocations + 1) % 2 ^ 32;
        live_allocations = if h.live_allocations == 0 then 2 ^ 32 - 1 else h.live_allocations - 1;
      }

unfoldable pub free_large : Heap → (p : ℕ) → Trailer → Heap
free_large h p t = record h {
  trailer = update h.trailer p none;
  free_allocations = (h.free_allocations + 1) % 2 ^ 32;
  live_allocations = if h.live_allocations == 0 then 2 ^ 32 - 1 else h.live_allocations - 1;
  released = h.released ++ ((t.base, t.frame_count) ∷ []);
}

-- Whether the guard bands are intact is an argument; as in a build with assertions.
unfoldable pub kfree : Heap → Option ℕ → Bool → Heap
kfree h none intact = h
kfree h (some p) intact = elim (h.slab (page_of p)) [
  | some s ↦ if intact then free_small h p s else record h { halted = true }
  | none ↦ elim (h.trailer p) [ some t ↦ free_large h p t | none ↦ record h { halted = true } ]
]

-- A block is moved to a new one; the copy of its bytes is left out.
unfoldable pub move_block :
    Heap → (p new_size : ℕ) → (frame run : Option ℕ) → Bool → Heap × Option ℕ
move_block h p new_size frame run intact =
    elim (kmalloc h new_size frame run).1 as (λ _. Heap × Option ℕ) [
      | none ↦ kmalloc h new_size frame run
      | some fresh ↦ (kfree (kmalloc h new_size frame run).0 (some p) intact, some fresh)
    ]

-- `large_realloc`: the pointer in place, or the new one.
unfoldable pub large_realloc :
    Heap → (p new_size : ℕ) → (frame run : Option ℕ) → Bool → Heap × Option ℕ
large_realloc h p new_size frame run intact = elim (h.trailer p) [
  | none ↦ (h, none)
  | some t ↦
      if leb new_size (t.frame_count * heap_page_size % 2 ^ 64)
      then (
        record h {
          trailer = update h.trailer p (some (record t { requested = new_size % 2 ^ 32 }));
        },
        some p,
      )
      else move_block h p new_size frame run intact
]

unfoldable pub krealloc : Heap → Option ℕ → ℕ → (frame run : Option ℕ) → Bool → Heap × Option ℕ
krealloc h none new_size frame run intact = kmalloc h new_size frame run
krealloc h (some p) new_size frame run intact =
    if usable_size h (some p) == 0
    then (h, none)
    else if leb new_size (usable_size h (some p))
    then (h, some p)
    else elim (h.slab (page_of p)) [
      | some s ↦ move_block h p new_size frame run intact
      | none ↦ large_realloc h p new_size frame run intact
    ]

unfoldable pub is_power_of_two : ℕ → Bool
is_power_of_two v = not (v == 0) && (bit_and v (v - 1) == 0)

unfoldable pub kmalloc_aligned :
    Heap → (size alignment : ℕ) → (frame run : Option ℕ) → Heap × Option ℕ
kmalloc_aligned h size alignment frame run =
    if not (is_power_of_two alignment)
    then (h, none)
    else if leb alignment 8
    then kmalloc h size frame run
    else large_alloc h size alignment run

-- `heap_check` of the slabs of one class. A free list here has an end, so it is cyclic just where it has more
-- members than there are objects.
unfoldable pub check_slabs : Heap → ℕ → List ℕ → Status
check_slabs h i [] = ok
check_slabs h i (page ∷ pages) =
    let rest = check_slabs h i pages in
    elim (h.slab page) [
      | none ↦ fs_corrupt
      | some s ↦
          if not (s.class_index == i)
          then fs_corrupt
          else if ltb s.capacity (length s.free_list)
          then fs_corrupt
          else if not (length s.free_list == (s.capacity + 2 ^ 32 - s.in_use) % 2 ^ 32)
          then fs_corrupt
          else rest
    ]

unfoldable pub check_from : Heap → ℕ → ℕ → Status
check_from h zero i = ok
check_from h (suc left) i =
    let rest = check_from h left (i + 1) in
    elim (check_slabs h i (h.caches i).slabs) [ ok ↦ rest | bad ↦ fs_corrupt ]

unfoldable pub heap_check : Heap → Status
heap_check h = check_from h 8 0
