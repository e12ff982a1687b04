-- ===== src/Heap/State.antt =====
-- The data of kernel/core/heap.c, and the slabs.
use afriyie_os.Common.{
  ℕ, zero, suc, ◌+◌, ◌-◌, ◌*◌, ◌/◌, ◌^◌, Bool, Option, none, some, List, [], ◌∷◌, leb,
  if◌then◌else◌,
}

-- AF_PAGE_SIZE, AF_HEAP_NUM_CLASSES, SLAB_OBJECT_OFFSET, REDZONE_LEN and the size of `large_trailer_t`
abbrev pub heap_page_size : ℕ
heap_page_size = 4096

abbrev pub num_classes : ℕ
num_classes = 8

abbrev pub slab_object_offset : ℕ
slab_object_offset = 64

abbrev pub redzone_len : ℕ
redzone_len = 8

abbrev pub trailer_size : ℕ
trailer_size = 24

-- `k_class_sizes`
abbrev pub class_size : ℕ → ℕ
class_size i = 16 * 2 ^ i

-- `class_for_size` from a class on.
unfoldable pub class_from : ℕ → ℕ → ℕ → Option ℕ
class_from zero i size = none
class_from (suc left) i size =
    let rest = class_from left (i + 1) size in if leb size (class_size i) then some i else rest

unfoldable pub class_for_size : ℕ → Option ℕ
class_for_size size = class_from 8 0 size

unfoldable pub slab_stride : ℕ → ℕ
slab_stride object_size = (object_size + redzone_len + 7) / 8 * 8

unfoldable pub slab_capacity : ℕ → ℕ
slab_capacity object_size =
    (heap_page_size - slab_object_offset - redzone_len) / slab_stride object_size

-- `slab_t`, without its magic number: the pages that begin with it are those that have a slab. The free
-- list is the list of its objects' addresses.
pub record Slab : Type 0 where
  pub class_index : ℕ
  pub object_size : ℕ
  pub capacity : ℕ
  pub in_use : ℕ
  pub free_list : List ℕ

-- The objects from number `i` on, in the order of their addresses.
unfoldable pub objects_from : ℕ → (page stride i : ℕ) → List ℕ
objects_from zero page stride i = []
objects_from (suc left) page stride i =
    (page + slab_object_offset + i * stride) ∷ objects_from left page stride (i + 1)

-- The slab that `slab_create` makes in a frame.
unfoldable pub fresh_slab : (page class : ℕ) → Slab
fresh_slab page class = record {
  class_index = class;
  object_size = class_size class;
  capacity = slab_capacity (class_size class);
  in_use = 0;
  free_list =
      objects_from (slab_capacity (class_size class)) page (slab_stride (class_size class)) 0;
}

-- `large_trailer_t`, where its magic number is in place.
pub record Trailer : Type 0 where
  pub base : ℕ
  pub frame_count : ℕ
  pub requested : ℕ

-- `heap_cache_t`; the pages of its slabs are a list, the latest first.
pub record Cache : Type 0 where
  pub slabs : List ℕ
  pub slab_count : ℕ
  pub live_objects : ℕ

-- The static variables; `slab` is the header at the start of a page, `trailer` the trailer below a
-- pointer, `released` the runs of frames given to `pmm_free_frames`, and `halted` says that an assertion
-- stopped the machine.
pub record Heap : Type 0 where
  pub caches : ℕ → Cache
  pub slab : ℕ → Option Slab
  pub trailer : ℕ → Option Trailer
  pub is_ready : Bool
  pub allocated_bytes : ℕ
  pub live_allocations : ℕ
  pub total_allocations : ℕ
  pub free_allocations : ℕ
  pub released : List (ℕ × ℕ)
  pub halted : Bool

-- `ptr & ~(AF_PAGE_SIZE - 1)`
abbrev pub page_of : ℕ → ℕ
page_of ptr = ptr / 4096 * 4096
