-- ===== src/Heap/Tests.antt =====
-- The theorems about the heap at concrete inputs.
use afriyie_os.Common.{
  ◌+◌, ◌*◌, ◌<◌, ◌≡◌, refl, true, false, none, some, [], ◌∷◌, ◌==◌, if◌then◌else◌, arith, ok,
}
use afriyie_os.Common.Occurs.{occurs}
use afriyie_os.Heap.State.{
  Heap, slab_stride, slab_capacity, class_for_size, class_from, fresh_slab, objects_from,
}
use afriyie_os.Heap.Allocate.{real_size}
use afriyie_os.Heap.Large.{large_user}
use afriyie_os.Heap.Ops.{
  heap_init, kmalloc, krealloc, heap_check, small_alloc, is_exhausted, from_slabs, add_slab,
  first_free, free_of, take_object,
}
use afriyie_os.Heap.Layout.{large_overruns}
use afriyie_os.Heap.Histories.{Uses, rests, goes, gets, allocated_once}

-- Before `heap_init`.
abbrev untouched : Heap
untouched = record {
  caches = λ i. record { slabs = []; slab_count = 0; live_objects = 0 };
  slab = λ page. none;
  trailer = λ p. none;
  is_ready = false;
  allocated_bytes = 0;
  live_allocations = 0;
  total_allocations = 0;
  free_allocations = 0;
  released = [];
  halted = false;
}

-- One large allocation of 100 bytes in the frame at 8192.
abbrev with_large : Heap
with_large = record untouched {
  trailer = λ p.
      if p == 8216 then some (record { base = 8192; frame_count = 2; requested = 100 }) else none;
  is_ready = true;
}

-- One object of 32 bytes is in use, in the page at 4096; a second one is asked for.
abbrev after_one : Heap
after_one = (kmalloc (heap_init untouched) 20 (some 4096) none).0

class_of_20 : class_for_size (real_size 20) ≡ some 1
unfolding class_for_size class_from
class_of_20 = refl

second_object : (kmalloc after_one 20 none none).1 ≡ some 4200
unfolding kmalloc heap_init class_for_size class_from small_alloc is_exhausted from_slabs add_slab
    first_free free_of take_object fresh_slab objects_from slab_capacity slab_stride
second_object = refl

at_trailer : 8216 ≡ large_user 8192 8
unfolding large_user
at_trailer = refl

one_use : Uses (heap_init untouched) [] after_one (4160 ∷ [])
unfolding kmalloc heap_init class_for_size class_from small_alloc is_exhausted from_slabs add_slab
    first_free free_of take_object fresh_slab objects_from slab_capacity slab_stride
one_use =
    goes (heap_init untouched) (heap_init untouched) after_one [] [] (4160 ∷ [])
      (rests (heap_init untouched) [])
      (gets (heap_init untouched) [] 20 1 (some 4096) none 4160 refl (refl, refl) refl)

allocated_once_example : (occurs 4200 (4160 ∷ []) ≡ 0) × (heap_check after_one ≡ ok)
allocated_once_example =
    allocated_once untouched after_one (4160 ∷ []) 20 1 none none 4200 (λ page. refl) one_use
      class_of_20 tt second_object

large_overruns_example :
    ((krealloc with_large (some 8216) 8190 none none true).1 ≡ some 8216)
    × (8192 + 2 * 4096 < 8216 + 8190)
large_overruns_example =
    large_overruns with_large 8216 8192 2 100 8190 none none true refl refl at_trailer (omega arith)
      (omega arith) (omega arith) (omega arith) (omega arith)
