-- ===== src/Heap/Layout.antt =====
-- Where kernel/core/heap.c puts objects and large allocations.
use afriyie_os.Common.{
  ℕ, zero, suc, ◌+◌, ◌-◌, ◌*◌, ◌/◌, ◌%◌, ◌^◌, ◌≤◌, ◌<◌, ◌≡◌, Bool, false, ltb, leb, ◌==◌, Option,
  none, some, arith, Bool-cases, inl, inr,
}
use native.Mathlib.Nat.{div-add-mod', lt-div-mul-add}
use afriyie_os.Heap.State.{
  slab_object_offset, Heap, class_size, slab_stride, slab_capacity, page_of,
}
use afriyie_os.Heap.Large.{large_frames, large_user}
use afriyie_os.Heap.Ops.{usable_size, krealloc, large_realloc}

-- The offset of an object in its page.
abbrev pub object_offset : (class j : ℕ) → ℕ
object_offset class j = slab_object_offset + j * slab_stride (class_size class)

-- Object `j` of a slab: its guard bands, its alignment and the next object.
pub slab_layout :
    (class j : ℕ)
    → class < 8
    → j < slab_capacity (class_size class)
    → (40 ≤ object_offset class j - 8)
      × (object_offset class j % 8 ≡ 0)
      × (object_offset class j + class_size class + 8 ≤ 4096)
      × (object_offset class j + class_size class + 8 ≤ object_offset class (j + 1))
unfolding slab_stride slab_capacity
slab_layout zero j lt below = (omega arith, omega arith, omega arith, omega arith)
slab_layout (suc zero) j lt below = (omega arith, omega arith, omega arith, omega arith)
slab_layout (suc (suc zero)) j lt below = (omega arith, omega arith, omega arith, omega arith)
slab_layout (suc (suc (suc zero))) j lt below = (omega arith, omega arith, omega arith, omega arith)
slab_layout (suc (suc (suc (suc zero)))) j lt below =
    (omega arith, omega arith, omega arith, omega arith)
slab_layout (suc (suc (suc (suc (suc zero))))) j lt below =
    (omega arith, omega arith, omega arith, omega arith)
slab_layout (suc (suc (suc (suc (suc (suc zero)))))) j lt below =
    (omega arith, omega arith, omega arith, omega arith)
slab_layout (suc (suc (suc (suc (suc (suc (suc zero))))))) j lt below =
    (omega arith, omega arith, omega arith, omega arith)
slab_layout (suc (suc (suc (suc (suc (suc (suc (suc c)))))))) j lt below = absurd (omega arith)

-- Rounding up to a multiple.
round_up-bounds : (v a : ℕ) → 0 < a → (v ≤ (v + a - 1) / a * a) × ((v + a - 1) / a * a < v + a)
round_up-bounds v a pos = (
  omega (arith, lt-div-mul-add {a = v + a - 1} {b = a} pos),
  omega (arith, div-add-mod' (v + a - 1) a),
)

-- A large allocation in whole frames with an alignment of at most a page begins behind its trailer and ends inside
-- the frames.
pub large_layout :
    (base size alignment : ℕ)
    → alignment ≤ 4096
    → size < 2 ^ 43
    → (base + 24 ≤ large_user base alignment)
      × (large_user base alignment + size ≤ base + large_frames size * 4096)
unfolding large_user large_frames
large_layout base size alignment le small = elim (Bool-cases (ltb 8 alignment)) [
  | inl above ↦
      let (up, near) = round_up-bounds (base + 24) alignment (ground (arith, above)) in
      rw above (omega (arith, up), omega (arith, near))
  | inr below ↦ rw below (omega arith, omega arith)
]

usable_large :
    (h : Heap) (p base frames requested : ℕ)
    → h.slab (page_of p) ≡ none
    → h.trailer p ≡ some (record { base = base; frame_count = frames; requested = requested })
    → usable_size h (some p) ≡ requested
unfolding usable_size
usable_large h p base frames requested no_slab trailer = ground (arith, no_slab, trailer)

-- `krealloc` leaves a large allocation in place as long as the new size is not above that of its frames, though the
-- memory begins 24 bytes into them: the last bytes of the new size may lie beyond the frames.
pub large_overruns :
    (h : Heap) (p base frames requested new_size : ℕ) (frame run : Option ℕ) (intact : Bool)
    → h.slab (page_of p) ≡ none
    → h.trailer p ≡ some (record { base = base; frame_count = frames; requested = requested })
    → p ≡ large_user base 8
    → 0 < requested
    → requested < new_size
    → frames < 2 ^ 32
    → new_size ≤ frames * 4096
    → frames * 4096 < new_size + 24
    → ((krealloc h (some p) new_size frame run intact).1 ≡ some p)
      × (base + frames * 4096 < p + new_size)
unfolding krealloc large_realloc large_user
large_overruns h p base frames requested new_size frame run intact no_slab trailer at pos more few
      fits over =
    let usable : usable_size h (some p) ≡ requested =
      usable_large h p base frames requested no_slab trailer in
    let some_use : (usable_size h (some p) == 0) ≡ false = ground (arith, usable) in
    let grows : leb new_size (usable_size h (some p)) ≡ false = ground (arith, usable) in
    (ground (arith, no_slab, trailer, some_use, grows), ground (arith, at))
