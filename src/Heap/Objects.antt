-- ===== src/Heap/Objects.antt =====
-- The objects of a slab of kernel/core/heap.c.
use afriyie_os.Common.{ℕ, zero, suc, ◌+◌, ◌*◌, ◌%◌, ◌≤◌, ◌<◌, ◌≡◌, refl, sym, List, length, arith}
use afriyie_os.Common.Occurs.{occurs}
use native.Mathlib.Decide.{ℕ_discrete}
use afriyie_os.Heap.State.{class_size, slab_stride, slab_capacity, objects_from, page_of}
use afriyie_os.Heap.Layout.{slab_layout}

-- The objects of a slab in a page.
abbrev pub objects : (page class : ℕ) → List ℕ
objects page class =
    objects_from (slab_capacity (class_size class)) page (slab_stride (class_size class)) 0

objects_from-member :
    (left page stride i o : ℕ)
    → 0 < occurs o (objects_from left page stride i)
    → (j : ℕ) × (i ≤ j) × (j < i + left) × (o ≡ page + 64 + j * stride)
unfolding objects_from
objects_from-member zero page stride i o pos = absurd (omega arith)
objects_from-member (suc left) page stride i o pos = elim (ℕ_discrete (page + 64 + i * stride) o) [
  | yes e ↦ (i, omega arith, omega arith, sym e)
  | no ne ↦
      let (j, lo, hi, e) =
        objects_from-member left page stride (i + 1) o (ground (arith, pos, ne)) in
      (j, omega (arith, lo), omega (arith, hi), e)
]

objects_from-le :
    (left page stride i o : ℕ) → 0 < stride → occurs o (objects_from left page stride i) ≤ 1
unfolding objects_from
objects_from-le zero page stride i o pos = omega arith
objects_from-le (suc left) page stride i o pos = elim (ℕ_discrete (page + 64 + i * stride) o) [
  | yes e ↦ elim (ℕ_discrete (occurs o (objects_from left page stride (i + 1))) 0) [
    | yes none_left ↦ ground (arith, e, none_left)
    | no some_left ↦
        let (j, lo, hi, at) =
          objects_from-member left page stride (i + 1) o (omega (arith, some_left)) in
        absurd (grind (arith, e, at, lo, pos))
  ]
  | no ne ↦ ground (arith, objects_from-le left page stride (i + 1) o pos, ne)
]

objects_from-length : (left page stride i : ℕ) → length (objects_from left page stride i) ≡ left
unfolding objects_from
objects_from-length zero page stride i = refl
objects_from-length (suc left) page stride i =
    omega (arith, objects_from-length left page stride (i + 1))

-- The numbers of the eight classes.
class_facts :
    (class : ℕ)
    → class < 8
    → (0 < slab_stride (class_size class))
      × (0 < slab_capacity (class_size class))
      × (slab_capacity (class_size class) < 168)
unfolding slab_stride slab_capacity
class_facts zero lt = (omega arith, omega arith, omega arith)
class_facts (suc zero) lt = (omega arith, omega arith, omega arith)
class_facts (suc (suc zero)) lt = (omega arith, omega arith, omega arith)
class_facts (suc (suc (suc zero))) lt = (omega arith, omega arith, omega arith)
class_facts (suc (suc (suc (suc zero)))) lt = (omega arith, omega arith, omega arith)
class_facts (suc (suc (suc (suc (suc zero))))) lt = (omega arith, omega arith, omega arith)
class_facts (suc (suc (suc (suc (suc (suc zero)))))) lt = (omega arith, omega arith, omega arith)
class_facts (suc (suc (suc (suc (suc (suc (suc zero))))))) lt =
    (omega arith, omega arith, omega arith)
class_facts (suc (suc (suc (suc (suc (suc (suc (suc c)))))))) lt = absurd (omega arith)

-- A slab has its objects once each, in its page, and at least one.
pub objects_lem :
    (page class o : ℕ)
    → class < 8
    → page % 4096 ≡ 0
    → (occurs o (objects page class) ≤ 1)
      × (0 < occurs o (objects page class) → page_of o ≡ page)
      × (length (objects page class) ≡ slab_capacity (class_size class))
      × (0 < slab_capacity (class_size class))
      × (slab_capacity (class_size class) < 168)
objects_lem page class o lt aligned =
    let (stride, some_objects, few) = class_facts class lt in
    (
      objects_from-le (slab_capacity (class_size class)) page (slab_stride (class_size class)) 0 o
          stride,
      (λ pos.
          let (j, lo, hi, e) =
            objects_from-member (slab_capacity (class_size class)) page
              (slab_stride (class_size class)) 0 o pos in
          let (header, eight, inside, next) = slab_layout class j lt (omega (arith, hi)) in
          omega (arith, e, aligned, inside)),
      objects_from-length (slab_capacity (class_size class)) page (slab_stride (class_size class))
          0,
      some_objects,
      few,
    )
