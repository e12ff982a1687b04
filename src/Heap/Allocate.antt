-- ===== src/Heap/Allocate.antt =====
-- Allocation of small objects by kernel/core/heap.c.
use afriyie_os.Common.{
  ℕ, zero, suc, ◌+◌, ◌%◌, ◌≤◌, ◌<◌, ◌≡◌, ◌≢◌, refl, sym, ap, subst, ◌∙◌, true, false, Option, none,
  some, List, [], ◌∷◌, length, leb, ◌==◌, if◌then◌else◌, arith, Bool-cases, List-cases, inl, inr,
  ◌⊎◌,
}
use native.Mathlib.Decide.{ℕ_discrete}
use afriyie_os.Common.Occurs.{occurs}
use afriyie_os.Heap.State.{Heap, Slab, class_size, class_from, class_for_size, fresh_slab, page_of}
use afriyie_os.Heap.Ops.{
  free_of, is_exhausted, add_slab, first_free, take_object, from_slabs, small_alloc, kmalloc,
}
use afriyie_os.Heap.Objects.{objects, objects_lem}
use afriyie_os.Heap.Invariant.{used_of, SlabHolds, Holds, take_object-Holds}

-- The frame of a new slab: none, or one that begins no slab.
abbrev pub IsNew : Heap → Option ℕ → Type 0
IsNew h none = Unit
IsNew h (some page) = (page % 4096 ≡ 0) × (h.slab page ≡ none)

used_of-none :
    (page : ℕ) (live : List ℕ)
    → ((o : ℕ) → 0 < occurs o live → page_of o ≢ page)
    → used_of page live ≡ 0
used_of-none page [] h = refl
used_of-none page (o ∷ os) h =
    ground (arith, used_of-none page os (λ x pos. h x (ground (arith, pos))), h o (ground arith))

fresh-SlabHolds :
    (page class : ℕ) (live : List ℕ)
    → class < 8
    → page % 4096 ≡ 0
    → ((o : ℕ) → 0 < occurs o live → page_of o ≢ page)
    → SlabHolds (fresh_slab page class) page live
unfolding fresh_slab
fresh-SlabHolds page class live lt aligned none_there = record {
  aligned = aligned;
  class = lt;
  capacity = refl;
  used = sym (used_of-none page live none_there);
  count = omega (arith, (objects_lem page class 0 lt aligned).2);
  each = λ o. ground (arith, none_there o);
}

fresh-class : (page class : ℕ) → (fresh_slab page class).class_index ≡ class
unfolding fresh_slab
fresh-class page class = refl

add_slab-Holds :
    (h : Heap) (class page : ℕ) (live : List ℕ)
    → class < 8
    → page % 4096 ≡ 0
    → h.slab page ≡ none
    → Holds h live
    → Holds (add_slab h class page) live
unfolding add_slab
add_slab-Holds h class page live lt aligned gone v =
    let none_there : (o : ℕ) → 0 < occurs o live → page_of o ≢ page =
      λ o pos e. v.owned o pos (ap h.slab e ∙ gone) in
    record {
      slabs = λ p t e. elim (ℕ_discrete p page) [
        | yes here ↦
            let it : fresh_slab page class ≡ t = ground (arith, e, here) in
            subst (λ q. SlabHolds t q live) (sym here)
              (subst (λ u. SlabHolds u page live) it
                (fresh-SlabHolds page class live lt aligned none_there))
        | no other ↦ v.slabs p t (ground (arith, e, other))
      ];
      owned = λ o pos lost. v.owned o pos (ground (arith, lost, none_there o pos));
      members = λ i p pos. elim (ℕ_discrete p page) [
        | yes here ↦ elim (ℕ_discrete i class) [
          | yes same ↦
              (fresh_slab page class, ground (arith, here), fresh-class page class ∙ sym same)
          | no other ↦
              let (t, e, c) = v.members i p (ground (arith, pos, other)) in
              absurd (ground (arith, e, gone, ap h.slab here))
        ]
        | no other ↦
            let (t, e, c) = v.members i p (ground (arith, pos, other)) in
            (t, ground (arith, e, other), c)
      ];
    }

-- An allocation from the first slab of a class, which has a free object.
from_slabs-Holds :
    (h : Heap) (class size page o : ℕ) (pages rest live : List ℕ) (s : Slab)
    → Holds h live
    → (h.caches class).slabs ≡ page ∷ pages
    → h.slab page ≡ some s
    → s.free_list ≡ o ∷ rest
    → ((from_slabs h class size).1 ≡ some o)
      × (occurs o live ≡ 0)
      × Holds (from_slabs h class size).0 (o ∷ live)
unfolding from_slabs first_free free_of
from_slabs-Holds h class size page o pages rest live s v cache at e =
    let out : from_slabs h class size ≡ take_object h class page size =
      ground (arith, cache, at, e) in
    subst (λ (z : Heap × Option ℕ). (z.1 ≡ some o) × (occurs o live ≡ 0) × Holds z.0 (o ∷ live))
      (sym out) (take_object-Holds h class page size s o rest live v at e)

fresh-objects :
    (page class : ℕ)
    → class < 8
    → page % 4096 ≡ 0
    → (o : ℕ) × (rest : List ℕ) × ((fresh_slab page class).free_list ≡ o ∷ rest)
unfolding fresh_slab
fresh-objects page class lt aligned = elim (List-cases (objects page class)) [
  | inl e ↦ absurd (
      omega (
        arith,
        (objects_lem page class 0 lt aligned).2,
        (objects_lem page class 0 lt aligned).3,
        ap length e,
      ))
  | inr found ↦ found
]

added-frame :
    (h : Heap) (class page : ℕ)
    → (((add_slab h class page).caches class).slabs ≡ page ∷ (h.caches class).slabs)
      × ((add_slab h class page).slab page ≡ some (fresh_slab page class))
unfolding add_slab
added-frame h class page = (ground arith, ground arith)

-- What an allocation does: it fails and changes nothing, or hands out an object that is not in use.
abbrev pub IsAllocated : Heap → List ℕ → Heap × Option ℕ → Type 0
IsAllocated h live z =
    (z ≡ (h, none)) ⊎ ((o : ℕ) × (z.1 ≡ some o) × (occurs o live ≡ 0) × Holds z.0 (o ∷ live))

-- The first slab of the class has a free object.
from_first :
    (h : Heap) (class size : ℕ) (frame : Option ℕ) (live : List ℕ)
    → Holds h live
    → is_exhausted h (h.caches class).slabs ≡ false
    → IsAllocated h live (small_alloc h class size frame)
unfolding small_alloc is_exhausted free_of
from_first h class size frame live v room = elim (List-cases (h.caches class).slabs) [
  | inl e ↦ absurd (ground (arith, room, e))
  | inr (page, pages, e) ↦
      let (s, at, same_class) = v.members class page (ground (arith, ap (occurs page) e)) in
      elim (List-cases s.free_list) [
        | inl none_left ↦ absurd (ground (arith, room, e, at, none_left))
        | inr (o, rest, free) ↦
            let got = from_slabs-Holds h class size page o pages rest live s v e at free in
            let same : from_slabs h class size ≡ small_alloc h class size frame =
              ground (arith, room) in
            subst (IsAllocated h live) same (inr (o, got.0, got.1, got.2))
      ]
]

small_alloc-Holds :
    (h : Heap) (class size : ℕ) (frame : Option ℕ) (live : List ℕ)
    → class < 8
    → IsNew h frame
    → Holds h live
    → IsAllocated h live (small_alloc h class size frame)
unfolding small_alloc is_exhausted free_of
small_alloc-Holds h class size none live lt new v =
    elim (Bool-cases (is_exhausted h (h.caches class).slabs)) [
      | inl full ↦ inl (ground (arith, full))
      | inr room ↦ from_first h class size none live v room
    ]
small_alloc-Holds h class size (some page) live lt (aligned, gone) v =
    elim (Bool-cases (is_exhausted h (h.caches class).slabs)) [
      | inl full ↦
          let (o, rest, e) = fresh-objects page class lt aligned in
          let (cache, slab) = added-frame h class page in
          let got =
            from_slabs-Holds (add_slab h class page) class size page o (h.caches class).slabs rest
              live (fresh_slab page class) (add_slab-Holds h class page live lt aligned gone v)
              cache slab e in
          let same : from_slabs (add_slab h class page) class size
              ≡ small_alloc h class size (some page) =
            ground (arith, full) in
          subst (IsAllocated h live) same (inr (o, got.0, got.1, got.2))
      | inr room ↦ from_first h class size (some page) live v room
    ]

class_from-lt :
    (left i size class : ℕ)
    → class_from left i size ≡ some class
    → (class < i + left) × (size ≤ class_size class)
unfolding class_from
class_from-lt zero i size class e = absurd (ground (arith, e))
class_from-lt (suc left) i size class e = elim (Bool-cases (leb size (class_size i))) [
  | inl fits ↦
      let same : i ≡ class = ground (arith, e, fits) in
      (omega (arith, same), subst (λ c. size ≤ class_size c) same (ground (arith, fits)))
  | inr small ↦
      let later : class_from left (i + 1) size ≡ some class = ground (arith, e, small) in
      let (lt, fits) = class_from-lt left (i + 1) size class later in (omega (arith, lt), fits)
]

-- The size that is asked of the slabs.
abbrev pub real_size : ℕ → ℕ
real_size wanted = if wanted == 0 then 1 else wanted

kmalloc-small :
    (h : Heap) (wanted class : ℕ) (frame run : Option ℕ)
    → h.is_ready ≡ true
    → class_for_size (real_size wanted) ≡ some class
    → kmalloc h wanted frame run ≡ small_alloc h class (real_size wanted) frame
unfolding kmalloc
kmalloc-small h wanted class frame run ready e = ground (arith, ready, e)

pub kmalloc-IsAllocated :
    (h : Heap) (wanted class : ℕ) (frame run : Option ℕ) (live : List ℕ)
    → h.is_ready ≡ true
    → class_for_size (real_size wanted) ≡ some class
    → IsNew h frame
    → Holds h live
    → IsAllocated h live (kmalloc h wanted frame run)
unfolding class_for_size
kmalloc-IsAllocated h wanted class frame run live ready e new v =
    let (lt, fits) = class_from-lt 8 0 (real_size wanted) class e in
    subst (IsAllocated h live) (sym (kmalloc-small h wanted class frame run ready e))
      (small_alloc-Holds h class (real_size wanted) frame live (omega (arith, lt)) new v)
