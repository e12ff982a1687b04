-- ===== src/Heap/Histories.antt =====
-- Histories of allocations and releases of small objects by kernel/core/heap.c.
use afriyie_os.Common.{
  ℕ, zero, suc, ◌+◌, ◌<◌, ◌≡◌, refl, sym, ap, subst, true, false, Option, none, some, List, [], ◌∷◌,
  arith, Bool-cases, inl, inr, ok,
}
use afriyie_os.Common.Occurs.{occurs}
use afriyie_os.Ipc.Ops.{remove}
use afriyie_os.Heap.State.{Heap, Slab, class_for_size}
use afriyie_os.Heap.Ops.{heap_init, kmalloc, kfree, check_slabs, check_from, heap_check}
use afriyie_os.Heap.Objects.{objects_lem}
use afriyie_os.Heap.Invariant.{Holds}
use afriyie_os.Heap.Allocate.{IsNew, IsAllocated, real_size, kmalloc-IsAllocated}
use afriyie_os.Heap.Release.{kfree-Holds}

-- An allocation of a size up to 2048, or the release of an object in use whose guard bands are intact, with the
-- objects in use before and after.
pub data Use : Heap → List ℕ → Heap → List ℕ → Type 0 where
  gets :
      (h : Heap) (live : List ℕ) (wanted class : ℕ) (frame run : Option ℕ) (o : ℕ)
      → class_for_size (real_size wanted) ≡ some class
      → IsNew h frame
      → (kmalloc h wanted frame run).1 ≡ some o
      → Use h live (kmalloc h wanted frame run).0 (o ∷ live)
  fails :
      (h : Heap) (live : List ℕ) (wanted class : ℕ) (frame run : Option ℕ)
      → class_for_size (real_size wanted) ≡ some class
      → IsNew h frame
      → (kmalloc h wanted frame run).1 ≡ none
      → Use h live (kmalloc h wanted frame run).0 live
  frees :
      (h : Heap) (live : List ℕ) (p : ℕ)
      → 0 < occurs p live
      → Use h live (kfree h (some p) true) (remove p live)

pub data Uses : Heap → List ℕ → Heap → List ℕ → Type 0 where
  rests : (h : Heap) (live : List ℕ) → Uses h live h live
  goes :
      (h0 h h' : Heap) (live0 live live' : List ℕ)
      → Uses h0 live0 h live
      → Use h live h' live'
      → Uses h0 live0 h' live'

kmalloc-not_ready :
    (h : Heap) (wanted : ℕ) (frame run : Option ℕ)
    → h.is_ready ≡ false
    → kmalloc h wanted frame run ≡ (h, none)
unfolding kmalloc
kmalloc-not_ready h wanted frame run e = ground (arith, e)

kmalloc-cases :
    (h : Heap) (live : List ℕ) (wanted class : ℕ) (frame run : Option ℕ)
    → class_for_size (real_size wanted) ≡ some class
    → IsNew h frame
    → Holds h live
    → IsAllocated h live (kmalloc h wanted frame run)
kmalloc-cases h live wanted class frame run e new v = elim (Bool-cases h.is_ready) [
  | inl ready ↦ kmalloc-IsAllocated h wanted class frame run live ready e new v
  | inr early ↦ inl (kmalloc-not_ready h wanted frame run early)
]

kmalloc-got :
    (h : Heap) (live : List ℕ) (wanted class : ℕ) (frame run : Option ℕ) (o : ℕ)
    → class_for_size (real_size wanted) ≡ some class
    → IsNew h frame
    → (kmalloc h wanted frame run).1 ≡ some o
    → Holds h live
    → (occurs o live ≡ 0) × Holds (kmalloc h wanted frame run).0 (o ∷ live)
kmalloc-got h live wanted class frame run o e new got v =
    elim (kmalloc-cases h live wanted class frame run e new v) [
      | inl failed ↦ absurd (ground (arith, got, ap (λ (z : Heap × Option ℕ). z.1) failed))
      | inr (x, out, unused, v') ↦
          let same : x ≡ o = ground (arith, out, got) in
          (
            subst (λ y. occurs y live ≡ 0) same unused,
            subst (λ y. Holds (kmalloc h wanted frame run).0 (y ∷ live)) same v',
          )
    ]

Use-Holds :
    (h h' : Heap) (live live' : List ℕ) → Use h live h' live' → Holds h live → Holds h' live'
Use-Holds _ _ _ _ (gets h live wanted class frame run o e new got) v =
    (kmalloc-got h live wanted class frame run o e new got v).1
Use-Holds _ _ _ _ (fails h live wanted class frame run e new got) v =
    elim (kmalloc-cases h live wanted class frame run e new v) [
      | inl failed ↦ subst (λ (z : Heap × Option ℕ). Holds z.0 live) (sym failed) v
      | inr (x, out, unused, v') ↦ absurd (ground (arith, out, got))
    ]
Use-Holds _ _ _ _ (frees h live p pos) v = kfree-Holds h p live pos v

Uses-Holds :
    (h h' : Heap) (live live' : List ℕ) → Uses h live h' live' → Holds h live → Holds h' live'
Uses-Holds _ _ _ _ (rests h live) v = v
Uses-Holds _ _ _ _ (goes h0 h h' live0 live live' us u) v =
    Use-Holds h h' live live' u (Uses-Holds h0 h live0 live us v)

init-Holds : (h : Heap) → ((page : ℕ) → h.slab page ≡ none) → Holds (heap_init h) []
unfolding heap_init
init-Holds h none_there = record {
  slabs = λ page s e. absurd (ground (arith, none_there page, e));
  owned = λ o pos. absurd (omega arith);
  members = λ i page pos. absurd (omega arith);
}

check_slabs-ok :
    (h : Heap) (live : List ℕ) (i : ℕ) (pages : List ℕ)
    → Holds h live
    → ((page : ℕ)
        → 0 < occurs page pages
        → (s : Slab) × (h.slab page ≡ some s) × (s.class_index ≡ i))
    → check_slabs h i pages ≡ ok
unfolding check_slabs
check_slabs-ok h live i [] v members = refl
check_slabs-ok h live i (page ∷ pages) v members =
    let rest = check_slabs-ok h live i pages v (λ p pos. members p (ground (arith, pos))) in
    let (s, at, same) = members page (ground arith) in
    let k = v.slabs page s at in
    let (one, lies, counted, some_objects, few) =
      objects_lem page s.class_index 0 k.class k.aligned in
    ground (arith, rest, at, same, k.count, k.capacity, few)

check_from-ok : (h : Heap) (live : List ℕ) (left i : ℕ) → Holds h live → check_from h left i ≡ ok
unfolding check_from
check_from-ok h live zero i v = refl
check_from-ok h live (suc left) i v = ground (
  arith,
  check_from-ok h live left (i + 1) v,
  check_slabs-ok h live i (h.caches i).slabs v (λ page pos. v.members i page pos),
)

-- After any history of small allocations, with frames that begin no slab, and of releases of objects in use, a
-- further allocation never hands out an object that is in use, and `heap_check` finds the slabs sound.
pub allocated_once :
    (h0 h : Heap) (live : List ℕ) (wanted class : ℕ) (frame run : Option ℕ) (o : ℕ)
    → ((page : ℕ) → h0.slab page ≡ none)
    → Uses (heap_init h0) [] h live
    → class_for_size (real_size wanted) ≡ some class
    → IsNew h frame
    → (kmalloc h wanted frame run).1 ≡ some o
    → (occurs o live ≡ 0) × (heap_check h ≡ ok)
unfolding heap_check
allocated_once h0 h live wanted class frame run o none_there us e new got =
    let v = Uses-Holds (heap_init h0) h [] live us (init-Holds h0 none_there) in
    ((kmalloc-got h live wanted class frame run o e new got v).0, check_from-ok h live 8 0 v)
