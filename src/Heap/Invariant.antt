-- ===== src/Heap/Invariant.antt =====
-- What holds of the slabs of kernel/core/heap.c and the objects that are handed out.
use afriyie_os.Common.{
  ℕ, ◌+◌, ◌%◌, ◌^◌, ◌<◌, ◌≡◌, ◌≢◌, refl, sym, ap, subst, ◌∙◌, Option, none, some, List, [], ◌∷◌,
  length, ◌==◌, if◌then◌else◌, update, arith, inl, inr, ◌⊎◌,
}
use native.Mathlib.Decide.{ℕ_discrete}
use afriyie_os.Common.Occurs.{occurs}
use afriyie_os.Heap.State.{Heap, Slab, class_size, slab_capacity, page_of}
use afriyie_os.Heap.Ops.{put_slab, put_cache, take_object}
use afriyie_os.Heap.Objects.{objects, objects_lem}

-- The objects in use of a page.
abbrev pub used_of : ℕ → List ℕ → ℕ
used_of page [] = 0
used_of page (o ∷ os) = let rest = used_of page os in if page_of o == page then rest + 1 else rest

-- A slab and the objects that are handed out from it: each object is on the free list or in use, once.
pub record SlabHolds (s : Slab) (page : ℕ) (live : List ℕ) : Type 0 where
  pub aligned : page % 4096 ≡ 0
  pub class : s.class_index < 8
  pub capacity : s.capacity ≡ slab_capacity (class_size s.class_index)
  pub used : s.in_use ≡ used_of page live
  pub count : s.in_use + length s.free_list ≡ s.capacity
  pub each :
      (o : ℕ)
      → occurs o s.free_list + (if page_of o == page then occurs o live else 0)
        ≡ occurs o (objects page s.class_index)

pub record Holds (h : Heap) (live : List ℕ) : Type 0 where
  pub slabs : (page : ℕ) (s : Slab) → h.slab page ≡ some s → SlabHolds s page live
  pub owned : (o : ℕ) → 0 < occurs o live → h.slab (page_of o) ≢ none
  pub members :
      (i page : ℕ)
      → 0 < occurs page (h.caches i).slabs
      → (s : Slab) × (h.slab page ≡ some s) × (s.class_index ≡ i)

occurs-head : (o : ℕ) (s : Slab) (rest : List ℕ) → s.free_list ≡ o ∷ rest → 0 < occurs o s.free_list
occurs-head o s rest e = ground (arith, ap (occurs o) e)

-- An object of the free list lies in the page and is not in use.
pub free-IsUnused :
    (s : Slab) (page o : ℕ) (live : List ℕ)
    → SlabHolds s page live
    → 0 < occurs o s.free_list
    → (page_of o ≡ page) × (occurs o live ≡ 0) × (occurs o s.free_list ≡ 1)
free-IsUnused s page o live h pos =
    let (one, lies, counted, some_objects, few) =
      objects_lem page s.class_index o h.class h.aligned in
    let here : page_of o ≡ page = lies (omega (arith, h.each o, pos)) in
    (here, ground (arith, h.each o, one, here), ground (arith, h.each o, one, here))

-- The slab after an object was taken off its free list.
taken-SlabHolds :
    (s : Slab) (page o : ℕ) (rest live : List ℕ)
    → SlabHolds s page live
    → s.free_list ≡ o ∷ rest
    → SlabHolds (record s { free_list = rest; in_use = (s.in_use + 1) % 2 ^ 32 }) page (o ∷ live)
taken-SlabHolds s page o rest live h e =
    let (here, unused, once) = free-IsUnused s page o live h (occurs-head o s rest e) in
    let (one, lies, counted, some_objects, few) =
      objects_lem page s.class_index o h.class h.aligned in
    record {
      aligned = h.aligned;
      class = h.class;
      capacity = h.capacity;
      used = ground (arith, h.used, here, h.count, h.capacity, few);
      count = ground (arith, h.count, ap length e, h.capacity, few);
      each = λ x. ground (arith, h.each x, ap (occurs x) e, here);
    }

-- The other slabs do not notice.
other-SlabHolds :
    (s : Slab) (page o : ℕ) (live : List ℕ)
    → page_of o ≢ page
    → SlabHolds s page live
    → SlabHolds s page (o ∷ live)
other-SlabHolds s page o live ne h = record {
  aligned = h.aligned;
  class = h.class;
  capacity = h.capacity;
  used = ground (arith, h.used, ne);
  count = h.count;
  each = λ x. ground (arith, h.each x, ne);
}

-- A slab is written whose class stays; the caches keep their slabs.
pub write-Holds :
    (h h' : Heap) (page : ℕ) (s s1 : Slab) (live live' : List ℕ)
    → Holds h live
    → h.slab page ≡ some s
    → ((p : ℕ) → h'.slab p ≡ update h.slab page (some s1) p)
    → ((i : ℕ) → (h'.caches i).slabs ≡ (h.caches i).slabs)
    → s1.class_index ≡ s.class_index
    → SlabHolds s1 page live'
    → ((p : ℕ) (t : Slab) → p ≢ page → SlabHolds t p live → SlabHolds t p live')
    → ((o : ℕ) → 0 < occurs o live' → (page_of o ≡ page) ⊎ (0 < occurs o live))
    → Holds h' live'
write-Holds h h' page s s1 live live' v at slab caches same mine others from = record {
  slabs = λ p t e. elim (ℕ_discrete p page) [
    | yes here ↦
        let it : s1 ≡ t = ground (arith, slab p, e, here) in
        subst (λ q. SlabHolds t q live') (sym here) (subst (λ u. SlabHolds u page live') it mine)
    | no other ↦ others p t other (v.slabs p t (ground (arith, slab p, e, other)))
  ];
  owned = λ o pos gone. elim (ℕ_discrete (page_of o) page) [
    | yes here ↦ ground (arith, slab (page_of o), gone, here)
    | no other ↦ elim (from o pos) [
      | inl here ↦ other here
      | inr before ↦ v.owned o before (ground (arith, slab (page_of o), gone, other))
    ]
  ];
  members = λ i p pos.
      let (t, e, c) = v.members i p (ground (arith, ap (occurs p) (caches i), pos)) in
      elim (ℕ_discrete p page) [
        | yes here ↦
            let it : s ≡ t = ground (arith, at, e, ap h.slab here) in
            (s1, slab p ∙ ground (arith, here), same ∙ ap (λ (u : Slab). u.class_index) it ∙ c)
        | no other ↦ (t, slab p ∙ ground (arith, other) ∙ e, c)
      ];
}

abbrev taken : Heap → (class page size : ℕ) → Slab → List ℕ → Heap
taken h class page size s rest =
    record (put_cache
      (put_slab h page (record s { free_list = rest; in_use = (s.in_use + 1) % 2 ^ 32 })) class
      (record (h.caches class) { live_objects = ((h.caches class).live_objects + 1) % 2 ^ 32 })) {
        allocated_bytes = (h.allocated_bytes + size) % 2 ^ 64;
        live_allocations = (h.live_allocations + 1) % 2 ^ 32;
        total_allocations = (h.total_allocations + 1) % 2 ^ 32;
      }

pub take_object-taken :
    (h : Heap) (class page size : ℕ) (s : Slab) (o : ℕ) (rest : List ℕ)
    → h.slab page ≡ some s
    → s.free_list ≡ o ∷ rest
    → take_object h class page size ≡ (taken h class page size s rest, some o)
unfolding take_object
take_object-taken h class page size s o rest at e = ground (arith, at, e)

pub take_object-Holds :
    (h : Heap) (class page size : ℕ) (s : Slab) (o : ℕ) (rest live : List ℕ)
    → Holds h live
    → h.slab page ≡ some s
    → s.free_list ≡ o ∷ rest
    → ((take_object h class page size).1 ≡ some o)
      × (occurs o live ≡ 0)
      × Holds (take_object h class page size).0 (o ∷ live)
take_object-Holds h class page size s o rest live v at e =
    let k : SlabHolds s page live = v.slabs page s at in
    let (here, unused, once) = free-IsUnused s page o live k (occurs-head o s rest e) in
    let out = take_object-taken h class page size s o rest at e in
    let s1 : Slab = record s { free_list = rest; in_use = (s.in_use + 1) % 2 ^ 32 } in
    (
      ap (λ (z : Heap × Option ℕ). z.1) out,
      unused,
      subst (λ (z : Heap × Option ℕ). Holds z.0 (o ∷ live)) (sym out)
          (write-Holds h (taken h class page size s rest) page s s1 live (o ∷ live) v at (λ p. refl)
            (λ i. ground arith) refl (taken-SlabHolds s page o rest live k e)
            (λ p t ne old. other-SlabHolds t p o live (λ x. ne (sym x ∙ here)) old)
            (λ x pos. ground (arith, pos, here))),
    )
