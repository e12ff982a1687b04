-- ===== src/Heap/Release.antt =====
-- Release of small objects by kernel/core/heap.c.
use afriyie_os.Common.{
  ℕ, ◌+◌, ◌-◌, ◌^◌, ◌<◌, ◌≡◌, ◌≢◌, refl, sym, ap, subst, true, some, List, [], ◌∷◌, ◌==◌,
  if◌then◌else◌, arith, Option-cases, inl, inr,
}
use native.Mathlib.Decide.{ℕ_discrete}
use afriyie_os.Common.Occurs.{occurs}
use afriyie_os.Ipc.Ops.{remove}
use afriyie_os.Heap.State.{Heap, Slab, page_of}
use afriyie_os.Heap.Ops.{free_small, kfree}
use afriyie_os.Heap.Invariant.{used_of, SlabHolds, Holds, write-Holds}

-- Taking an object that is in use out of the list.
remove-occurs :
    (x p : ℕ) (live : List ℕ)
    → 0 < occurs p live
    → occurs x live ≡ occurs x (remove p live) + (if p == x then 1 else 0)
unfolding remove
remove-occurs x p [] pos = absurd (omega arith)
remove-occurs x p (o ∷ os) pos = elim (ℕ_discrete o p) [
  | yes e ↦ ground (arith, e)
  | no ne ↦ ground (arith, ne, remove-occurs x p os (ground (arith, pos, ne)))
]

remove-used :
    (page p : ℕ) (live : List ℕ)
    → 0 < occurs p live
    → used_of page live ≡ used_of page (remove p live) + (if page_of p == page then 1 else 0)
unfolding remove
remove-used page p [] pos = absurd (omega arith)
remove-used page p (o ∷ os) pos = elim (ℕ_discrete o p) [
  | yes e ↦ ground (arith, e, ap page_of e)
  | no ne ↦ ground (arith, ne, remove-used page p os (ground (arith, pos, ne)))
]

freed-SlabHolds :
    (s : Slab) (page p : ℕ) (live : List ℕ)
    → page_of p ≡ page
    → 0 < occurs p live
    → SlabHolds s page live
    → SlabHolds
        (record s {
          free_list = p ∷ s.free_list;
          in_use = if s.in_use == 0 then 2 ^ 32 - 1 else s.in_use - 1;
        })
        page
        (remove p live)
freed-SlabHolds s page p live here pos h = record {
  aligned = h.aligned;
  class = h.class;
  capacity = h.capacity;
  used = ground (arith, h.used, remove-used page p live pos, here);
  count = ground (arith, h.count, h.used, remove-used page p live pos, here);
  each = λ x. ground (arith, h.each x, remove-occurs x p live pos, here);
}

kept-SlabHolds :
    (s : Slab) (page p : ℕ) (live : List ℕ)
    → page_of p ≢ page
    → 0 < occurs p live
    → SlabHolds s page live
    → SlabHolds s page (remove p live)
kept-SlabHolds s page p live away pos h = record {
  aligned = h.aligned;
  class = h.class;
  capacity = h.capacity;
  used = ground (arith, h.used, remove-used page p live pos, away);
  count = h.count;
  each = λ x. ground (arith, h.each x, remove-occurs x p live pos, away);
}

free_small-Holds :
    (h : Heap) (p : ℕ) (s : Slab) (live : List ℕ)
    → h.slab (page_of p) ≡ some s
    → 0 < occurs p live
    → Holds h live
    → Holds (free_small h p s) (remove p live)
unfolding free_small
free_small-Holds h p s live at pos v =
    write-Holds h (free_small h p s) (page_of p) s
      (record s {
        free_list = p ∷ s.free_list;
        in_use = if s.in_use == 0 then 2 ^ 32 - 1 else s.in_use - 1;
      })
      live (remove p live) v at (λ q. refl) (λ i. ground arith) refl
      (freed-SlabHolds s (page_of p) p live refl pos (v.slabs (page_of p) s at))
      (λ q t ne old. kept-SlabHolds t q p live (λ e. ne (sym e)) pos old)
      (λ x left. inr (ground (arith, remove-occurs x p live pos, left)))

pub kfree-Holds :
    (h : Heap) (p : ℕ) (live : List ℕ)
    → 0 < occurs p live
    → Holds h live
    → Holds (kfree h (some p) true) (remove p live)
unfolding kfree
kfree-Holds h p live pos v = elim (Option-cases (h.slab (page_of p))) [
  | inl gone ↦ absurd (v.owned p pos gone)
  | inr (s, at) ↦
      let same : free_small h p s ≡ kfree h (some p) true = ground (arith, at) in
      subst (λ k. Holds k (remove p live)) same (free_small-Holds h p s live at pos v)
]
