-- ===== src/Pmm/Clear.antt =====
-- What `mark_range_free` of kernel/core/pmm.c frees.
use afriyie_os.Common.{
  ℕ, zero, suc, ◌+◌, ◌-◌, ◌*◌, ◌/◌, ◌^◌, ◌≤◌, ◌<◌, ◌≡◌, refl, subst, ◌∙◌, ◌⊎◌, inl, inr, true,
  false, List, [], ◌∷◌, All, arith, ◌==◌, if◌then◌else◌, Bool-cases,
}
use native.Mathlib.Decide.{ℕ_discrete}
use afriyie_os.Boot.Info.{Region, is_allocatable}
use afriyie_os.Pmm.State.{Pmm, frame_is_used, frame_mark_free}
use afriyie_os.Pmm.Range.{clamp, first_whole, end_whole, mark_free_from, mark_range_free}
use afriyie_os.Pmm.Frames.{mark_free-used}
use afriyie_os.Pmm.Boundaries.{IsLow}
use afriyie_os.Pmm.Init.{free_regions}

-- The loop only clears bits, and those of the frames it comes by.
record Cleared (p : Pmm) (left f : ℕ) (p' : Pmm) : Type 0 where
  back :
      (g : ℕ)
      → frame_is_used p' g ≡ false
      → (frame_is_used p g ≡ false) ⊎ ((f ≤ g) × (g < f + left))
  kept :
      (p'.mapped ≡ p.mapped)
      × (p'.frame_count ≡ p.frame_count)
      × (p'.free_frames ≡ p.free_frames)
      × (p'.search_hint ≡ p.search_hint)
      × ((g : ℕ) → p'.refcount g ≡ p.refcount g)

clear_one : Pmm → ℕ → Pmm
clear_one p f = if frame_is_used p f then frame_mark_free p f else p

clear_one-Cleared : (p : Pmm) (f : ℕ) → Cleared p 1 f (clear_one p f)
unfolding clear_one frame_mark_free
clear_one-Cleared p f = elim (Bool-cases (frame_is_used p f)) [
  | inl used ↦
      let same : frame_mark_free p f ≡ clear_one p f = rw (used, clear_one) refl in
      subst (Cleared p 1 f) same (record {
        back = λ g free. elim (ℕ_discrete g f) [
          | yes e ↦ inr (omega arith, omega arith)
          | no ne ↦ inl (ground (arith, mark_free-used p f g, free))
        ];
        kept = (refl, refl, refl, refl, (λ g. refl));
      })
  | inr unused ↦
      let same : p ≡ clear_one p f = rw (unused, clear_one) refl in
      subst (Cleared p 1 f) same
        (record { back = λ g free. inl free; kept = (refl, refl, refl, refl, (λ g. refl)) })
]

mark_free_from-Cleared : (p : Pmm) (left f : ℕ) → Cleared p left f (mark_free_from p left f)
unfolding mark_free_from clear_one
mark_free_from-Cleared p zero f = record {
  back = λ g free. inl free;
  kept = (refl, refl, refl, refl, (λ g. refl));
}
mark_free_from-Cleared p (suc left) f =
    let one = clear_one-Cleared p f in
    let rest = mark_free_from-Cleared (clear_one p f) left (f + 1) in
    record {
      back = λ g free. elim (rest.back g free) [
        | inr (lo, hi) ↦ inr (omega arith, omega arith)
        | inl before ↦ elim (one.back g before) [
          | inl already ↦ inl already
          | inr (lo, hi) ↦ inr (omega arith, omega arith)
        ]
      ];
      kept = (
        rest.kept.0 ∙ one.kept.0,
        rest.kept.1 ∙ one.kept.1,
        rest.kept.2 ∙ one.kept.2,
        rest.kept.3 ∙ one.kept.3,
        (λ g. rest.kept.4 g ∙ one.kept.4 g),
      );
    }

-- The frame lies in the region, whole.
abbrev pub Holds : ℕ → ℕ → ℕ → Type 0
Holds base size g = (base ≤ g * 4096) × ((g + 1) * 4096 ≤ base + size)

-- Only frames for which `P` holds become free.
pub record Freed (P : ℕ → Type 0) (p p' : Pmm) : Type 0 where
  pub back : (g : ℕ) → frame_is_used p' g ≡ false → (frame_is_used p g ≡ false) ⊎ P g
  pub kept :
      (p'.mapped ≡ p.mapped)
      × (p'.frame_count ≡ p.frame_count)
      × (p'.free_frames ≡ p.free_frames)
      × (p'.search_hint ≡ p.search_hint)
      × ((g : ℕ) → p'.refcount g ≡ p.refcount g)

mark_range_free-Freed :
    (p : Pmm) (base size : ℕ)
    → base + size ≤ 2 ^ 43
    → Freed (Holds base size) p (mark_range_free p base size)
unfolding mark_range_free
mark_range_free-Freed p base size small = elim (Bool-cases (size == 0)) [
  | inl empty ↦
      let same : p ≡ mark_range_free p base size = rw (empty, mark_range_free) refl in
      subst (Freed (Holds base size) p) same
        (record { back = λ g free. inl free; kept = (refl, refl, refl, refl, (λ g. refl)) })
  | inr some_bytes ↦
      let first : ℕ = first_whole base in
      let left : ℕ = clamp p (end_whole base size) - first in
      let ends : (first ≡ (base + 4095) / 4096) × (end_whole base size ≡ (base + size) / 4096) =
        (omega arith, omega arith) in
      let c = mark_free_from-Cleared p left first in
      let same : mark_free_from p left first ≡ mark_range_free p base size =
        rw (some_bytes, mark_range_free) refl in
      subst (Freed (Holds base size) p) same (record {
        back = λ g free. elim (c.back g free) [
          | inl before ↦ inl before
          | inr (lo, hi) ↦
              let top : g < end_whole base size = ground arith in
              inr (omega (arith, ends), omega (arith, ends))
        ];
        kept = c.kept;
      })
]

-- The memory map allows the frame: an allocatable region holds it.
abbrev pub InMap : List Region → ℕ → Type 0
InMap [] g = ⊥
InMap (r ∷ rs) g = ((is_allocatable r.type ≡ true) × Holds r.base r.length g) ⊎ InMap rs g

pub free_regions-Freed :
    (p : Pmm) (rs : List Region) → All IsLow rs → Freed (InMap rs) p (free_regions p rs)
unfolding free_regions
free_regions-Freed p [] a = record {
  back = λ g free. inl free;
  kept = (refl, refl, refl, refl, (λ g. refl));
}
free_regions-Freed p (r ∷ rs) (small, a) = elim (Bool-cases (is_allocatable r.type)) [
  | inr other ↦
      let rest = free_regions-Freed p rs a in
      let same : free_regions p rs ≡ free_regions p (r ∷ rs) = rw (other, free_regions) refl in
      subst (Freed (InMap (r ∷ rs)) p) same (record {
        back = λ g free. elim (rest.back g free) [
          | inl before ↦ inl before
          | inr later ↦ inr (inr later)
        ];
        kept = rest.kept;
      })
  | inl allowed ↦
      let q : Pmm = mark_range_free p r.base r.length in
      let one = mark_range_free-Freed p r.base r.length small in
      let rest = free_regions-Freed q rs a in
      let same : free_regions q rs ≡ free_regions p (r ∷ rs) = rw (allowed, free_regions) refl in
      subst (Freed (InMap (r ∷ rs)) p) same (record {
        back = λ g free. elim (rest.back g free) [
          | inr later ↦ inr (inr later)
          | inl before ↦ elim (one.back g before) [
            | inl already ↦ inl already
            | inr here ↦ inr (inl (allowed, here))
          ]
        ];
        kept = (
          rest.kept.0 ∙ one.kept.0,
          rest.kept.1 ∙ one.kept.1,
          rest.kept.2 ∙ one.kept.2,
          rest.kept.3 ∙ one.kept.3,
          (λ g. rest.kept.4 g ∙ one.kept.4 g),
        );
      })
]
