-- ===== src/Pmm/Keep.antt =====
-- The reservations at the end of `pmm_init` of kernel/core/pmm.c.
use afriyie_os.Common.{
  ℕ, ◌+◌, ◌^◌, ◌≤◌, ◌<◌, ◌≡◌, refl, sym, subst, ◌∙◌, Bool, false, ◌||◌, List, [], ◌∷◌, All, arith,
}
use native.Mathlib.Decide.{ℕ_discrete}
use afriyie_os.Boot.Info.{Region}
use afriyie_os.Pmm.State.{Pmm, frame_is_used}
use afriyie_os.Pmm.Range.{reserve_range}
use afriyie_os.Pmm.Invariant.{IsOpen}
use afriyie_os.Pmm.Reserve.{touches, reserve_range-IsOpen}
use afriyie_os.Pmm.Boundaries.{IsLow}
use afriyie_os.Pmm.Init.{all_used, free_regions, count_free, reserve_all}
use afriyie_os.Pmm.Clear.{free_regions-Freed}

pub mapped-IsOpen :
    (n : ℕ) (rs : List Region)
    → All IsLow rs
    → n ≤ 2 ^ 31
    → IsOpen (count_free (free_regions (all_used n) rs))
unfolding count_free frame_is_used
mapped-IsOpen n rs a le =
    let x = free_regions-Freed (all_used n) rs a in
    record {
      mapped = x.kept.0;
      bounded = omega (arith, x.kept.1);
      counted = omega (arith, x.kept.2);
      unreferenced = λ g free. x.kept.4 g;
      hinted = omega (arith, x.kept.3);
    }

-- The frame has no address in any range that is not empty.
abbrev pub Avoids : List (ℕ × ℕ) → ℕ → Type 0
Avoids xs g = All (λ (x : ℕ × ℕ). 0 < x.1 → touches x.0 x.1 g ≡ false) xs

abbrev pub IsLowRange : ℕ × ℕ → Type 0
IsLowRange x = x.0 + x.1 ≤ 2 ^ 43

pub record Kept (p : Pmm) (xs : List (ℕ × ℕ)) (p' : Pmm) : Type 0 where
  pub steady : IsOpen p'
  pub size : p'.frame_count ≡ p.frame_count
  pub avoids :
      (g : ℕ)
      → g < p.frame_count
      → frame_is_used p' g ≡ false
      → (frame_is_used p g ≡ false) × Avoids xs g

reserve_none : (p : Pmm) (base size : ℕ) → size ≡ 0 → p ≡ reserve_range p base size
unfolding reserve_range
reserve_none p base size e = ground (arith, e)

unused_or : (a b : Bool) → (a || b) ≡ false → (a ≡ false) × (b ≡ false)
unused_or a b e = ground arith

pub reserve_all-Kept :
    (p : Pmm) (xs : List (ℕ × ℕ)) → IsOpen p → All IsLowRange xs → Kept p xs (reserve_all p xs)
unfolding reserve_all
reserve_all-Kept p [] v a = record { steady = v; size = refl; avoids = λ g lt free. (free, tt) }
reserve_all-Kept p (x ∷ xs) v (low, a) = elim (ℕ_discrete x.1 0) [
  | yes empty ↦
      let rest = reserve_all-Kept p xs v a in
      subst (λ q. Kept p (x ∷ xs) (reserve_all q xs)) (reserve_none p x.0 x.1 empty)
        (record {
          steady = rest.steady;
          size = rest.size;
          avoids = λ g lt free.
              let (before, out) = rest.avoids g lt free in
              (before, ((λ pos. absurd (omega arith)), out));
        })
  | no some_bytes ↦
      let (w, effect, refs, size, null) = reserve_range-IsOpen p x.0 x.1 v (omega arith) low in
      let rest = reserve_all-Kept (reserve_range p x.0 x.1) xs w a in
      record {
        steady = rest.steady;
        size = rest.size ∙ size;
        avoids = λ g lt free.
            let (before, out) = rest.avoids g (omega (arith, size)) free in
            let (apart, unused) =
              unused_or (touches x.0 x.1 g) (frame_is_used p g) (sym (effect g lt) ∙ before) in
            (unused, ((λ pos. apart), out));
      }
]
