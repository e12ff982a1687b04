-- ===== src/Pmm/Reserve.antt =====
-- What `pmm_reserve_range` of kernel/core/pmm.c does to the frames.
use afriyie_os.Common.{
  ℕ, zero, suc, ◌+◌, ◌-◌, ◌*◌, ◌/◌, ◌%◌, ◌^◌, ◌≤◌, ◌<◌, ◌≡◌, ◌≢◌, refl, sym, ap, subst, ◌∙◌, ◌⊎◌,
  inl, inr, Bool, true, false, not, ◌||◌, ◌&&◌, arith, ltb, ◌==◌, if◌then◌else◌, update, Bool-cases,
}
use native.Mathlib.Decide.{ℕ_discrete}
use afriyie_os.Common.Count.{count, count-gain, count-le}
use afriyie_os.Pmm.State.{Pmm, frame_is_used, frame_mark_used}
use afriyie_os.Pmm.Range.{
  clamp, first_touched, end_touched, reserve_one, reserve_from, reserve_range,
}
use afriyie_os.Pmm.Frames.{mark_used-used}
use afriyie_os.Pmm.Invariant.{is_free, IsValid, IsOpen, IsValid-IsOpen, IsOpen-IsValid}
use afriyie_os.Pmm.Alloc.{place}

-- Reserving a frame changes the frame alone.
record ReservedOne (p : Pmm) (f : ℕ) (p' : Pmm) : Type 0 where
  now : frame_is_used p' f ≡ true
  others : (g : ℕ) → g ≢ f → frame_is_used p' g ≡ frame_is_used p g
  refs : (g : ℕ) → p'.refcount g ≡ p.refcount g
  kept :
      (p'.mapped ≡ p.mapped)
      × (p'.frame_count ≡ p.frame_count)
      × (p'.usable_frames ≡ p.usable_frames)
      × (p'.free_frames ≡ p.free_frames)
      × (p'.search_hint ≡ p.search_hint)
  counted :
      (n : ℕ)
      → f < n
      → count (is_free p') n + (if frame_is_used p f then 0 else 1) ≡ count (is_free p) n

reserve_one-ReservedOne :
    (p : Pmm) (f : ℕ)
    → ((g : ℕ) → frame_is_used p g ≡ false → p.refcount g ≡ 0)
    → ReservedOne p f (reserve_one p f)
unfolding reserve_one frame_is_used frame_mark_used
reserve_one-ReservedOne p f zeros = elim (Bool-cases (frame_is_used p f)) [
  | inl used ↦
      let same : p ≡ reserve_one p f = rw (used, reserve_one) refl in
      subst (ReservedOne p f) same (record {
        now = used;
        others = λ g ne. refl;
        refs = λ g. refl;
        kept = (refl, refl, refl, refl, refl);
        counted = λ n lt. rw used (omega arith);
      })
  | inr free ↦
      let q : Pmm = record (frame_mark_used p f) { refcount = update p.refcount f 0 } in
      let same : q ≡ reserve_one p f = rw (free, reserve_one) refl in
      let now : frame_is_used q f ≡ true = ground (arith, mark_used-used p f f) in
      let others : (g : ℕ) → g ≢ f → frame_is_used q g ≡ frame_is_used p g =
        λ g ne. ground (arith, mark_used-used p f g) in
      subst (ReservedOne p f) same (record {
        now = now;
        others = others;
        refs = λ g. ground (arith, zeros f free);
        kept = (refl, refl, refl, refl, refl);
        counted = λ n lt. rw free (
            omega (
              arith,
              count-gain (is_free q) (is_free p) f n lt (ap not now) (ap not free)
                  (λ g ne. ap not (others g ne)),
            ));
      })
]

-- Reserving the frames from `f` on.
record Reserved (p : Pmm) (before left f : ℕ) (r : Pmm × ℕ) : Type 0 where
  inside : (g : ℕ) → f ≤ g → g < f + left → frame_is_used r.0 g ≡ true
  outside : (g : ℕ) → (g < f) ⊎ (f + left ≤ g) → frame_is_used r.0 g ≡ frame_is_used p g
  refs : (g : ℕ) → r.0.refcount g ≡ p.refcount g
  kept :
      (r.0.mapped ≡ p.mapped)
      × (r.0.frame_count ≡ p.frame_count)
      × (r.0.usable_frames ≡ p.usable_frames)
      × (r.0.free_frames ≡ p.free_frames)
      × (r.0.search_hint ≡ p.search_hint)
  counted :
      (n : ℕ)
      → (left ≢ 0 → f + left ≤ n)
      → count (is_free r.0) n + r.1 ≡ count (is_free p) n + before

reserve_from-Reserved :
    (p : Pmm) (before left f : ℕ)
    → ((g : ℕ) → frame_is_used p g ≡ false → p.refcount g ≡ 0)
    → Reserved p before left f (reserve_from p before left f)
unfolding reserve_from
reserve_from-Reserved p before zero f zeros = record {
  inside = λ g lo hi. absurd (omega arith);
  outside = λ g out. refl;
  refs = λ g. refl;
  kept = (refl, refl, refl, refl, refl);
  counted = λ n fits. refl;
}
reserve_from-Reserved p before (suc left) f zeros =
    let one = reserve_one-ReservedOne p f zeros in
    let q : Pmm = reserve_one p f in
    let zeros' : (g : ℕ) → frame_is_used q g ≡ false → q.refcount g ≡ 0 = λ g free.
      one.refs g
      ∙ zeros g (elim (ℕ_discrete g f) [
        | yes e ↦ absurd (clash (frame_is_used q f) one.now (sym (ap (frame_is_used q) e) ∙ free))
        | no ne ↦ sym (one.others g ne) ∙ free
      ]) in
    let rest =
      reserve_from-Reserved q (if frame_is_used p f then before else before + 1) left (f + 1)
        zeros' in
    record {
      inside = λ g lo hi. elim (ℕ_discrete g f) [
        | yes e ↦ rest.outside g (inl (omega arith)) ∙ ap (frame_is_used q) e ∙ one.now
        | no ne ↦ rest.inside g (omega arith) (omega arith)
      ];
      outside = λ g out.
          let beyond : (g < f + 1) ⊎ (f + 1 + left ≤ g) = elim out [
            | inl lo ↦ inl (omega arith)
            | inr hi ↦ inr (omega arith)
          ] in
          rest.outside g beyond ∙ one.others g (λ e. omega (arith, out));
      refs = λ g. rest.refs g ∙ one.refs g;
      kept = (
        rest.kept.0 ∙ one.kept.0,
        rest.kept.1 ∙ one.kept.1,
        rest.kept.2 ∙ one.kept.2,
        rest.kept.3 ∙ one.kept.3,
        rest.kept.4 ∙ one.kept.4,
      );
      counted = λ n fits.
          let whole : f + suc left ≤ n = fits (λ e. omega arith) in
          ground (arith, rest.counted n (λ ne. omega arith), one.counted n (omega arith));
    }
  where
    clash : (b : Bool) → b ≡ true → b ≡ false → ⊥
    clash b t n = cc

still_used :
    (p : Pmm) (before left f : ℕ) (r : Pmm × ℕ)
    → Reserved p before left f r
    → (g : ℕ) → frame_is_used p g ≡ true
    → frame_is_used r.0 g ≡ true
still_used p before left f r x g used = elim (place f left g) [
  | inl out ↦ x.outside g out ∙ used
  | inr (lo, hi) ↦ x.inside g lo hi
]

was_free :
    (p : Pmm) (before left f : ℕ) (r : Pmm × ℕ)
    → Reserved p before left f r
    → (g : ℕ) → frame_is_used r.0 g ≡ false
    → frame_is_used p g ≡ false
was_free p before left f r x g free = elim (Bool-cases (frame_is_used p g)) [
  | inl used ↦ ground (arith, still_used p before left f r x g used)
  | inr fine ↦ fine
]

lowered :
    (x : Pmm) (b : ℕ)
    → b ≤ x.free_frames
    → x.free_frames < 2 ^ 32
    → record x { free_frames = x.free_frames - b }
      ≡ (if ltb 0 b then record x { free_frames = (x.free_frames + 2 ^ 32 - b) % 2 ^ 32 } else x)
lowered x zero le small = ap (λ n. record x { free_frames = n }) (omega arith)
lowered x (suc b) le small =
    let set : ℕ → Pmm = λ n. record x { free_frames = n } in
    let pos : ltb 0 (suc b) ≡ true = ground arith in
    let same : x.free_frames - suc b ≡ (x.free_frames + 2 ^ 32 - suc b) % 2 ^ 32 =
      omega (arith, le, small) in
    rw pos (ap set same)

-- A frame has an address in the range.
abbrev pub touches : ℕ → ℕ → ℕ → Bool
touches base size g = ltb (g * 4096) (base + size) && ltb base ((g + 1) * 4096)

abbrev Reserves : Pmm → ℕ → ℕ → Pmm → Type 0
Reserves p base size p' =
    IsOpen p'
    × ((g : ℕ)
        → g < p.frame_count
        → frame_is_used p' g ≡ (touches base size g || frame_is_used p g))
    × ((g : ℕ) → p'.refcount g ≡ p.refcount g)
    × (p'.frame_count ≡ p.frame_count)
    × (frame_is_used p 0 ≡ true → frame_is_used p' 0 ≡ true)

pub reserve_range-IsOpen :
    (p : Pmm) (base size : ℕ)
    → IsOpen p
    → 0 < size
    → base + size ≤ 2 ^ 43
    → Reserves p base size (reserve_range p base size)
unfolding reserve_range frame_is_used
reserve_range-IsOpen p base size v pos small =
    let first : ℕ = first_touched base in
    let last : ℕ = clamp p (end_touched base size) in
    let r : Pmm × ℕ = reserve_from p 0 (last - first) first in
    let x : Reserved p 0 (last - first) first r =
      reserve_from-Reserved p 0 (last - first) first v.unreferenced in
    let q : Pmm = record r.0 { free_frames = r.0.free_frames - r.1 } in
    let nonzero : (size == 0) ≡ false = ground arith in
    let sized : count (is_free r.0) r.0.frame_count ≡ count (is_free r.0) p.frame_count =
      ap (count (is_free r.0)) x.kept.1 in
    let total = x.counted p.frame_count (λ ne. ground arith) in
    let free : r.0.free_frames ≡ count (is_free p) p.frame_count = x.kept.3 ∙ v.counted in
    let enough : r.1 ≤ r.0.free_frames = omega (arith, free, total) in
    let word : r.0.free_frames < 2 ^ 32 =
      omega (arith, free, v.bounded, count-le (is_free p) p.frame_count) in
    let same : q ≡ reserve_range p base size =
      lowered r.0 r.1 enough word ∙ gate p r v.mapped size nonzero in
    subst (Reserves p base size) same (
      record {
        mapped = x.kept.0 ∙ v.mapped;
        bounded = omega (arith, x.kept.1, v.bounded);
        counted = omega (arith, x.kept.3, v.counted, total, sized);
        unreferenced =
            λ g free. x.refs g ∙ v.unreferenced g (was_free p 0 (last - first) first r x g free);
        hinted = omega (arith, x.kept.1, x.kept.4, v.hinted);
      },
      (λ g lt. effect g lt (last - first) refl x),
      x.refs,
      x.kept.1,
      still_used p 0 (last - first) first r x 0,
    )
  where
    ends :
        (first_touched base ≡ base / 4096) × (end_touched base size ≡ (base + size + 4095) / 4096)
    ends = (omega arith, omega arith)

    effect :
        (g : ℕ)
        → g < p.frame_count
        → (left : ℕ) → left ≡ clamp p (end_touched base size) - first_touched base
        → {r : Pmm × ℕ} → Reserved p 0 left (first_touched base) r
        → frame_is_used r.0 g ≡ (touches base size g || frame_is_used p g)
    effect g lt left len x = elim (place (first_touched base) left g) [
      | inl out ↦ x.outside g out ∙ ground (arith, ends, len, out)
      | inr (lo, hi) ↦ x.inside g lo hi ∙ ground (arith, ends, len)
    ]

    gate :
        (p : Pmm) (r : Pmm × ℕ)
        → p.mapped ≡ true
        → (size : ℕ) → (size == 0) ≡ false
        → (if ltb 0 r.1
            then record r.0 { free_frames = (r.0.free_frames + 2 ^ 32 - r.1) % 2 ^ 32 }
            else r.0)
          ≡ (if not p.mapped || (size == 0)
              then p
              else if ltb 0 r.1
              then record r.0 { free_frames = (r.0.free_frames + 2 ^ 32 - r.1) % 2 ^ 32 }
              else r.0)
    gate p r m size z = ground (arith, m, z)

-- `pmm_reserve_range`, for a range that ends below 8 TiB, makes exactly the frames with an address
-- in the range used, however it is aligned, and leaves every other frame below the frame count and
-- all references alone; the free count falls with the frames that were free, and the state stays
-- valid.
pub reserve_range_lem :
    (p : Pmm) (base size : ℕ)
    → IsValid p
    → 0 < size
    → base + size ≤ 2 ^ 43
    → let p' = reserve_range p base size in
      IsValid p'
      × ((g : ℕ)
          → g < p.frame_count
          → frame_is_used p' g ≡ (touches base size g || frame_is_used p g))
      × ((g : ℕ) → p'.refcount g ≡ p.refcount g)
      × (p'.frame_count ≡ p.frame_count)
reserve_range_lem p base size v pos small =
    let (w, effect, refs, size', null) =
      reserve_range-IsOpen p base size (IsValid-IsOpen p v) pos small in
    (IsOpen-IsValid (reserve_range p base size) w (null v.null_used), effect, refs, size')
