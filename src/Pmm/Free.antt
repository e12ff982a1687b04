-- ===== src/Pmm/Free.antt =====
-- `pmm_free_frame` and `pmm_free_frames` of kernel/core/pmm.c.
use afriyie_os.Common.{
  ℕ, zero, suc, ◌+◌, ◌-◌, ◌*◌, ◌%◌, ◌^◌, ◌≤◌, ◌<◌, ◌≡◌, ◌≢◌, refl, sym, ap, subst, ◌∙◌, ◌⊎◌, inl,
  inr, true, false, not, arith, ltb, if◌then◌else◌, update,
}
use native.Mathlib.Decide.{ℕ_discrete}
use afriyie_os.Common.Count.{count, count-gain, count-le}
use afriyie_os.Pmm.State.{Pmm, frame_is_used, frame_mark_free, frame_invalid, addr_to_frame}
use afriyie_os.Pmm.Ops.{
  Freeing, freed, frame_valid, free_frame, free_from, free_frames_at, alloc_frames,
}
use afriyie_os.Pmm.Frames.{mark_free-used}
use afriyie_os.Pmm.Invariant.{is_free, IsValid}
use afriyie_os.Pmm.Alloc.{Given, Allocates, place, alloc_frames_lem}

pub addr_to_frame-frame : (f : ℕ) → f < 2 ^ 31 → addr_to_frame (f * 4096) ≡ f
addr_to_frame-frame f lt = omega arith

pub frame_valid-frame :
    (p : Pmm) (f : ℕ) → IsValid p → 0 < f → f < p.frame_count → frame_valid p (f * 4096) ≡ true
unfolding frame_valid
frame_valid-frame p f v pos lt =
    let here : addr_to_frame (f * 4096) ≡ f = omega (arith, v.bounded) in
    let aligned : f * 4096 % 4096 ≡ 0 = omega arith in ground (arith, v.mapped, here, aligned)

-- Frame `f` becomes free.
pub record Released (p : Pmm) (f : ℕ) (p' : Pmm) : Type 0 where
  pub now_free : frame_is_used p' f ≡ false
  pub unreferenced : p'.refcount f ≡ 0
  pub others :
      (g : ℕ) → g ≢ f → (frame_is_used p' g ≡ frame_is_used p g) × (p'.refcount g ≡ p.refcount g)
  pub counted : p'.free_frames ≡ p.free_frames + 1
  pub size : p'.frame_count ≡ p.frame_count

-- What the code writes, whichever function frees the frame.
abbrev pub given_back : Pmm → ℕ → ℕ → Pmm
given_back p f hint = record (frame_mark_free p f) {
  refcount = update p.refcount f 0;
  free_frames = (p.free_frames + 1) % 2 ^ 32;
  search_hint = hint;
}

pub given_back-Released :
    (p : Pmm) (f hint : ℕ)
    → IsValid p
    → 0 < f
    → f < p.frame_count
    → frame_is_used p f ≡ true
    → hint ≤ p.frame_count
    → IsValid (given_back p f hint) × Released p f (given_back p f hint)
unfolding frame_is_used frame_mark_free
given_back-Released p f hint v pos lt used hinted =
    let small : p.free_frames + 1 < 2 ^ 32 =
      omega (arith, v.counted, v.bounded, count-le (is_free p) p.frame_count) in
    let now : frame_is_used (given_back p f hint) f ≡ false =
      ground (arith, mark_free-used p f f) in
    let others : (g : ℕ) → g ≢ f → frame_is_used (given_back p f hint) g ≡ frame_is_used p g =
      λ g ne. ground (arith, mark_free-used p f g) in
    let gain : count (is_free (given_back p f hint)) p.frame_count
        ≡ count (is_free p) p.frame_count + 1 =
      count-gain (is_free p) (is_free (given_back p f hint)) f p.frame_count lt (ap not used)
        (ap not now) (λ g ne. ap not (sym (others g ne))) in
    (
      record {
        mapped = v.mapped;
        bounded = v.bounded;
        counted = omega (arith, gain, v.counted, small);
        unreferenced = λ g free. elim (ℕ_discrete g f) [
          | yes e ↦ ground arith
          | no ne ↦ ground (arith, v.unreferenced g (sym (others g ne) ∙ free))
        ];
        null_used = others 0 (λ e. omega arith) ∙ v.null_used;
        hinted = hinted;
      },
      record {
        now_free = now;
        unreferenced = ground arith;
        others = λ g ne. (others g ne, ground arith);
        counted = omega (arith, small);
        size = refl;
      },
    )

-- `pmm_free_frame` on a used frame with at most one reference.
pub free_frame_lem :
    (p : Pmm) (f : ℕ)
    → IsValid p
    → 0 < f
    → f < p.frame_count
    → frame_is_used p f ≡ true
    → p.refcount f ≤ 1
    → let (p', r) = free_frame p (f * 4096) in IsValid p' × Released p f p' × (r ≡ freed)
unfolding free_frame
free_frame_lem p f v pos lt used single =
    let hint : ℕ = if ltb f p.search_hint then f else p.search_hint in
    let hinted : hint ≤ p.frame_count = ground (arith, v.hinted) in
    let here : addr_to_frame (f * 4096) ≡ f = omega (arith, v.bounded) in
    let valid = frame_valid-frame p f v pos lt in
    let low : ltb 1 (p.refcount f) ≡ false = ground arith in
    let same : (given_back p f hint, freed) ≡ free_frame p (f * 4096) =
      rw (free_frame, valid, here, used, low) refl in
    let (w, r) = given_back-Released p f hint v pos lt used hinted in
    subst (λ (x : Pmm × Freeing). IsValid x.0 × Released p f x.0 × (x.1 ≡ freed)) same (w, r, refl)

-- A run of used, singly referenced frames.
abbrev pub IsOwnedRun : Pmm → ℕ → ℕ → Type 0
IsOwnedRun p k n = (g : ℕ) → k ≤ g → g < k + n → (frame_is_used p g ≡ true) × (p.refcount g ≤ 1)

-- The frames of the run become free.
pub record ReleasedRun (p : Pmm) (n k : ℕ) (p' : Pmm) : Type 0 where
  pub inside : (g : ℕ) → k ≤ g → g < k + n → (frame_is_used p' g ≡ false) × (p'.refcount g ≡ 0)
  pub outside :
      (g : ℕ)
      → (g < k) ⊎ (k + n ≤ g)
      → (frame_is_used p' g ≡ frame_is_used p g) × (p'.refcount g ≡ p.refcount g)
  pub counted : p'.free_frames ≡ p.free_frames + n

free_from-ReleasedRun :
    (p : Pmm) (s left i : ℕ)
    → IsValid p
    → 0 < s
    → s + i + left ≤ p.frame_count
    → IsOwnedRun p (s + i) left
    → let p' = free_from p (s * 4096) left i in IsValid p' × ReleasedRun p left (s + i) p'
unfolding free_from
free_from-ReleasedRun p s zero i v pos fits own = (
  v,
  record {
    inside = λ g lo hi. absurd (omega arith);
    outside = λ g out. (refl, refl);
    counted = omega arith;
  },
)
free_from-ReleasedRun p s (suc left) i v pos fits own =
    let at : (s * 4096 + i * 4096) % 2 ^ 64 ≡ (s + i) * 4096 = omega (arith, v.bounded) in
    let (used, single) = own (s + i) (omega arith) (omega arith) in
    let (w, r, _) = free_frame_lem p (s + i) v (omega arith) (omega arith) used single in
    let next : Pmm = (free_frame p ((s + i) * 4096)).0 in
    let same : (free_frame p ((s * 4096 + i * 4096) % 2 ^ 64)).0 ≡ next =
      ap (λ a. (free_frame p a).0) at in
    let own' : IsOwnedRun next (s + (i + 1)) left = λ g lo hi.
      let o = r.others g (λ e. omega arith) in
      let mine = own g (omega arith) (omega arith) in (o.0 ∙ mine.0, omega (arith, o.1, mine.1)) in
    let (w', rs) = free_from-ReleasedRun next s left (i + 1) w pos (omega (arith, r.size)) own' in
    subst
      (λ q.
        IsValid (free_from q (s * 4096) left (i + 1))
        × ReleasedRun p (suc left) (s + i) (free_from q (s * 4096) left (i + 1)))
      (sym same)
      (
        w',
        record {
          inside = λ g lo hi. elim (ℕ_discrete g (s + i)) [
            | yes e ↦
                let o = rs.outside g (inl (omega arith)) in
                (
                  o.0 ∙ ap (frame_is_used next) e ∙ r.now_free,
                  o.1 ∙ ap next.refcount e ∙ r.unreferenced,
                )
            | no ne ↦ rs.inside g (omega arith) (omega arith)
          ];
          outside = λ g out.
              let beyond : (g < s + (i + 1)) ⊎ (s + (i + 1) + left ≤ g) = elim out [
                | inl lo ↦ inl (omega arith)
                | inr hi ↦ inr (omega arith)
              ] in
              let o = rs.outside g beyond in
              let q = r.others g (λ e. omega (arith, out)) in (o.0 ∙ q.0, o.1 ∙ q.1);
          counted = omega (arith, r.counted, rs.counted);
        },
      )

-- Freeing a run of used frames with at most one reference each.
pub free_frames_at_lem :
    (p : Pmm) (s n : ℕ)
    → IsValid p
    → 0 < s
    → s + n ≤ p.frame_count
    → IsOwnedRun p s n
    → let p' = free_frames_at p (s * 4096) n in IsValid p' × ReleasedRun p n s p'
unfolding free_frames_at
free_frames_at_lem p s n v pos fits own =
    let start : s + 0 ≡ s = omega arith in
    let own' : IsOwnedRun p (s + 0) n = subst (λ x. IsOwnedRun p x n) (sym start) own in
    let (w, r) = free_from-ReleasedRun p s n 0 v pos (omega arith) own' in
    (w, subst (λ x. ReleasedRun p n x (free_from p (s * 4096) n 0)) start r)

abbrev Same : Pmm → Pmm → Type 0
Same p q =
    ((g : ℕ) → frame_is_used q g ≡ frame_is_used p g)
    × ((g : ℕ) → q.refcount g ≡ p.refcount g)
    × (q.free_frames ≡ p.free_frames)

abbrev Restores : Pmm → Pmm → Type 0
Restores p q =
    IsValid q
    × ((g : ℕ) → frame_is_used q g ≡ frame_is_used p g)
    × ((g : ℕ) → q.refcount g ≡ p.refcount g)
    × (q.free_frames ≡ p.free_frames)

restored :
    (p p' q : Pmm) (n s a : ℕ) → IsValid p → Given p n s p' a → ReleasedRun p' n s q → Same p q
restored p p' q n s a v gv r = (
  (λ g. elim (place s n g) [
    | inl out ↦ (r.outside g out).0 ∙ (gv.outside g out).0
    | inr (lo, hi) ↦ (r.inside g lo hi).0 ∙ sym (was g lo hi)
  ]),
  (λ g. elim (place s n g) [
    | inl out ↦ (r.outside g out).1 ∙ (gv.outside g out).1
    | inr (lo, hi) ↦ (r.inside g lo hi).1 ∙ sym (v.unreferenced g (was g lo hi))
  ]),
  omega (arith, r.counted, gv.counted),
)
  where
    was : (g : ℕ) → s ≤ g → g < s + n → frame_is_used p g ≡ false
    was g lo hi =
        let here : g ≡ s + (g - s) = omega arith in
        ap (frame_is_used p) here ∙ gv.was_free (g - s) (omega arith)

-- What is allocated can be given back: from a valid state, `pmm_free_frames` of the run that
-- `pmm_alloc_frames` has returned, unless it is AF_FRAME_INVALID, leaves every frame used or free,
-- with the references, that it had before the allocation, and the free count that it was; the
-- state is valid.
pub alloc-free :
    (p p' : Pmm) (n a : ℕ)
    → IsValid p
    → 0 < n
    → alloc_frames p n ≡ (p', a)
    → a ≢ frame_invalid
    → let p'' = free_frames_at p' a n in
      IsValid p''
      × ((g : ℕ) → frame_is_used p'' g ≡ frame_is_used p g)
      × ((g : ℕ) → p''.refcount g ≡ p.refcount g)
      × (p''.free_frames ≡ p.free_frames)
alloc-free p p' n a v pos e nonzero =
    let (w, given) = subst (Allocates p n) e (alloc_frames_lem p n v pos) in
    elim given [
      | inl (invalid, _, _) ↦ absurd (nonzero invalid)
      | inr (s, gv) ↦
          let own : IsOwnedRun p' s n =
            λ g lo hi. let i = gv.inside g lo hi in (i.0, omega (arith, i.1)) in
          let (x, r) =
            free_frames_at_lem p' s n w gv.not_null (omega (arith, gv.fits, gv.size)) own in
          let same = restored p p' (free_frames_at p' (s * 4096) n) n s a v gv r in
          subst (λ b. Restores p (free_frames_at p' b n)) (sym gv.address)
            (x, same.0, same.1, same.2)
    ]
