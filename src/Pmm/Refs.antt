-- ===== src/Pmm/Refs.antt =====
-- `pmm_frame_ref` and `pmm_frame_unref` of kernel/core/pmm.c.
use afriyie_os.Common.{
  ℕ, zero, suc, ◌+◌, ◌-◌, ◌*◌, ◌%◌, ◌^◌, ◌≤◌, ◌<◌, ◌≡◌, ◌≢◌, refl, sym, ap, subst, ◌∙◌, Bool, true,
  false, arith, ◌==◌, update,
}
use native.Mathlib.Decide.{ℕ_discrete}
use afriyie_os.Pmm.State.{Pmm, frame_is_used, frame_mark_free, addr_to_frame}
use afriyie_os.Pmm.Ops.{frame_ref, frame_unref}
use afriyie_os.Pmm.Invariant.{IsValid}
use afriyie_os.Pmm.Free.{frame_valid-frame, Released, given_back, given_back-Released}

-- The calls on frame `f` by several owners, one after the other.
unfoldable pub refs : ℕ → Pmm → ℕ → Pmm
refs zero p f = p
refs (suc n) p f = refs n (frame_ref p (f * 4096)) f

unfoldable pub unrefs : ℕ → Pmm → ℕ → Pmm
unrefs zero p f = p
unrefs (suc n) p f = unrefs n (frame_unref p (f * 4096)) f

-- Only the reference count of frame `f` differs, and is `r`.
pub record Counted (p : Pmm) (f r : ℕ) (p' : Pmm) : Type 0 where
  pub valid : IsValid p'
  pub here : p'.refcount f ≡ r
  pub others : (g : ℕ) → g ≢ f → p'.refcount g ≡ p.refcount g
  pub used : (g : ℕ) → frame_is_used p' g ≡ frame_is_used p g
  pub free : p'.free_frames ≡ p.free_frames
  pub size : p'.frame_count ≡ p.frame_count

counted_as : Pmm → ℕ → ℕ → Pmm
counted_as p f r = record p { refcount = update p.refcount f r }

counted_as-Counted :
    (p : Pmm) (f r : ℕ) → IsValid p → frame_is_used p f ≡ true → Counted p f r (counted_as p f r)
unfolding counted_as frame_is_used
counted_as-Counted p f r v used = record {
  valid = record {
    mapped = v.mapped;
    bounded = v.bounded;
    counted = v.counted;
    unreferenced = λ g free. elim (ℕ_discrete g f) [
      | yes e ↦ absurd (clash (frame_is_used p f) used (sym (ap (frame_is_used p) e) ∙ free))
      | no ne ↦ ground (arith, v.unreferenced g free)
    ];
    null_used = v.null_used;
    hinted = v.hinted;
  };
  here = ground arith;
  others = λ g ne. ground arith;
  used = λ g. refl;
  free = refl;
  size = refl;
}
  where
    clash : (b : Bool) → b ≡ true → b ≡ false → ⊥
    clash b t n = cc

-- A record of changes to the count after another.
Counted-trans :
    (p q q' : Pmm) (f r r' : ℕ) → Counted p f r q → Counted q f r' q' → Counted p f r' q'
Counted-trans p q q' f r r' a b = record {
  valid = b.valid;
  here = b.here;
  others = λ g ne. b.others g ne ∙ a.others g ne;
  used = λ g. b.used g ∙ a.used g;
  free = b.free ∙ a.free;
  size = b.size ∙ a.size;
}

module _ (p : Pmm) (f : ℕ) (v : IsValid p) (pos : 0 < f) (lt : f < p.frame_count) where
  at : addr_to_frame (f * 4096) ≡ f
  at = omega (arith, v.bounded)

  frame_ref-step : p.refcount f < 255 → frame_ref p (f * 4096) ≡ counted_as p f (p.refcount f + 1)
  unfolding frame_ref counted_as
  frame_ref-step low =
      let valid = frame_valid-frame p f v pos lt in
      let below : (p.refcount f == 255) ≡ false = ground arith in
      let byte : (p.refcount f + 1) % 2 ^ 8 ≡ p.refcount f + 1 = omega arith in
      rw (frame_ref, valid, at, below, byte) refl

  frame_ref-saturated : p.refcount f ≡ 255 → frame_ref p (f * 4096) ≡ p
  unfolding frame_ref
  frame_ref-saturated full =
      let valid = frame_valid-frame p f v pos lt in
      let here : (p.refcount f == 255) ≡ true = ground arith in rw (frame_ref, valid, at, here) refl

  frame_unref-step : 1 < p.refcount f → frame_unref p (f * 4096) ≡ counted_as p f (p.refcount f - 1)
  unfolding frame_unref counted_as
  frame_unref-step many =
      let valid = frame_valid-frame p f v pos lt in
      let some : (p.refcount f == 0) ≡ false = ground arith in
      let left : (p.refcount f - 1 == 0) ≡ false = ground arith in
      rw (frame_unref, valid, at, some, left) refl

  frame_unref-last : p.refcount f ≡ 1 → frame_unref p (f * 4096) ≡ given_back p f p.search_hint
  unfolding frame_unref frame_mark_free
  frame_unref-last one =
      let valid = frame_valid-frame p f v pos lt in
      let some : (p.refcount f == 0) ≡ false = ground arith in
      let left : p.refcount f - 1 ≡ 0 = omega arith in rw (frame_unref, valid, at, some, left) refl

unchanged : (p : Pmm) (f r : ℕ) → IsValid p → p.refcount f ≡ r → Counted p f r p
unchanged p f r v e = record {
  valid = v;
  here = e;
  others = λ g ne. refl;
  used = λ g. refl;
  free = refl;
  size = refl;
}

refs_add :
    (n : ℕ) (p : Pmm) (f : ℕ)
    → IsValid p
    → 0 < f
    → f < p.frame_count
    → frame_is_used p f ≡ true
    → p.refcount f + n ≤ 255
    → Counted p f (p.refcount f + n) (refs n p f)
unfolding refs
refs_add zero p f v pos lt used fits = unchanged p f (p.refcount f + 0) v (omega arith)
refs_add (suc n) p f v pos lt used fits =
    let q : Pmm = counted_as p f (p.refcount f + 1) in
    let c : Counted p f (p.refcount f + 1) q = counted_as-Counted p f (p.refcount f + 1) v used in
    let rest =
      refs_add n q f c.valid pos (omega (arith, c.size)) (c.used f ∙ used)
        (omega (arith, c.here)) in
    let sum : q.refcount f + n ≡ p.refcount f + suc n = omega (arith, c.here) in
    subst (λ x. Counted p f (p.refcount f + suc n) (refs n x f))
      (sym (frame_ref-step p f v pos lt (omega arith)))
      (Counted-trans p q (refs n q f) f (p.refcount f + 1) (p.refcount f + suc n) c
        (subst (λ r. Counted q f r (refs n q f)) sum rest))

unrefs_sub :
    (m : ℕ) (p : Pmm) (f : ℕ)
    → IsValid p
    → 0 < f
    → f < p.frame_count
    → frame_is_used p f ≡ true
    → m < p.refcount f
    → Counted p f (p.refcount f - m) (unrefs m p f)
unfolding unrefs
unrefs_sub zero p f v pos lt used more = unchanged p f (p.refcount f - 0) v (omega arith)
unrefs_sub (suc m) p f v pos lt used more =
    let q : Pmm = counted_as p f (p.refcount f - 1) in
    let c : Counted p f (p.refcount f - 1) q = counted_as-Counted p f (p.refcount f - 1) v used in
    let rest =
      unrefs_sub m q f c.valid pos (omega (arith, c.size)) (c.used f ∙ used)
        (omega (arith, c.here)) in
    let difference : q.refcount f - m ≡ p.refcount f - suc m = omega (arith, c.here) in
    subst (λ x. Counted p f (p.refcount f - suc m) (unrefs m x f))
      (sym (frame_unref-step p f v pos lt (omega arith)))
      (Counted-trans p q (unrefs m q f) f (p.refcount f - 1) (p.refcount f - suc m) c
        (subst (λ r. Counted q f r (unrefs m q f)) difference rest))

Released-Counted : (p q q' : Pmm) (f r : ℕ) → Counted p f r q → Released q f q' → Released p f q'
Released-Counted p q q' f r c x = record {
  now_free = x.now_free;
  unreferenced = x.unreferenced;
  others = λ g ne. ((x.others g ne).0 ∙ c.used g, (x.others g ne).1 ∙ c.others g ne);
  counted = omega (arith, x.counted, c.free);
  size = x.size ∙ c.size;
}

unrefs_all :
    (m : ℕ) (p : Pmm) (f : ℕ)
    → IsValid p
    → 0 < f
    → f < p.frame_count
    → frame_is_used p f ≡ true
    → p.refcount f ≡ suc m
    → IsValid (unrefs (suc m) p f) × Released p f (unrefs (suc m) p f)
unfolding unrefs
unrefs_all zero p f v pos lt used last =
    subst (λ x. IsValid x × Released p f x) (sym (frame_unref-last p f v pos lt (omega arith)))
      (given_back-Released p f p.search_hint v pos lt used v.hinted)
unrefs_all (suc m) p f v pos lt used more =
    let q : Pmm = counted_as p f (p.refcount f - 1) in
    let c : Counted p f (p.refcount f - 1) q = counted_as-Counted p f (p.refcount f - 1) v used in
    let (w, x) =
      unrefs_all m q f c.valid pos (omega (arith, c.size)) (c.used f ∙ used)
        (omega (arith, c.here)) in
    subst (λ y. IsValid (unrefs (suc m) y f) × Released p f (unrefs (suc m) y f))
      (sym (frame_unref-step p f v pos lt (omega arith)))
      (w, Released-Counted p q (unrefs (suc m) q f) f (p.refcount f - 1) c x)

-- A frame lives as long as its references, up to 255: a used frame with at least one reference
-- that is referenced `n` more times stays used, with what is left of its references, until it was
-- unreferenced as often as it had references in all; the last of these frees it, alone, and raises
-- the free count by one.
pub refs_held :
    (n : ℕ) (p : Pmm) (f : ℕ)
    → IsValid p
    → 0 < f
    → f < p.frame_count
    → frame_is_used p f ≡ true
    → 0 < p.refcount f
    → p.refcount f + n ≤ 255
    → ((m : ℕ)
        → m < p.refcount f + n
        → Counted p f (p.refcount f + n - m) (unrefs m (refs n p f) f))
      × (let q = unrefs (p.refcount f + n) (refs n p f) f in IsValid q × Released p f q)
refs_held n p f v pos lt used some fits = (
  (λ m more.
      let rest =
        unrefs_sub m q f c.valid pos (omega (arith, c.size)) (c.used f ∙ used)
          (omega (arith, c.here)) in
      Counted-trans p q (unrefs m q f) f (p.refcount f + n) (p.refcount f + n - m) c
        (subst (λ r. Counted q f (r - m) (unrefs m q f)) c.here rest)),
  (let total : suc (p.refcount f + n - 1) ≡ p.refcount f + n = omega arith in
      let (w, x) =
        unrefs_all (p.refcount f + n - 1) q f c.valid pos (omega (arith, c.size)) (c.used f ∙ used)
          (c.here ∙ sym total) in
      subst (λ k. IsValid (unrefs k q f) × Released p f (unrefs k q f)) total
        (
          w,
          Released-Counted p q (unrefs (suc (p.refcount f + n - 1)) q f) f (p.refcount f + n) c x,
        )),
)
  where
    q : Pmm
    q = refs n p f

    c : Counted p f (p.refcount f + n) q
    c = refs_add n p f v pos lt used fits

refs-saturated :
    (n : ℕ) (p : Pmm) (f : ℕ)
    → IsValid p
    → 0 < f
    → f < p.frame_count
    → p.refcount f ≡ 255
    → refs n p f ≡ p
unfolding refs
refs-saturated zero p f v pos lt full = refl
refs-saturated (suc n) p f v pos lt full =
    ap (λ x. refs n x f) (frame_ref-saturated p f v pos lt full)
    ∙ refs-saturated n p f v pos lt full

-- Saturation does not protect a frame: at 255 references, any number of further calls of
-- `pmm_frame_ref` is forgotten, and 255 calls of `pmm_frame_unref` free the frame, however many
-- owners are left.
pub saturated_freed :
    (n : ℕ) (p : Pmm) (f : ℕ)
    → IsValid p
    → 0 < f
    → f < p.frame_count
    → frame_is_used p f ≡ true
    → p.refcount f ≡ 255
    → let q = unrefs 255 (refs n p f) f in IsValid q × Released p f q
saturated_freed n p f v pos lt used full =
    subst (λ x. IsValid (unrefs 255 x f) × Released p f (unrefs 255 x f))
      (sym (refs-saturated n p f v pos lt full)) (unrefs_all 254 p f v pos lt used full)
