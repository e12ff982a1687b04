-- ===== src/Pmm/Alloc.antt =====
-- `pmm_alloc_frames` of kernel/core/pmm.c.
use afriyie_os.Common.{
  ℕ, ◌+◌, ◌-◌, ◌*◌, ◌%◌, ◌≤◌, ◌<◌, ◌≡◌, ◌≢◌, refl, sym, ap, subst, ◌∙◌, ◌⊎◌, inl, inr, Bool, true,
  false, not, arith, ltb, Bool-cases, Option-cases,
}
use native.Mathlib.Decide.{ℕ_discrete}
use afriyie_os.Common.Count.{count, count-run, count-le}
use afriyie_os.Pmm.State.{Pmm, frame_is_used, frame_invalid, frame_to_addr}
use afriyie_os.Pmm.Ops.{find_frame, find_run, claim_run, alloc_one, alloc_run, alloc_frames}
use afriyie_os.Pmm.Invariant.{is_free, IsValid}
use afriyie_os.Pmm.Runs.{
  find_frame-found, find_frame-none, scanned_all, find_run-found, find_run-none, claim_run-Claimed,
}

abbrev pub IsFreeRun : Pmm → ℕ → ℕ → Type 0
IsFreeRun p s n = (j : ℕ) → j < n → frame_is_used p (s + j) ≡ false

-- The run of `n` frames from frame `s` on is handed out under address `a`.
pub record Given (p : Pmm) (n s : ℕ) (p' : Pmm) (a : ℕ) : Type 0 where
  pub address : a ≡ s * 4096
  pub not_null : 0 < s
  pub fits : s + n ≤ p.frame_count
  pub was_free : IsFreeRun p s n
  pub inside : (g : ℕ) → s ≤ g → g < s + n → (frame_is_used p' g ≡ true) × (p'.refcount g ≡ 1)
  pub outside :
      (g : ℕ)
      → (g < s) ⊎ (s + n ≤ g)
      → (frame_is_used p' g ≡ frame_is_used p g) × (p'.refcount g ≡ p.refcount g)
  pub counted : p'.free_frames + n ≡ p.free_frames
  pub size : p'.frame_count ≡ p.frame_count

-- Nothing is handed out, and there is no run to hand out.
abbrev pub Refused : Pmm → ℕ → Pmm → ℕ → Type 0
Refused p n p' a =
    (a ≡ frame_invalid) × (p' ≡ p) × ((s : ℕ) → s + n ≤ p.frame_count → ¬ IsFreeRun p s n)

abbrev pub Allocates : Pmm → ℕ → Pmm × ℕ → Type 0
Allocates p n r = IsValid r.0 × (Refused p n r.0 r.1 ⊎ ((s : ℕ) × Given p n s r.0 r.1))

used_and_free : (b : Bool) → b ≡ true → b ≡ false → ⊥
used_and_free b t f = cc

pub place : (s n f : ℕ) → ((f < s) ⊎ (s + n ≤ f)) ⊎ ((s ≤ f) × (f < s + n))
place s n f = elim (Bool-cases (ltb f s)) [
  | inl before ↦ inl (inl (ground arith))
  | inr after ↦ elim (Bool-cases (ltb f (s + n))) [
    | inl inside ↦ inr (ground arith, ground arith)
    | inr beyond ↦ inl (inr (ground arith))
  ]
]

module _ (p : Pmm) (v : IsValid p) (n : ℕ) (pos : 0 < n) where
  refuses : ((s : ℕ) → s + n ≤ p.frame_count → ¬ IsFreeRun p s n) → Allocates p n (p, frame_invalid)
  refuses out = (v, inl (refl, refl, out))

  abbrev given_to : ℕ → ℕ → Pmm
  given_to s hint = record (claim_run p n s) { free_frames = p.free_frames - n; search_hint = hint }

  gives :
      (s hint : ℕ)
      → s + n ≤ p.frame_count
      → hint ≤ p.frame_count
      → IsFreeRun p s n
      → Allocates p n (given_to s hint, frame_to_addr s)
  unfolding frame_is_used
  gives s hint fits hinted run =
      let c = claim_run-Claimed p n s in
      let enough : n ≤ p.free_frames = omega (
        arith,
        v.counted,
        count-run (is_free p) s n p.frame_count fits (λ j lt. ap not (run j lt)),
      ) in
      let not_null : s ≢ 0 = λ e.
        let here : s + 0 ≡ 0 = omega arith in
        let free : frame_is_used p 0 ≡ false = sym (ap (frame_is_used p) here) ∙ run 0 pos in
        absurd (used_and_free (frame_is_used p 0) v.null_used free) in
      (
        record {
          mapped = c.kept.0 ∙ v.mapped;
          bounded = omega (arith, c.kept.1, v.bounded);
          counted =
              let same = ap (count (is_free (claim_run p n s))) c.kept.1 in
              omega (arith, v.counted, same, c.counted p.frame_count fits run);
          unreferenced = λ f free. elim (place s n f) [
            | inl out ↦ (c.outside f out).1 ∙ v.unreferenced f (sym (c.outside f out).0 ∙ free)
            | inr (lo, hi) ↦
                absurd (used_and_free (frame_is_used (claim_run p n s) f) (c.inside f lo hi).0 free)
          ];
          null_used = (c.outside 0 (inl (omega arith))).0 ∙ v.null_used;
          hinted = omega (arith, c.kept.1, hinted);
        },
        inr (
          s,
          record {
            address = omega (arith, v.bounded);
            not_null = omega arith;
            fits = fits;
            was_free = run;
            inside = c.inside;
            outside = c.outside;
            counted = omega (arith, enough);
            size = c.kept.1;
          },
        ),
      )

one_free : (p : Pmm) (f : ℕ) → frame_is_used p f ≡ false → IsFreeRun p f 1
one_free p f free j lt = let here : f + j ≡ f = omega arith in ap (frame_is_used p) here ∙ free

alloc_one-Allocates : (p : Pmm) → IsValid p → 0 < p.free_frames → Allocates p 1 (alloc_one p)
unfolding alloc_one claim_run
alloc_one-Allocates p v some_free =
    let some_frames : 0 < p.frame_count =
      omega (arith, v.counted, count-le (is_free p) p.frame_count) in
    elim (Option-cases (find_frame p p.frame_count 0)) [
      | inr (f, found) ↦
          let (lt, free) = find_frame-found p p.frame_count 0 f some_frames found in
          rw (found, alloc_one)
            (gives p v 1 (omega arith) f ((f + 1) % p.frame_count) (omega arith) (omega arith)
              (one_free p f free))
      | inl out ↦
          rw (out, alloc_one)
            (refuses p v 1 (omega arith) (λ s fits run.
              let (i, lt, at) = scanned_all p s v.bounded v.hinted (omega arith) in
              let used = find_frame-none p p.frame_count 0 i out (omega arith) (omega arith) in
              let here : s + 0 ≡ s = omega arith in
              used_and_free (frame_is_used p s) (sym (ap (frame_is_used p) at) ∙ used)
                (sym (ap (frame_is_used p) here) ∙ run 0 (omega arith))))
    ]

alloc_run-Allocates : (p : Pmm) (n : ℕ) → IsValid p → 0 < n → Allocates p n (alloc_run p n)
unfolding alloc_run
alloc_run-Allocates p n v pos = elim (Option-cases (find_run p n p.frame_count 0 0 0)) [
  | inr (s, found) ↦
      let (fits, run) =
        find_run-found p n p.frame_count 0 0 0 s found (λ ne. refl)
          (λ j lt. absurd (omega arith)) in
      let hinted = (claim_run-Claimed p n s).kept.4 in
      rw (found, alloc_run)
        (gives p v n pos s (claim_run p n s).search_hint (omega arith)
          (omega (arith, v.hinted, hinted)) run)
  | inl out ↦
      rw (out, alloc_run)
        (refuses p v n pos (λ s fits run.
          find_run-none p n p.frame_count 0 0 0 out pos pos (λ ne. refl) s (omega arith)
            (omega arith) run))
]

-- In a valid state, `pmm_alloc_frames` for a positive number of frames keeps the state valid. Either
-- it returns the address of a run of so many frames, none of them frame 0, which were all free and
-- now are used with one reference each, leaves every other frame alone and lowers the free count by
-- their number; or it returns AF_FRAME_INVALID, changes nothing, and there is no such run of free
-- frames at all.
pub alloc_frames_lem :
    (p : Pmm) (n : ℕ)
    → IsValid p
    → 0 < n
    → let (p', a) = alloc_frames p n in
      IsValid p'
      × (((a ≡ frame_invalid) × (p' ≡ p) × ((s : ℕ) → s + n ≤ p.frame_count → ¬ IsFreeRun p s n))
          ⊎ ((s : ℕ) × Given p n s p' a))
unfolding alloc_frames
alloc_frames_lem p n v pos = elim (Bool-cases (ltb p.free_frames n)) [
  | inl short ↦
      let same : (p, frame_invalid) ≡ alloc_frames p n = ground (arith, v.mapped) in
      subst (Allocates p n) same (
        refuses p v n pos (λ s fits run.
          let less : p.free_frames < n = ground arith in
          omega (
            arith,
            v.counted,
            count-run (is_free p) s n p.frame_count fits (λ j lt. ap not (run j lt)),
          )))
  | inr enough ↦ elim (ℕ_discrete n 1) [
    | yes one ↦
        let some_free : 0 < p.free_frames = ground arith in
        let same : alloc_one p ≡ alloc_frames p n = ground (arith, v.mapped) in
        subst (Allocates p n) same
          (subst (λ x. Allocates p x (alloc_one p)) (sym one) (alloc_one-Allocates p v some_free))
    | no many ↦
        let same : alloc_run p n ≡ alloc_frames p n = ground (arith, v.mapped) in
        subst (Allocates p n) same (alloc_run-Allocates p n v pos)
  ]
]
