-- ===== src/Pmm/Runs.antt =====
-- The scans and marking loops of kernel/core/pmm.c.
use afriyie_os.Common.{
  ℕ, zero, suc, ◌+◌, ◌-◌, ◌%◌, ◌^◌, ◌≤◌, ◌<◌, ◌≡◌, ◌≢◌, refl, sym, ap, ◌∙◌, inl, inr, ◌⊎◌, true,
  false, not, none, some, arith, ltb, leb, ◌==◌, if◌then◌else◌, Bool-cases,
}
use native.Mathlib.Nat.{add-mod_right, mod-eq_of_lt}
use native.Mathlib.Decide.{ℕ_discrete}
use afriyie_os.Common.Count.{count, count-gain}
use afriyie_os.Pmm.State.{Pmm, frame_is_used, frame_mark_used}
use afriyie_os.Pmm.Ops.{find_frame, find_run, claim, claim_run}
use afriyie_os.Pmm.Frames.{mark_used-used}
use afriyie_os.Pmm.Invariant.{is_free}

-- The frame that the scan looks at in its `i`-th step.
abbrev pub scanned : Pmm → ℕ → ℕ
scanned p i = (p.search_hint + i) % 2 ^ 32 % p.frame_count

pub find_frame-found :
    (p : Pmm) (left i f : ℕ)
    → 0 < p.frame_count
    → find_frame p left i ≡ some f
    → (f < p.frame_count) × (frame_is_used p f ≡ false)
unfolding find_frame
find_frame-found p zero i f some_frames e = cc
find_frame-found p (suc left) i f some_frames e =
    elim (Bool-cases (frame_is_used p (scanned p i))) [
      | inl used ↦ find_frame-found p left (i + 1) f some_frames (rw (used, find_frame) at e)
      | inr free ↦
          let at : scanned p i ≡ f = cc (rw (free, find_frame) at e) in
          rw (← at) (omega arith, free)
    ]

pub find_frame-none :
    (p : Pmm) (left i j : ℕ)
    → find_frame p left i ≡ none
    → i ≤ j
    → j < i + left
    → frame_is_used p (scanned p j) ≡ true
unfolding find_frame
find_frame-none p zero i j e lo hi = absurd (omega arith)
find_frame-none p (suc left) i j e lo hi = elim (Bool-cases (frame_is_used p (scanned p i))) [
  | inr free ↦ cc (rw (free, find_frame) at e)
  | inl used ↦ elim (ℕ_discrete i j) [
    | yes at ↦ rw (← at) used
    | no ne ↦
        find_frame-none p left (i + 1) j (rw (used, find_frame) at e) (omega arith) (omega arith)
  ]
]

-- The scan comes by every frame.
pub scanned_all :
    (p : Pmm) (f : ℕ)
    → p.frame_count ≤ 2 ^ 31
    → p.search_hint ≤ p.frame_count
    → f < p.frame_count
    → (i : ℕ) × (i < p.frame_count) × (scanned p i ≡ f)
scanned_all p f bounded hinted lt = elim (Bool-cases (ltb f p.search_hint)) [
  | inl before ↦
      let below : f < p.search_hint = ground arith in
      let sum : (p.search_hint + (f + p.frame_count - p.search_hint)) % 2 ^ 32 ≡ f + p.frame_count =
        omega arith in
      (
        f + p.frame_count - p.search_hint,
        omega arith,
        ap (λ x. x % p.frame_count) sum ∙ add-mod_right f p.frame_count ∙ mod-eq_of_lt lt,
      )
  | inr after ↦
      let above : p.search_hint ≤ f = ground arith in
      let sum : (p.search_hint + (f - p.search_hint)) % 2 ^ 32 ≡ f = omega arith in
      (f - p.search_hint, omega arith, ap (λ x. x % p.frame_count) sum ∙ mod-eq_of_lt lt)
]

-- One more free frame on a run.
grown :
    (p : Pmm) (f start len : ℕ)
    → (len ≢ 0 → start + len ≡ f)
    → ((j : ℕ) → j < len → frame_is_used p (start + j) ≡ false)
    → frame_is_used p f ≡ false
    → (j : ℕ) → j < len + 1
    → frame_is_used p ((if len == 0 then f else start) + j) ≡ false
grown p f start len at run free j lt = elim (ℕ_discrete j len) [
  | yes e ↦
      let here : (if len == 0 then f else start) + j ≡ f = ground (arith, at) in
      ap (frame_is_used p) here ∙ free
  | no ne ↦
      let here : (if len == 0 then f else start) + j ≡ start + j = ground arith in
      ap (frame_is_used p) here ∙ run j (omega arith)
]

-- The scan for a run, with the run so far: `len` free frames from `start` up to `f`.
pub find_run-found :
    (p : Pmm) (n left f start len s : ℕ)
    → find_run p n left f start len ≡ some s
    → (len ≢ 0 → start + len ≡ f)
    → ((j : ℕ) → j < len → frame_is_used p (start + j) ≡ false)
    → (s + n ≤ f + left) × ((j : ℕ) → j < n → frame_is_used p (s + j) ≡ false)
unfolding find_run
find_run-found p n zero f start len s e at run = cc
find_run-found p n (suc left) f start len s e at run = elim (Bool-cases (frame_is_used p f)) [
  | inl used ↦
      let (fits, free) =
        find_run-found p n left (f + 1) start 0 s (rw (used, find_run) at e)
          (λ ne. absurd (ne refl)) (λ j lt. absurd (omega arith)) in
      (omega arith, free)
  | inr free ↦
      let start' : ℕ = if len == 0 then f else start in
      let at' : start' + len ≡ f = ground (arith, at) in
      let run' = grown p f start len at run free in
      elim (Bool-cases (len + 1 == n)) [
        | inl full ↦
            let here : start' ≡ s = cc (rw (free, find_run, full) at e) in
            let whole : len + 1 ≡ n = ground arith in
            rw (← here) (omega arith, (λ j lt. run' j (omega arith)))
        | inr more ↦
            let (fits, all) =
              find_run-found p n left (f + 1) start' (len + 1) s (rw (free, find_run, more) at e)
                (λ ne. omega arith) run' in
            (omega arith, all)
      ]
]

pub find_run-none :
    (p : Pmm) (n left f start len : ℕ)
    → find_run p n left f start len ≡ none
    → 0 < n
    → len < n
    → (len ≢ 0 → start + len ≡ f)
    → (s : ℕ) → f ≤ s + len
    → s + n ≤ f + left
    → ¬ ((j : ℕ) → j < n → frame_is_used p (s + j) ≡ false)
unfolding find_run
find_run-none p n zero f start len e pos short at s lo hi free = omega arith
find_run-none p n (suc left) f start len e pos short at s lo hi all =
    elim (Bool-cases (frame_is_used p f)) [
      | inl used ↦ elim (Bool-cases (leb s f)) [
        | inl before ↦
            let le : s ≤ f = ground arith in
            let here : s + (f - s) ≡ f = omega arith in
            let free : frame_is_used p f ≡ false =
              sym (ap (frame_is_used p) here) ∙ all (f - s) (omega arith) in
            cc
        | inr after ↦
            let lt : f < s = ground arith in
            find_run-none p n left (f + 1) start 0 (rw (used, find_run) at e) pos pos
              (λ ne. absurd (ne refl)) s (omega arith) (omega arith) all
      ]
      | inr free ↦
          let start' : ℕ = if len == 0 then f else start in
          let at' : start' + len ≡ f = ground (arith, at) in
          elim (Bool-cases (len + 1 == n)) [
            | inl full ↦ cc (rw (free, find_run, full) at e)
            | inr more ↦
                let ne : len + 1 ≢ n = ground arith in
                find_run-none p n left (f + 1) start' (len + 1) (rw (free, find_run, more) at e) pos
                  (omega arith) (λ nz. omega arith) s (omega arith) (omega arith) all
          ]
    ]

pub claim-used :
    (p : Pmm) (k g : ℕ) → frame_is_used (claim p k) g ≡ (if g == k then true else frame_is_used p g)
unfolding claim frame_is_used
claim-used p k g = mark_used-used p k g

claim_self : (p : Pmm) (k : ℕ) → frame_is_used (claim p k) k ≡ true
claim_self p k = ground (arith, claim-used p k k)

claim_other : (p : Pmm) (k g : ℕ) → g ≢ k → frame_is_used (claim p k) g ≡ frame_is_used p g
claim_other p k g ne = ground (arith, claim-used p k g)

claim_next :
    (p : Pmm) (k j : ℕ)
    → frame_is_used p (k + suc j) ≡ false
    → frame_is_used (claim p k) (k + 1 + j) ≡ false
claim_next p k j free =
    let here : k + 1 + j ≡ k + suc j = omega arith in
    claim_other p k (k + 1 + j) (λ e. omega arith) ∙ ap (frame_is_used p) here ∙ free

claim_head :
    (p : Pmm) (left k : ℕ)
    → ((j : ℕ) → j < suc left → frame_is_used p (k + j) ≡ false)
    → frame_is_used p k ≡ false
claim_head p left k free =
    let here : k ≡ k + 0 = omega arith in ap (frame_is_used p) here ∙ free 0 (omega arith)

claim_tail :
    (p : Pmm) (left k : ℕ)
    → ((j : ℕ) → j < suc left → frame_is_used p (k + j) ≡ false)
    → (j : ℕ) → j < left
    → frame_is_used p (k + suc j) ≡ false
claim_tail p left k free j lt = free (suc j) (omega arith)

-- Claiming a run of free frames changes these frames and the free count of the bitmap.
pub record Claimed (p : Pmm) (left k : ℕ) (p' : Pmm) : Type 0 where
  pub inside : (g : ℕ) → k ≤ g → g < k + left → (frame_is_used p' g ≡ true) × (p'.refcount g ≡ 1)
  pub outside :
      (g : ℕ)
      → (g < k) ⊎ (k + left ≤ g)
      → (frame_is_used p' g ≡ frame_is_used p g) × (p'.refcount g ≡ p.refcount g)
  pub kept :
      (p'.mapped ≡ p.mapped)
      × (p'.frame_count ≡ p.frame_count)
      × (p'.usable_frames ≡ p.usable_frames)
      × (p'.free_frames ≡ p.free_frames)
      × (p'.search_hint ≡ p.search_hint)
  pub counted :
      (n : ℕ)
      → k + left ≤ n
      → ((j : ℕ) → j < left → frame_is_used p (k + j) ≡ false)
      → count (is_free p') n + left ≡ count (is_free p) n

pub claim_run-Claimed : (p : Pmm) (left k : ℕ) → Claimed p left k (claim_run p left k)
unfolding claim_run claim frame_mark_used
claim_run-Claimed p zero k = record {
  inside = λ g lo hi. absurd (omega arith);
  outside = λ g out. (refl, refl);
  kept = (refl, refl, refl, refl, refl);
  counted = λ n fits free. omega arith;
}
claim_run-Claimed p (suc left) k =
    let next = claim_run-Claimed (claim p k) left (k + 1) in
    record {
      inside = λ g lo hi. elim (ℕ_discrete g k) [
        | yes e ↦ ground (arith, next.outside g (inl (omega arith)), claim-used p k g)
        | no ne ↦ next.inside g (omega arith) (omega arith)
      ];
      outside = λ g out.
          let ne : g ≢ k = omega (arith, out) in
          let out' : (g < k + 1) ⊎ (k + 1 + left ≤ g) = elim out [
            | inl lo ↦ inl (omega arith)
            | inr hi ↦ inr (omega arith)
          ] in
          ground (arith, next.outside g out', claim-used p k g);
      kept = next.kept;
      counted = λ n fits free.
          let here : frame_is_used p k ≡ false = claim_head p left k free in
          let rest =
            next.counted n (omega arith)
              (λ j lt. claim_next p k j (claim_tail p left k free j lt)) in
          let gain =
            count-gain (is_free (claim p k)) (is_free p) k n (omega arith) (ap not (claim_self p k))
              (ap not here) (λ g ne. ap not (claim_other p k g ne)) in
          omega (arith, rest, gain);
    }
