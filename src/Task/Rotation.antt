-- ===== src/Task/Rotation.antt =====
-- The turns that the timer of kernel/core/sched.c makes.
use afriyie_os.Common.{
  ℕ, zero, suc, ◌+◌, ◌-◌, ◌*◌, ◌≤◌, ◌<◌, ◌≡◌, refl, sym, ap, subst, ◌∙◌, false, ◌||◌, some, List,
  [], ◌∷◌, ◌++◌, length, ◌==◌, if◌then◌else◌, arith, Bool-cases, inl, inr, ◌⊎◌,
}
use mathlib.Core.List.{append_assoc}
use native.Mathlib.Decide.{ℕ_discrete}
use afriyie_os.Task.State.{Kernel, level}
use afriyie_os.Task.Switch.{reschedule}
use afriyie_os.Task.Calls.{charge, sched_tick}
use afriyie_os.Task.Invariant.{IsValid, Popped, queued-IsRunnable}
use afriyie_os.Task.Steps.{ticked, sched_tick-charge, charged-IsValid, ticked-IsValid}
use afriyie_os.Task.Alike.{IsValid-Alike}
use afriyie_os.Task.Moves.{reschedule-IsValid}
use afriyie_os.Task.Priority.{reschedule-Switched}
use afriyie_os.Task.Woken.{Asleep, ticked-Woken, charge-Woken}

-- Thread `t` waits behind `n` others at level `p`, and no thread above that level is running, waiting or
-- asleep.
pub record Waits (k : Kernel) (c i p t n : ℕ) : Type 0 where
  pub valid : IsValid k c i
  pub low : p < 8
  pub place : (xs : List ℕ) × (ys : List ℕ) × (k.runq p ≡ xs ++ (t ∷ ys)) × (length xs ≡ n)
  pub above : (r : ℕ) → r < p → k.runq r ≡ []
  pub own : p ≤ level (k.thread c)
  pub asleep : Asleep k p

charged-Waits :
    (k : Kernel) (c i p t n : ℕ)
    → Waits k c i p t n
    → Waits (charge (ticked k) c) c i p t n
      × (((charge (ticked k) c).thread c).time_slice ≡ (k.thread c).time_slice - 1)
charged-Waits k c i p t n h =
    let w = ticked-Woken k p h.asleep in
    let (same, priorities, states, slice) = charge-Woken (ticked k) c in
    let (xs, ys, at, len) = h.place in
    let (zs, more) = w.longer p in
    (
      record {
        valid = charged-IsValid k c i h.valid;
        low = h.low;
        place = (
          xs,
          ys ++ zs,
          ap (λ f. f p) same ∙ more ∙ ap (λ l. l ++ zs) at ∙ append_assoc xs (t ∷ ys) zs,
          len,
        );
        above = λ r lt. ap (λ f. f r) same ∙ w.above r lt ∙ h.above r lt;
        own = ground (arith, h.own, priorities c, w.priorities c);
        asleep = λ u s.
            ground
              (arith, h.asleep u (w.sleepers u (sym (states u) ∙ s)), priorities u, w.priorities u);
      },
      slice ∙ ap (λ m. m - 1) (w.slices c),
    )

-- After a switch the thread runs, or is one place further on.
switched-Waits :
    (k : Kernel) (c i p t n : ℕ)
    → Waits k c i p t n
    → ((n ≡ 0) × ((reschedule k).current ≡ some t))
      ⊎ ((c' : ℕ) × (m : ℕ) × (n ≡ m + 1)
          × Waits (reschedule k) c' i p t m
          × (((reschedule k).thread c').time_slice ≡ 2))
switched-Waits k c i p t n h = let (xs, ys, at, len) = h.place in go xs ys at len
  where
    popped : (x : ℕ) (rest : List ℕ) → k.runq p ≡ x ∷ rest → Popped k 0 8 x rest p
    popped x rest e = record {
      low = omega arith;
      high = h.low;
      head = e;
      before = λ r lo hi. h.above r hi;
    }

    go :
        (xs ys : List ℕ)
        → k.runq p ≡ xs ++ (t ∷ ys)
        → length xs ≡ n
        → ((n ≡ 0) × ((reschedule k).current ≡ some t))
          ⊎ ((c' : ℕ) × (m : ℕ) × (n ≡ m + 1)
              × Waits (reschedule k) c' i p t m
              × (((reschedule k).thread c').time_slice ≡ 2))
    go [] ys at len =
        inl (sym len, (reschedule-Switched k c i t p ys h.valid (popped t ys at)).current)
    go (x ∷ xs) ys at len =
        let s =
          reschedule-Switched k c i x p (xs ++ (t ∷ ys)) h.valid (popped x (xs ++ (t ∷ ys)) at) in
        let (c', v) = reschedule-IsValid k c i h.valid.held (inl h.valid.runs) in
        let same : c' ≡ x = ground (arith, v.held.current, s.current) in
        let (ne, waiting, at_level) =
          queued-IsRunnable k c x p (xs ++ (t ∷ ys)) h.valid.held.queues at h.low in
        inr (
          x,
          length xs,
          omega (arith, len),
          record {
            valid = subst (λ z. IsValid (reschedule k) z i) same v;
            low = h.low;
            place = elim (ℕ_discrete p (level (k.thread c))) [
              | yes e ↦ (
                xs,
                ys ++ (c ∷ []),
                s.runq p ∙ ground (arith, e) ∙ append_assoc xs (t ∷ ys) (c ∷ []),
                refl,
              )
              | no other ↦ (xs, ys, s.runq p ∙ ground (arith, other), refl)
            ];
            above = λ r lt. ground (arith, s.runq r, h.above r lt, h.own);
            own = ground (arith, s.priorities x, at_level);
            asleep = λ u sleeps. ground (arith, s.states u, s.priorities u, h.asleep u, sleeps);
          },
          s.slice,
        )

-- The timer ticks `m` times.
abbrev pub ticks_on : ℕ → Kernel → Kernel
ticks_on zero k = k
ticks_on (suc m) k = ticks_on m (sched_tick k)

-- The ticks that are left of a slice; a slice that is used up still ends at the next tick.
abbrev pub slice_left : ℕ → ℕ
slice_left zero = 1
slice_left (suc s) = suc s

unmarked-Waits :
    (k : Kernel) (c i p t n : ℕ)
    → Waits k c i p t n
    → Waits (record k { need_resched = false }) c i p t n
unmarked-Waits k c i p t n h = record {
  valid =
      IsValid-Alike k (record k { need_resched = false }) c i
        (record {
          states = λ u. refl;
          priorities = λ u. refl;
          current = refl;
          self = refl;
          idle = refl;
          runq = λ r. refl;
          zombies = refl;
        })
        h.valid;
  low = h.low;
  place = h.place;
  above = h.above;
  own = h.own;
  asleep = h.asleep;
}

tick-Waits :
    (k : Kernel) (c i p t n : ℕ)
    → Waits k c i p t n
    → ((n ≡ 0) × ((sched_tick k).current ≡ some t))
      ⊎ ((c' : ℕ) × (m : ℕ) × Waits (sched_tick k) c' i p t m
          × (slice_left ((sched_tick k).thread c').time_slice + 2 * m
              < slice_left (k.thread c).time_slice + 2 * n))
tick-Waits k c i p t n h =
    let k2 : Kernel = charge (ticked k) c in
    let k3 : Kernel = record k2 { need_resched = false } in
    let (h2, slice) = charged-Waits k c i p t n h in
    let out = sched_tick-charge k (ticked k) c refl (ticked-IsValid k c i h.valid).held.current in
    elim (Bool-cases (((k2.thread c).time_slice == 0) || k2.need_resched)) [
      | inl e ↦
          let moves : sched_tick k ≡ reschedule k3 =
            out ∙ ap (λ b. if b then reschedule k3 else k2) e in
          elim (switched-Waits k3 c i p t n (unmarked-Waits k2 c i p t n h2)) [
            | inl (last, at) ↦ inl (last, ap (λ (s : Kernel). s.current) moves ∙ at)
            | inr (c', m, shorter, h', full) ↦
                let z =
                  subst
                    (λ (s : Kernel).
                      Waits s c' i p t m
                      × (slice_left (s.thread c').time_slice + 2 * m
                          < slice_left (k.thread c).time_slice + 2 * n))
                    (sym moves) (h', ground (arith, full, shorter)) in
                inr (c', m, z.0, z.1)
          ]
      | inr e ↦
          let stays : sched_tick k ≡ k2 = out ∙ ap (λ b. if b then reschedule k3 else k2) e in
          let z =
            subst
              (λ (s : Kernel).
                Waits s c i p t n
                × (slice_left (s.thread c).time_slice + 2 * n
                    < slice_left (k.thread c).time_slice + 2 * n))
              (sym stays) (h2, ground (arith, e, slice)) in
          inr (c, n, z.0, z.1)
    ]

turn_within :
    (left : ℕ) (k : Kernel) (c i p t n : ℕ)
    → Waits k c i p t n
    → slice_left (k.thread c).time_slice + 2 * n ≤ left
    → (m : ℕ) × (m ≤ left) × ((ticks_on m k).current ≡ some t)
turn_within zero k c i p t n h le = absurd (ground arith)
turn_within (suc left) k c i p t n h le = elim (tick-Waits k c i p t n h) [
  | inl (last, at) ↦ (1, omega arith, at)
  | inr (c', m, h', less) ↦
      let (more, few, at) =
        turn_within left (sched_tick k) c' i p t m h' (omega (arith, less, le)) in
      (suc more, omega (arith, few), at)
]

-- A thread with `n` others before it at its level has the processor after at most two ticks for each of them
-- and what is left of the running thread's slice, if no thread of a higher level is running, waiting or
-- asleep: the timer preempts, and the turns go round.
pub turn_comes :
    (k : Kernel) (c i p t n : ℕ)
    → Waits k c i p t n
    → (m : ℕ) × (m ≤ slice_left (k.thread c).time_slice + 2 * n) × ((ticks_on m k).current ≡ some t)
turn_comes k c i p t n h =
    turn_within (slice_left (k.thread c).time_slice + 2 * n) k c i p t n h (omega arith)
