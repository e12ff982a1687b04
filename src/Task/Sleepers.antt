-- ===== src/Task/Sleepers.antt =====
-- Which threads `sched_wake_sleepers` of kernel/core/sched.c wakes.
use afriyie_os.Common.{
  ℕ, zero, suc, ◌+◌, ◌≤◌, ◌<◌, ◌≡◌, refl, sym, ap, ◌∙◌, Bool, true, false, ◌&&◌, Option, none, some,
  leb, ◌==◌, if◌then◌else◌, arith, Bool-cases, inl, inr, ◌⊎◌,
}
use native.Mathlib.Decide.{ℕ_discrete}
use afriyie_os.Task.State.{Kernel, runnable, is_sleeping, level}
use afriyie_os.Task.Queue.{runq_push}
use afriyie_os.Task.Threads.{thread_by_tid}
use afriyie_os.Task.Invariant.{occurs, occurs-append}
use afriyie_os.Task.Calls.{wake_due, wake_from, sched_wake_sleepers}

-- The thread sleeps and its time has come.
abbrev pub due : Kernel → ℕ → ℕ → Bool
due k now t = is_sleeping (k.thread t).state && leb (k.thread t).wake_tick now

-- Whether thread `t` is due at the level of queue `p`.
abbrev pub joins_at : Kernel → (now t p : ℕ) → ℕ
joins_at k now t p = if due k now t && (level (k.thread t) == p) then 1 else 0

-- What a round does to a thread: it wakes and joins its queue, or is left alone; the table stays.
record Rounded (k k' : Kernel) (now t p : ℕ) : Type 0 where
  table : k'.table ≡ k.table
  wake_tick : (k'.thread t).wake_tick ≡ (k.thread t).wake_tick
  level_kept : level (k'.thread t) ≡ level (k.thread t)
  state :
      (((k'.thread t).state ≡ (k.thread t).state) × (occurs t (k'.runq p) ≡ occurs t (k.runq p)))
      ⊎ ((due k now t ≡ true)
          × ((k'.thread t).state ≡ runnable)
          × (occurs t (k'.runq p) ≡ occurs t (k.runq p) + joins_at k now t p))

wake_due-Rounded :
    (k : Kernel) (now : ℕ) (o : Option ℕ) (t p : ℕ) → Rounded k (wake_due k now o) now t p
unfolding wake_due runq_push
wake_due-Rounded k now none t p = record {
  table = refl;
  wake_tick = refl;
  level_kept = refl;
  state = inl (refl, refl);
}
wake_due-Rounded k now (some x) t p = elim (Bool-cases (due k now x)) [
  | inl e ↦ rw e (record {
    table = refl;
    wake_tick = ground arith;
    level_kept = ground arith;
    state = elim (ℕ_discrete t x) [
      | yes same ↦
          let is_due : due k now t ≡ true = ap (due k now) same ∙ e in
          inr (
            is_due,
            ground (arith, same),
            ground (arith, same, is_due, occurs-append t x (k.runq (level (k.thread x)))),
          )
      | no other ↦ inl (
        ground (arith, other),
        ground (arith, other, occurs-append t x (k.runq (level (k.thread x)))),
      )
    ];
  })
  | inr e ↦
      rw e (record { table = refl; wake_tick = refl; level_kept = refl; state = inl (refl, refl) })
]

-- A thread that is not due is left alone.
wake_from-other :
    (k : Kernel) (now left n t p : ℕ)
    → due k now t ≡ false
    → (((wake_from k now left n).thread t).state ≡ (k.thread t).state)
      × (occurs t ((wake_from k now left n).runq p) ≡ occurs t (k.runq p))
unfolding wake_from
wake_from-other k now zero n t p h = (refl, refl)
wake_from-other k now (suc left) n t p h =
    let k1 : Kernel = wake_due k now (thread_by_tid k (n + 1)) in
    let r = wake_due-Rounded k now (thread_by_tid k (n + 1)) t p in
    let same : ((k1.thread t).state ≡ (k.thread t).state)
        × (occurs t (k1.runq p) ≡ occurs t (k.runq p)) =
      elim r.state [ inl kept ↦ kept | inr (woke, run, more) ↦ absurd (ground (arith, h, woke)) ] in
    let (rest, rest_queue) =
      wake_from-other k1 now left (n + 1) t p (ground (arith, same.0, r.wake_tick, h)) in
    (rest ∙ same.0, rest_queue ∙ same.1)

wake_due-own :
    (k : Kernel) (now t : ℕ)
    → due k now t ≡ true
    → ((wake_due k now (some t)).thread t).state ≡ runnable
unfolding wake_due runq_push
wake_due-own k now t d = rw d (ground arith)

by_tid-table : (k : Kernel) (n : ℕ) → n < 1024 → thread_by_tid k (n + 1) ≡ k.table n
unfolding thread_by_tid
by_tid-table k n lt = ground (arith, ap k.table)

-- The round of its slot wakes a thread that is due.
wake_from-due :
    (k : Kernel) (now left n j t p : ℕ)
    → n ≤ j
    → j < n + left
    → n + left ≤ 1024
    → k.table j ≡ some t
    → due k now t ≡ true
    → (((wake_from k now left n).thread t).state ≡ runnable)
      × (occurs t ((wake_from k now left n).runq p) ≡ occurs t (k.runq p) + joins_at k now t p)
unfolding wake_from
wake_from-due k now zero n j t p lo hi small at d = absurd (omega arith)
wake_from-due k now (suc left) n j t p lo hi small at d =
    let k1 : Kernel = wake_due k now (thread_by_tid k (n + 1)) in
    let r = wake_due-Rounded k now (thread_by_tid k (n + 1)) t p in
    elim r.state [
      | inr (was, woke, more) ↦
          let (state, queue) = wake_from-other k1 now left (n + 1) t p (ground (arith, woke)) in
          (state ∙ woke, queue ∙ more)
      | inl (same, kept) ↦ elim (ℕ_discrete j n) [
        | yes here ↦
            let found : thread_by_tid k (n + 1) ≡ some t =
              by_tid-table k n (omega arith) ∙ ap k.table (sym here) ∙ at in
            let woke : (k1.thread t).state ≡ runnable =
              ap (λ (o : Option ℕ). ((wake_due k now o).thread t).state) found
              ∙ wake_due-own k now t d in
            absurd (ground (arith, same, woke, d))
        | no later ↦
            let still : due k1 now t ≡ true = ground (arith, same, r.wake_tick, d) in
            let (state, queue) =
              wake_from-due k1 now left (n + 1) j t p (omega (arith, later)) (omega arith)
                (omega arith) (ap (λ f. f j) r.table ∙ at) still in
            (state, ground (arith, queue, kept, still, d, r.level_kept))
      ]
    ]

pub wakes :
    (k : Kernel) (now j t p : ℕ)
    → j < 1024
    → k.table j ≡ some t
    → due k now t ≡ true
    → let k' = sched_wake_sleepers k now in
      ((k'.thread t).state ≡ runnable)
      × (occurs t (k'.runq p) ≡ occurs t (k.runq p) + (if level (k.thread t) == p then 1 else 0))
unfolding sched_wake_sleepers
wakes k now j t p lt at d =
    let (state, queue) = wake_from-due k now 1024 0 j t p (omega arith) lt (omega arith) at d in
    (state, ground (arith, queue, d))
