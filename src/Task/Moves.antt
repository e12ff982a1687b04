-- ===== src/Task/Moves.antt =====
-- The switches of kernel/core/sched.c, and its invariant.
use afriyie_os.Common.{
  ℕ, ◌<◌, ◌≡◌, ◌≢◌, refl, sym, ap, subst, ◌∙◌, false, none, some, List, ==_ne, arith, inl, inr, ◌⊎◌,
}
use native.Mathlib.Decide.{ℕ_discrete}
use afriyie_os.Task.State.{Kernel, level, running, zombie, is_running, is_runnable, is_zombie}
use afriyie_os.Task.Queue.{runq_pop_highest, shrink}
use afriyie_os.Task.Switch.{pick_next, leave, enter, install, root_of, switch_to, reschedule}
use afriyie_os.Task.Calls.{suspend}
use afriyie_os.Task.Alike.{install-IsValid}
use afriyie_os.Task.Leave.{enter-IsValid, leave-Ready}
use afriyie_os.Task.Invariant.{
  occurs, Held, IsValid, Popped, pop_from-cases, pop-Queues, queued-IsRunnable,
}

pub pick_next-cases :
    (k : Kernel) (c i : ℕ)
    → Held k c i
    → is_runnable (k.thread c).state ≡ false
    → ((i ≡ c) × (runq_pop_highest k ≡ (k, none)))
      ⊎ ((t : ℕ) × (rest : List ℕ) × (q : ℕ) × Popped k 0 8 t rest q
          × (pick_next k ≡ (shrink k q rest, some t)))
unfolding pick_next runq_pop_highest
pick_next-cases k c i h out = elim (pop_from-cases k 8 0) [
  | inl (stop, empty) ↦ elim (ℕ_discrete i c) [
    | yes same ↦ inl (same, stop)
    | no ne ↦
        let p = level (k.thread i) in
        let below : p < 8 = ground arith in
        absurd (
          ground
            (arith, h.ready ne, h.queues i p below, ap (occurs i) (empty p (omega arith) below)))
  ]
  | inr (t, rest, q, f, found) ↦
      inr (t, rest, q, f, rw (pick_next, runq_pop_highest, found, found) refl)
]

pub pick_next-own :
    (k : Kernel) (c : ℕ)
    → k.current ≡ some c
    → (k.thread c).state ≡ running
    → runq_pop_highest k ≡ (k, none)
    → pick_next k ≡ (k, some c)
unfolding pick_next
pick_next-own k c at run stop = ground (arith, stop)

pub switch_to-own : (k : Kernel) (c : ℕ) → k.current ≡ some c → switch_to k (some c) ≡ k
unfolding switch_to
switch_to-own k c at = ground arith

-- The state after the switch, before the page tables.
abbrev pub entered : Kernel → ℕ → Kernel
entered k t = enter (leave k) t

pub switch_to-other :
    (k : Kernel) (c t : ℕ)
    → k.current ≡ some c
    → t ≢ c
    → switch_to k (some t)
      ≡ install (entered k t) (root_of (entered k t) ((entered k t).thread t).process)
unfolding switch_to
switch_to-other k c t at ne = ground arith

pub reschedule-IsValid :
    (k : Kernel) (c i : ℕ)
    → Held k c i
    → ((k.thread c).state ≡ running) ⊎ (((k.thread c).state ≡ zombie) × (c ≢ i))
    → (c' : ℕ) × IsValid (reschedule k) c' i
unfolding reschedule
reschedule-IsValid k c i h how =
    let out : is_runnable (k.thread c).state ≡ false = ground arith in
    elim (pick_next-cases k c i h out) [
      | inl (same, stop) ↦
          let run : (k.thread c).state ≡ running = ground arith in
          let stays : reschedule k ≡ k =
            ap (λ z. switch_to z.0 z.1) (pick_next-own k c h.current run stop)
            ∙ switch_to-own k c h.current in
          (c, subst (λ s. IsValid s c i) (sym stays) (record { held = h; runs = run }))
      | inr (t, rest, q, f, e) ↦
          let s : Kernel = shrink k q rest in
          let (ne, waiting, at) = queued-IsRunnable k c t q rest h.queues f.head f.high in
          let moves = ap (λ z. switch_to z.0 z.1) e ∙ switch_to-other s c t h.current ne in
          (
            t,
            subst (λ s'. IsValid s' t i) (sym moves)
                (install-IsValid (entered s t)
                  (root_of (entered s t) ((entered s t).thread t).process) t i
                  (enter-IsValid (leave s) t i (leave-Ready k c t i q rest h f how))),
          )
    ]

-- A thread that blocks or sleeps hands over to the first thread that waits.
pub suspend-next :
    (k : Kernel) (s i : ℕ)
    → Held k s i
    → s ≢ i
    → is_runnable (k.thread s).state ≡ false
    → (t : ℕ) × (rest : List ℕ) × (q : ℕ) × Popped k 0 8 t rest q
      × (suspend k s ≡ enter (shrink k q rest) t)
unfolding suspend
suspend-next k s i h ne waits_not = elim (pick_next-cases k s i h waits_not) [
  | inl (same, stop) ↦ absurd (ne (sym same))
  | inr (t, rest, q, f, e) ↦
      let (other, waiting, at) = queued-IsRunnable k s t q rest h.queues f.head f.high in
      (t, rest, q, f, ground (arith, e, ==_ne t s other))
]

pub suspend-IsValid :
    (k : Kernel) (s i : ℕ)
    → Held k s i
    → s ≢ i
    → is_runnable (k.thread s).state ≡ false
    → is_zombie (k.thread s).state ≡ false
    → is_running (k.thread s).state ≡ false
    → (c' : ℕ) × IsValid (suspend k s) c' i
suspend-IsValid k s i h ne waits_not lies_not runs_not =
    let (t, rest, q, f, moves) = suspend-next k s i h ne waits_not in
    let (other, waiting, at) = queued-IsRunnable k s t q rest h.queues f.head f.high in
    (
      t,
      subst (λ k'. IsValid k' t i) (sym moves)
          (enter-IsValid (shrink k q rest) t i (record {
            idle = h.idle;
            queues = pop-Queues k s t q rest h.queues f.head f.high waits_not;
            zombies = λ u. ground (arith, h.zombies u);
            room = h.room;
            quiet = λ u r. ground (arith, h.only u r);
            ready = λ e'. h.ready (λ x. ne (sym x));
          })),
    )
