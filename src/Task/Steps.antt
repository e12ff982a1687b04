-- ===== src/Task/Steps.antt =====
-- Single calls of kernel/core/sched.c keep what holds between two calls.
use afriyie_os.Common.{
  ℕ, ◌+◌, ◌%◌, ◌^◌, ◌≡◌, ◌≢◌, refl, sym, ap, subst, ◌∙◌, false, ◌||◌, Option, some, length, ◌==◌,
  if◌then◌else◌, arith, Bool-cases, inl, inr,
}
use native.Mathlib.Decide.{ℕ_discrete}
use afriyie_os.Task.State.{Kernel, Thread, put_thread, zombie}
use afriyie_os.Task.Switch.{reschedule}
use afriyie_os.Task.Calls.{
  sched_wake_sleepers, charge, refill, sched_tick, sched_yield, suspend, block_mark, sched_block,
  sleep_mark, sched_sleep, thread_exit,
}
use afriyie_os.Task.Invariant.{occurs, Held, IsValid}
use afriyie_os.Task.Alike.{Held-Alike, IsValid-Alike}
use afriyie_os.Task.Moves.{reschedule-IsValid, suspend-IsValid}
use afriyie_os.Task.Wakes.{wake_from-IsValid, charge-Alike, refill-Alike}

-- Some thread runs, and the state is sound.
abbrev pub Sound : Kernel → ℕ → Type 0
Sound k i = (c : ℕ) × IsValid k c i

-- The tick up to the decision to switch.
abbrev pub ticked : Kernel → Kernel
ticked k = let now = (k.ticks + 1) % 2 ^ 64 in sched_wake_sleepers (record k { ticks = now }) now

pub sched_tick-charge :
    (k k1 : Kernel) (c : ℕ)
    → ticked k ≡ k1
    → k1.current ≡ some c
    → sched_tick k ≡ (
        if (((charge k1 c).thread c).time_slice == 0) || (charge k1 c).need_resched
        then reschedule (record (charge k1 c) { need_resched = false })
        else charge k1 c)
unfolding sched_tick
sched_tick-charge k k1 c e at = ground (arith, e, at)

pub ticked-IsValid : (k : Kernel) (c i : ℕ) → IsValid k c i → IsValid (ticked k) c i
unfolding sched_wake_sleepers
ticked-IsValid k c i v =
    let now = (k.ticks + 1) % 2 ^ 64 in
    wake_from-IsValid (record k { ticks = now }) now 1024 0 c i
      (IsValid-Alike k (record k { ticks = now }) c i
        (record {
          states = λ u. refl;
          priorities = λ u. refl;
          current = refl;
          self = refl;
          idle = refl;
          runq = λ p. refl;
          zombies = refl;
        })
        v)

pub charged-IsValid : (k : Kernel) (c i : ℕ) → IsValid k c i → IsValid (charge (ticked k) c) c i
charged-IsValid k c i v =
    IsValid-Alike (ticked k) (charge (ticked k) c) c i (charge-Alike (ticked k) c)
      (ticked-IsValid k c i v)

pub sched_tick-Sound : (k : Kernel) (c i : ℕ) → IsValid k c i → Sound (sched_tick k) i
sched_tick-Sound k c i v =
    let woken = ticked-IsValid k c i v in
    let charged = charged-IsValid k c i v in
    let out = sched_tick-charge k (ticked k) c refl woken.held.current in
    elim (Bool-cases
      ((((charge (ticked k) c).thread c).time_slice == 0) || (charge (ticked k) c).need_resched)) [
        | inl e ↦
            let k2 : Kernel = record (charge (ticked k) c) { need_resched = false } in
            let v2 =
              IsValid-Alike (charge (ticked k) c) k2 c i
                (record {
                  states = λ u. refl;
                  priorities = λ u. refl;
                  current = refl;
                  self = refl;
                  idle = refl;
                  runq = λ p. refl;
                  zombies = refl;
                })
                charged in
            subst (λ s. Sound s i)
              (sym (out ∙ ap (λ b. if b then reschedule k2 else charge (ticked k) c) e))
              (reschedule-IsValid k2 c i v2.held (inl v2.runs))
        | inr e ↦
            subst (λ s. Sound s i)
              (sym (
                out
                ∙ ap
                    (λ b.
                      if b
                      then reschedule (record (charge (ticked k) c) { need_resched = false })
                      else charge (ticked k) c)
                    e))
              (c, charged)
      ]

pub sched_yield-Sound : (k : Kernel) (c i : ℕ) → IsValid k c i → Sound (sched_yield k) i
unfolding sched_yield
sched_yield-Sound k c i v =
    let v' = IsValid-Alike k (refill k) c i (refill-Alike k) v in
    reschedule-IsValid (refill k) c i v'.held (inl v'.runs)

-- A thread that stops running without leaving the processor yet.
stopped-Held :
    (k k' : Kernel) (c i : ℕ)
    → IsValid k c i
    → k'.current ≡ k.current
    → k'.self ≡ k.self
    → k'.idle ≡ k.idle
    → ((p : ℕ) → k'.runq p ≡ k.runq p)
    → k'.zombies ≡ k.zombies
    → ((u : ℕ) → u ≢ c → k'.thread u ≡ k.thread u)
    → Held k' c i
stopped-Held k k' c i v at own idle runq zombies others = record {
  current = at ∙ v.held.current;
  self = own ∙ v.held.self;
  idle = idle ∙ v.held.idle;
  queues = λ u p lt. ground (arith, v.held.queues u p lt, ap (occurs u) (runq p), others u);
  zombies = λ u. ground (arith, v.held.zombies u, ap (occurs u) zombies, others u);
  room = ground (arith, ap length zombies, v.held.room);
  only = λ u run. elim (ℕ_discrete u c) [
    | yes e ↦ e
    | no ne ↦ v.held.only u (sym (ap (λ (t : Thread). t.state) (others u ne)) ∙ run)
  ];
  ready = λ ne. ap (λ (t : Thread). t.state) (others i ne) ∙ v.held.ready ne;
}

pub block_mark-Held :
    (k : Kernel) (c i : ℕ) (obj : Option ℕ) → IsValid k c i → Held (block_mark k c obj) c i
unfolding block_mark
block_mark-Held k c i obj v =
    stopped-Held k (block_mark k c obj) c i v refl refl refl (λ p. refl) refl (λ u ne. ground arith)

pub sleep_mark-Held : (k : Kernel) (c i n : ℕ) → IsValid k c i → Held (sleep_mark k c n) c i
unfolding sleep_mark
sleep_mark-Held k c i n v =
    stopped-Held k (sleep_mark k c n) c i v refl refl refl (λ p. refl) refl (λ u ne. ground arith)

pub sched_block-cases :
    (k : Kernel) (obj : Option ℕ) (c i : ℕ)
    → k.current ≡ some c
    → k.idle ≡ some i
    → sched_block k obj ≡ (if i == c then k else suspend (block_mark k c obj) c)
unfolding sched_block
sched_block-cases k obj c i at idle = ground (arith, at, idle)

pub sched_block-Sound :
    (k : Kernel) (obj : Option ℕ) (c i : ℕ) → IsValid k c i → Sound (sched_block k obj) i
unfolding block_mark
sched_block-Sound k obj c i v =
    let out = sched_block-cases k obj c i v.held.current v.held.idle in
    elim (ℕ_discrete i c) [
      | yes e ↦ subst (λ s. Sound s i) (sym (out ∙ ground (arith, e))) (c, v)
      | no ne ↦
          subst (λ s. Sound s i) (sym (out ∙ ground (arith, ne)))
            (suspend-IsValid (block_mark k c obj) c i (block_mark-Held k c i obj v)
              (λ e. ne (sym e)) (ground arith) (ground arith) (ground arith))
    ]

pub sched_sleep-cases :
    (k : Kernel) (n c i : ℕ)
    → k.current ≡ some c
    → k.idle ≡ some i
    → sched_sleep k n ≡ (if (i == c) || (n == 0) then k else suspend (sleep_mark k c n) c)
unfolding sched_sleep
sched_sleep-cases k n c i at idle = ground (arith, at, idle)

pub sched_sleep-Sound : (k : Kernel) (n c i : ℕ) → IsValid k c i → Sound (sched_sleep k n) i
unfolding sleep_mark
sched_sleep-Sound k n c i v =
    let out = sched_sleep-cases k n c i v.held.current v.held.idle in
    elim (Bool-cases ((i == c) || (n == 0))) [
      | inl e ↦ subst (λ s. Sound s i) (sym (out ∙ ground (arith, e))) (c, v)
      | inr e ↦
          subst (λ s. Sound s i) (sym (out ∙ ground (arith, e)))
            (suspend-IsValid (sleep_mark k c n) c i (sleep_mark-Held k c i n v) (ground (arith, e))
              (ground arith) (ground arith) (ground arith))
    ]

abbrev dying : Kernel → ℕ → Kernel
dying k c = put_thread k c (record (k.thread c) { state = zombie })

thread_exit-own : (k : Kernel) (c : ℕ) → k.self ≡ some c → thread_exit k ≡ sched_yield (dying k c)
unfolding thread_exit
thread_exit-own k c own = ground (arith, own)

pub thread_exit-Sound : (k : Kernel) (c i : ℕ) → c ≢ i → IsValid k c i → Sound (thread_exit k) i
unfolding sched_yield
thread_exit-Sound k c i ne v =
    let k1 : Kernel = dying k c in
    let h : Held k1 c i =
      stopped-Held k k1 c i v refl refl refl (λ p. refl) refl (λ u other. ground arith) in
    let a = refill-Alike k1 in
    let dies : ((refill k1).thread c).state ≡ zombie = a.states c ∙ ground arith in
    subst (λ s. Sound s i) (sym (thread_exit-own k c v.held.self))
      (reschedule-IsValid (refill k1) c i (Held-Alike k1 (refill k1) c i a h) (inr (dies, ne)))
