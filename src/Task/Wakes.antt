-- ===== src/Task/Wakes.antt =====
-- Calls of kernel/core/sched.c that make threads runnable, or only write to fields that the invariant does
-- not read.
use afriyie_os.Common.{
  ℕ, zero, suc, ◌+◌, ◌≡◌, ◌≢◌, refl, subst, false, ◌&&◌, Option, none, some, leb, arith, Bool-cases,
  inl, inr,
}
use afriyie_os.Task.State.{
  Kernel, is_running, is_runnable, is_zombie, is_blocked, is_sleeping, is_created,
}
use afriyie_os.Task.Queue.{runq_push}
use afriyie_os.Task.Threads.{thread_by_tid}
use afriyie_os.Task.Calls.{wake_due, wake_from, charge, refill, sched_unblock, sched_admit}
use afriyie_os.Task.Invariant.{IsValid, push-Queues}
use afriyie_os.Task.Alike.{Alike}

-- The states in which a thread may be pushed.
abbrev pub IsParked : Kernel → ℕ → Type 0
IsParked k t =
    (is_running (k.thread t).state ≡ false)
    × (is_runnable (k.thread t).state ≡ false)
    × (is_zombie (k.thread t).state ≡ false)

pub push-IsValid :
    (k : Kernel) (t c i : ℕ) → IsParked k t → IsValid k c i → IsValid (runq_push k t) c i
unfolding runq_push
push-IsValid k t c i (not_run, not_wait, not_lie) v =
    let other : t ≢ c = λ e. ground (arith, v.runs, e) in
    record {
      held = record {
        current = v.held.current;
        self = v.held.self;
        idle = v.held.idle;
        queues = push-Queues k t c v.held.queues other not_wait;
        zombies = λ u. ground (arith, v.held.zombies u);
        room = v.held.room;
        only = λ u run. ground (arith, v.held.only u);
        ready = λ ne. ground (arith, v.held.ready ne);
      };
      runs = ground (arith, v.runs);
    }

pub wake_due-IsValid :
    (k : Kernel) (now : ℕ) (o : Option ℕ) (c i : ℕ) → IsValid k c i → IsValid (wake_due k now o) c i
unfolding wake_due
wake_due-IsValid k now none c i v = v
wake_due-IsValid k now (some t) c i v =
    elim (Bool-cases (is_sleeping (k.thread t).state && leb (k.thread t).wake_tick now)) [
      | inl e ↦ rw e (push-IsValid k t c i (ground arith) v)
      | inr e ↦ rw e v
    ]

pub wake_from-IsValid :
    (k : Kernel) (now left n c i : ℕ) → IsValid k c i → IsValid (wake_from k now left n) c i
unfolding wake_from
wake_from-IsValid k now zero n c i v = v
wake_from-IsValid k now (suc left) n c i v =
    wake_from-IsValid (wake_due k now (thread_by_tid k (n + 1))) now left (n + 1) c i
      (wake_due-IsValid k now (thread_by_tid k (n + 1)) c i v)

pub charge-Alike : (k : Kernel) (c : ℕ) → Alike k (charge k c)
unfolding charge
charge-Alike k c = record {
  states = λ u. ground arith;
  priorities = λ u. ground arith;
  current = refl;
  self = refl;
  idle = refl;
  runq = λ p. refl;
  zombies = refl;
}

pub refill-Alike : (k : Kernel) → Alike k (refill k)
unfolding refill
refill-Alike k = record {
  states = λ u. ground arith;
  priorities = λ u. ground arith;
  current = ground arith;
  self = ground arith;
  idle = ground arith;
  runq = λ p. ground arith;
  zombies = ground arith;
}

pub unblock-IsValid :
    (k : Kernel) (o : Option ℕ) (c i : ℕ) → IsValid k c i → IsValid (sched_unblock k o) c i
unfolding sched_unblock
unblock-IsValid k none c i v = v
unblock-IsValid k (some t) c i v = elim (Bool-cases (is_blocked (k.thread t).state)) [
  | inl e ↦ rw e (push-IsValid k t c i (ground arith) v)
  | inr e ↦ rw e v
]

pub admit-IsValid :
    (k : Kernel) (o : Option ℕ) (c i : ℕ) → IsValid k c i → IsValid (sched_admit k o) c i
unfolding sched_admit
admit-IsValid k none c i v = v
admit-IsValid k (some t) c i v = elim (Bool-cases (is_created (k.thread t).state)) [
  | inl e ↦
      let same : runq_push k t ≡ sched_admit k (some t) = ground (arith, v.held.idle) in
      subst (λ s. IsValid s c i) same (push-IsValid k t c i (ground arith) v)
  | inr e ↦ rw e v
]
