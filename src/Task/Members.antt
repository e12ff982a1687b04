-- ===== src/Task/Members.antt =====
-- Creation of threads and the calls of processes, and the scheduler's invariant.
use afriyie_os.Common.{
  ℕ, zero, suc, ◌+◌, ◌%◌, ◌^◌, ◌≡◌, ◌≢◌, refl, subst, ◌∙◌, Bool, true, false, Option, none, some,
  leb, ◌==◌, if◌then◌else◌, update, arith, Bool-cases, Option-cases, inl, inr, ◌⊎◌,
}
use afriyie_os.Task.State.{
  Kernel, Thread, put_thread, put_process, perform, unused, dead, created, is_alive, zero_thread,
  frames_freed, frames_asked, thread_freed, prio_levels, prio_default, time_slice_ticks,
}
use afriyie_os.Task.Process.{
  process_reap, process_create, process_attach_thread, process_current, slot_for_pid,
}
use afriyie_os.Task.Threads.{
  register_from, register_thread, thread_create, stack_bytes, stack_frames,
}
use afriyie_os.Task.Switch.{sched_set_process, set_current_process, root_of}
use afriyie_os.Task.Calls.{
  sched_unblock, thread_exit, process_ended, process_exit, wait_round, process_wait,
}
use afriyie_os.Task.Invariant.{IsValid}
use afriyie_os.Task.Alike.{Alike, IsValid-Alike, install-IsValid}
use afriyie_os.Task.Teardown.{Alike-refl, process-Alike, process_reap-Alike}
use afriyie_os.Task.Wakes.{unblock-IsValid, IsParked}
use afriyie_os.Task.Steps.{Sound, sched_block-Sound, thread_exit-Sound}

-- A structure of a thread that is neither queued nor running is written.
park-IsValid :
    (k : Kernel) (t c i : ℕ) (v : Thread)
    → IsParked k t
    → IsParked (put_thread k t v) t
    → IsValid k c i
    → IsValid (put_thread k t v) c i
park-IsValid k t c i v (run, wait, lie) (run', wait', lie') h = record {
  held = record {
    current = h.held.current;
    self = h.held.self;
    idle = h.held.idle;
    queues = λ u p lt. ground (arith, h.held.queues u p lt);
    zombies = λ u. ground (arith, h.held.zombies u);
    room = h.held.room;
    only = λ u r. ground (arith, h.held.only u);
    ready = λ ne. ground (arith, h.held.ready ne);
  };
  runs = ground (arith, h.runs);
}

register_from-Alike : (k : Kernel) (t left n : ℕ) → Alike k (register_from k t left n).0
unfolding register_from
register_from-Alike k t zero n = Alike-refl k
register_from-Alike k t (suc left) n = elim (Option-cases (k.table n)) [
  | inl e ↦
      let slot : Kernel = record (put_thread k t (record (k.thread t) { tid = n + 1 })) {
        table = update k.table n (some t);
        registered = (k.registered + 1) % 2 ^ 32;
      } in
      let same : slot ≡ (register_from k t (suc left) n).0 = ground (arith, e) in
      subst (Alike k) same (record {
        states = λ u. ground arith;
        priorities = λ u. ground arith;
        current = refl;
        self = refl;
        idle = refl;
        runq = λ p. refl;
        zombies = refl;
      })
  | inr (x, e) ↦
      let same : (register_from k t left (n + 1)).0 ≡ (register_from k t (suc left) n).0 =
        ground (arith, e) in
      subst (Alike k) same (register_from-Alike k t left (n + 1))
]

abbrev pub IsFresh : Kernel → Option ℕ → Type 0
IsFresh k none = Unit
IsFresh k (some t) = ((k.thread t).state ≡ unused) ⊎ ((k.thread t).state ≡ dead)

pub wait_round-Sound : (k : Kernel) (child c i : ℕ) → IsValid k c i → Sound (wait_round k child).0 i
unfolding wait_round
wait_round-Sound k child c i v = elim (Bool-cases (is_alive (k.procs child).status)) [
  | inl e ↦
      let k1 : Kernel = put_process k child (record (k.procs child) { waiter = k.self }) in
      rw e (
        sched_block-Sound k1 (some child) c i (
          IsValid-Alike k k1 c i
            (process-Alike k child (record (k.procs child) { waiter = k.self })) v))
  | inr e ↦ rw e (c, IsValid-Alike k (process_reap k child) c i (process_reap-Alike k child) v)
]

pub process_wait-Sound : (k : Kernel) (pid c i : ℕ) → IsValid k c i → Sound (process_wait k pid).0 i
unfolding process_wait
process_wait-Sound k pid c i v = elim (Option-cases (slot_for_pid k pid)) [
  | inl e ↦
      let same : k ≡ (process_wait k pid).0 = ground (arith, e) in
      subst (λ s. Sound s i) same (c, v)
  | inr (child, e) ↦ elim (Option-cases (process_current k)) [
    | inl own ↦
        let same : k ≡ (process_wait k pid).0 = ground (arith, e, own) in
        subst (λ s. Sound s i) same (c, v)
    | inr (p, own) ↦ elim (Bool-cases ((k.procs child).parent == (k.procs p).pid)) [
      | inl yes_child ↦
          let same : (wait_round k child).0 ≡ (process_wait k pid).0 =
            ground (arith, e, own, yes_child) in
          subst (λ s. Sound s i) same (wait_round-Sound k child c i v)
      | inr not_child ↦
          let same : k ≡ (process_wait k pid).0 = ground (arith, e, own, not_child) in
          subst (λ s. Sound s i) same (c, v)
    ]
  ]
]

pub process_exit-Sound :
    (k : Kernel) (code c i : ℕ) → c ≢ i → IsValid k c i → Sound (process_exit k code) i
unfolding process_exit process_ended
process_exit-Sound k code c i ne v = elim (Option-cases (process_current k)) [
  | inl e ↦
      let same : thread_exit k ≡ process_exit k code = ground (arith, e) in
      subst (λ s. Sound s i) same (thread_exit-Sound k c i ne v)
  | inr (p, e) ↦
      let k1 : Kernel = sched_unblock k (k.procs p).waiter in
      let same : thread_exit (process_ended k p code) ≡ process_exit k code = ground (arith, e) in
      subst (λ s. Sound s i) same
        (thread_exit-Sound (process_ended k p code) c i ne (
          IsValid-Alike k1 (process_ended k p code) c i (process-Alike k1 p _)
            (unblock-IsValid k (k.procs p).waiter c i v)))
]

pub thread_create-Sound :
    (k : Kernel) (entry : Bool) (memory stack : Option ℕ) (size priority c i : ℕ)
    → IsFresh k memory
    → IsValid k c i
    → Sound (thread_create k entry memory stack size priority).0 i
unfolding thread_create register_thread
thread_create-Sound k false memory stack size priority c i f v = (c, v)
thread_create-Sound k true none stack size priority c i f v = (c, v)
thread_create-Sound k true (some t) none size priority c i f v = (
  c,
  IsValid-Alike (put_thread k t zero_thread) _ c i
      (record {
        states = λ u. refl;
        priorities = λ u. refl;
        current = refl;
        self = refl;
        idle = refl;
        runq = λ p. refl;
        zombies = refl;
      })
      (park-IsValid k t c i zero_thread (ground arith) (ground arith) v),
)
thread_create-Sound k true (some t) (some base) size priority c i f v =
    let k1 : Kernel = put_thread k t zero_thread in
    let v1 = park-IsValid k t c i zero_thread (ground arith) (ground arith) v in
    let k1' : Kernel = perform k1 (frames_asked (stack_frames size)) in
    let a = register_from-Alike k1' t 1024 0 in
    let asked : Alike k1 k1' = record {
      states = λ u. refl;
      priorities = λ u. refl;
      current = refl;
      self = refl;
      idle = refl;
      runq = λ p. refl;
      zombies = refl;
    } in
    let v2 =
      IsValid-Alike k1' (register_from k1' t 1024 0).0 c i a (IsValid-Alike k1 k1' c i asked v1) in
    elim (Bool-cases ((register_from k1' t 1024 0).1 == 0)) [
      | inl full ↦
          let k2 : Kernel = (register_from k1' t 1024 0).0 in
          let back : Kernel =
            perform (perform k2 (frames_freed base (stack_frames size))) (thread_freed t) in
          let same : back ≡ (thread_create k true (some t) (some base) size priority).0 =
            ground (arith, full) in
          subst (λ s. Sound s i) same
            (
              c,
              IsValid-Alike k2 back c i
                  (record {
                    states = λ u. refl;
                    priorities = λ u. refl;
                    current = refl;
                    self = refl;
                    idle = refl;
                    runq = λ p. refl;
                    zombies = refl;
                  })
                  v2,
            )
      | inr found ↦
          let k2 : Kernel = (register_from k1' t 1024 0).0 in
          let made : Thread = record (k2.thread t) {
            stack_base = some base;
            stack_size = stack_bytes size % 2 ^ 32;
            state = created;
            priority = if leb prio_levels priority then prio_default else priority;
            time_slice = time_slice_ticks;
            wait_obj = none;
          } in
          let same : put_thread k2 t made
              ≡ (thread_create k true (some t) (some base) size priority).0 =
            ground (arith, found) in
          let parked : (k2.thread t).state ≡ unused = a.states t ∙ ground arith in
          subst (λ s. Sound s i) same
            (c, park-IsValid k2 t c i made (ground arith) (ground arith) v2)
    ]

set_current-Alike : (k : Kernel) (p : Option ℕ) → Alike k (set_current_process k p)
unfolding set_current_process
set_current-Alike k p = record {
  states = λ u. ground arith;
  priorities = λ u. ground arith;
  current = ground arith;
  self = ground arith;
  idle = ground arith;
  runq = λ p. ground arith;
  zombies = ground arith;
}

pub set_process-IsValid :
    (k : Kernel) (p : Option ℕ) (c i : ℕ) → IsValid k c i → IsValid (sched_set_process k p) c i
unfolding sched_set_process
set_process-IsValid k p c i v =
    let k' : Kernel = set_current_process k p in
    install-IsValid k' (root_of k' p) c i (IsValid-Alike k k' c i (set_current-Alike k p) v)

pub attach-Alike : (k : Kernel) (p t : Option ℕ) → Alike k (process_attach_thread k p t)
unfolding process_attach_thread
attach-Alike k none t = Alike-refl k
attach-Alike k (some p) none = Alike-refl k
attach-Alike k (some p) (some t) = record {
  states = λ u. ground arith;
  priorities = λ u. ground arith;
  current = refl;
  self = refl;
  idle = refl;
  runq = λ p. refl;
  zombies = refl;
}

pub process_create-Alike :
    (k : Kernel) (parent space : ℕ) (caps : Option ℕ)
    → Alike k (process_create k parent space caps).0
unfolding process_create
process_create-Alike k parent space caps = record {
  states = λ u. ground arith;
  priorities = λ u. ground arith;
  current = ground arith;
  self = ground arith;
  idle = ground arith;
  runq = λ p. ground arith;
  zombies = ground arith;
}
