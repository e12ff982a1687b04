-- ===== src/Task/Histories.antt =====
-- Histories of calls of kernel/core/sched.c, thread.c and process.c.
use afriyie_os.Common.{
  ℕ, ◌≡◌, ◌≢◌, refl, ap, subst, ◌∙◌, Bool, Option, none, some, [], length, arith,
}
use afriyie_os.Task.State.{Kernel, put_thread, running, created}
use afriyie_os.Task.Process.{
  process_create, process_attach_thread, process_detach_thread, process_reap,
}
use afriyie_os.Task.Threads.{thread_create}
use afriyie_os.Task.Queue.{runq_push}
use afriyie_os.Task.Switch.{sched_collect_zombies, sched_set_process}
use afriyie_os.Task.Calls.{
  sched_init, sched_admit, sched_tick, sched_yield, sched_block, sched_sleep, sched_unblock,
  thread_exit, process_exit, process_wait, wait_round, block_resumed, sleep_resumed,
}
use afriyie_os.Task.Invariant.{occurs, occurs-append, IsValid}
use afriyie_os.Task.Alike.{IsValid-Alike}
use afriyie_os.Task.Wakes.{IsParked, unblock-IsValid, admit-IsValid}
use afriyie_os.Task.Steps.{
  Sound, sched_tick-Sound, sched_yield-Sound, sched_block-Sound, sched_sleep-Sound,
  thread_exit-Sound,
}
use afriyie_os.Task.Teardown.{detach-Alike, process_reap-Alike}
use afriyie_os.Task.Collect.{collect-IsValid}
use afriyie_os.Task.Members.{
  IsFresh, process_wait-Sound, wait_round-Sound, process_exit-Sound, thread_create-Sound,
  set_process-IsValid, attach-Alike, process_create-Alike,
}

-- The caller is not the idle thread, which has no end.
abbrev pub IsOther : Kernel → Type 0
IsOther k = (c i : ℕ) → k.current ≡ some c → k.idle ≡ some i → c ≢ i

-- One call of the running thread, or of the timer, up to its switch, without a tick in its midst; or what a thread
-- does when it runs again after the switch of `sched_block` or `sched_sleep`, or goes round in `process_wait`.
pub data Step : Kernel → Kernel → Type 0 where
  ticks : (k : Kernel) → Step k (sched_tick k)
  yields : (k : Kernel) → Step k (sched_yield k)
  stops : (k : Kernel) (obj : Option ℕ) → Step k (sched_block k obj)
  sleeps : (k : Kernel) (n : ℕ) → Step k (sched_sleep k n)
  unblocks : (k : Kernel) (t : Option ℕ) → Step k (sched_unblock k t)
  admits : (k : Kernel) (t : Option ℕ) → Step k (sched_admit k t)
  exits : (k : Kernel) → IsOther k → Step k (thread_exit k)
  ends : (k : Kernel) (code : ℕ) → IsOther k → Step k (process_exit k code)
  waits_for : (k : Kernel) (pid : ℕ) → Step k (process_wait k pid).0
  collects : (k : Kernel) → Step k (sched_collect_zombies k)
  makes :
      (k : Kernel) (entry : Bool) (memory stack : Option ℕ) (size priority : ℕ)
      → IsFresh k memory
      → Step k (thread_create k entry memory stack size priority).0
  founds :
      (k : Kernel) (parent space : ℕ) (caps : Option ℕ)
      → Step k (process_create k parent space caps).0
  joins : (k : Kernel) (p t : Option ℕ) → Step k (process_attach_thread k p t)
  moves : (k : Kernel) (p : Option ℕ) → Step k (sched_set_process k p)
  leaves : (k : Kernel) (t : ℕ) → Step k (process_detach_thread k t)
  reaps : (k : Kernel) (p : ℕ) → Step k (process_reap k p)
  runs_on : (k : Kernel) (s : ℕ) → k.current ≡ some s → Step k (block_resumed k s)
  wakes_up : (k : Kernel) (s : ℕ) → k.current ≡ some s → Step k (sleep_resumed k s)
  goes_round : (k : Kernel) (child : ℕ) → Step k (wait_round k child).0

-- A thread that has been switched to is running, so its loop ends.
block_resumed-IsValid :
    (k : Kernel) (s c i : ℕ) → k.current ≡ some s → IsValid k c i → IsValid (block_resumed k s) c i
unfolding block_resumed
block_resumed-IsValid k s c i at v =
    let same : s ≡ c = ground (arith, at, v.held.current) in
    let run : (k.thread s).state ≡ running = ap (λ (t : ℕ). (k.thread t).state) same ∙ v.runs in
    let free : Kernel = put_thread k s (record (k.thread s) { wait_obj = none }) in
    let ends : free ≡ block_resumed k s = ground (arith, run) in
    subst (λ x. IsValid x c i) ends
      (IsValid-Alike k free c i
        (record {
          states = λ u. ground arith;
          priorities = λ u. ground arith;
          current = refl;
          self = refl;
          idle = refl;
          runq = λ p. refl;
          zombies = refl;
        })
        v)

sleep_resumed-IsValid :
    (k : Kernel) (s c i : ℕ) → k.current ≡ some s → IsValid k c i → IsValid (sleep_resumed k s) c i
unfolding sleep_resumed
sleep_resumed-IsValid k s c i at v =
    let same : s ≡ c = ground (arith, at, v.held.current) in
    let run : (k.thread s).state ≡ running = ap (λ (t : ℕ). (k.thread t).state) same ∙ v.runs in
    let ends : k ≡ sleep_resumed k s = ground (arith, run) in subst (λ x. IsValid x c i) ends v

pub data History : Kernel → Kernel → Type 0 where
  rests : (k : Kernel) → History k k
  goes : (a b c : Kernel) → History a b → Step b c → History a c

Step-Sound : (k k' : Kernel) (i : ℕ) → Step k k' → Sound k i → Sound k' i
Step-Sound _ _ i (ticks k) (c, v) = sched_tick-Sound k c i v
Step-Sound _ _ i (yields k) (c, v) = sched_yield-Sound k c i v
Step-Sound _ _ i (stops k obj) (c, v) = sched_block-Sound k obj c i v
Step-Sound _ _ i (sleeps k n) (c, v) = sched_sleep-Sound k n c i v
Step-Sound _ _ i (unblocks k t) (c, v) = (c, unblock-IsValid k t c i v)
Step-Sound _ _ i (admits k t) (c, v) = (c, admit-IsValid k t c i v)
Step-Sound _ _ i (exits k o) (c, v) = thread_exit-Sound k c i (o c i v.held.current v.held.idle) v
Step-Sound _ _ i (ends k code o) (c, v) =
    process_exit-Sound k code c i (o c i v.held.current v.held.idle) v
Step-Sound _ _ i (waits_for k pid) (c, v) = process_wait-Sound k pid c i v
Step-Sound _ _ i (collects k) (c, v) = (c, (collect-IsValid k c i v).0)
Step-Sound _ _ i (makes k entry memory stack size priority f) (c, v) =
    thread_create-Sound k entry memory stack size priority c i f v
Step-Sound _ _ i (founds k parent space caps) (c, v) =
    (c, IsValid-Alike k _ c i (process_create-Alike k parent space caps) v)
Step-Sound _ _ i (joins k p t) (c, v) = (c, IsValid-Alike k _ c i (attach-Alike k p t) v)
Step-Sound _ _ i (moves k p) (c, v) = (c, set_process-IsValid k p c i v)
Step-Sound _ _ i (leaves k t) (c, v) = (c, IsValid-Alike k _ c i (detach-Alike k t) v)
Step-Sound _ _ i (reaps k p) (c, v) = (c, IsValid-Alike k _ c i (process_reap-Alike k p) v)
Step-Sound _ _ i (runs_on k s at) (c, v) = (c, block_resumed-IsValid k s c i at v)
Step-Sound _ _ i (wakes_up k s at) (c, v) = (c, sleep_resumed-IsValid k s c i at v)
Step-Sound _ _ i (goes_round k child) (c, v) = wait_round-Sound k child c i v

pub History-Sound : (k k' : Kernel) (i : ℕ) → History k k' → Sound k i → Sound k' i
History-Sound _ _ i (rests k) v = v
History-Sound _ _ i (goes a b c h s) v = Step-Sound b c i s (History-Sound a b i h v)

-- The boot thread runs, and the idle thread has been created; no other thread is on its way.
pub record IsBooted (k : Kernel) (b i : ℕ) : Type 0 where
  pub differ : b ≢ i
  pub self : k.self ≡ some b
  pub zombies : k.zombies ≡ []
  pub others : (t : ℕ) → t ≢ b → IsParked k t

-- The idle thread joins empty queues.
first_push-IsValid :
    (k : Kernel) (b i : ℕ)
    → b ≢ i
    → (k.current ≡ some b) × (k.self ≡ some b) × (k.idle ≡ some i)
    → ((p : ℕ) → k.runq p ≡ [])
    → k.zombies ≡ []
    → (k.thread b).state ≡ running
    → ((t : ℕ) → t ≢ b → IsParked k t)
    → IsValid (runq_push k i) b i
unfolding runq_push
first_push-IsValid k b i ne (at, own, idle) empty none_dead run parked = record {
  held = record {
    current = at;
    self = own;
    idle = idle;
    queues = λ u p lt.
        ground (arith, parked u, empty p, ap (occurs u) (empty p), occurs-append u i (k.runq p));
    zombies = λ u. ground (arith, ap (occurs u) none_dead, parked u);
    room = ground (arith, ap length none_dead);
    only = λ u r. ground (arith, parked u);
    ready = λ other. ground (arith, other);
  };
  runs = ground (arith, run, ne);
}

admit_created :
    (k : Kernel) (i : ℕ)
    → (k.thread i).state ≡ created
    → k.idle ≡ some i
    → runq_push k i ≡ sched_admit k (some i)
unfolding sched_admit
admit_created k i e idle = ground (arith, e, idle)

pub started-IsValid :
    (k : Kernel) (b i : ℕ)
    → IsBooted k b i
    → IsValid (sched_admit (sched_init k (some b) (some i)).0 (some i)) b i
unfolding sched_init
started-IsValid k b i h =
    let k1 : Kernel = (sched_init k (some b) (some i)).0 in
    let made : (k1.thread i).state ≡ created = ground (arith, h.differ) in
    let first : IsValid (runq_push k1 i) b i =
      first_push-IsValid k1 b i h.differ (refl, h.self, refl) (λ p. refl) h.zombies (ground arith)
        (λ t ne. ground (arith, h.others t ne)) in
    subst (λ s. IsValid s b i) (admit_created k1 i made refl) first

-- After the start of the scheduler and any sequence of the steps of `Step`, each a whole call or what a thread does when
-- it runs again, with no tick inside a call: exactly one thread is running, and it is the current one; each runnable
-- thread is in the queue of its priority, once, and no other thread is in a queue; each zombie that has left the
-- processor is in the list, and no other thread is; and the idle thread is running or runnable. The idle thread does
-- not exit, and the memory that a new thread gets is that of no live thread.
pub history_lem :
    (k k' : Kernel) (b i : ℕ)
    → IsBooted k b i
    → History (sched_admit (sched_init k (some b) (some i)).0 (some i)) k'
    → (c : ℕ) × IsValid k' c i
history_lem k k' b i h run = History-Sound _ k' i run (b, started-IsValid k b i h)
