-- ===== src/Task/Alike.antt =====
-- What the invariant reads, and what leaves it alone.
use afriyie_os.Common.{
  ℕ, zero, suc, ◌+◌, ◌<◌, ◌≡◌, refl, sym, ap, ◌∙◌, false, length, ◌==◌, if◌then◌else◌, arith,
}
use afriyie_os.Task.State.{Kernel, put_thread, has, dead}
use afriyie_os.Task.Queue.{remove_from}
use afriyie_os.Task.Threads.{thread_reap, unregister_thread, free_stack}
use afriyie_os.Task.Switch.{install}
use afriyie_os.Task.Invariant.{occurs, has-occurs, Held, IsValid}

-- What the invariant reads is the same.
pub record Alike (k k' : Kernel) : Type 0 where
  pub states : (u : ℕ) → (k'.thread u).state ≡ (k.thread u).state
  pub priorities : (u : ℕ) → (k'.thread u).priority ≡ (k.thread u).priority
  pub current : k'.current ≡ k.current
  pub self : k'.self ≡ k.self
  pub idle : k'.idle ≡ k.idle
  pub runq : (p : ℕ) → k'.runq p ≡ k.runq p
  pub zombies : k'.zombies ≡ k.zombies

pub Held-Alike : (k k' : Kernel) (c i : ℕ) → Alike k k' → Held k c i → Held k' c i
Held-Alike k k' c i a h = record {
  current = a.current ∙ h.current;
  self = a.self ∙ h.self;
  idle = a.idle ∙ h.idle;
  queues = λ u p lt.
      ground (arith, h.queues u p lt, ap (occurs u) (a.runq p), a.states u, a.priorities u);
  zombies = λ u. ground (arith, h.zombies u, ap (occurs u) a.zombies, a.states u);
  room = ground (arith, ap length a.zombies, h.room);
  only = λ u run. h.only u (sym (a.states u) ∙ run);
  ready = λ ne. a.states i ∙ h.ready ne;
}

pub IsValid-Alike : (k k' : Kernel) (c i : ℕ) → Alike k k' → IsValid k c i → IsValid k' c i
IsValid-Alike k k' c i a v = record {
  held = Held-Alike k k' c i a v.held;
  runs = a.states c ∙ v.runs;
}

pub install-IsValid : (k : Kernel) (w c i : ℕ) → IsValid k c i → IsValid (install k w) c i
unfolding install
install-IsValid k w c i v =
    IsValid-Alike k (install k w) c i
      (record {
        states = λ u. ground arith;
        priorities = λ u. ground arith;
        current = ground arith;
        self = ground arith;
        idle = ground arith;
        runq = λ p. ground arith;
        zombies = ground arith;
      })
      v

-- A thread that is in no queue is not removed.
pub remove_from-absent :
    (k : Kernel) (t left p : ℕ)
    → ((q : ℕ) → q < p + left → occurs t (k.runq q) ≡ 0)
    → remove_from k t left p ≡ (k, false)
unfolding remove_from
remove_from-absent k t zero p h = refl
remove_from-absent k t (suc left) p h =
    let out : has t (k.runq p) ≡ false =
      ground (arith, has-occurs t (k.runq p), h p (omega arith)) in
    rw (out) (remove_from-absent k t left (p + 1) (λ q lt. h q (omega arith)))

-- The structure is marked dead, and neither queues nor other threads change.
pub record Reaped (k k' : Kernel) (t : ℕ) : Type 0 where
  pub states : (u : ℕ) → (k'.thread u).state ≡ (if u == t then dead else (k.thread u).state)
  pub priorities : (u : ℕ) → (k'.thread u).priority ≡ (k.thread u).priority
  pub current : k'.current ≡ k.current
  pub self : k'.self ≡ k.self
  pub idle : k'.idle ≡ k.idle
  pub runq : (p : ℕ) → k'.runq p ≡ k.runq p
  pub zombies : k'.zombies ≡ k.zombies

unregister_thread-Alike : (k : Kernel) (t : ℕ) → Alike k (unregister_thread k t)
unfolding unregister_thread
unregister_thread-Alike k t = record {
  states = λ u. ground arith;
  priorities = λ u. ground arith;
  current = ground arith;
  self = ground arith;
  idle = ground arith;
  runq = λ p. ground arith;
  zombies = ground arith;
}

free_stack-Alike : (k : Kernel) (t : ℕ) → Alike k (free_stack k t)
unfolding free_stack
free_stack-Alike k t = record {
  states = λ u. ground arith;
  priorities = λ u. ground arith;
  current = ground arith;
  self = ground arith;
  idle = ground arith;
  runq = λ p. ground arith;
  zombies = ground arith;
}

pub thread_reap-Reaped : (k : Kernel) (t : ℕ) → Reaped k (thread_reap k t) t
unfolding thread_reap
thread_reap-Reaped k t =
    let k1 : Kernel = put_thread k t (record (k.thread t) { state = dead }) in
    let f = free_stack-Alike k1 t in
    let u = unregister_thread-Alike (free_stack k1 t) t in
    record {
      states = λ x. u.states x ∙ f.states x ∙ ground arith;
      priorities = λ x. u.priorities x ∙ f.priorities x ∙ ground arith;
      current = u.current ∙ f.current;
      self = u.self ∙ f.self;
      idle = u.idle ∙ f.idle;
      runq = λ p. u.runq p ∙ f.runq p;
      zombies = u.zombies ∙ f.zombies;
    }
