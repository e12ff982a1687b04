-- ===== src/Task/Priority.antt =====
-- Which thread `switch_to(pick_next())` of kernel/core/sched.c runs next.
use afriyie_os.Common.{
  ℕ, zero, suc, ◌+◌, ◌≤◌, ◌<◌, ◌≡◌, ◌≢◌, refl, sym, ap, subst, ◌∙◌, ◌||◌, some, List, [], ◌∷◌, ◌++◌,
  ltb, ◌==◌, if◌then◌else◌, arith, Bool-cases, inl, inr, ◌⊎◌,
}
use native.Mathlib.Decide.{ℕ_discrete}
use afriyie_os.Task.State.{Kernel, level, running, runnable}
use afriyie_os.Task.Queue.{runq_push, runq_pop, shrink, pop_from, runq_pop_highest}
use afriyie_os.Task.Switch.{pick_next, enter, install, root_of, switch_to, reschedule}
use afriyie_os.Task.Calls.{sched_yield, refill}
use afriyie_os.Task.Invariant.{occurs, IsValid, Popped, pop_from-cases, queued-IsRunnable}
use afriyie_os.Task.Alike.{Alike, IsValid-Alike}
use afriyie_os.Task.Leave.{leave-running}
use afriyie_os.Task.Moves.{entered, pick_next-own, switch_to-own, switch_to-other}
use afriyie_os.Task.Wakes.{refill-Alike}

-- The head of a queue takes the processor, and the running thread goes to the end of its own queue.
pub record Switched (k k' : Kernel) (c t q : ℕ) (rest : List ℕ) : Type 0 where
  pub current : k'.current ≡ some t
  pub runq :
      (r : ℕ)
      → k'.runq r ≡ (
          if r == level (k.thread c)
          then (if r == q then rest else k.runq r) ++ (c ∷ [])
          else if r == q
          then rest
          else k.runq r)
  pub priorities : (u : ℕ) → (k'.thread u).priority ≡ (k.thread u).priority
  pub states :
      (u : ℕ)
      → (k'.thread u).state
        ≡ (if u == t then running else if u == c then runnable else (k.thread u).state)
  pub slice : (k'.thread t).time_slice ≡ 2

install-Switched :
    (k k' : Kernel) (c t q w : ℕ) (rest : List ℕ)
    → Switched k k' c t q rest
    → Switched k (install k' w) c t q rest
unfolding install
install-Switched k k' c t q w rest s = elim (Bool-cases ((w == 0) || (w == k'.last_installed))) [
  | inl e ↦ rw e s
  | inr e ↦ rw e (record {
    current = s.current;
    runq = s.runq;
    priorities = s.priorities;
    states = s.states;
    slice = s.slice;
  })
]

pushed-Switched :
    (k : Kernel) (c t q : ℕ) (rest : List ℕ)
    → t ≢ c
    → Switched k (enter (runq_push (shrink k q rest) c) t) c t q rest
unfolding enter runq_push
pushed-Switched k c t q rest ne = record {
  current = refl;
  runq = λ r. ground arith;
  priorities = λ u. ground arith;
  states = λ u. ground arith;
  slice = ground arith;
}

-- The first queue that is not empty is the one that is popped.
pop_from-exact :
    (k : Kernel) (left p t q : ℕ) (rest : List ℕ)
    → Popped k p (p + left) t rest q
    → pop_from k left p ≡ (shrink k q rest, some t)
unfolding pop_from runq_pop
pop_from-exact k zero p t q rest f = absurd (omega (arith, f.low, f.high))
pop_from-exact k (suc left) p t q rest f = elim (ℕ_discrete q p) [
  | yes e ↦
      let head : k.runq p ≡ t ∷ rest = ap k.runq (sym e) ∙ f.head in
      let popped : runq_pop k p ≡ (shrink k p rest, some t) = rw (head, runq_pop) refl in
      let here : pop_from k (suc left) p ≡ (shrink k p rest, some t) =
        rw (pop_from, popped, popped) refl in
      here ∙ ap (λ r. (shrink k r rest, some t)) (sym e)
  | no ne ↦
      let none_here : k.runq p ≡ [] = f.before p (omega arith) (omega (arith, f.low, ne)) in
      let skip : pop_from k (suc left) p ≡ pop_from k left (p + 1) =
        rw (none_here, pop_from, runq_pop) refl in
      skip
      ∙ pop_from-exact k left (p + 1) t q rest (record {
        low = omega (arith, f.low, ne);
        high = omega (arith, f.high);
        head = f.head;
        before = λ r lo hi. f.before r (omega arith) hi;
      })
]

pub pick_next-exact :
    (k : Kernel) (t q : ℕ) (rest : List ℕ)
    → Popped k 0 8 t rest q
    → pick_next k ≡ (shrink k q rest, some t)
unfolding pick_next runq_pop_highest
pick_next-exact k t q rest f =
    let e = pop_from-exact k 8 0 t q rest f in rw (pick_next, runq_pop_highest, e, e) refl

pub reschedule-Switched :
    (k : Kernel) (c i t q : ℕ) (rest : List ℕ)
    → IsValid k c i
    → Popped k 0 8 t rest q
    → Switched k (reschedule k) c t q rest
unfolding reschedule
reschedule-Switched k c i t q rest v f =
    let s : Kernel = shrink k q rest in
    let (ne, waiting, at) = queued-IsRunnable k c t q rest v.held.queues f.head f.high in
    let e : reschedule k ≡ switch_to s (some t) =
      ap (λ z. switch_to z.0 z.1) (pick_next-exact k t q rest f) in
    let moves = e ∙ switch_to-other s c t v.held.current ne in
    let w = root_of (entered s t) ((entered s t).thread t).process in
    let pushed : Switched k (entered s t) c t q rest =
      subst (λ l. Switched k (enter l t) c t q rest) (leave-running s c v.held.current v.runs)
        (pushed-Switched k c t q rest ne) in
    subst (λ k'. Switched k k' c t q rest) (sym moves)
      (install-Switched k (entered s t) c t q w rest pushed)

Switched-Alike :
    (k k1 k' : Kernel) (c t q : ℕ) (rest : List ℕ)
    → Alike k k1
    → Switched k1 k' c t q rest
    → Switched k k' c t q rest
Switched-Alike k k1 k' c t q rest a s = record {
  current = s.current;
  runq = λ r. ground (arith, s.runq r, a.runq r, a.priorities c);
  priorities = λ u. s.priorities u ∙ a.priorities u;
  states = λ u. ground (arith, s.states u, a.states u);
  slice = s.slice;
}

-- A thread that is runnable is in the queue of its level.
queued_at-level :
    (k : Kernel) (c i u : ℕ)
    → IsValid k c i
    → (k.thread u).state ≡ runnable
    → k.runq (level (k.thread u)) ≢ []
queued_at-level k c i u v waiting empty =
    let p = level (k.thread u) in
    let below : p < 8 = ground arith in
    ground (arith, v.held.queues u p below, ap (occurs u) empty, v.runs, waiting)

-- `sched_yield` gives the processor to the thread that has waited longest at the highest level at which a thread
-- waits, and the caller to the end of the queue of its own level; only when no thread waits does the
-- caller go on.
pub sched_yield_lem :
    (k : Kernel) (c i : ℕ)
    → IsValid k c i
    → (((u : ℕ) → (k.thread u).state ≢ runnable) × ((sched_yield k).current ≡ some c))
      ⊎ ((t : ℕ) × (rest : List ℕ) × (q : ℕ) × (k.runq q ≡ t ∷ rest)
          × ((u : ℕ) → (k.thread u).state ≡ runnable → q ≤ level (k.thread u))
          × Switched k (sched_yield k) c t q rest)
unfolding sched_yield reschedule runq_pop_highest
sched_yield_lem k c i v =
    let a = refill-Alike k in
    let v1 = IsValid-Alike k (refill k) c i a v in
    elim (pop_from-cases (refill k) 8 0) [
      | inl (stop, empty) ↦
          let own = pick_next-own (refill k) c v1.held.current v1.runs stop in
          inl (
            (λ u waiting. queued_at-level k c i u v waiting (
                sym (a.runq (level (k.thread u)))
                ∙ empty (level (k.thread u)) (omega arith) (ground arith))),
            ap (λ z. (switch_to z.0 z.1).current) own
                ∙ ap (λ (s : Kernel). s.current) (switch_to-own (refill k) c v1.held.current)
                ∙ v1.held.current,
          )
      | inr (t, rest, q, f, out) ↦ inr (
        t,
        rest,
        q,
        sym (a.runq q) ∙ f.head,
        (λ u waiting. elim (Bool-cases (ltb (level (k.thread u)) q)) [
          | inl low ↦ absurd (
              queued_at-level k c i u v waiting (
                sym (a.runq (level (k.thread u)))
                ∙ f.before (level (k.thread u)) (omega arith) (ground (arith, low))))
          | inr high ↦ ground (arith, high)
        ]),
        Switched-Alike k (refill k) (reschedule (refill k)) c t q rest a
            (reschedule-Switched (refill k) c i t q rest v1 f),
      )
    ]
