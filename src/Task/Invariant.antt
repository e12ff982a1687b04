-- ===== src/Task/Invariant.antt =====
-- What holds of the scheduler of kernel/core/sched.c between two calls, and how the queue operations
-- keep it.
use afriyie_os.Common.{
  ℕ, zero, suc, ◌+◌, ◌≤◌, ◌<◌, ◌≡◌, ◌≢◌, refl, ap, ◌∙◌, true, false, ◌&&◌, none, some, List, [],
  ◌∷◌, length, ltb, ◌==◌, if◌then◌else◌, arith, List-cases, inl, inr, ◌⊎◌,
}
use native.Mathlib.Decide.{ℕ_discrete}
pub use afriyie_os.Common.Occurs.{occurs, occurs-append}
use afriyie_os.Task.State.{Kernel, Thread, level, has, running, runnable, is_runnable, is_zombie}
use afriyie_os.Task.Queue.{runq_push, runq_pop, pop_from, shrink}

pub has-occurs : (t : ℕ) (xs : List ℕ) → has t xs ≡ ltb 0 (occurs t xs)
unfolding has
has-occurs t [] = refl
has-occurs t (x ∷ xs) = ground (arith, has-occurs t xs)

-- A runnable thread waits once, in the queue of its priority.
abbrev pub waits : Thread → ℕ → ℕ
waits v p = if is_runnable v.state && (level v == p) then 1 else 0

abbrev pub lies : Thread → ℕ
lies v = if is_zombie v.state then 1 else 0

-- The queues hold just the runnable threads, apart from `x`, which is in none.
abbrev pub Queues : Kernel → ℕ → Type 0
Queues k x = (t p : ℕ) → p < 8 → occurs t (k.runq p) ≡ (if t == x then 0 else waits (k.thread t) p)

-- The list of zombies holds just the zombies, apart from `x`.
abbrev pub Zombies : Kernel → ℕ → Type 0
Zombies k x = (t : ℕ) → occurs t k.zombies ≡ (if t == x then 0 else lies (k.thread t))

-- Thread `c` is current and `i` is idle; only the current thread can be running, and the idle thread
-- waits for the processor when it is not on it.
pub record Held (k : Kernel) (c i : ℕ) : Type 0 where
  pub current : k.current ≡ some c
  pub self : k.self ≡ some c
  pub idle : k.idle ≡ some i
  pub queues : Queues k c
  pub zombies : Zombies k c
  pub room : length k.zombies ≤ 16
  pub only : (t : ℕ) → (k.thread t).state ≡ running → t ≡ c
  pub ready : i ≢ c → (k.thread i).state ≡ runnable

pub record IsValid (k : Kernel) (c i : ℕ) : Type 0 where
  pub held : Held k c i
  pub runs : (k.thread c).state ≡ running

pub push-Queues :
    (k : Kernel) (t x : ℕ)
    → Queues k x
    → t ≢ x
    → is_runnable (k.thread t).state ≡ false
    → Queues (runq_push k t) x
unfolding runq_push
push-Queues k t x q ne out u p lt = ground (arith, q u p lt, occurs-append u t (k.runq p))

-- What the search for the next thread finds.
pub record Popped (k : Kernel) (from to : ℕ) (t : ℕ) (rest : List ℕ) (q : ℕ) : Type 0 where
  pub low : from ≤ q
  pub high : q < to
  pub head : k.runq q ≡ t ∷ rest
  pub before : (r : ℕ) → from ≤ r → r < q → k.runq r ≡ []

pub pop_from-cases :
    (k : Kernel) (left p : ℕ)
    → ((pop_from k left p ≡ (k, none)) × ((r : ℕ) → p ≤ r → r < p + left → k.runq r ≡ []))
      ⊎ ((t : ℕ) × (rest : List ℕ) × (q : ℕ) × Popped k p (p + left) t rest q
          × (pop_from k left p ≡ (shrink k q rest, some t)))
unfolding pop_from runq_pop
pop_from-cases k zero p = inl (refl, (λ r lo hi. absurd (omega arith)))
pop_from-cases k (suc left) p = elim (List-cases (k.runq p)) [
  | inl e ↦
      let skip : pop_from k (suc left) p ≡ pop_from k left (p + 1) =
        rw (e, pop_from, runq_pop) refl in
      elim (pop_from-cases k left (p + 1)) [
        | inl (stop, none_left) ↦ inl (
          skip ∙ stop,
          (λ r lo hi. elim (ℕ_discrete r p) [
            | yes at ↦ rw at e
            | no ne ↦ none_left r (omega arith) (omega arith)
          ]),
        )
        | inr (t, rest, q, f, out) ↦ inr (
          t,
          rest,
          q,
          record {
            low = omega (arith, f.low);
            high = omega (arith, f.high);
            head = f.head;
            before = λ r lo hi. elim (ℕ_discrete r p) [
              | yes at ↦ rw at e
              | no ne ↦ f.before r (omega arith) (omega arith)
            ];
          },
          skip ∙ out,
        )
      ]
  | inr (t, rest, e) ↦
      let popped : runq_pop k p ≡ (shrink k p rest, some t) = rw (e, runq_pop) refl in
      inr (
        t,
        rest,
        p,
        record {
          low = omega arith;
          high = omega arith;
          head = e;
          before = λ r lo hi. absurd (omega arith);
        },
        rw (pop_from, popped, popped) refl,
      )
]

-- The thread that is taken out of the queues.
pub pop-Queues :
    (k : Kernel) (c t q : ℕ) (rest : List ℕ)
    → Queues k c
    → k.runq q ≡ t ∷ rest
    → q < 8
    → is_runnable (k.thread c).state ≡ false
    → Queues (shrink k q rest) t
pop-Queues k c t q rest h head lt ne u p below = ground (
  arith,
  h u p below,
  h t p below,
  h t q lt,
  h u q lt,
  head,
  ap (occurs u) head,
  ap (occurs t) head,
)

-- A thread of a queue is runnable, and waits at the priority of the queue.
pub queued-IsRunnable :
    (k : Kernel) (c t q : ℕ) (rest : List ℕ)
    → Queues k c
    → k.runq q ≡ t ∷ rest
    → q < 8
    → (t ≢ c) × (is_runnable (k.thread t).state ≡ true) × (level (k.thread t) ≡ q)
queued-IsRunnable k c t q rest h head lt = ground (arith, h t q lt, ap (occurs t) head)
