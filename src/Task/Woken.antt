-- ===== src/Task/Woken.antt =====
-- What waking the sleepers of kernel/core/sched.c changes.
use afriyie_os.Common.{
  ℕ, zero, suc, ◌+◌, ◌-◌, ◌%◌, ◌^◌, ◌≤◌, ◌<◌, ◌≡◌, refl, sym, ap, ◌∙◌, ◌&&◌, Option, none, some,
  List, [], ◌∷◌, ◌++◌, leb, arith, Bool-cases, inl, inr,
}
use mathlib.Core.List.{append_assoc, append-nil}
use native.Mathlib.Decide.{ℕ_discrete}
use afriyie_os.Task.State.{Kernel, level, sleeping, is_sleeping}
use afriyie_os.Task.Queue.{runq_push}
use afriyie_os.Task.Threads.{thread_by_tid}
use afriyie_os.Task.Calls.{wake_due, wake_from, sched_wake_sleepers, charge}
use afriyie_os.Task.Steps.{ticked}

-- No thread above level `p` sleeps.
abbrev pub Asleep : Kernel → ℕ → Type 0
Asleep k p = (u : ℕ) → (k.thread u).state ≡ sleeping → p ≤ level (k.thread u)

-- Waking appends to the queues from level `p` on.
pub record Woken (k k' : Kernel) (p : ℕ) : Type 0 where
  pub current : k'.current ≡ k.current
  pub longer : (r : ℕ) → (zs : List ℕ) × (k'.runq r ≡ k.runq r ++ zs)
  pub above : (r : ℕ) → r < p → k'.runq r ≡ k.runq r
  pub priorities : (u : ℕ) → (k'.thread u).priority ≡ (k.thread u).priority
  pub slices : (u : ℕ) → (k'.thread u).time_slice ≡ (k.thread u).time_slice
  pub sleepers : (u : ℕ) → (k'.thread u).state ≡ sleeping → (k.thread u).state ≡ sleeping

pushed-Woken : (k : Kernel) (t p : ℕ) → p ≤ level (k.thread t) → Woken k (runq_push k t) p
unfolding runq_push
pushed-Woken k t p le = record {
  current = refl;
  longer = λ r. elim (ℕ_discrete r (level (k.thread t))) [
    | yes e ↦ (t ∷ [], ground (arith, e))
    | no ne ↦ ([], ground (arith, ne) ∙ sym (append-nil (k.runq r)))
  ];
  above = λ r lt. ground (arith, le);
  priorities = λ u. ground arith;
  slices = λ u. ground arith;
  sleepers = λ u s. ground (arith, s);
}

Woken-refl : (k : Kernel) (p : ℕ) → Woken k k p
Woken-refl k p = record {
  current = refl;
  longer = λ r. ([], sym (append-nil (k.runq r)));
  above = λ r lt. refl;
  priorities = λ u. refl;
  slices = λ u. refl;
  sleepers = λ u s. s;
}

Woken-trans : (a b c : Kernel) (p : ℕ) → Woken a b p → Woken b c p → Woken a c p
Woken-trans a b c p f g = record {
  current = g.current ∙ f.current;
  longer = λ r.
      let (zs, e) = f.longer r in
      let (ws, e') = g.longer r in
      (zs ++ ws, e' ∙ ap (λ l. l ++ ws) e ∙ append_assoc (a.runq r) zs ws);
  above = λ r lt. g.above r lt ∙ f.above r lt;
  priorities = λ u. g.priorities u ∙ f.priorities u;
  slices = λ u. g.slices u ∙ f.slices u;
  sleepers = λ u s. f.sleepers u (g.sleepers u s);
}

Asleep-Woken : (k k' : Kernel) (p : ℕ) → Woken k k' p → Asleep k p → Asleep k' p
Asleep-Woken k k' p w h u s = ground (arith, h u (w.sleepers u s), w.priorities u)

wake_due-Woken :
    (k : Kernel) (now : ℕ) (o : Option ℕ) (p : ℕ) → Asleep k p → Woken k (wake_due k now o) p
unfolding wake_due
wake_due-Woken k now none p h = Woken-refl k p
wake_due-Woken k now (some t) p h =
    elim (Bool-cases (is_sleeping (k.thread t).state && leb (k.thread t).wake_tick now)) [
      | inl e ↦ rw e (pushed-Woken k t p (h t (ground (arith, e))))
      | inr e ↦ rw e (Woken-refl k p)
    ]

pub wake_from-Woken :
    (k : Kernel) (now left n p : ℕ) → Asleep k p → Woken k (wake_from k now left n) p
unfolding wake_from
wake_from-Woken k now zero n p h = Woken-refl k p
wake_from-Woken k now (suc left) n p h =
    let k1 : Kernel = wake_due k now (thread_by_tid k (n + 1)) in
    let w = wake_due-Woken k now (thread_by_tid k (n + 1)) p h in
    Woken-trans k k1 (wake_from k1 now left (n + 1)) p w
      (wake_from-Woken k1 now left (n + 1) p (Asleep-Woken k k1 p w h))

-- The state in which the timer decides: the sleepers are awake and the running thread is charged.
pub ticked-Woken : (k : Kernel) (p : ℕ) → Asleep k p → Woken k (ticked k) p
unfolding sched_wake_sleepers
ticked-Woken k p h =
    let now = (k.ticks + 1) % 2 ^ 64 in
    let w = wake_from-Woken (record k { ticks = now }) now 1024 0 p h in
    record {
      current = w.current;
      longer = w.longer;
      above = w.above;
      priorities = w.priorities;
      slices = w.slices;
      sleepers = w.sleepers;
    }

pub charge-Woken :
    (k : Kernel) (c : ℕ)
    → ((charge k c).runq ≡ k.runq)
      × ((u : ℕ) → ((charge k c).thread u).priority ≡ (k.thread u).priority)
      × ((u : ℕ) → ((charge k c).thread u).state ≡ (k.thread u).state)
      × (((charge k c).thread c).time_slice ≡ (k.thread c).time_slice - 1)
unfolding charge
charge-Woken k c = (refl, (λ u. ground arith), (λ u. ground arith), ground arith)
