-- ===== src/Ipc/WaitList.antt =====
-- The wait lists of kernel/core/ipc.c as they are stored: a first thread and the `wait_next` field
-- of every thread. A thread is its identifier, and `none` is NULL.
use afriyie_os.Common.{ℕ, zero, suc, Option, none, some, ◌==◌, if◌then◌else◌, update}

pub record Links : Type 0 where
  pub first : Option ℕ
  pub next : ℕ → Option ℕ

-- The walk to the tail; `left` bounds its steps.
unfoldable pub tail_from : ℕ → (ℕ → Option ℕ) → ℕ → ℕ
tail_from zero next t = t
tail_from (suc left) next t = elim (next t) [ none ↦ t | some n ↦ tail_from left next n ]

unfoldable pub waiter_add : ℕ → Links → ℕ → Links
waiter_add left w t =
    let cleared = update w.next t none in
    elim w.first [
      | none ↦ record { first = some t; next = cleared }
      | some f ↦ record {
        first = some f;
        next = update cleared (tail_from left cleared f) (some t);
      }
    ]

-- The walk of `waiter_remove` beyond thread `prev`, whose field `link` points to.
unfoldable pub unlink_after : ℕ → (ℕ → Option ℕ) → ℕ → ℕ → ℕ → Option ℕ
unlink_after zero next prev t = next
unlink_after (suc left) next prev t = elim (next prev) [
  | none ↦ next
  | some n ↦
      if n == t then update (update next prev (next t)) t none else unlink_after left next n t
]

unfoldable pub waiter_remove : ℕ → Links → ℕ → Links
waiter_remove left w t = elim w.first [
  | none ↦ w
  | some f ↦
      if f == t
      then record { first = w.next t; next = update w.next t none }
      else record w { next = unlink_after left w.next f t }
]

unfoldable pub waiter_pop : Links → Links × Option ℕ
waiter_pop w = elim w.first [
  | none ↦ (w, none)
  | some t ↦ (record { first = w.next t; next = update w.next t none }, some t)
]
