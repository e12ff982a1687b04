-- ===== src/Task/Queue.antt =====
-- The run queues of kernel/core/sched.c: a FIFO list for each priority.
use afriyie_os.Common.{
  ℕ, zero, suc, ◌+◌, ◌-◌, ◌%◌, ◌^◌, Bool, true, false, Option, none, some, List, [], ◌∷◌, ◌++◌, ltb,
  if◌then◌else◌, update,
}
use afriyie_os.Ipc.Ops.{remove}
use afriyie_os.Task.State.{Kernel, put_thread, level, has, runnable}

unfoldable pub runq_push : Kernel → ℕ → Kernel
runq_push k t =
    let p = level (k.thread t) in
    record (put_thread k t (record (k.thread t) { state = runnable })) {
      runq = update k.runq p (k.runq p ++ (t ∷ []));
      runq_len = update k.runq_len p ((k.runq_len p + 1) % 2 ^ 32);
    }

abbrev pub shrink : Kernel → ℕ → List ℕ → Kernel
shrink k p rest = record k {
  runq = update k.runq p rest;
  runq_len = update k.runq_len p (if ltb 0 (k.runq_len p) then k.runq_len p - 1 else k.runq_len p);
}

unfoldable pub runq_pop : Kernel → ℕ → Kernel × Option ℕ
runq_pop k p = elim (k.runq p) [ [] ↦ (k, none) | t ∷ rest ↦ (shrink k p rest, some t) ]

-- `runq_pop_highest` from a priority on.
unfoldable pub pop_from : Kernel → ℕ → ℕ → Kernel × Option ℕ
pop_from k zero p = (k, none)
pop_from k (suc left) p = elim (runq_pop k p).1 [
  | none ↦ pop_from k left (p + 1)
  | some t ↦ ((runq_pop k p).0, some t)
]

unfoldable pub runq_pop_highest : Kernel → Kernel × Option ℕ
runq_pop_highest k = pop_from k 8 0

-- `runq_remove` from a priority on: the first occurrence is unlinked.
unfoldable pub remove_from : Kernel → ℕ → ℕ → ℕ → Kernel × Bool
remove_from k t zero p = (k, false)
remove_from k t (suc left) p =
    let rest = remove_from k t left (p + 1) in
    if has t (k.runq p) then (shrink k p (remove t (k.runq p)), true) else rest

unfoldable pub runq_remove : Kernel → ℕ → Kernel × Bool
runq_remove k t = remove_from k t 8 0
