-- ===== src/Task/Switch.antt =====
-- The switches of kernel/core/sched.c: choosing the next thread, switching to it, and reaping.
use afriyie_os.Common.{
  ℕ, zero, suc, ◌+◌, ◌%◌, ◌^◌, true, not, ◌&&◌, ◌||◌, Option, none, some, List, [], ◌∷◌, ◌++◌,
  length, ltb, ◌==◌, if◌then◌else◌,
}
use afriyie_os.Task.State.{
  Kernel, put_thread, points, has, running, is_running, is_zombie, is_exited, time_slice_ticks,
  max_zombies,
}
use afriyie_os.Task.Queue.{runq_push, runq_pop_highest, runq_remove}
use afriyie_os.Task.Threads.{thread_reap}
use afriyie_os.Task.Process.{process_detach_thread, process_reap}

unfoldable pub halt : Kernel → Kernel
halt k = record k { halted = true }

unfoldable pub pick_next : Kernel → Kernel × Option ℕ
pick_next k = elim (runq_pop_highest k).1 [
  | some t ↦ runq_pop_highest k
  | none ↦ elim k.current [
    | none ↦ (k, k.idle)
    | some c ↦ if is_running (k.thread c).state then (k, some c) else (k, k.idle)
  ]
]

-- With a full list the oldest zombie is reaped, and the others move up.
unfoldable pub reap_oldest : Kernel → ℕ → List ℕ → Kernel
reap_oldest k t [] = k
reap_oldest k t (oldest ∷ rest) = record (thread_reap k oldest) { zombies = rest ++ (t ∷ []) }

unfoldable pub sched_reap : Kernel → ℕ → Kernel
sched_reap k t =
    if not (is_zombie (k.thread t).state)
    then k
    else let k' = (runq_remove k t).0 in
      if has t k'.zombies
      then k'
      else if ltb (length k'.zombies) max_zombies
      then record k' { zombies = k'.zombies ++ (t ∷ []) }
      else reap_oldest k' t k'.zombies

-- What becomes of the previous thread. Without one, the switch itself would save its registers at
-- address 0.
unfoldable pub leave : Kernel → Kernel
leave k = elim k.current [
  | none ↦ halt k
  | some prev ↦
      if is_running (k.thread prev).state
      then runq_push k prev
      else if is_zombie (k.thread prev).state
      then sched_reap k prev
      else k
]

-- The next thread starts its slice.
unfoldable pub enter : Kernel → ℕ → Kernel
enter k t =
    record (put_thread k t (record (k.thread t) {
      state = running;
      time_slice = time_slice_ticks;
      switches = ((k.thread t).switches + 1) % 2 ^ 64;
    })) { current = some t; self = some t; switched = (k.switched + 1) % 2 ^ 64 }

-- The root that a thread of the process runs on.
unfoldable pub root_of : Kernel → Option ℕ → ℕ
root_of k none = k.kernel_root
root_of k (some p) = if (k.procs p).addr_space == 0 then k.kernel_root else (k.procs p).addr_space

unfoldable pub install : Kernel → ℕ → Kernel
install k want =
    if (want == 0) || (want == k.last_installed)
    then k
    else record k { cr3 = want; last_installed = want }

unfoldable pub switch_to : Kernel → Option ℕ → Kernel
switch_to k none = elim k.current [ none ↦ k | some c ↦ halt k ]
switch_to k (some t) =
    if points k.current t
    then k
    else let k' = enter (leave k) t in install k' (root_of k' (k'.thread t).process)

-- `switch_to(pick_next())`
unfoldable pub reschedule : Kernel → Kernel
reschedule k = let (k', next) = pick_next k in switch_to k' next

-- The last thread, and those before it.
unfoldable pub split_last : ℕ → List ℕ → List ℕ × ℕ
split_last x [] = ([], x)
split_last x (y ∷ ys) = let (front, last) = split_last y ys in (x ∷ front, last)

-- The kernel's own root goes back in where that of the process is installed.
unfoldable pub leave_space : Kernel → ℕ → Kernel
leave_space k space =
    if not (space == 0) && (k.last_installed == space)
    then record k { cr3 = k.kernel_root; last_installed = k.kernel_root }
    else k

-- The last thread takes an exited process along.
unfoldable pub reap_empty : Kernel → ℕ → Kernel
reap_empty k p = elim (k.procs p).waiter [
  | none ↦
      if ((k.procs p).thread_count == 0) && is_exited (k.procs p).status
      then process_reap k p
      else k
  | some w ↦ k
]

unfoldable pub leave_process : Kernel → ℕ → ℕ → Kernel
leave_process k t p = reap_empty (process_detach_thread (leave_space k (k.procs p).addr_space) t) p

unfoldable pub bury : Kernel → ℕ → Kernel
bury k t = elim (k.thread t).process [
  | none ↦ thread_reap k t
  | some p ↦ thread_reap (leave_process k t p) t
]

unfoldable pub collect_from : Kernel → ℕ → Kernel
collect_from k zero = k
collect_from k (suc left) = elim k.zombies [
  | [] ↦ k
  | z ∷ zs ↦
      let (front, last) = split_last z zs in
      collect_from (bury (record k { zombies = front }) last) left
]

unfoldable pub sched_collect_zombies : Kernel → Kernel
sched_collect_zombies k = collect_from k (length k.zombies)

unfoldable pub set_current_process : Kernel → Option ℕ → Kernel
set_current_process k p = elim k.current [
  | none ↦ k
  | some c ↦ put_thread k c (record (k.thread c) { process = p })
]

unfoldable pub sched_set_process : Kernel → Option ℕ → Kernel
sched_set_process k p = let k' = set_current_process k p in install k' (root_of k' p)
