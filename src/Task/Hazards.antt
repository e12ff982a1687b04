-- ===== src/Task/Hazards.antt =====
-- What goes wrong at the ends of threads and processes, and in a sleep that a tick interrupts:
-- kernel/core/sched.c and process.c.
use afriyie_os.Common.{
  ℕ, zero, suc, ◌+◌, ◌%◌, ◌^◌, ◌<◌, ◌≡◌, ◌≢◌, refl, ap, ◌∙◌, true, false, Option, none, some, List,
  [], ◌∷◌, ◌++◌, arith, ok, noent,
}
use afriyie_os.Task.State.{Kernel, Process, runnable, vacant, exited, space_destroyed, level}
use afriyie_os.Task.Process.{
  slot_for_pid, process_current, process_detach_thread, release_space, release_caps, vacate,
  process_reap,
}
use afriyie_os.Task.Threads.{thread_by_tid, thread_reap, free_stack, unregister_thread}
use afriyie_os.Task.Switch.{leave_space, reap_empty, leave_process, bury}
use afriyie_os.Task.Calls.{
  Waiting, returns, wait_round, process_wait, sleep_mark, sched_tick, charge, wake_due, wake_from,
  sched_wake_sleepers, sleep_resumed,
}
use afriyie_os.Task.Invariant.{IsValid, occurs}
use afriyie_os.Task.Steps.{ticked, sched_tick-charge}
use afriyie_os.Task.Queue.{runq_push}
use afriyie_os.Task.Woken.{ticked-Woken, charge-Woken}
use afriyie_os.Task.Sleepers.{due, wakes}

-- Reaping threads does not touch the processes.
thread_reap-procs : (k : Kernel) (t : ℕ) → (thread_reap k t).procs ≡ k.procs
unfolding thread_reap free_stack unregister_thread
thread_reap-procs k t = ground arith

-- A process without threads that has exited, whose tables are not installed, is vacated.
reap-vacates :
    (k : Kernel) (p : ℕ)
    → (k.procs p).status ≡ exited
    → (k.procs p).thread_count ≡ 0
    → k.cr3 ≢ (k.procs p).addr_space
    → ((process_reap k p).procs p).status ≡ vacant
unfolding process_reap release_space release_caps vacate
reap-vacates k p e zero_left ne = ground (arith, e, zero_left, ne)

-- The state in which `leave_process` looks at the process.
detached-lem :
    (k : Kernel) (t p : ℕ)
    → (k.thread t).process ≡ some p
    → (k.procs p).thread_count ≡ 1
    → k.cr3 ≢ (k.procs p).addr_space
    → k.kernel_root ≢ (k.procs p).addr_space
    → let k2 = process_detach_thread (leave_space k (k.procs p).addr_space) t in
      ((k2.procs p).status ≡ (k.procs p).status)
      × ((k2.procs p).waiter ≡ (k.procs p).waiter)
      × ((k2.procs p).thread_count ≡ 0)
      × (k2.cr3 ≢ (k2.procs p).addr_space)
unfolding process_detach_thread leave_space
detached-lem k t p own last ne root = (
  ground (arith, own),
  ground (arith, own),
  ground (arith, own, last),
  (λ e. ground (arith, own, e, ne, root)),
)

vacant_slot : (k : Kernel) (p : ℕ) → (k.procs p).status ≡ vacant → slot_for_pid k (p + 1) ≡ none
unfolding slot_for_pid
vacant_slot k p e = ground (arith, e)

no_slot_wait :
    (k : Kernel) (pid : ℕ)
    → slot_for_pid k pid ≡ none
    → process_wait k pid ≡ (k, returns noent none)
unfolding process_wait
no_slot_wait k pid e = ground (arith, e)

-- The last thread of an exited process is buried before the parent waits: the process is gone, and its exit code
-- with it, so that the wait finds no process.
pub collected_before_wait :
    (k : Kernel) (t p : ℕ)
    → (k.thread t).process ≡ some p
    → (k.procs p).status ≡ exited
    → (k.procs p).waiter ≡ none
    → (k.procs p).thread_count ≡ 1
    → k.cr3 ≢ (k.procs p).addr_space
    → k.kernel_root ≢ (k.procs p).addr_space
    → let k' = bury k t in process_wait k' (p + 1) ≡ (k', returns noent none)
unfolding bury leave_process reap_empty
collected_before_wait k t p own e alone last ne root =
    let k2 : Kernel = process_detach_thread (leave_space k (k.procs p).addr_space) t in
    let (status, waiter, count, away) = detached-lem k t p own last ne root in
    let reaped : reap_empty k2 p ≡ process_reap k2 p =
      ground (arith, status, waiter, count, alone, e) in
    let buried : bury k t ≡ thread_reap (leave_process k t p) t = ground (arith, own) in
    let empty : ((bury k t).procs p).status ≡ vacant =
      ap (λ (s : Kernel). (s.procs p).status) buried
      ∙ ap (λ (f : ℕ → Process). (f p).status) (thread_reap-procs (leave_process k t p) t)
      ∙ ap (λ (s : Kernel). (s.procs p).status) reaped
      ∙ reap-vacates k2 p (status ∙ e) count away in
    no_slot_wait (bury k t) (p + 1) (vacant_slot (bury k t) p empty)

exited_wait :
    (k : Kernel) (pid child p : ℕ)
    → slot_for_pid k pid ≡ some child
    → process_current k ≡ some p
    → (k.procs child).parent ≡ (k.procs p).pid
    → (k.procs child).status ≡ exited
    → process_wait k pid ≡ (process_reap k child, returns ok (some (k.procs child).exit_code))
unfolding process_wait wait_round
exited_wait k pid child p found own parent e = ground (arith, found, own, parent, e)

reap_with_threads :
    (k : Kernel) (p : ℕ)
    → (k.procs p).status ≡ exited
    → 0 < (k.procs p).thread_count
    → k.cr3 ≢ (k.procs p).addr_space
    → (k.procs p).addr_space ≢ 0
    → (k.procs p).caps ≡ none
    → let k' = process_reap k p in
      (k'.effects ≡ k.effects ++ (space_destroyed (k.procs p).addr_space ∷ []))
      × ((k'.procs p).thread_count ≡ (k.procs p).thread_count)
      × ((k'.procs p).status ≡ exited)
      × ((k'.procs p).addr_space ≡ 0)
unfolding process_reap release_space release_caps vacate
reap_with_threads k p e left ne some_root no_caps = (
  ground (arith, e, left, ne, some_root, no_caps),
  ground (arith, e, left, ne, some_root, no_caps),
  ground (arith, e, left, ne, some_root, no_caps),
  ground (arith, e, left, ne, some_root, no_caps),
)

-- A parent that waits for an exited process of which threads are left is told that it has ended, and the page
-- tables of those threads are destroyed, while the process stays in the table.
pub wait_destroys_tables :
    (k : Kernel) (pid child p : ℕ)
    → slot_for_pid k pid ≡ some child
    → process_current k ≡ some p
    → (k.procs child).parent ≡ (k.procs p).pid
    → (k.procs child).status ≡ exited
    → 0 < (k.procs child).thread_count
    → k.cr3 ≢ (k.procs child).addr_space
    → (k.procs child).addr_space ≢ 0
    → (k.procs child).caps ≡ none
    → let (k', answer) = process_wait k pid in
      (answer ≡ returns ok (some (k.procs child).exit_code))
      × (k'.effects ≡ k.effects ++ (space_destroyed (k.procs child).addr_space ∷ []))
      × ((k'.procs child).thread_count ≡ (k.procs child).thread_count)
      × ((k'.procs child).status ≡ exited)
      × ((k'.procs child).addr_space ≡ 0)
wait_destroys_tables k pid child p found own parent e left ne some_root no_caps =
    let waited = exited_wait k pid child p found own parent e in
    let (effects, count, status, space) = reap_with_threads k child e left ne some_root no_caps in
    (
      ap (λ (z : Kernel × Waiting). z.1) waited,
      ap (λ (z : Kernel × Waiting). z.0.effects) waited ∙ effects,
      ap (λ (z : Kernel × Waiting). (z.0.procs child).thread_count) waited ∙ count,
      ap (λ (z : Kernel × Waiting). (z.0.procs child).status) waited ∙ status,
      ap (λ (z : Kernel × Waiting). (z.0.procs child).addr_space) waited ∙ space,
    )

wake_due-need_resched :
    (k : Kernel) (now : ℕ) (o : Option ℕ) → (wake_due k now o).need_resched ≡ k.need_resched
unfolding wake_due runq_push
wake_due-need_resched k now none = refl
wake_due-need_resched k now (some t) = ground arith

charge-need_resched : (k : Kernel) (c : ℕ) → (charge k c).need_resched ≡ k.need_resched
unfolding charge
charge-need_resched k c = refl

wake_from-need_resched :
    (k : Kernel) (now left n : ℕ) → (wake_from k now left n).need_resched ≡ k.need_resched
unfolding wake_from
wake_from-need_resched k now zero n = refl
wake_from-need_resched k now (suc left) n =
    wake_from-need_resched (wake_due k now (thread_by_tid k (n + 1))) now left (n + 1)
    ∙ wake_due-need_resched k now (thread_by_tid k (n + 1))

-- A tick within a slice charges the running thread, and does not switch.
tick_within :
    (k : Kernel) (c : ℕ)
    → k.current ≡ some c
    → k.need_resched ≡ false
    → 1 < (k.thread c).time_slice
    → (sched_tick k ≡ charge (ticked k) c) × ((ticked k).current ≡ some c)
unfolding sched_wake_sleepers
tick_within k c at no_resched slice =
    let now = (k.ticks + 1) % 2 ^ 64 in
    let w = ticked-Woken k 0 (λ u s. omega arith) in
    let here = w.current ∙ at in
    let (same, priorities, states, left) = charge-Woken (ticked k) c in
    let quiet : (charge (ticked k) c).need_resched ≡ false =
      charge-need_resched (ticked k) c
      ∙ wake_from-need_resched (record k { ticks = now }) now 1024 0
      ∙ no_resched in
    (
      sched_tick-charge k (ticked k) c refl here ∙ ground (arith, left, w.slices c, quiet, slice),
      here,
    )

charge-current : (k : Kernel) (c : ℕ) → (charge k c).current ≡ k.current
unfolding charge
charge-current k c = refl

resumed_awake : (k : Kernel) (c : ℕ) → (k.thread c).state ≡ runnable → sleep_resumed k c ≡ k
unfolding sleep_resumed
resumed_awake k c e = ground (arith, e)

charge-runq : (k : Kernel) (c : ℕ) → (charge k c).runq ≡ k.runq
unfolding charge
charge-runq k c = refl

-- A tick between the two halves of `sched_sleep`, at the tick at which the sleep ends and with time left in
-- the slice, makes the thread runnable and puts it in the queue of its level while it is the current thread; the sleep
-- then returns without a switch, and the state is one that the scheduler's invariant excludes.
pub sleep_race :
    (k : Kernel) (c i j : ℕ)
    → IsValid k c i
    → j < 1024
    → k.table j ≡ some c
    → k.need_resched ≡ false
    → 1 < (k.thread c).time_slice
    → k.ticks + 1 < 2 ^ 64
    → let k' = sched_tick (sleep_mark k c 1) in
      (k'.current ≡ some c)
      × ((k'.thread c).state ≡ runnable)
      × (0 < occurs c (k'.runq (level (k.thread c))))
      × (sleep_resumed k' c ≡ k')
      × ((d e : ℕ) → ¬ IsValid k' d e)
unfolding sleep_mark
sleep_race k c i j v lt at no_resched slice small =
    let k1 : Kernel = sleep_mark k c 1 in
    let now = (k1.ticks + 1) % 2 ^ 64 in
    let (moves, here) = tick_within k1 c v.held.current no_resched (ground (arith, slice)) in
    let is_due : due (record k1 { ticks = now }) now c ≡ true = ground (arith, small) in
    let p = level (k.thread c) in
    let (woke, queued) = wakes (record k1 { ticks = now }) now j c p lt at is_due in
    let (same, priorities, states, left) = charge-Woken (ticked k1) c in
    let ends : ((sched_tick k1).thread c).state ≡ runnable =
      ap (λ (s : Kernel). (s.thread c).state) moves ∙ states c ∙ woke in
    let on : (sched_tick k1).current ≡ some c =
      ap (λ (s : Kernel). s.current) moves ∙ charge-current (ticked k1) c ∙ here in
    let lines : (sched_tick k1).runq p ≡ (ticked k1).runq p =
      ap (λ (s : Kernel). s.runq p) moves
      ∙ ap (λ (f : ℕ → List ℕ). f p) (charge-runq (ticked k1) c) in
    let level_kept : level (k1.thread c) ≡ p = ground arith in
    (
      on,
      ends,
      ground (arith, ap (occurs c) lines, queued, level_kept),
      resumed_awake (sched_tick k1) c ends,
      (λ d e bad. ground (arith, on, bad.held.current, bad.runs, ends)),
    )
