-- ===== src/Task/Calls.antt =====
-- The calls of kernel/core/sched.c, thread.c and process.c that threads and the timer make.
use afriyie_os.Common.{
  ℕ, zero, suc, ◌+◌, ◌-◌, ◌%◌, ◌^◌, false, not, ◌&&◌, ◌||◌, Option, none, some, [], ltb, leb, ◌==◌,
  if◌then◌else◌, Status, ok, inval, noent, perm,
}
use afriyie_os.Task.State.{
  Kernel, put_thread, put_process, points, running, created, blocked, sleeping, zombie, is_created,
  is_running, is_blocked, is_sleeping, is_alive, exited, time_slice_ticks, prio_idle,
}
use afriyie_os.Task.Queue.{runq_push}
use afriyie_os.Task.Threads.{thread_by_tid}
use afriyie_os.Task.Process.{slot_for_pid, process_current, process_reap}
use afriyie_os.Task.Switch.{halt, pick_next, enter, reschedule}

unfoldable pub sched_init : Kernel → (boot_thread idle_thread : Option ℕ) → Kernel × Status
sched_init k none i = (record k { runq = λ p. []; runq_len = λ p. 0 }, inval)
sched_init k (some b) none = (record k { runq = λ p. []; runq_len = λ p. 0 }, inval)
sched_init k (some b) (some i) =
    let k1 = put_thread k i (record (k.thread i) { priority = prio_idle; state = created }) in
    (
      record (put_thread k1 b (record (k1.thread b) { state = running })) {
        runq = λ p. [];
        runq_len = λ p. 0;
        idle = some i;
        current = some b;
        kernel_root = k.cr3;
        last_installed = k.cr3;
      },
      ok,
    )

unfoldable pub sched_admit : Kernel → Option ℕ → Kernel
sched_admit k none = k
sched_admit k (some t) =
    if not (is_created (k.thread t).state)
    then k
    else elim k.idle [ none ↦ k | some i ↦ runq_push k t ]

unfoldable pub wake_due : Kernel → ℕ → Option ℕ → Kernel
wake_due k now none = k
wake_due k now (some t) =
    if is_sleeping (k.thread t).state && leb (k.thread t).wake_tick now then runq_push k t else k

-- The threads of the table from slot `i` on.
unfoldable pub wake_from : Kernel → ℕ → ℕ → ℕ → Kernel
wake_from k now zero i = k
wake_from k now (suc left) i = wake_from (wake_due k now (thread_by_tid k (i + 1))) now left (i + 1)

unfoldable pub sched_wake_sleepers : Kernel → ℕ → Kernel
sched_wake_sleepers k now = wake_from k now 1024 0

-- The running thread is charged for the tick.
unfoldable pub charge : Kernel → ℕ → Kernel
charge k c =
    let t = k.thread c in
    put_thread k c (record t {
      total_ticks = (t.total_ticks + 1) % 2 ^ 64;
      time_slice = if ltb 0 t.time_slice then t.time_slice - 1 else t.time_slice;
    })

unfoldable pub sched_tick : Kernel → Kernel
sched_tick k =
    let now = (k.ticks + 1) % 2 ^ 64 in
    let k1 = sched_wake_sleepers (record k { ticks = now }) now in
    elim k1.current [
      | none ↦ k1
      | some c ↦
          let k2 = charge k1 c in
          if ((k2.thread c).time_slice == 0) || k2.need_resched
          then reschedule (record k2 { need_resched = false })
          else k2
    ]

unfoldable pub refill : Kernel → Kernel
refill k = elim k.current [
  | none ↦ k
  | some c ↦
      if is_running (k.thread c).state
      then put_thread k c (record (k.thread c) { time_slice = time_slice_ticks })
      else k
]

unfoldable pub sched_yield : Kernel → Kernel
sched_yield k = reschedule (refill k)

-- A round of the loops of `sched_block` and `sched_sleep`, up to the switch. A NULL next thread would
-- be written to.
unfoldable pub suspend : Kernel → ℕ → Kernel
suspend k s =
    let (k', next) = pick_next k in
    elim (if points next s then k.idle else next) [ none ↦ halt k' | some t ↦ enter k' t ]

unfoldable pub block_mark : Kernel → ℕ → Option ℕ → Kernel
block_mark k s obj = put_thread k s (record (k.thread s) { state = blocked; wait_obj = obj })

unfoldable pub sched_block : Kernel → Option ℕ → Kernel
sched_block k obj = elim k.current [
  | none ↦ k
  | some s ↦ if points k.idle s then k else suspend (block_mark k s obj) s
]

-- The thread is switched to again.
unfoldable pub block_resumed : Kernel → ℕ → Kernel
block_resumed k s =
    if is_blocked (k.thread s).state
    then suspend k s
    else put_thread k s (record (k.thread s) { wait_obj = none })

unfoldable pub sched_unblock : Kernel → Option ℕ → Kernel
sched_unblock k none = k
sched_unblock k (some t) = if is_blocked (k.thread t).state then runq_push k t else k

unfoldable pub sleep_mark : Kernel → ℕ → ℕ → Kernel
sleep_mark k s ticks =
    put_thread k s
      (record (k.thread s) { state = sleeping; wake_tick = (k.ticks + ticks) % 2 ^ 64 })

unfoldable pub sched_sleep : Kernel → ℕ → Kernel
sched_sleep k ticks = elim k.current [
  | none ↦ k
  | some s ↦ if points k.idle s || (ticks == 0) then k else suspend (sleep_mark k s ticks) s
]

unfoldable pub sleep_resumed : Kernel → ℕ → Kernel
sleep_resumed k s = if is_sleeping (k.thread s).state then suspend k s else k

-- A zombie yields for ever, but is never switched to; without a current thread it is a panic.
unfoldable pub thread_exit : Kernel → Kernel
thread_exit k = elim k.self [
  | none ↦ halt k
  | some s ↦ sched_yield (put_thread k s (record (k.thread s) { state = zombie }))
]

unfoldable pub process_ended : Kernel → ℕ → ℕ → Kernel
process_ended k p code =
    put_process (sched_unblock k (k.procs p).waiter) p
      (record (k.procs p) { exit_code = code; status = exited; waiter = none })

unfoldable pub process_exit : Kernel → ℕ → Kernel
process_exit k code = elim (process_current k) [
  | none ↦ thread_exit k
  | some p ↦ thread_exit (process_ended k p code)
]

-- `process_wait` returns, or blocks its thread, which goes round the loop again when it runs.
pub data Waiting : Type 0 where
  returns : Status → Option ℕ → Waiting
  blocks : Waiting

unfoldable pub wait_round : Kernel → ℕ → Kernel × Waiting
wait_round k child =
    if is_alive (k.procs child).status
    then (
      sched_block (put_process k child (record (k.procs child) { waiter = k.self })) (some child),
      blocks,
    )
    else (process_reap k child, returns ok (some (k.procs child).exit_code))

unfoldable pub process_wait : Kernel → ℕ → Kernel × Waiting
process_wait k pid = elim (slot_for_pid k pid) [
  | none ↦ (k, returns noent none)
  | some child ↦ elim (process_current k) [
    | none ↦ (k, returns perm none)
    | some p ↦
        if (k.procs child).parent == (k.procs p).pid
        then wait_round k child
        else (k, returns perm none)
  ]
]
