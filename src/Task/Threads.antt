-- ===== src/Task/Threads.antt =====
-- The thread table of kernel/core/thread.c, creation, and `thread_reap`.
use afriyie_os.Common.{
  ℕ, zero, suc, ◌+◌, ◌-◌, ◌*◌, ◌/◌, ◌%◌, ◌^◌, Bool, true, false, ◌||◌, Option, none, some, ltb, leb,
  ◌==◌, if◌then◌else◌, update,
}
use afriyie_os.Task.State.{
  Kernel, put_thread, perform, points, created, running, dead, is_dead, thread_freed, frames_freed,
  frames_asked, zero_thread, max_threads, page_size, kernel_stack_size, prio_levels, prio_default,
  time_slice_ticks,
}

unfoldable pub thread_by_tid : Kernel → ℕ → Option ℕ
thread_by_tid k tid = if (tid == 0) || ltb max_threads tid then none else k.table (tid - 1)

unfoldable pub register_from : Kernel → ℕ → ℕ → ℕ → Kernel × ℕ
register_from k t zero i = (k, 0)
register_from k t (suc left) i = elim (k.table i) [
  | none ↦ (
    record (put_thread k t (record (k.thread t) { tid = i + 1 })) {
      table = update k.table i (some t);
      registered = (k.registered + 1) % 2 ^ 32;
    },
    i + 1,
  )
  | some x ↦ register_from k t left (i + 1)
]

unfoldable pub register_thread : Kernel → ℕ → Kernel × ℕ
register_thread k t = register_from k t 1024 0

unfoldable pub unregister_thread : Kernel → ℕ → Kernel
unregister_thread k t =
    let i = (k.thread t).tid - 1 in
    if ((k.thread t).tid == 0) || ltb max_threads (k.thread t).tid
    then k
    else if points (k.table i) t
    then record k {
      table = update k.table i none;
      registered = if ltb 0 k.registered then k.registered - 1 else k.registered;
    }
    else k

unfoldable pub live_from : Kernel → ℕ → ℕ
live_from k zero = 0
live_from k (suc n) =
    let rest = live_from k n in
    elim (k.table n) [
      | none ↦ rest
      | some t ↦ if is_dead (k.thread t).state then rest else rest + 1
    ]

unfoldable pub thread_live_count : Kernel → ℕ
thread_live_count k = live_from k 1024

-- The size of a stack: the default for zero, and whole pages.
unfoldable pub stack_bytes : ℕ → ℕ
stack_bytes size =
    let wanted = if size == 0 then kernel_stack_size else size in
    (wanted + 4095) % 2 ^ 64 / 4096 * 4096

-- The frames that creation asks `pmm_alloc_frames` for.
unfoldable pub stack_frames : ℕ → ℕ
stack_frames size = stack_bytes size / page_size % 2 ^ 32

-- What `kzalloc`, and `pmm_alloc_frames` for the stack, returned are arguments. The initial registers
-- are not modelled.
unfoldable pub thread_create :
    Kernel → (entry : Bool) → (memory stack : Option ℕ) → (size priority : ℕ) → Kernel × Option ℕ
thread_create k false memory stack size priority = (k, none)
thread_create k true none stack size priority = (k, none)
thread_create k true (some t) none size priority = (
  perform (perform (put_thread k t zero_thread) (frames_asked (stack_frames size)))
      (thread_freed t),
  none,
)
thread_create k true (some t) (some base) size priority =
    let bytes = stack_bytes size in
    let (k', tid) =
      register_thread (perform (put_thread k t zero_thread) (frames_asked (stack_frames size))) t in
    if tid == 0
    then (perform (perform k' (frames_freed base (stack_frames size))) (thread_freed t), none)
    else (
      put_thread k' t (record (k'.thread t) {
        stack_base = some base;
        stack_size = bytes % 2 ^ 32;
        state = created;
        priority = if leb prio_levels priority then prio_default else priority;
        time_slice = time_slice_ticks;
        wait_obj = none;
      }),
      some t,
    )

unfoldable pub thread_adopt_current : Kernel → (memory : Option ℕ) → Kernel × Option ℕ
thread_adopt_current k none = (k, none)
thread_adopt_current k (some t) =
    let (k', tid) = register_thread (put_thread k t zero_thread) t in
    if tid == 0 then (perform k' (thread_freed t), none) else (
      record (put_thread k' t (record (k'.thread t) {
        state = running;
        priority = prio_default;
        time_slice = time_slice_ticks;
        stack_base = none;
        stack_size = 0;
      })) { self = some t },
      some t,
    )

-- The stack goes back first; the structure last.
unfoldable pub free_stack : Kernel → ℕ → Kernel
free_stack k t = elim (k.thread t).stack_base [
  | none ↦ k
  | some base ↦
      perform (put_thread k t (record (k.thread t) { stack_base = none }))
        (frames_freed base ((k.thread t).stack_size / page_size))
]

unfoldable pub thread_reap : Kernel → ℕ → Kernel
thread_reap k t =
    perform
      (unregister_thread (free_stack (put_thread k t (record (k.thread t) { state = dead })) t) t)
      (thread_freed t)
