-- ===== src/Task/Process.antt =====
-- The process table of kernel/core/process.c: lookup, creation, membership and teardown.
use afriyie_os.Common.{
  ℕ, zero, suc, ◌+◌, ◌-◌, ◌%◌, ◌^◌, true, not, ◌||◌, Option, none, some, [], ◌∷◌, ltb, ◌==◌,
  if◌then◌else◌,
}
use afriyie_os.Ipc.Ops.{remove}
use afriyie_os.Task.State.{
  Kernel, Process, put_thread, put_process, perform, vacant, alive, is_vacant, space_destroyed,
  caps_destroyed, pid_invalid, pid_kernel,
}

-- What `af_memset` leaves.
abbrev pub zero_process : Process
zero_process = record {
  pid = 0;
  status = vacant;
  parent = 0;
  addr_space = 0;
  threads = [];
  thread_count = 0;
  exit_code = 0;
  waiter = none;
  created_tick = 0;
  caps = none;
}

unfoldable pub process_init : Kernel → Kernel
process_init k = record k { procs = λ i. zero_process; live = 0; next_pid = 2 }

-- `slot_for_pid`. A pid beyond the table is looked up past its end.
unfoldable pub slot_for_pid : Kernel → ℕ → Option ℕ
slot_for_pid k pid =
    if (pid == pid_invalid) || (pid == pid_kernel)
    then none
    else if is_vacant (k.procs (pid - 1)).status || not ((k.procs (pid - 1)).pid == pid)
    then none
    else some (pid - 1)

unfoldable pub process_current : Kernel → Option ℕ
process_current k = elim k.self [ none ↦ none | some t ↦ (k.thread t).process ]

-- The search for a slot from `i` on.
unfoldable pub find_slot : Kernel → ℕ → ℕ → Option ℕ
find_slot k zero i = none
find_slot k (suc left) i =
    let rest = find_slot k left (i + 1) in
    if ltb (i + 1) k.next_pid then rest else if is_vacant (k.procs i).status then some i else rest

-- What `hal_pt_create_user` and `cap_table_create` returned are arguments.
unfoldable pub process_create : Kernel → (parent space : ℕ) → (caps : Option ℕ) → Kernel × Option ℕ
process_create k parent space caps = elim (find_slot k 256 0) [
  | none ↦ (k, none)
  | some i ↦
      if space == 0
      then (put_process k i (record (k.procs i) { pid = pid_invalid }), none)
      else elim caps [
        | none ↦ (
          perform (put_process k i (record (k.procs i) { pid = pid_invalid }))
              (space_destroyed space),
          none,
        )
        | some c ↦ (
          record (put_process k i (record {
            pid = i + 1;
            status = alive;
            parent = parent;
            addr_space = space;
            threads = [];
            thread_count = 0;
            exit_code = 0;
            waiter = none;
            created_tick = k.ticks;
            caps = some c;
          })) {
            next_pid = if ltb (i + 1) k.next_pid then k.next_pid else i + 2;
            live = (k.live + 1) % 2 ^ 32;
          },
          some i,
        )
      ]
]

-- The threads of a process are a list here, the latest first.
unfoldable pub process_attach_thread : Kernel → Option ℕ → Option ℕ → Kernel
process_attach_thread k none t = k
process_attach_thread k (some p) none = k
process_attach_thread k (some p) (some t) =
    put_process (put_thread k t (record (k.thread t) { process = some p })) p (record (k.procs p) {
      threads = t ∷ (k.procs p).threads;
      thread_count = ((k.procs p).thread_count + 1) % 2 ^ 32;
    })

unfoldable pub process_detach_thread : Kernel → ℕ → Kernel
process_detach_thread k t = elim (k.thread t).process [
  | none ↦ k
  | some p ↦
      put_process (put_thread k t (record (k.thread t) { process = none })) p (record (k.procs p) {
        threads = remove t (k.procs p).threads;
        thread_count =
            if ltb 0 (k.procs p).thread_count
            then (k.procs p).thread_count - 1
            else (k.procs p).thread_count;
      })
]

-- The address space and the capabilities go back first.
unfoldable pub release_space : Kernel → ℕ → Kernel
release_space k p =
    if (k.procs p).addr_space == 0
    then k
    else perform (put_process k p (record (k.procs p) { addr_space = 0 }))
        (space_destroyed (k.procs p).addr_space)

unfoldable pub release_caps : Kernel → ℕ → Kernel
release_caps k p = elim (k.procs p).caps [
  | none ↦ k
  | some c ↦ perform (put_process k p (record (k.procs p) { caps = none })) (caps_destroyed c)
]

-- `process_reap` from the check of the remaining threads on.
unfoldable pub vacate : Kernel → ℕ → Kernel
vacate k p =
    if (k.procs p).thread_count == 0
    then record (put_process k p
        (record (k.procs p) { status = vacant; pid = pid_invalid; parent = pid_invalid })) {
          live = if ltb 0 k.live then k.live - 1 else k.live;
        }
    else k

-- As in a build with assertions.
unfoldable pub process_reap : Kernel → ℕ → Kernel
process_reap k p =
    if is_vacant (k.procs p).status
    then k
    else if k.cr3 == (k.procs p).addr_space
    then record k { halted = true }
    else vacate (release_caps (release_space k p) p) p
