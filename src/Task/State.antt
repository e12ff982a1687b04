-- ===== src/Task/State.antt =====
-- The data of kernel/include/afriyie/thread.h and process.h, and the static variables of
-- kernel/core/thread.c, sched.c and process.c.
use afriyie_os.Common.{
  ℕ, Bool, true, false, Option, none, some, List, [], ◌∷◌, ◌++◌, ◌||◌, update, leb, ◌==◌,
  if◌then◌else◌,
}

-- AF_PRIO_LEVELS, AF_PRIO_DEFAULT, AF_PRIO_IDLE, AF_TIME_SLICE_TICKS, AF_MAX_THREADS and
-- AF_MAX_PROCESSES of kernel/include/afriyie/config.h
abbrev pub prio_levels : ℕ
prio_levels = 8

abbrev pub prio_default : ℕ
prio_default = 4

abbrev pub prio_idle : ℕ
prio_idle = 7

abbrev pub time_slice_ticks : ℕ
time_slice_ticks = 2

abbrev pub max_threads : ℕ
max_threads = 1024

abbrev pub max_processes : ℕ
max_processes = 256

abbrev pub page_size : ℕ
page_size = 4096

abbrev pub kernel_stack_size : ℕ
kernel_stack_size = 16384

-- The length of `s_zombies`.
abbrev pub max_zombies : ℕ
max_zombies = 16

-- AF_PID_INVALID and AF_PID_KERNEL
abbrev pub pid_invalid : ℕ
pid_invalid = 0

abbrev pub pid_kernel : ℕ
pid_kernel = 1

-- `af_thread_state_t`
pub data ThreadState : Type 0 where
  unused created runnable running blocked sleeping zombie dead : ThreadState

abbrev pub is_running : ThreadState → Bool
is_running running = true
is_running _ = false

abbrev pub is_runnable : ThreadState → Bool
is_runnable runnable = true
is_runnable _ = false

abbrev pub is_created : ThreadState → Bool
is_created created = true
is_created _ = false

abbrev pub is_blocked : ThreadState → Bool
is_blocked blocked = true
is_blocked _ = false

abbrev pub is_sleeping : ThreadState → Bool
is_sleeping sleeping = true
is_sleeping _ = false

abbrev pub is_zombie : ThreadState → Bool
is_zombie zombie = true
is_zombie _ = false

abbrev pub is_dead : ThreadState → Bool
is_dead dead = true
is_dead _ = false

-- `af_thread_t` without the saved registers, the name and the links: the run queues and the
-- threads of a process are lists of identifiers below. A pointer is `none` where it is NULL.
pub record Thread : Type 0 where
  pub tid : ℕ
  pub state : ThreadState
  pub priority : ℕ
  pub time_slice : ℕ
  pub stack_base : Option ℕ
  pub stack_size : ℕ
  pub wake_tick : ℕ
  pub total_ticks : ℕ
  pub switches : ℕ
  pub wait_obj : Option ℕ
  pub process : Option ℕ

-- What `kzalloc` returns.
abbrev pub zero_thread : Thread
zero_thread = record {
  tid = 0;
  state = unused;
  priority = 0;
  time_slice = 0;
  stack_base = none;
  stack_size = 0;
  wake_tick = 0;
  total_ticks = 0;
  switches = 0;
  wait_obj = none;
  process = none;
}

-- `af_process_state_t`
pub data ProcessState : Type 0 where
  vacant alive exited gone : ProcessState

abbrev pub is_vacant : ProcessState → Bool
is_vacant vacant = true
is_vacant _ = false

abbrev pub is_alive : ProcessState → Bool
is_alive alive = true
is_alive _ = false

abbrev pub is_exited : ProcessState → Bool
is_exited exited = true
is_exited _ = false

-- `af_process_t` without its name; the exit code is the 32-bit word that holds it.
pub record Process : Type 0 where
  pub pid : ℕ
  pub status : ProcessState
  pub parent : ℕ
  pub addr_space : ℕ
  pub threads : List ℕ
  pub thread_count : ℕ
  pub exit_code : ℕ
  pub waiter : Option ℕ
  pub created_tick : ℕ
  pub caps : Option ℕ

-- What the kernel asks other parts for and gives back: `pmm_alloc_frames`, `kfree`, `pmm_free_frames`, `hal_pt_destroy` and
-- `cap_table_destroy`.
pub data Effect : Type 0 where
  thread_freed : ℕ → Effect
  frames_asked : ℕ → Effect
  frames_freed : ℕ → ℕ → Effect
  space_destroyed : ℕ → Effect
  caps_destroyed : ℕ → Effect

-- `thread` is the memory of the thread structures by their address; `current` is the `s_current` of
-- sched.c and `self` that of thread.c; `cr3` is the register that `hal_set_page_table` writes, and
-- `halted` says that an assertion stopped the machine.
pub record Kernel : Type 0 where
  pub thread : ℕ → Thread
  pub table : ℕ → Option ℕ
  pub registered : ℕ
  pub self : Option ℕ
  pub runq : ℕ → List ℕ
  pub runq_len : ℕ → ℕ
  pub current : Option ℕ
  pub idle : Option ℕ
  pub ticks : ℕ
  pub switched : ℕ
  pub need_resched : Bool
  pub kernel_root : ℕ
  pub last_installed : ℕ
  pub cr3 : ℕ
  pub zombies : List ℕ
  pub procs : ℕ → Process
  pub live : ℕ
  pub next_pid : ℕ
  pub effects : List Effect
  pub halted : Bool

abbrev pub put_thread : Kernel → ℕ → Thread → Kernel
put_thread k t v = record k { thread = update k.thread t v }

abbrev pub put_process : Kernel → ℕ → Process → Kernel
put_process k p v = record k { procs = update k.procs p v }

abbrev pub perform : Kernel → Effect → Kernel
perform k e = record k { effects = k.effects ++ (e ∷ []) }

-- The priority that `runq_push` uses.
abbrev pub level : Thread → ℕ
level t = if leb prio_levels t.priority then 7 else t.priority

-- `thread` is in the list.
unfoldable pub has : ℕ → List ℕ → Bool
has t [] = false
has t (x ∷ xs) = (x == t) || has t xs

-- A pointer equals the address.
abbrev pub points : Option ℕ → ℕ → Bool
points none t = false
points (some x) t = x == t
