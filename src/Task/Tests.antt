-- ===== src/Task/Tests.antt =====
-- The theorems about threads and processes at concrete states.
use afriyie_os.Common.{
  ℕ, ◌+◌, ◌*◌, ◌^◌, ◌≤◌, ◌<◌, ◌≡◌, ◌≢◌, refl, subst, true, false, none, some, List, [], ◌∷◌, ◌++◌,
  ◌==◌, if◌then◌else◌, arith, ◌⊎◌, inr, update, noent,
}
use afriyie_os.Task.State.{
  Kernel, Thread, put_thread, zero_thread, running, runnable, created, zombie, exited, alive,
  thread_freed, frames_freed, frames_asked, sleeping, level,
}
use afriyie_os.Task.Queue.{runq_push}
use afriyie_os.Task.Threads.{
  thread_create, thread_reap, register_thread, register_from, stack_bytes, stack_frames,
}
use afriyie_os.Task.Process.{zero_process, process_init, slot_for_pid, process_current}
use afriyie_os.Task.Switch.{bury}
use afriyie_os.Task.Calls.{
  sched_init, sched_admit, sched_yield, sched_block, sched_tick, process_wait, returns, sleep_mark,
  sleep_resumed,
}
use afriyie_os.Task.Invariant.{IsValid, occurs}
use afriyie_os.Task.Alike.{Alike, IsValid-Alike}
use afriyie_os.Task.Wakes.{admit-IsValid}
use afriyie_os.Task.Histories.{
  IsBooted, rests, goes, admits, yields, ticks, started-IsValid, history_lem,
}
use afriyie_os.Task.Priority.{Switched, sched_yield_lem}
use afriyie_os.Task.Rotation.{Waits, ticks_on, turn_comes, slice_left}
use afriyie_os.Task.Spaces.{Uses, IsInstalled, yield-IsInstalled, block_keeps_tables}
use afriyie_os.Task.Hazards.{collected_before_wait, sleep_race}
use afriyie_os.Task.Table.{create-reap}
use afriyie_os.Task.Pids.{creates, reaps, run_calls, pids_run_out}

-- Thread 1 is the boot thread, thread 2 the idle thread, thread 3 a worker.
abbrev fresh_thread : ℕ → Thread
fresh_thread t = record zero_thread { tid = t; state = created; priority = 4; time_slice = 2 }

abbrev boot_state : Kernel
boot_state = record {
  thread = λ t. if t == 1 then record (fresh_thread 1) { state = running } else fresh_thread t;
  table =
      λ i. if i == 0 then some 1 else if i == 1 then some 2 else if i == 2 then some 3 else none;
  registered = 3;
  self = some 1;
  runq = λ p. [];
  runq_len = λ p. 0;
  current = none;
  idle = none;
  ticks = 0;
  switched = 0;
  need_resched = false;
  kernel_root = 0;
  last_installed = 0;
  cr3 = 4096;
  zombies = [];
  procs = λ i. zero_process;
  live = 0;
  next_pid = 2;
  effects = [];
  halted = false;
}

boot_state-IsBooted : IsBooted boot_state 1 2
boot_state-IsBooted = record {
  differ = ground arith;
  self = refl;
  zombies = refl;
  others = λ t ne. ground arith;
}

abbrev started : Kernel
started = sched_admit (sched_init boot_state (some 1) (some 2)).0 (some 2)

abbrev working : Kernel
working = sched_admit started (some 3)

working-IsValid : IsValid working 1 2
working-IsValid =
    admit-IsValid started (some 3) 1 2 (started-IsValid boot_state 1 2 boot_state-IsBooted)

history_lem_example : (c : ℕ) × IsValid (sched_tick (sched_yield working)) c 2
history_lem_example =
    history_lem boot_state (sched_tick (sched_yield working)) 1 2 boot_state-IsBooted (
      goes started (sched_yield working) (sched_tick (sched_yield working))
        (goes started working (sched_yield working)
          (goes started started working (rests started) (admits started (some 3))) (yields working))
        (ticks (sched_yield working)))

working-Waits : Waits working 1 2 4 3 0
unfolding sched_admit sched_init runq_push
working-Waits = record {
  valid = working-IsValid;
  low = omega arith;
  place = ([], [], refl, refl);
  above = λ r lt. ground arith;
  own = omega arith;
  asleep = λ u s. ground arith;
}

turn_comes_example :
    (m : ℕ) × (m ≤ slice_left (working.thread 1).time_slice + 2 * 0)
    × ((ticks_on m working).current ≡ some 3)
turn_comes_example = turn_comes working 1 2 4 3 0 working-Waits

sched_yield_lem_example :
    (((u : ℕ) → (working.thread u).state ≢ runnable) × ((sched_yield working).current ≡ some 1))
    ⊎ ((t : ℕ) × (rest : List ℕ) × (q : ℕ) × (working.runq q ≡ t ∷ rest)
        × ((u : ℕ) → (working.thread u).state ≡ runnable → q ≤ level (working.thread u))
        × Switched working (sched_yield working) 1 t q rest)
sched_yield_lem_example = sched_yield_lem working 1 2 working-IsValid

-- The worker sleeps until tick 5.
abbrev sleepy : Kernel
sleepy = put_thread boot_state 3 (record (fresh_thread 3) { state = sleeping; wake_tick = 5 })

-- The boot thread belongs to process 1, whose page tables are installed.
abbrev settled : Kernel
settled = record working {
  thread = update working.thread 1 (record (working.thread 1) { process = some 0 });
  procs = λ p. record zero_process { pid = 1; status = alive; addr_space = 8192 };
  cr3 = 8192;
  last_installed = 8192;
}

settled-Alike : Alike working settled
unfolding sched_admit sched_init runq_push
settled-Alike = record {
  states = λ u. ground arith;
  priorities = λ u. ground arith;
  current = refl;
  self = refl;
  idle = refl;
  runq = λ p. refl;
  zombies = refl;
}

settled-IsValid : IsValid settled 1 2
settled-IsValid = IsValid-Alike working settled 1 2 settled-Alike working-IsValid

settled-IsInstalled : IsInstalled settled 1
unfolding sched_admit sched_init runq_push
settled-IsInstalled = (inr ((λ e. omega (arith, e)), refl), refl)

settled-root : settled.kernel_root ≢ 0
unfolding sched_admit sched_init runq_push
settled-root = λ e. omega (arith, e)

settled-alone : (u : ℕ) → u ≢ 1 → ¬ Uses settled settled.cr3 (settled.thread u).process
unfolding sched_admit sched_init runq_push
settled-alone u ne = λ uses.
    let outside : (settled.thread u).process ≡ none = ground (arith, ne) in
    let at : 8192 ≡ settled.kernel_root = subst (Uses settled settled.cr3) outside uses in
    omega (arith, at)

yield-IsInstalled_example :
    (c' : ℕ) × ((sched_yield settled).current ≡ some c') × IsInstalled (sched_yield settled) c'
yield-IsInstalled_example =
    yield-IsInstalled settled 1 2 settled-IsValid settled-root settled-IsInstalled

block_keeps_tables_example :
    (t : ℕ) × ((sched_block settled none).current ≡ some t)
    × (t ≢ 1)
    × ((sched_block settled none).cr3 ≡ 8192)
    × ¬ Uses
        (sched_block settled none)
        (sched_block settled none).cr3
        ((sched_block settled none).thread t).process
block_keeps_tables_example =
    block_keeps_tables settled none 1 2 settled-IsValid (λ e. omega (arith, e)) settled-alone

-- Process 3 has exited; its last thread is thread 7, and its parent is process 2 of thread 1.
abbrev family : Kernel
family = record boot_state {
  thread = λ t.
      if t == 7
      then record (fresh_thread 7) { state = zombie; process = some 2 }
      else record (fresh_thread t) { state = running; process = some 1 };
  procs = λ i.
      if i == 2
      then record zero_process {
        pid = 3;
        status = exited;
        parent = 2;
        addr_space = 8192;
        threads = 7 ∷ [];
        thread_count = 1;
        exit_code = 42;
      }
      else record zero_process { pid = 2; status = alive; addr_space = 12288 };
  kernel_root = 4096;
}

collected_before_wait_example :
    let k' = bury family 7 in process_wait k' 3 ≡ (k', returns noent none)
collected_before_wait_example =
    collected_before_wait family 7 2 refl refl refl refl (λ e. omega (arith, e))
      (λ e. omega (arith, e))

family-slot : slot_for_pid family 3 ≡ some 2
unfolding slot_for_pid
family-slot = refl

family-current : process_current family ≡ some 1
unfolding process_current
family-current = refl

working-slot : working.table 0 ≡ some 1
unfolding sched_admit sched_init runq_push
working-slot = refl

working-times :
    (working.need_resched ≡ false)
    × (1 < (working.thread 1).time_slice)
    × (working.ticks + 1 < 2 ^ 64)
unfolding sched_admit sched_init runq_push
working-times = (refl, omega arith, omega arith)

sleep_race_example :
    let k' = sched_tick (sleep_mark working 1 1) in
    (k'.current ≡ some 1)
    × ((k'.thread 1).state ≡ runnable)
    × (0 < occurs 1 (k'.runq (level (working.thread 1))))
    × (sleep_resumed k' 1 ≡ k')
    × ((d e : ℕ) → ¬ IsValid k' d e)
sleep_race_example =
    sleep_race working 1 2 0 working-IsValid (omega arith) working-slot working-times.0
      working-times.1 working-times.2

created_works : (thread_create boot_state true (some 9) (some 65536) 0 4).1 ≡ some 9
unfolding thread_create register_thread register_from stack_bytes
created_works = refl

small_stack : stack_bytes 0 < 2 ^ 32
unfolding stack_bytes
small_stack = omega arith

create-reap_example :
    let k' = thread_reap (thread_create boot_state true (some 9) (some 65536) 0 4).0 9 in
    (k'.table 3 ≡ boot_state.table 3)
    × (k'.registered ≡ 3)
    × (k'.effects
        ≡ (([] ++ (frames_asked (stack_frames 0) ∷ []))
            ++ (frames_freed 65536 (stack_frames 0) ∷ []))
          ++ (thread_freed 9 ∷ []))
create-reap_example = create-reap boot_state 9 65536 0 4 3 (omega arith) small_stack created_works

pids_run_out_example :
    (run_calls (process_init boot_state) (creates 1 8192 (some 0) ∷ reaps 1 ∷ [])).1 ≤ 255
pids_run_out_example = pids_run_out boot_state (creates 1 8192 (some 0) ∷ reaps 1 ∷ [])

-- A stack of 16 KiB by default, and whole pages otherwise.
stack_of_default : stack_bytes 0 ≡ 16384
unfolding stack_bytes
stack_of_default = refl

stack_of_one : stack_bytes 1 ≡ 4096
unfolding stack_bytes
stack_of_one = refl
