-- ===== src/Task/Pids.antt =====
-- Process identifiers: `process_create` of kernel/core/process.c.
use afriyie_os.Common.{
  ℕ, zero, suc, ◌+◌, ◌-◌, ◌≤◌, ◌<◌, ◌≡◌, refl, subst, not, ◌||◌, Option, none, some, List, [], ◌∷◌,
  ltb, ◌==◌, arith, Bool-cases, Option-cases, inl, inr, ◌⊎◌,
}
use afriyie_os.Task.State.{Kernel, vacant, is_vacant}
use afriyie_os.Task.Calls.{process_ended, sched_unblock}
use afriyie_os.Task.Queue.{runq_push}
use afriyie_os.Task.Process.{
  find_slot, process_init, process_create, process_attach_thread, process_detach_thread,
  process_reap, release_space, release_caps, vacate,
}

-- A slot that is found is free, and no lower one is at or beyond the next pid.
find_slot-lem :
    (k : Kernel) (left n i : ℕ)
    → find_slot k left n ≡ some i
    → (i < n + left) × (k.next_pid ≤ i + 1) × ((k.procs i).status ≡ vacant)
unfolding find_slot
find_slot-lem k zero n i e = absurd (ground (arith, e))
find_slot-lem k (suc left) n i e =
    elim (Bool-cases (ltb (n + 1) k.next_pid || not (is_vacant (k.procs n).status))) [
      | inl skip ↦
          let later : find_slot k left (n + 1) ≡ some i = ground (arith, e, skip) in
          let (lt, next, free) = find_slot-lem k left (n + 1) i later in
          (omega (arith, lt), next, free)
      | inr here ↦
          let same : n ≡ i = ground (arith, e, here) in
          (
            omega (arith, same),
            ground (arith, here, same),
            subst (λ j. (k.procs j).status ≡ vacant) same (ground (arith, here)),
          )
    ]

-- The calls that write to the process table.
pub data ProcessCall : Type 0 where
  creates : (parent space : ℕ) → (caps : Option ℕ) → ProcessCall
  joins : (p t : Option ℕ) → ProcessCall
  parts : ℕ → ProcessCall
  ends : (p code : ℕ) → ProcessCall
  reaps : ℕ → ProcessCall

-- The state after the calls, and how many processes they created.
abbrev pub run_calls : Kernel → List ProcessCall → Kernel × ℕ
run_calls k [] = (k, 0)
run_calls k (creates parent space caps ∷ cs) =
    let (k', made) = process_create k parent space caps in
    let (k'', n) = run_calls k' cs in (k'', elim made [ none ↦ n | some i ↦ n + 1 ])
run_calls k (joins p t ∷ cs) = run_calls (process_attach_thread k p t) cs
run_calls k (parts t ∷ cs) = run_calls (process_detach_thread k t) cs
run_calls k (ends p code ∷ cs) = run_calls (process_ended k p code) cs
run_calls k (reaps p ∷ cs) = run_calls (process_reap k p) cs

create-next_pid :
    (k : Kernel) (parent space : ℕ) (caps : Option ℕ)
    → let (k', made) = process_create k parent space caps in
      ((made ≡ none) × (k'.next_pid ≡ k.next_pid))
      ⊎ ((i : ℕ) × (made ≡ some i) × (i < 256) × (k.next_pid ≤ i + 1) × (k'.next_pid ≡ i + 2))
unfolding process_create
create-next_pid k parent space caps = elim (Option-cases (find_slot k 256 0)) [
  | inl e ↦ inl (ground (arith, e), ground (arith, e))
  | inr (i, e) ↦
      let (lt, next, free) = find_slot-lem k 256 0 i e in
      elim (Bool-cases (space == 0)) [
        | inl none_left ↦ inl (ground (arith, e, none_left), ground (arith, e, none_left))
        | inr space_made ↦ elim (Option-cases caps) [
          | inl no_caps ↦
              inl (ground (arith, e, space_made, no_caps), ground (arith, e, space_made, no_caps))
          | inr (c, caps_made) ↦ inr (
            i,
            ground (arith, e, space_made, caps_made),
            omega (arith, lt),
            next,
            ground (arith, e, space_made, caps_made, next),
          )
        ]
      ]
]

reap-next_pid : (k : Kernel) (p : ℕ) → (process_reap k p).next_pid ≡ k.next_pid
unfolding process_reap release_space release_caps vacate
reap-next_pid k p = ground arith

attach-next_pid :
    (k : Kernel) (p t : Option ℕ) → (process_attach_thread k p t).next_pid ≡ k.next_pid
unfolding process_attach_thread
attach-next_pid k none t = refl
attach-next_pid k (some p) none = refl
attach-next_pid k (some p) (some t) = refl

detach-next_pid : (k : Kernel) (t : ℕ) → (process_detach_thread k t).next_pid ≡ k.next_pid
unfolding process_detach_thread
detach-next_pid k t = ground arith

ended-next_pid : (k : Kernel) (p code : ℕ) → (process_ended k p code).next_pid ≡ k.next_pid
unfolding process_ended sched_unblock runq_push
ended-next_pid k p code = elim (Option-cases (k.procs p).waiter) [
  | inl e ↦ ground (arith, e)
  | inr (w, e) ↦ ground (arith, e)
]

calls-le : (cs : List ProcessCall) (k : Kernel) → (run_calls k cs).1 ≤ 257 - k.next_pid
calls-le [] k = omega arith
calls-le (creates parent space caps ∷ cs) k =
    ground (
      arith,
      create-next_pid k parent space caps,
      calls-le cs (process_create k parent space caps).0,
    )
calls-le (joins p t ∷ cs) k =
    omega (arith, calls-le cs (process_attach_thread k p t), attach-next_pid k p t)
calls-le (parts t ∷ cs) k =
    omega (arith, calls-le cs (process_detach_thread k t), detach-next_pid k t)
calls-le (ends p code ∷ cs) k =
    omega (arith, calls-le cs (process_ended k p code), ended-next_pid k p code)
calls-le (reaps p ∷ cs) k = omega (arith, calls-le cs (process_reap k p), reap-next_pid k p)

-- Of all processes that are ever created, 255 at most come into being, however many of them have ended and were
-- reaped: the slots are not used again.
pub pids_run_out : (k : Kernel) (cs : List ProcessCall) → (run_calls (process_init k) cs).1 ≤ 255
unfolding process_init
pids_run_out k cs = calls-le cs (process_init k)
