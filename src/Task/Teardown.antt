-- ===== src/Task/Teardown.antt =====
-- The ends of threads and processes, and the scheduler's invariant.
use afriyie_os.Common.{ℕ, refl, subst, ◌∙◌, ◌&&◌, ◌==◌, arith, Bool-cases, Option-cases, inl, inr}
use afriyie_os.Task.State.{Kernel, Process, put_process, is_vacant, is_exited}
use afriyie_os.Task.Process.{
  process_reap, process_detach_thread, release_space, release_caps, vacate,
}
use afriyie_os.Task.Switch.{leave_space, reap_empty, leave_process}
use afriyie_os.Task.Alike.{Alike}

pub Alike-refl : (k : Kernel) → Alike k k
Alike-refl k = record {
  states = λ u. refl;
  priorities = λ u. refl;
  current = refl;
  self = refl;
  idle = refl;
  runq = λ p. refl;
  zombies = refl;
}

pub Alike-trans : (a b c : Kernel) → Alike a b → Alike b c → Alike a c
Alike-trans a b c f g = record {
  states = λ u. g.states u ∙ f.states u;
  priorities = λ u. g.priorities u ∙ f.priorities u;
  current = g.current ∙ f.current;
  self = g.self ∙ f.self;
  idle = g.idle ∙ f.idle;
  runq = λ p. g.runq p ∙ f.runq p;
  zombies = g.zombies ∙ f.zombies;
}

-- Writes to a process are not read by the invariant.
pub process-Alike : (k : Kernel) (p : ℕ) (v : Process) → Alike k (put_process k p v)
process-Alike k p v = record {
  states = λ u. refl;
  priorities = λ u. refl;
  current = refl;
  self = refl;
  idle = refl;
  runq = λ p. refl;
  zombies = refl;
}

release_space-Alike : (k : Kernel) (p : ℕ) → Alike k (release_space k p)
unfolding release_space
release_space-Alike k p = record {
  states = λ u. ground arith;
  priorities = λ u. ground arith;
  current = ground arith;
  self = ground arith;
  idle = ground arith;
  runq = λ p. ground arith;
  zombies = ground arith;
}

release_caps-Alike : (k : Kernel) (p : ℕ) → Alike k (release_caps k p)
unfolding release_caps
release_caps-Alike k p = record {
  states = λ u. ground arith;
  priorities = λ u. ground arith;
  current = ground arith;
  self = ground arith;
  idle = ground arith;
  runq = λ p. ground arith;
  zombies = ground arith;
}

vacate-Alike : (k : Kernel) (p : ℕ) → Alike k (vacate k p)
unfolding vacate
vacate-Alike k p = record {
  states = λ u. ground arith;
  priorities = λ u. ground arith;
  current = ground arith;
  self = ground arith;
  idle = ground arith;
  runq = λ p. ground arith;
  zombies = ground arith;
}

pub process_reap-Alike : (k : Kernel) (p : ℕ) → Alike k (process_reap k p)
unfolding process_reap
process_reap-Alike k p =
    let a = release_space-Alike k p in
    let b = release_caps-Alike (release_space k p) p in
    let c = vacate-Alike (release_caps (release_space k p) p) p in
    let all = Alike-trans k _ _ a (Alike-trans (release_space k p) _ _ b c) in
    elim (Bool-cases (is_vacant (k.procs p).status)) [
      | inl e ↦ rw e (Alike-refl k)
      | inr e ↦ elim (Bool-cases (k.cr3 == (k.procs p).addr_space)) [
        | inl here ↦
            rw (e, here)
              (record {
                states = λ u. refl;
                priorities = λ u. refl;
                current = refl;
                self = refl;
                idle = refl;
                runq = λ p. refl;
                zombies = refl;
              })
        | inr away ↦ rw (e, away) all
      ]
    ]

pub detach-Alike : (k : Kernel) (t : ℕ) → Alike k (process_detach_thread k t)
unfolding process_detach_thread
detach-Alike k t = record {
  states = λ u. ground arith;
  priorities = λ u. ground arith;
  current = ground arith;
  self = ground arith;
  idle = ground arith;
  runq = λ p. ground arith;
  zombies = ground arith;
}

leave_space-Alike : (k : Kernel) (space : ℕ) → Alike k (leave_space k space)
unfolding leave_space
leave_space-Alike k space = record {
  states = λ u. ground arith;
  priorities = λ u. ground arith;
  current = ground arith;
  self = ground arith;
  idle = ground arith;
  runq = λ p. ground arith;
  zombies = ground arith;
}

reap_empty-Alike : (k : Kernel) (p : ℕ) → Alike k (reap_empty k p)
unfolding reap_empty
reap_empty-Alike k p = elim (Option-cases (k.procs p).waiter) [
  | inr (w, e) ↦ subst (Alike k) (ground (arith, e)) (Alike-refl k)
  | inl e ↦ elim (Bool-cases (((k.procs p).thread_count == 0) && is_exited (k.procs p).status)) [
    | inl yes_last ↦ subst (Alike k) (ground (arith, e, yes_last)) (process_reap-Alike k p)
    | inr not_last ↦ subst (Alike k) (ground (arith, e, not_last)) (Alike-refl k)
  ]
]

pub leave_process-Alike : (k : Kernel) (t p : ℕ) → Alike k (leave_process k t p)
unfolding leave_process
leave_process-Alike k t p =
    let k1 : Kernel = leave_space k (k.procs p).addr_space in
    let k2 : Kernel = process_detach_thread k1 t in
    Alike-trans k k1 (reap_empty k2 p) (leave_space-Alike k (k.procs p).addr_space)
      (Alike-trans k1 k2 (reap_empty k2 p) (detach-Alike k1 t) (reap_empty-Alike k2 p))
