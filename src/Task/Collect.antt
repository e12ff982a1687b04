-- ===== src/Task/Collect.antt =====
-- `sched_collect_zombies` of kernel/core/sched.c.
use afriyie_os.Common.{
  ℕ, zero, suc, ◌+◌, ◌≤◌, ◌≡◌, ◌≢◌, refl, sym, ap, subst, ◌∙◌, List, [], ◌∷◌, length, ◌==◌,
  if◌then◌else◌, arith, List-cases, Option-cases, inl, inr,
}
use afriyie_os.Task.State.{Kernel, zombie, dead}
use afriyie_os.Task.Threads.{thread_reap}
use afriyie_os.Task.Switch.{split_last, leave_process, bury, collect_from, sched_collect_zombies}
use afriyie_os.Task.Invariant.{occurs, IsValid}
use afriyie_os.Task.Alike.{Reaped, thread_reap-Reaped}
use afriyie_os.Task.Teardown.{leave_process-Alike}

split_last-occurs :
    (u x : ℕ) (ys : List ℕ)
    → occurs u (x ∷ ys) ≡ occurs u (split_last x ys).0 + (if (split_last x ys).1 == u then 1 else 0)
unfolding split_last
split_last-occurs u x [] = ground arith
split_last-occurs u x (y ∷ ys) = ground (arith, split_last-occurs u y ys)

split_last-length : (x : ℕ) (ys : List ℕ) → length (split_last x ys).0 ≡ length ys
unfolding split_last
split_last-length x [] = refl
split_last-length x (y ∷ ys) = omega (arith, split_last-length y ys)

-- A buried zombie is dead, and everything else of the scheduler stays.
bury-Reaped : (k : Kernel) (t : ℕ) → Reaped k (bury k t) t
unfolding bury
bury-Reaped k t = elim (Option-cases (k.thread t).process) [
  | inl e ↦
      let same : thread_reap k t ≡ bury k t = ground (arith, e) in
      subst (λ s. Reaped k s t) same (thread_reap-Reaped k t)
  | inr (p, e) ↦
      let a = leave_process-Alike k t p in
      let r = thread_reap-Reaped (leave_process k t p) t in
      let same : thread_reap (leave_process k t p) t ≡ bury k t = ground (arith, e) in
      subst (λ s. Reaped k s t) same
        (record {
          states = λ u. r.states u ∙ ap (λ s. if u == t then dead else s) (a.states u);
          priorities = λ u. r.priorities u ∙ a.priorities u;
          current = r.current ∙ a.current;
          self = r.self ∙ a.self;
          idle = r.idle ∙ a.idle;
          runq = λ p. r.runq p ∙ a.runq p;
          zombies = r.zombies ∙ a.zombies;
        })
]

-- The last zombie of the list is buried.
bury_last-IsValid :
    (k : Kernel) (z : ℕ) (zs : List ℕ) (c i : ℕ)
    → k.zombies ≡ z ∷ zs
    → IsValid k c i
    → IsValid (bury (record k { zombies = (split_last z zs).0 }) (split_last z zs).1) c i
bury_last-IsValid k z zs c i e v =
    let front = (split_last z zs).0 in
    let last = (split_last z zs).1 in
    let r = bury-Reaped (record k { zombies = front }) last in
    let counts : (u : ℕ) → occurs u k.zombies ≡ occurs u front + (if last == u then 1 else 0) =
      λ u. ap (occurs u) e ∙ split_last-occurs u z zs in
    let lying : (last ≢ c) × ((k.thread last).state ≡ zombie) =
      ground (arith, counts last, v.held.zombies last) in
    record {
      held = record {
        current = r.current ∙ v.held.current;
        self = r.self ∙ v.held.self;
        idle = r.idle ∙ v.held.idle;
        queues = λ u p lt. ground (
          arith,
          v.held.queues u p lt,
          ap (occurs u) (r.runq p),
          r.states u,
          r.priorities u,
          lying,
        );
        zombies = λ u. ground (
          arith,
          v.held.zombies u,
          v.held.zombies last,
          counts u,
          counts last,
          ap (occurs u) r.zombies,
          r.states u,
          lying,
        );
        room =
            ground (arith, ap length r.zombies, split_last-length z zs, ap length e, v.held.room);
        only = λ u run. ground (arith, r.states u, v.held.only u, run);
        ready = λ ne. ground (arith, r.states i, v.held.ready ne, lying);
      };
      runs = ground (arith, r.states c, v.runs, lying);
    }

bury_last-zombies :
    (k : Kernel) (z : ℕ) (zs : List ℕ)
    → (bury (record k { zombies = (split_last z zs).0 }) (split_last z zs).1).zombies
      ≡ (split_last z zs).0
bury_last-zombies k z zs =
    (bury-Reaped (record k { zombies = (split_last z zs).0 }) (split_last z zs).1).zombies

collect_from-step :
    (k : Kernel) (left z : ℕ) (zs : List ℕ)
    → k.zombies ≡ z ∷ zs
    → collect_from k (suc left)
      ≡ collect_from (bury (record k { zombies = (split_last z zs).0 }) (split_last z zs).1) left
unfolding collect_from
collect_from-step k left z zs e = ground (arith, e)

collect_from-stop : (k : Kernel) (left : ℕ) → k.zombies ≡ [] → collect_from k left ≡ k
unfolding collect_from
collect_from-stop k zero e = refl
collect_from-stop k (suc left) e = ground (arith, e)

-- Each round buries one zombie, so as many rounds as there are zombies leave none.
collect_from-empties :
    (left : ℕ) (k : Kernel) (c i : ℕ)
    → length k.zombies ≤ left
    → IsValid k c i
    → IsValid (collect_from k left) c i × ((collect_from k left).zombies ≡ [])
collect_from-empties zero k c i le v = elim (List-cases k.zombies) [
  | inl e ↦
      let stops = collect_from-stop k zero e in
      subst (λ s. IsValid s c i × (s.zombies ≡ [])) (sym stops) (v, e)
  | inr (z, zs, e) ↦ absurd (ground (arith, ap length e))
]
collect_from-empties (suc left) k c i le v = elim (List-cases k.zombies) [
  | inl e ↦
      let stops = collect_from-stop k (suc left) e in
      subst (λ s. IsValid s c i × (s.zombies ≡ [])) (sym stops) (v, e)
  | inr (z, zs, e) ↦
      let k' : Kernel = bury (record k { zombies = (split_last z zs).0 }) (split_last z zs).1 in
      let fewer : length k'.zombies ≤ left =
        ground (arith, ap length (bury_last-zombies k z zs), split_last-length z zs, ap length e) in
      subst (λ s. IsValid s c i × (s.zombies ≡ [])) (sym (collect_from-step k left z zs e))
        (collect_from-empties left k' c i fewer (bury_last-IsValid k z zs c i e v))
]

pub collect-IsValid :
    (k : Kernel) (c i : ℕ)
    → IsValid k c i
    → IsValid (sched_collect_zombies k) c i × ((sched_collect_zombies k).zombies ≡ [])
unfolding sched_collect_zombies
collect-IsValid k c i v = collect_from-empties (length k.zombies) k c i (omega arith) v

-- After the idle thread has collected the zombies, no thread is one, and the scheduler is as sound as
-- before.
pub collect_lem :
    (k : Kernel) (c i t : ℕ)
    → IsValid k c i
    → IsValid (sched_collect_zombies k) c i × (((sched_collect_zombies k).thread t).state ≢ zombie)
collect_lem k c i t v =
    let (v', empty) = collect-IsValid k c i v in
    (v', (λ e. ground (arith, v'.held.zombies t, ap (occurs t) empty, v'.runs, e)))
