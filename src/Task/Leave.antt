-- ===== src/Task/Leave.antt =====
-- What becomes of the thread that leaves the processor.
use afriyie_os.Common.{
  ℕ, ◌≤◌, ◌≡◌, ◌≢◌, refl, sym, ap, subst, ◌∙◌, false, some, List, [], ◌∷◌, ◌++◌, length,
  length-append, ltb, arith, Bool-cases, List-cases, inl, inr, ◌⊎◌,
}
use afriyie_os.Task.State.{Kernel, has, running, runnable, zombie}
use afriyie_os.Task.Queue.{runq_push, remove_from, runq_remove, shrink}
use afriyie_os.Task.Switch.{sched_reap, reap_oldest, leave, enter}
use afriyie_os.Task.Alike.{thread_reap-Reaped, remove_from-absent}
use afriyie_os.Task.Invariant.{
  occurs, occurs-append, has-occurs, Queues, Zombies, Held, IsValid, push-Queues, Popped,
  pop-Queues, queued-IsRunnable,
}

-- The state in which the next thread `t` is taken out of the queues and nobody runs.
pub record Ready (k : Kernel) (t i : ℕ) : Type 0 where
  pub idle : k.idle ≡ some i
  pub queues : Queues k t
  pub zombies : Zombies k t
  pub room : length k.zombies ≤ 16
  pub quiet : (u : ℕ) → (k.thread u).state ≢ running
  pub ready : i ≢ t → (k.thread i).state ≡ runnable

pub enter-IsValid : (k : Kernel) (t i : ℕ) → Ready k t i → IsValid (enter k t) t i
unfolding enter
enter-IsValid k t i r = record {
  held = record {
    current = refl;
    self = refl;
    idle = r.idle;
    queues = λ u p lt. ground (arith, r.queues u p lt);
    zombies = λ u. ground (arith, r.zombies u);
    room = r.room;
    only = λ u run. ground (arith, r.quiet u);
    ready = λ ne. ground (arith, r.ready ne);
  };
  runs = ground arith;
}

pub leave-running :
    (k : Kernel) (c : ℕ)
    → k.current ≡ some c
    → (k.thread c).state ≡ running
    → runq_push k c ≡ leave k
unfolding leave
leave-running k c at run = ground arith

leave-zombie :
    (k : Kernel) (c : ℕ)
    → k.current ≡ some c
    → (k.thread c).state ≡ zombie
    → sched_reap k c ≡ leave k
unfolding leave
leave-zombie k c at dies = ground arith

-- A zombie that leaves the processor joins the list.
sched_reap-Ready :
    (k : Kernel) (c t i : ℕ)
    → k.idle ≡ some i
    → Queues k t
    → Zombies k c
    → length k.zombies ≤ 16
    → ((u : ℕ) → (k.thread u).state ≢ running)
    → (i ≢ t → (k.thread i).state ≡ runnable)
    → (k.thread t).state ≡ runnable
    → (k.thread c).state ≡ zombie
    → Ready (sched_reap k c) t i
unfolding sched_reap runq_remove reap_oldest
sched_reap-Ready k c t i idle q z room quiet ready next out =
    let gone : remove_from k c 8 0 ≡ (k, false) =
      remove_from-absent k c 8 0 (λ p lt. ground (arith, q c p lt)) in
    let fresh : has c k.zombies ≡ false = ground (arith, has-occurs c k.zombies, z c) in
    elim (Bool-cases (ltb (length k.zombies) 16)) [
      | inl small ↦
          let same : record k { zombies = k.zombies ++ (c ∷ []) } ≡ sched_reap k c =
            rw (sched_reap, runq_remove, out, gone, fresh, small) refl in
          subst (λ s. Ready s t i) same
            (record {
              idle = idle;
              queues = q;
              zombies = λ u. ground (arith, z u, occurs-append u c k.zombies);
              room = ground (arith, length-append k.zombies (c ∷ []));
              quiet = quiet;
              ready = ready;
            })
      | inr full ↦
          let overflows : reap_oldest k c k.zombies ≡ sched_reap k c =
            rw (sched_reap, runq_remove, out, gone, fresh, full) refl in
          elim (List-cases k.zombies) [
            | inl none_left ↦ absurd (ground (arith, full, ap length none_left))
            | inr (oldest, rest, e) ↦
                let r = thread_reap-Reaped k oldest in
                let same : reap_oldest k c (oldest ∷ rest) ≡ sched_reap k c =
                  ap (reap_oldest k c) (sym e) ∙ overflows in
                subst (λ s. Ready s t i) same
                  (record {
                    idle = r.idle ∙ idle;
                    queues = λ u p lt. ground (
                      arith,
                      q u p lt,
                      ap (occurs u) (r.runq p),
                      r.states u,
                      r.priorities u,
                      z oldest,
                      ap (occurs oldest) e,
                    );
                    zombies = λ u. ground (
                      arith,
                      z u,
                      z oldest,
                      ap (occurs u) e,
                      ap (occurs oldest) e,
                      occurs-append u c rest,
                      r.states u,
                    );
                    room = ground (arith, length-append rest (c ∷ []), ap length e);
                    quiet = λ u run. ground (arith, quiet u, r.states u);
                    ready =
                        λ ne. ground (arith, ready ne, r.states i, z oldest, ap (occurs oldest) e);
                  })
          ]
    ]

pub leave-Ready :
    (k : Kernel) (c t i q : ℕ) (rest : List ℕ)
    → Held k c i
    → Popped k 0 8 t rest q
    → ((k.thread c).state ≡ running) ⊎ (((k.thread c).state ≡ zombie) × (c ≢ i))
    → Ready (leave (shrink k q rest)) t i
unfolding leave runq_push
leave-Ready k c t i q rest h f (inl run) =
    let (ne, waiting, at) = queued-IsRunnable k c t q rest h.queues f.head f.high in
    let taken = pop-Queues k c t q rest h.queues f.head f.high (ground arith) in
    let same : runq_push (shrink k q rest) c ≡ leave (shrink k q rest) =
      leave-running (shrink k q rest) c h.current run in
    subst (λ s. Ready s t i) same
      (record {
        idle = h.idle;
        queues = push-Queues (shrink k q rest) c t taken (λ e. ne (sym e)) (ground arith);
        zombies = λ u. ground (arith, h.zombies u);
        room = h.room;
        quiet = λ u r. ground (arith, h.only u);
        ready = λ other. ground (arith, h.ready);
      })
leave-Ready k c t i q rest h f (inr (dies, ne)) =
    let (other, waiting, at) = queued-IsRunnable k c t q rest h.queues f.head f.high in
    let same : sched_reap (shrink k q rest) c ≡ leave (shrink k q rest) =
      leave-zombie (shrink k q rest) c h.current dies in
    subst (λ s. Ready s t i) same
      (sched_reap-Ready (shrink k q rest) c t i h.idle
        (pop-Queues k c t q rest h.queues f.head f.high (ground arith)) h.zombies h.room
        (λ u r. ground (arith, h.only u r, dies)) (λ e. h.ready (λ x. ne (sym x))) (ground arith)
        dies)
