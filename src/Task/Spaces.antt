-- ===== src/Task/Spaces.antt =====
-- Which page tables are installed after a switch of kernel/core/sched.c.
use afriyie_os.Common.{
  ℕ, ◌≡◌, ◌≢◌, refl, sym, ap, subst, ◌∙◌, false, Option, none, some, List, arith, inl, inr, ◌⊎◌,
}
use native.Mathlib.Decide.{ℕ_discrete}
use afriyie_os.Task.State.{Kernel, Thread, is_runnable}
use afriyie_os.Task.Queue.{shrink, runq_push}
use afriyie_os.Task.Switch.{enter, install, root_of, switch_to, reschedule}
use afriyie_os.Task.Calls.{suspend, block_mark, sched_block, sched_yield, refill}
use afriyie_os.Task.Invariant.{Held, IsValid, queued-IsRunnable}
use afriyie_os.Task.Moves.{
  switch_to-other, pick_next-cases, pick_next-own, switch_to-own, suspend-next,
}
use afriyie_os.Task.Leave.{leave-running}
use afriyie_os.Task.Alike.{IsValid-Alike}
use afriyie_os.Task.Wakes.{refill-Alike}
use afriyie_os.Task.Steps.{block_mark-Held, sched_block-cases}

-- `x` are the page tables of the process, those of the kernel for no process or one without an address space.
abbrev pub Uses : Kernel → ℕ → Option ℕ → Type 0
Uses k x none = x ≡ k.kernel_root
Uses k x (some p) =
    (((k.procs p).addr_space ≡ 0) × (x ≡ k.kernel_root))
    ⊎ (((k.procs p).addr_space ≢ 0) × (x ≡ (k.procs p).addr_space))

-- The processor uses the page tables of the thread, and the kernel has noted that.
abbrev pub IsInstalled : Kernel → ℕ → Type 0
IsInstalled k t = Uses k k.cr3 (k.thread t).process × (k.last_installed ≡ k.cr3)

Uses-root : (k : Kernel) (x : ℕ) (o : Option ℕ) → Uses k x o → x ≡ root_of k o
unfolding root_of
Uses-root k x none u = u
Uses-root k x (some p) u = elim u [
  | inl (zero_space, e) ↦ ground (arith, zero_space, e)
  | inr (own, e) ↦ ground (arith, own, e)
]

root-Uses : (k : Kernel) (x : ℕ) (o : Option ℕ) → x ≡ root_of k o → Uses k x o
unfolding root_of
root-Uses k x none e = e
root-Uses k x (some p) e = elim (ℕ_discrete (k.procs p).addr_space 0) [
  | yes zero_space ↦ inl (zero_space, ground (arith, e, zero_space))
  | no own ↦ inr (own, ground (arith, e, own))
]

-- The same with the root that the code computes.
abbrev AtRoot : Kernel → ℕ → Type 0
AtRoot k t = (k.cr3 ≡ root_of k (k.thread t).process) × (k.last_installed ≡ k.cr3)

install-root :
    (k : Kernel) (want : ℕ)
    → want ≢ 0
    → k.last_installed ≡ k.cr3
    → ((install k want).cr3 ≡ want) × ((install k want).last_installed ≡ want)
unfolding install
install-root k want ne same = (ground (arith, ne, same), ground (arith, ne, same))

-- Pushing and entering leave the processes and the tables alone.
entered-frame :
    (k : Kernel) (c t q : ℕ) (rest : List ℕ)
    → let k' = enter (runq_push (shrink k q rest) c) t in
      (k'.cr3 ≡ k.cr3)
      × (k'.last_installed ≡ k.last_installed)
      × (k'.procs ≡ k.procs)
      × (k'.kernel_root ≡ k.kernel_root)
      × ((k'.thread t).process ≡ (k.thread t).process)
unfolding enter runq_push
entered-frame k c t q rest = (refl, refl, refl, refl, ground arith)

root_of-pos : (k : Kernel) (p : Option ℕ) → k.kernel_root ≢ 0 → root_of k p ≢ 0
unfolding root_of
root_of-pos k none ne = ne
root_of-pos k (some p) ne = λ e. ground (arith, ne, e)

root_of-install : (k : Kernel) (w : ℕ) (p : Option ℕ) → root_of (install k w) p ≡ root_of k p
unfolding root_of install
root_of-install k w none = ground arith
root_of-install k w (some p) = ground arith

install-current : (k : Kernel) (w : ℕ) → (install k w).current ≡ k.current
unfolding install
install-current k w = ground arith

install-thread : (k : Kernel) (w : ℕ) → (install k w).thread ≡ k.thread
unfolding install
install-thread k w = ground arith

-- `switch_to(pick_next())` from a running thread installs the tables of the thread that runs.
reschedule-AtRoot :
    (k : Kernel) (c i : ℕ)
    → IsValid k c i
    → k.kernel_root ≢ 0
    → AtRoot k c
    → (c' : ℕ) × ((reschedule k).current ≡ some c') × AtRoot (reschedule k) c'
unfolding reschedule enter
reschedule-AtRoot k c i v ne h = elim (pick_next-cases k c i v.held (ground (arith, v.runs))) [
  | inl (same, stop) ↦
      let own : reschedule k ≡ k =
        ap (λ z. switch_to z.0 z.1) (pick_next-own k c v.held.current v.runs stop)
        ∙ switch_to-own k c v.held.current in
      subst (λ (s : Kernel). (c' : ℕ) × (s.current ≡ some c') × AtRoot s c') (sym own)
        (c, v.held.current, h)
  | inr (t, rest, q, f, e) ↦
      let s : Kernel = shrink k q rest in
      let (other, waiting, at) = queued-IsRunnable k c t q rest v.held.queues f.head f.high in
      let k2 : Kernel = enter (runq_push s c) t in
      let w = root_of k2 (k2.thread t).process in
      let moves : reschedule k ≡ install k2 w =
        ap (λ z. switch_to z.0 z.1) e
        ∙ switch_to-other s c t v.held.current other
        ∙ ap
            (λ (l : Kernel).
              install (enter l t) (root_of (enter l t) ((enter l t).thread t).process))
            (sym (leave-running s c v.held.current v.runs)) in
      let (cr3, last, procs, root, process) = entered-frame k c t q rest in
      let pos : w ≢ 0 = root_of-pos k2 (k2.thread t).process (ground (arith, ne, root)) in
      let (now, recorded) = install-root k2 w pos (last ∙ h.1 ∙ sym cr3) in
      let same_root : root_of (install k2 w) ((install k2 w).thread t).process ≡ w =
        ap (λ (f' : ℕ → Thread). root_of (install k2 w) (f' t).process) (install-thread k2 w)
        ∙ root_of-install k2 w (k2.thread t).process in
      (
        t,
        ap (λ (s : Kernel). s.current) moves ∙ install-current k2 w,
        subst (λ (s : Kernel). AtRoot s t) (sym moves) (now ∙ sym same_root, recorded ∙ sym now),
      )
]

root_of-refill : (k : Kernel) (p : Option ℕ) → root_of (refill k) p ≡ root_of k p
unfolding root_of refill
root_of-refill k none = ground arith
root_of-refill k (some p) = ground arith

refill-frame :
    (k : Kernel) (c : ℕ)
    → ((refill k).cr3 ≡ k.cr3)
      × ((refill k).last_installed ≡ k.last_installed)
      × ((refill k).kernel_root ≡ k.kernel_root)
      × (((refill k).thread c).process ≡ (k.thread c).process)
unfolding refill
refill-frame k c = (ground arith, ground arith, ground arith, ground arith)

yield-AtRoot :
    (k : Kernel) (c i : ℕ)
    → IsValid k c i
    → k.kernel_root ≢ 0
    → AtRoot k c
    → (c' : ℕ) × ((sched_yield k).current ≡ some c') × AtRoot (sched_yield k) c'
unfolding sched_yield
yield-AtRoot k c i v ne (now, last) =
    let (cr3, installed, root, process) = refill-frame k c in
    reschedule-AtRoot (refill k) c i (IsValid-Alike k (refill k) c i (refill-Alike k) v)
      (λ e. ne (sym root ∙ e))
      (
        cr3
            ∙ now
            ∙ sym (root_of-refill k (k.thread c).process)
            ∙ ap (root_of (refill k)) (sym process),
        installed ∙ last ∙ sym cr3,
      )

-- After `sched_yield` the processor uses the page tables of the process of the thread that runs, or those of the
-- kernel for a thread without a process or with one that has no address space, if it did before and the kernel has
-- tables.
pub yield-IsInstalled :
    (k : Kernel) (c i : ℕ)
    → IsValid k c i
    → k.kernel_root ≢ 0
    → IsInstalled k c
    → (c' : ℕ) × ((sched_yield k).current ≡ some c') × IsInstalled (sched_yield k) c'
yield-IsInstalled k c i v ne (uses, last) =
    let before : AtRoot k c = (Uses-root k k.cr3 (k.thread c).process uses, last) in
    let (c', at, installed) = yield-AtRoot k c i v ne before in
    let now =
      root-Uses (sched_yield k) (sched_yield k).cr3 ((sched_yield k).thread c').process
        installed.0 in
    (c', at, (now, installed.1))

-- What the next thread finds after a round of the loops of `sched_block` and `sched_sleep`.
suspended-tables :
    (k : Kernel) (s i : ℕ)
    → Held k s i
    → s ≢ i
    → is_runnable (k.thread s).state ≡ false
    → (t : ℕ) × (t ≢ s)
      × ((suspend k s).current ≡ some t)
      × ((suspend k s).cr3 ≡ k.cr3)
      × (((suspend k s).thread t).process ≡ (k.thread t).process)
      × ((suspend k s).procs ≡ k.procs)
      × ((suspend k s).kernel_root ≡ k.kernel_root)
unfolding enter
suspended-tables k s i h ne out =
    let (t, rest, q, f, moves) = suspend-next k s i h ne out in
    let (other, waiting, at) = queued-IsRunnable k s t q rest h.queues f.head f.high in
    (
      t,
      other,
      ap (λ (x : Kernel). x.current) moves,
      ap (λ (x : Kernel). x.cr3) moves,
      ap (λ (x : Kernel). (x.thread t).process) moves ∙ ground arith,
      ap (λ (x : Kernel). x.procs) moves,
      ap (λ (x : Kernel). x.kernel_root) moves,
    )

root_of-congr :
    (k k' : Kernel) (p p' : Option ℕ)
    → k'.procs ≡ k.procs
    → k'.kernel_root ≡ k.kernel_root
    → p' ≡ p
    → root_of k' p' ≡ root_of k p
unfolding root_of
root_of-congr k k' none none procs root e = root
root_of-congr k k' (some p) (some p') procs root e = ground (arith, ap (λ f. f p) procs, root, e)
root_of-congr k k' none (some p') procs root e = absurd (ground (arith, e))
root_of-congr k k' (some p) none procs root e = absurd (ground (arith, e))

-- Where no other thread uses the page tables that are installed, `sched_block` hands the processor to another thread and
-- leaves the tables in place: that thread runs on tables that are not its own.
pub block_keeps_tables :
    (k : Kernel) (obj : Option ℕ) (c i : ℕ)
    → IsValid k c i
    → c ≢ i
    → ((u : ℕ) → u ≢ c → ¬ Uses k k.cr3 (k.thread u).process)
    → (t : ℕ) × ((sched_block k obj).current ≡ some t)
      × (t ≢ c)
      × ((sched_block k obj).cr3 ≡ k.cr3)
      × ¬ Uses (sched_block k obj) (sched_block k obj).cr3 ((sched_block k obj).thread t).process
unfolding block_mark
block_keeps_tables k obj c i v ne alone =
    let k1 : Kernel = block_mark k c obj in
    let h = block_mark-Held k c i obj v in
    let (t, other, at, cr3, process, procs, root) = suspended-tables k1 c i h ne (ground arith) in
    let moves : sched_block k obj ≡ suspend k1 c =
      sched_block-cases k obj c i v.held.current v.held.idle ∙ ground (arith, ne) in
    let same : root_of (suspend k1 c) ((suspend k1 c).thread t).process
        ≡ root_of k (k.thread t).process =
      root_of-congr k (suspend k1 c) (k.thread t).process ((suspend k1 c).thread t).process procs
        root (process ∙ ground arith) in
    (
      t,
      ap (λ (x : Kernel). x.current) moves ∙ at,
      other,
      ap (λ (x : Kernel). x.cr3) moves ∙ cr3,
      (λ uses.
          let now =
            Uses-root (suspend k1 c) (suspend k1 c).cr3 ((suspend k1 c).thread t).process
              (subst (λ (x : Kernel). Uses x x.cr3 (x.thread t).process) moves uses) in
          alone t other (root-Uses k k.cr3 (k.thread t).process (sym cr3 ∙ now ∙ same))),
    )
