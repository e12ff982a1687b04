-- ===== src/Task/Table.antt =====
-- The thread table of kernel/core/thread.c: creation, lookup and reaping.
use afriyie_os.Common.{
  ℕ, zero, suc, ◌+◌, ◌-◌, ◌/◌, ◌%◌, ◌^◌, ◌≤◌, ◌<◌, ◌≡◌, ◌≢◌, refl, sym, ap, ◌∙◌, true, none, some,
  [], ◌∷◌, ◌++◌, ltb, leb, ◌==◌, if◌then◌else◌, update, arith, Option-cases, inl, inr, ◌⊎◌,
}
use native.Mathlib.Decide.{ℕ_discrete}
use afriyie_os.Task.State.{
  Kernel, Thread, put_thread, perform, frames_asked, created, dead, zero_thread, thread_freed,
  frames_freed, page_size, prio_levels, prio_default, time_slice_ticks,
}
use afriyie_os.Task.Threads.{
  register_from, register_thread, unregister_thread, stack_bytes, stack_frames, thread_create,
  free_stack, thread_reap,
}

-- The slot is the first that is free.
pub record FreeSlot (k : Kernel) (from to j : ℕ) : Type 0 where
  pub low : from ≤ j
  pub high : j < to
  pub free : k.table j ≡ none
  pub taken : (m : ℕ) → from ≤ m → m < j → k.table m ≢ none

abbrev pub registered_at : Kernel → ℕ → ℕ → Kernel
registered_at k t j = record (put_thread k t (record (k.thread t) { tid = j + 1 })) {
  table = update k.table j (some t);
  registered = (k.registered + 1) % 2 ^ 32;
}

register_from-cases :
    (k : Kernel) (t left n : ℕ)
    → (((m : ℕ) → n ≤ m → m < n + left → k.table m ≢ none) × (register_from k t left n ≡ (k, 0)))
      ⊎ ((j : ℕ) × FreeSlot k n (n + left) j
          × (register_from k t left n ≡ (registered_at k t j, j + 1)))
unfolding register_from
register_from-cases k t zero n = inl ((λ m lo hi. absurd (omega arith)), refl)
register_from-cases k t (suc left) n = elim (Option-cases (k.table n)) [
  | inl e ↦ inr (
    n,
    record {
      low = omega arith;
      high = omega arith;
      free = e;
      taken = λ m lo hi. absurd (omega arith);
    },
    ground (arith, e),
  )
  | inr (x, e) ↦
      let skip : register_from k t (suc left) n ≡ register_from k t left (n + 1) =
        ground (arith, e) in
      let used : k.table n ≢ none = λ free. ground (arith, e, free) in
      elim (register_from-cases k t left (n + 1)) [
        | inl (full, out) ↦ inl (
          (λ m lo hi. elim (ℕ_discrete m n) [
            | yes at ↦ λ free. used (ap k.table (sym at) ∙ free)
            | no ne ↦ full m (omega (arith, ne)) (omega arith)
          ]),
          skip ∙ out,
        )
        | inr (j, s, out) ↦ inr (
          j,
          record {
            low = omega (arith, s.low);
            high = omega (arith, s.high);
            free = s.free;
            taken = λ m lo hi. elim (ℕ_discrete m n) [
              | yes at ↦ λ free. used (ap k.table (sym at) ∙ free)
              | no ne ↦ s.taken m (omega (arith, ne)) hi
            ];
          },
          skip ∙ out,
        )
      ]
]

-- The thread that creation leaves.
abbrev pub made : ℕ → ℕ → ℕ → ℕ → Thread
made j base size priority = record zero_thread {
  tid = j + 1;
  stack_base = some base;
  stack_size = stack_bytes size % 2 ^ 32;
  state = created;
  priority = if leb prio_levels priority then prio_default else priority;
  time_slice = time_slice_ticks;
}

abbrev pub created_at : Kernel → ℕ → ℕ → ℕ → ℕ → ℕ → Kernel
created_at k t j base size priority = record (put_thread k t (made j base size priority)) {
  table = update k.table j (some t);
  registered = (k.registered + 1) % 2 ^ 32;
}

-- With memory for the thread and its stack, `thread_create` takes the first free slot of the table; without a
-- free slot it gives both back.
pub thread_create-cases :
    (k : Kernel) (t base size priority : ℕ)
    → (((m : ℕ) → m < 1024 → k.table m ≢ none)
        × ((thread_create k true (some t) (some base) size priority).1 ≡ none)
        × ((thread_create k true (some t) (some base) size priority).0.table ≡ k.table)
        × ((thread_create k true (some t) (some base) size priority).0.effects
            ≡ ((k.effects ++ (frames_asked (stack_frames size) ∷ []))
                ++ (frames_freed base (stack_frames size) ∷ []))
              ++ (thread_freed t ∷ [])))
      ⊎ ((j : ℕ) × FreeSlot k 0 1024 j
          × ((thread_create k true (some t) (some base) size priority).1 ≡ some t)
          × ((thread_create k true (some t) (some base) size priority).0.table
              ≡ update k.table j (some t))
          × ((thread_create k true (some t) (some base) size priority).0.registered
              ≡ (k.registered + 1) % 2 ^ 32)
          × ((thread_create k true (some t) (some base) size priority).0.effects
              ≡ k.effects ++ (frames_asked (stack_frames size) ∷ []))
          × ((u : ℕ)
              → (thread_create k true (some t) (some base) size priority).0.thread u
                ≡ (if u == t then made j base size priority else k.thread u)))
unfolding thread_create register_thread
thread_create-cases k t base size priority =
    let k1 : Kernel = perform (put_thread k t zero_thread) (frames_asked (stack_frames size)) in
    elim (register_from-cases k1 t 1024 0) [
      | inl (full, out) ↦ inl (
        (λ m lt. full m (omega arith) lt),
        ground (arith, out),
        ground (arith, out),
        ground (arith, out),
      )
      | inr (j, s, out) ↦ inr (
        j,
        record { low = s.low; high = s.high; free = s.free; taken = s.taken },
        ground (arith, out),
        ground (arith, out),
        ground (arith, out),
        ground (arith, out),
        (λ u. ground (arith, out)),
      )
    ]

-- What `thread_reap` does to a thread that is in its slot.
reap_registered :
    (k : Kernel) (t j base : ℕ)
    → (k.thread t).tid ≡ j + 1
    → j < 1024
    → k.table j ≡ some t
    → (k.thread t).stack_base ≡ some base
    → let k' = thread_reap k t in
      ((m : ℕ) → k'.table m ≡ (if m == j then none else k.table m))
      × (k'.registered ≡ (if ltb 0 k.registered then k.registered - 1 else k.registered))
      × (k'.effects
          ≡ (k.effects ++ (frames_freed base ((k.thread t).stack_size / page_size) ∷ []))
            ++ (thread_freed t ∷ []))
      × ((k'.thread t).state ≡ dead)
unfolding thread_reap free_stack unregister_thread
reap_registered k t j base own lt at stack = (
  (λ m. ground (arith, own, at, stack)),
  ground (arith, own, at, stack),
  ground (arith, own, at, stack),
  ground (arith, own, at, stack),
)

-- A thread that is created and, with no other call between, reaped, leaves the thread table and its count as they were,
-- and gives back its memory and as many frames as were asked for, where its stack has less than 4 GiB.
pub create-reap :
    (k : Kernel) (t base size priority m : ℕ)
    → k.registered + 1 < 2 ^ 32
    → stack_bytes size < 2 ^ 32
    → (thread_create k true (some t) (some base) size priority).1 ≡ some t
    → let k' = thread_reap (thread_create k true (some t) (some base) size priority).0 t in
      (k'.table m ≡ k.table m)
      × (k'.registered ≡ k.registered)
      × (k'.effects
          ≡ ((k.effects ++ (frames_asked (stack_frames size) ∷ []))
              ++ (frames_freed base (stack_frames size) ∷ []))
            ++ (thread_freed t ∷ []))
unfolding stack_frames
create-reap k t base size priority m small fits success =
    elim (thread_create-cases k t base size priority) [
      | inl (full, failed, table, effects) ↦ absurd (ground (arith, failed, success))
      | inr (j, s, out, table, count, effects, threads) ↦
          let k1 : Kernel = (thread_create k true (some t) (some base) size priority).0 in
          let own : k1.thread t ≡ made j base size priority = threads t ∙ ground arith in
          let at : k1.table j ≡ some t = ap (λ f. f j) table ∙ ground arith in
          let (entries, less, given, over) =
            reap_registered k1 t j base (ap (λ (v : Thread). v.tid) own) s.high at
              (ap (λ (v : Thread). v.stack_base) own) in
          (
            entries m ∙ ground (arith, s.free, ap (λ f. f m) table, ap k.table),
            less ∙ ground (arith, count, small),
            given ∙ ground (arith, effects, ap (λ (v : Thread). v.stack_size) own, fits),
          )
    ]
