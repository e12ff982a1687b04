-- ===== src/Ipc/Cases.antt =====
-- The ways that a round of `ipc_send` or `ipc_recv` of kernel/core/ipc.c can go.
use afriyie_os.Common.{
  ℕ, ◌+◌, ◌%◌, ◌^◌, ◌≤◌, ◌<◌, ◌≡◌, refl, ◌⊎◌, inl, inr, true, false, Option, none, some, List, [],
  ◌∷◌, ◌++◌, arith, ltb, Bool-cases, Option-cases, ok, noobj, again,
}
use afriyie_os.Ipc.State.{Msg, Endpoint, Ipc, Caller, Outcome, returns, blocks, put_endpoint}
use afriyie_os.Ipc.Ops.{may_block, enqueue, dequeue, send_round, recv_round}

pub List-cases {ℓ} :
    {A : Type ℓ} (xs : List A) → (xs ≡ []) ⊎ ((y : A) × (ys : List A) × (xs ≡ y ∷ ys))
List-cases [] = inl refl
List-cases (y ∷ ys) = inr (y, ys, refl)

module _ (k : Ipc) (c : Caller) (i : ℕ) where
  abbrev pub here : Endpoint
  here = k.endpoints i

  pub data Sent (m : Msg) (r : Ipc × Outcome) : Type 0 where
    gone : here.used ≡ false → r ≡ (k, returns noobj) → Sent m r
    handed :
        (w : ℕ) (ws : List ℕ)
        → here.used ≡ true
        → here.waiters ≡ w ∷ ws
        → r ≡ (
          record (put_endpoint k i (enqueue (record here { waiters = ws }) m)) {
            sent = (k.sent + 1) % 2 ^ 32;
            woken = k.woken ++ (w ∷ []);
          },
          returns ok,
        )
        → Sent m r
    queued :
        here.used ≡ true
        → here.waiters ≡ []
        → here.count < 8
        → r ≡ (
          record (put_endpoint k i (enqueue here m)) { sent = (k.sent + 1) % 2 ^ 32 },
          returns ok,
        )
        → Sent m r
    refused :
        here.used ≡ true
        → here.waiters ≡ []
        → 8 ≤ here.count
        → may_block c ≡ none
        → r ≡ (k, returns again)
        → Sent m r
    waits :
        (t : ℕ)
        → here.used ≡ true
        → here.waiters ≡ []
        → 8 ≤ here.count
        → may_block c ≡ some t
        → r ≡ (put_endpoint k i (record here { senders = here.senders ++ (t ∷ []) }), blocks)
        → Sent m r

  pub send_round-Sent : (m : Msg) → Sent m (send_round k c i m)
  unfolding send_round
  send_round-Sent m = elim (Bool-cases here.used) [
    | inr dead ↦ gone dead (rw (dead, send_round))
    | inl live ↦ elim (List-cases here.waiters) [
      | inr (w, ws, q) ↦ handed w ws live q (ground arith)
      | inl q ↦ elim (Bool-cases (ltb here.count 8)) [
        | inl room ↦ queued live q (ground arith) (ground arith)
        | inr full ↦ elim (Option-cases (may_block c)) [
          | inl idle ↦ refused live q (ground arith) idle (ground arith)
          | inr (t, busy) ↦ waits t live q (ground arith) busy (ground arith)
        ]
      ]
    ]
  ]

  pub data Received (r : Ipc × Outcome × Option Msg) : Type 0 where
    gone : here.used ≡ false → r ≡ (k, returns noobj, none) → Received r
    taken :
        here.used ≡ true
        → 0 < here.count
        → here.senders ≡ []
        → r ≡ (put_endpoint k i (dequeue here), returns ok, some (here.queue here.head))
        → Received r
    freed :
        (s : ℕ) (ss : List ℕ)
        → here.used ≡ true
        → 0 < here.count
        → here.senders ≡ s ∷ ss
        → r ≡ (
          record (put_endpoint k i (dequeue (record here { senders = ss }))) {
            woken = k.woken ++ (s ∷ []);
          },
          returns ok,
          some (here.queue here.head),
        )
        → Received r
    refused :
        here.used ≡ true
        → here.count ≡ 0
        → may_block c ≡ none
        → r ≡ (k, returns again, none)
        → Received r
    waits :
        (t : ℕ)
        → here.used ≡ true
        → here.count ≡ 0
        → may_block c ≡ some t
        → r ≡ (put_endpoint k i (record here { waiters = here.waiters ++ (t ∷ []) }), blocks, none)
        → Received r

  pub recv_round-Received : Received (recv_round k c i)
  unfolding recv_round
  recv_round-Received = elim (Bool-cases here.used) [
    | inr dead ↦ gone dead (rw (dead, recv_round))
    | inl live ↦ elim (Bool-cases (ltb 0 here.count)) [
      | inl some_queued ↦ elim (List-cases here.senders) [
        | inl q ↦ taken live (ground arith) q (ground arith)
        | inr (s, ss, q) ↦ freed s ss live (ground arith) q (ground arith)
      ]
      | inr empty ↦ elim (Option-cases (may_block c)) [
        | inl idle ↦ refused live (ground arith) idle (ground arith)
        | inr (t, busy) ↦ waits t live (ground arith) busy (ground arith)
      ]
    ]
  ]
