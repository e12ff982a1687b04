-- ===== src/Ipc/Lifetime.antt =====
-- Creation and destruction of the endpoints of kernel/core/ipc.c.
use afriyie_os.Common.{
  ℕ, ◌+◌, ◌^◌, ◌<◌, ◌≡◌, ◌≢◌, refl, ap, subst, inl, inr, true, false, Option, none, some, ◌++◌,
  arith, Option-cases, noobj,
}
use native.Mathlib.Decide.{ℕ_discrete}
use afriyie_os.Common.Count.{count-gain, count-le}
use afriyie_os.Ipc.State.{Msg, Ipc, Caller, returns}
use afriyie_os.Ipc.Ops.{
  scan_id, endpoint_from_id, scan_free, open_endpoint, endpoint_create, destroy, endpoint_unref,
  recv_again, send_again, send_round, recv_round,
}
use afriyie_os.Ipc.Table.{IsTable, in_use, endpoint_from_id_iff, scan_free-found, scan_id-found}

-- A created endpoint has a fresh identifier, and is found by it.
pub open_endpoint-IsTable :
    (k : Ipc) (i : ℕ)
    → IsTable k
    → i < 64
    → (k.endpoints i).used ≡ false
    → k.next_id + 1 < 2 ^ 32
    → IsTable (open_endpoint k i)
unfolding open_endpoint
open_endpoint-IsTable k i v small free fits = record {
  named = λ j live. ground (arith, v.named j, v.started);
  distinct = λ a b ua ub same. elim (ℕ_discrete a i) [
    | yes ea ↦ elim (ℕ_discrete b i) [
      | yes eb ↦ omega arith
      | no nb ↦ absurd (ground (arith, v.named b))
    ]
    | no na ↦ elim (ℕ_discrete b i) [
      | yes eb ↦ absurd (ground (arith, v.named a))
      | no nb ↦ ground (arith, v.distinct a b)
    ]
  ];
  counted = ground (
    arith,
    v.counted,
    count-le (in_use (open_endpoint k i)) 64,
    count-gain (in_use k) (in_use (open_endpoint k i)) i 64 small free gained others,
  );
  started = omega (arith, v.started);
}
  where
    gained : in_use (open_endpoint k i) i ≡ true
    gained = ground arith

    others : (j : ℕ) → j ≢ i → in_use k j ≡ in_use (open_endpoint k i) j
    others j ne = ground arith

-- `ipc_endpoint_create` takes a free slot of the table, gives its endpoint the next identifier,
-- under which it alone is found, with one reference and an empty queue, and leaves every other
-- endpoint as it was; the table stays well formed. The identifiers have not run out.
pub create_lem :
    (k k' : Ipc) (i : ℕ)
    → IsTable k
    → k.next_id + 1 < 2 ^ 32
    → endpoint_create k ≡ (k', some i)
    → IsTable k'
      × (i < 64)
      × ((k.endpoints i).used ≡ false)
      × (endpoint_from_id k' k.next_id ≡ some i)
      × ((k'.endpoints i).refs ≡ 1)
      × ((k'.endpoints i).count ≡ 0)
      × ((j : ℕ) → j ≢ i → k'.endpoints j ≡ k.endpoints j)
unfolding endpoint_create open_endpoint
create_lem k k' i v fits e = elim (Option-cases (scan_free k 64 0)) [
  | inl full ↦ cc (rw (full, endpoint_create) at e)
  | inr (j, at) ↦
      let (lo, hi, free) = scan_free-found k 64 0 j at in
      let made : open_endpoint k j ≡ k' =
        ap (λ (x : Ipc × Option ℕ). x.0) (rw (at, endpoint_create) at e) in
      let same : j ≡ i = cc (rw (at, endpoint_create) at e) in
      let w = open_endpoint-IsTable k j v (omega arith) free fits in
      rw (← made, ← same)
        (
          w,
          omega arith,
          free,
          subst (λ x. endpoint_from_id (open_endpoint k j) x ≡ some j)
              {x = ((open_endpoint k j).endpoints j).id} (ground arith)
              (endpoint_from_id_iff (open_endpoint k j) j w (omega arith) (ground arith)),
          ground arith,
          ground arith,
          (λ n ne. ground arith),
        )
]

-- The identifier of no endpoint in use is not found.
from_id-none :
    (k : Ipc) (id : ℕ)
    → ((j : ℕ) → (k.endpoints j).used ≡ true → (k.endpoints j).id ≢ id)
    → endpoint_from_id k id ≡ none
unfolding endpoint_from_id
from_id-none k id out = elim (Option-cases (scan_id k id 64 0)) [
  | inl none_found ↦ ground (arith, none_found)
  | inr (j, hit) ↦
      let (_, _, live, same) = scan_id-found k id 64 0 j hit in absurd (out j live same)
]

destroy-IsTable :
    (k : Ipc) (i : ℕ) → IsTable k → i < 64 → (k.endpoints i).used ≡ true → IsTable (destroy k i)
unfolding destroy
destroy-IsTable k i v small live = record {
  named = λ j used. ground (arith, v.named j);
  distinct = λ a b ua ub same. ground (arith, v.distinct a b);
  counted =
      ground (
        arith,
        v.counted,
        count-gain (in_use (destroy k i)) (in_use k) i 64 small freed live others,
      );
  started = v.started;
}
  where
    freed : in_use (destroy k i) i ≡ false
    freed = ground arith

    others : (j : ℕ) → j ≢ i → in_use (destroy k i) j ≡ in_use k j
    others j ne = ground arith

dead_send :
    (k : Ipc) (c : Caller) (i : ℕ) (m : Msg)
    → (k.endpoints i).used ≡ false
    → (send_round k c i m).1 ≡ returns noobj
unfolding send_round
dead_send k c i m dead = rw (dead, send_round)

dead_recv :
    (k : Ipc) (c : Caller) (i : ℕ)
    → (k.endpoints i).used ≡ false
    → (recv_round k c i).1 ≡ returns noobj
unfolding recv_round
dead_recv k c i dead = rw (dead, recv_round)

-- Dropping the last reference of an endpoint in a well formed table wakes every thread that waits on it, once
-- and in order, receivers first. The endpoint is gone: its identifier is not found, and a round of `ipc_send` or
-- `ipc_recv` on its slot, a first one or that of a woken thread, is told AF_ERR_NOOBJ in the state that the call
-- leaves, before the slot is used again. All other endpoints are as they were and the table stays well formed.
pub unref_last :
    (k : Ipc) (i : ℕ)
    → IsTable k
    → i < 64
    → (k.endpoints i).used ≡ true
    → (k.endpoints i).refs ≡ 1
    → let k' = endpoint_unref k (some i) in
      IsTable k'
      × (k'.woken ≡ k.woken ++ ((k.endpoints i).waiters ++ (k.endpoints i).senders))
      × (endpoint_from_id k' (k.endpoints i).id ≡ none)
      × ((c : Caller) (t : ℕ) → (recv_again k' c t i).1 ≡ returns noobj)
      × ((c : Caller) (t : ℕ) (m : Msg) → (send_again k' c t i m).1 ≡ returns noobj)
      × ((c : Caller) → (recv_round k' c i).1 ≡ returns noobj)
      × ((c : Caller) (m : Msg) → (send_round k' c i m).1 ≡ returns noobj)
      × ((j : ℕ) → j ≢ i → k'.endpoints j ≡ k.endpoints j)
unfolding endpoint_unref destroy recv_again send_again
unref_last k i v small live refs =
    let gone : endpoint_unref k (some i) ≡ destroy k i = ground (arith, live, refs) in
    let w = destroy-IsTable k i v small live in
    rw gone (
      w,
      refl,
      from_id-none (destroy k i) (k.endpoints i).id (λ j used. ground (arith, v.distinct j i)),
      (λ c t. dead_recv _ c i (ground arith)),
      (λ c t m. dead_send _ c i m (ground arith)),
      (λ c. dead_recv (destroy k i) c i (ground arith)),
      (λ c m. dead_send (destroy k i) c i m (ground arith)),
      (λ j ne. ground arith),
    )
