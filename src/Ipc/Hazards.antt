-- ===== src/Ipc/Hazards.antt =====
-- Where the loops of kernel/core/ipc.c do not keep what its comments promise: more than eight
-- receivers on an endpoint, an endpoint slot that is used again while a thread still holds it, and a
-- call on an endpoint that is gone.
use afriyie_os.Common.{
  ℕ, ◌<◌, ◌≡◌, ◌≢◌, refl, ap, ◌∙◌, true, false, Option, none, some, List, [], ◌∷◌, arith, Status,
  ok,
}
use afriyie_os.Ipc.State.{
  Msg, Endpoint, Ipc, Caller, Outcome, returns, blocks, zero_endpoint, put_endpoint,
}
use afriyie_os.Ipc.Ops.{
  open_endpoint, endpoint_create, destroy, endpoint_unref, enqueue, send_round, recv_round,
  recv_again, remove,
}
use afriyie_os.Ipc.Call.{returned, request, after_create, after_send, after_recv, call}
use afriyie_os.Ipc.Cases.{Received, recv_round-Received}
use afriyie_os.Ipc.Ring.{IsRing}
use afriyie_os.Ipc.Table.{scan_free_first}

-- A round of `ipc_recv` on an endpoint with messages takes the oldest.
recv_head :
    (k : Ipc) (c : Caller) (i : ℕ) (m : Msg) (e : Endpoint)
    → k.endpoints i ≡ e
    → e.used ≡ true
    → 0 < e.count
    → e.queue e.head ≡ m
    → ((recv_round k c i).1 ≡ returns ok) × ((recv_round k c i).2 ≡ some m)
recv_head k c i m e same live queued oldest =
    go (recv_round-Received k c i) (ap (λ (x : Endpoint). x.used) same ∙ live) (rw same queued)
      (ap (λ (x : Endpoint). x.queue x.head) same ∙ oldest)
  where
    go :
        Received k c i (recv_round k c i)
        → (k.endpoints i).used ≡ true
        → 0 < (k.endpoints i).count
        → (k.endpoints i).queue (k.endpoints i).head ≡ m
        → ((recv_round k c i).1 ≡ returns ok) × ((recv_round k c i).2 ≡ some m)
    go (Received.gone dead r) u n q = cc
    go (Received.taken _ _ _ r) u n q = (
      ap (λ (x : Ipc × Outcome × Option Msg). x.1) r,
      ap (λ (x : Ipc × Outcome × Option Msg). x.2) r ∙ ap some q,
    )
    go (Received.freed _ _ _ _ _ r) u n q = (
      ap (λ (x : Ipc × Outcome × Option Msg). x.1) r,
      ap (λ (x : Ipc × Outcome × Option Msg). x.2) r ∙ ap some q,
    )
    go (Received.refused _ zero_count _ r) u n q = absurd (omega arith)
    go (Received.waits _ _ zero_count _ r) u n q = absurd (omega arith)

at_self : (k : Ipc) (i : ℕ) (e : Endpoint) → (put_endpoint k i e).endpoints i ≡ e
at_self k i e = ground arith

handed :
    (k : Ipc) (c : Caller) (i w : ℕ) (ws : List ℕ) (m : Msg)
    → (k.endpoints i).used ≡ true
    → (k.endpoints i).waiters ≡ w ∷ ws
    → ((send_round k c i m).1 ≡ returns ok)
      × ((send_round k c i m).0.endpoints i ≡ enqueue (record (k.endpoints i) { waiters = ws }) m)
unfolding send_round
handed k c i w ws m live line = ground arith

-- The step that hands a message to a waiting receiver does not look at the count. With eight
-- messages queued and a receiver still in line, `ipc_send` succeeds and writes over the oldest
-- message, and the next `ipc_recv` returns the message just sent.
pub send_overruns :
    (k : Ipc) (c c' : Caller) (i w : ℕ) (ws : List ℕ) (m : Msg)
    → IsRing (k.endpoints i)
    → (k.endpoints i).used ≡ true
    → (k.endpoints i).count ≡ 8
    → (k.endpoints i).waiters ≡ w ∷ ws
    → let (k', o) = send_round k c i m in
      let (k'', o', m') = recv_round k' c' i in
      (o ≡ returns ok)
      × ((k'.endpoints i).count ≡ 9)
      × ((k'.endpoints i).queue (k.endpoints i).head ≡ m)
      × (o' ≡ returns ok)
      × (m' ≡ some m)
unfolding enqueue
send_overruns k c c' i w ws m v live full line =
    let at : (k.endpoints i).tail ≡ (k.endpoints i).head = omega (arith, v, full) in
    let (o, same) = handed k c i w ws m live line in
    let written : ((send_round k c i m).0.endpoints i).queue (k.endpoints i).head ≡ m =
      ap (λ (x : Endpoint). x.queue (k.endpoints i).head) same ∙ (ground (arith, at)) in
    let (o', got) =
      recv_head (send_round k c i m).0 c' i m (enqueue (record (k.endpoints i) { waiters = ws }) m)
        same live (omega (arith, full)) (ground (arith, at)) in
    (o, ap (λ (x : Endpoint). x.count) same ∙ (omega (arith, full)), written, o', got)

queued_at :
    (k : Ipc) (c : Caller) (i : ℕ) (m : Msg) (e : Endpoint)
    → k.endpoints i ≡ e
    → e.used ≡ true
    → e.waiters ≡ []
    → e.count < 8
    → ((send_round k c i m).1 ≡ returns ok) × ((send_round k c i m).0.endpoints i ≡ enqueue e m)
unfolding send_round
queued_at k c i m e same live line room = ground arith

-- The endpoint that creation puts into a slot.
abbrev new_endpoint : ℕ → Endpoint
new_endpoint id = record zero_endpoint { used = true; id = id; refs = 1 }

created_at :
    (k : Ipc) (i : ℕ)
    → i < 64
    → (k.endpoints i).used ≡ false
    → ((j : ℕ) → j < i → (k.endpoints j).used ≡ true)
    → ((endpoint_create k).1 ≡ some i)
      × ((endpoint_create k).0.endpoints i ≡ new_endpoint k.next_id)
unfolding endpoint_create open_endpoint
created_at k i small free busy =
    let at = scan_free_first k 64 0 i (omega arith) (omega arith) free (λ n lo hi. busy n hi) in
    rw (at, endpoint_create) (refl, ground arith)

destroyed :
    (k : Ipc) (i : ℕ)
    → (k.endpoints i).used ≡ true
    → (k.endpoints i).refs ≡ 1
    → endpoint_unref k (some i) ≡ destroy k i
unfolding endpoint_unref
destroyed k i live refs = ground arith

-- A thread that waits on an endpoint holds a pointer to its slot, and checks only that the slot is
-- in use. If the endpoint is destroyed and the slot, the first free one, goes to a new endpoint
-- before the thread runs, the thread is not told AF_ERR_NOOBJ: its `ipc_recv` returns with success
-- and a message that was sent to the new endpoint, whose identifier differs from the one it waited on.
pub recv_after_reuse :
    (k : Ipc) (c c' : Caller) (i t : ℕ) (m : Msg)
    → i < 64
    → (k.endpoints i).used ≡ true
    → (k.endpoints i).refs ≡ 1
    → (k.endpoints i).id < k.next_id
    → ((j : ℕ) → j < i → (k.endpoints j).used ≡ true)
    → let (k1, slot) = endpoint_create (endpoint_unref k (some i)) in
      let (k2, o) = send_round k1 c i m in
      let (k3, o', got) = recv_again k2 c' t i in
      (slot ≡ some i)
      × ((k1.endpoints i).id ≢ (k.endpoints i).id)
      × (o ≡ returns ok)
      × (o' ≡ returns ok)
      × (got ≡ some m)
unfolding destroy recv_again enqueue remove
recv_after_reuse k c c' i t m small live refs older busy =
    rw (destroyed k i live refs)
      (made.0, (λ q. omega (arith, ap (λ (x : Endpoint). x.id) made.1, q)), put.0, got.0, got.1)
  where
    made :
        ((endpoint_create (destroy k i)).1 ≡ some i)
        × ((endpoint_create (destroy k i)).0.endpoints i ≡ new_endpoint k.next_id)
    made = created_at (destroy k i) i small (ground arith) (λ j lt. ground (arith, busy j lt))

    k1 : Ipc
    k1 = (endpoint_create (destroy k i)).0

    put :
        ((send_round k1 c i m).1 ≡ returns ok)
        × ((send_round k1 c i m).0.endpoints i ≡ enqueue (new_endpoint k.next_id) m)
    put = queued_at k1 c i m (new_endpoint k.next_id) made.1 refl refl (omega arith)

    k2 : Ipc
    k2 = (send_round k1 c i m).0

    got : ((recv_again k2 c' t i).1 ≡ returns ok) × ((recv_again k2 c' t i).2 ≡ some m)
    got =
        recv_head _ c' i m (record (enqueue (new_endpoint k.next_id) m) { waiters = remove t [] })
          (at_self k2 i _ ∙ ap (λ (x : Endpoint). record x { waiters = remove t x.waiters }) put.1)
          refl (omega arith) (ground arith)

got_reply :
    (r : ℕ) (x : Ipc × Outcome × Option Msg) (m : Msg)
    → x.1 ≡ returns ok
    → x.2 ≡ some m
    → (after_recv r x).1 ≡ returned ok (some m)
unfolding after_recv
got_reply r (k, returns status, m') m p q = cc
got_reply r (k, blocks, m') m p q = cc

sent_request :
    (c : Caller) (i : ℕ) (q m : Msg) (r : ℕ) (x : Ipc × Outcome)
    → x.1 ≡ returns ok
    → (recv_round x.0 c r).1 ≡ returns ok
    → (recv_round x.0 c r).2 ≡ some m
    → (after_send c i q r x).1 ≡ returned ok (some m)
unfolding after_send
sent_request c i q m r (k, blocks) p u v = cc
sent_request c i q m r (k, returns Status.ok) p u v = got_reply r (recv_round k c r) m u v
sent_request c i q m r (k, returns status) p u v = cc

own_request :
    (c : Caller) (i id : ℕ) (m : Msg) (x : Ipc × Option ℕ)
    → x.1 ≡ some i
    → x.0.endpoints i ≡ new_endpoint id
    → (after_create c i m x).1 ≡ returned ok (some (request m id))
unfolding after_create enqueue
own_request c i id m (k, none) p e = cc
own_request c i id m (k, some r) p e =
    let at : r ≡ i = cc in
    let named : request m (k.endpoints r).id ≡ request m id =
      ap (λ (x : ℕ). request m (k.endpoints x).id) at ∙ ap (λ (x : Endpoint). request m x.id) e in
    let put = queued_at k c i (request m id) (new_endpoint id) e refl refl (omega arith) in
    let got =
      recv_head (send_round k c i (request m id)).0 c i (request m id)
        (enqueue (new_endpoint id) (request m id)) put.1 refl (omega arith) (ground arith) in
    rw (named, at)
      (sent_request c i (request m id) (request m id) i (send_round k c i (request m id)) put.0
        got.0 got.1)

-- The same slot may go to the reply endpoint of a call: where `ipc_call` is given an endpoint that
-- is gone, in the first free slot, it puts the request into its own reply endpoint and returns it to
-- the caller as a successful reply.
pub call_gone :
    (k : Ipc) (c : Caller) (i : ℕ) (m : Msg)
    → i < 64
    → (k.endpoints i).used ≡ false
    → ((j : ℕ) → j < i → (k.endpoints j).used ≡ true)
    → (call k c (some i) (some m) true).1 ≡ returned ok (some (request m k.next_id))
unfolding call
call_gone k c i m small free busy =
    let (at, e) = created_at k i small free busy in
    own_request c i k.next_id m (endpoint_create k) at e
