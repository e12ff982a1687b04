-- ===== src/Ipc/Ops.antt =====
-- The operations of kernel/core/ipc.c on endpoints. An endpoint pointer is its index in the table,
-- and `none` is NULL.
use afriyie_os.Common.{
  ℕ, zero, suc, ◌+◌, ◌-◌, ◌%◌, ◌^◌, Bool, true, false, not, ◌&&◌, ◌||◌, Option, none, some, List,
  [], ◌∷◌, ◌++◌, ltb, ◌==◌, if◌then◌else◌, ok, inval, noobj, again,
}
use afriyie_os.Ipc.State.{
  Msg, Endpoint, Ipc, Caller, Outcome, returns, blocks, zero_endpoint, put_endpoint, queue_len,
  ep_invalid,
}

-- `endpoint_from_id` from slot `i` on.
unfoldable pub scan_id : Ipc → ℕ → ℕ → ℕ → Option ℕ
scan_id k id zero i = none
scan_id k id (suc left) i =
    let rest = scan_id k id left (i + 1) in
    if (k.endpoints i).used && ((k.endpoints i).id == id) then some i else rest

unfoldable pub endpoint_from_id : Ipc → ℕ → Option ℕ
endpoint_from_id k id = if id == ep_invalid then none else scan_id k id 64 0

unfoldable pub scan_free : Ipc → ℕ → ℕ → Option ℕ
scan_free k zero i = none
scan_free k (suc left) i =
    let rest = scan_free k left (i + 1) in if not (k.endpoints i).used then some i else rest

-- The endpoint that `ipc_endpoint_create` makes in a free slot.
unfoldable pub open_endpoint : Ipc → ℕ → Ipc
open_endpoint k i =
    record (put_endpoint k i (record zero_endpoint { used = true; id = k.next_id; refs = 1 })) {
      live = (k.live + 1) % 2 ^ 32;
      next_id = (k.next_id + 1) % 2 ^ 32;
    }

unfoldable pub endpoint_create : Ipc → Ipc × Option ℕ
endpoint_create k = elim (scan_free k 64 0) [
  | none ↦ (k, none)
  | some i ↦ (open_endpoint k i, some i)
]

unfoldable pub endpoint_ref : Ipc → Option ℕ → Ipc
endpoint_ref k none = k
endpoint_ref k (some i) =
    if (k.endpoints i).used
    then put_endpoint k i (record (k.endpoints i) { refs = ((k.endpoints i).refs + 1) % 2 ^ 32 })
    else k

-- The two loops over the wait lists, and the end of the endpoint.
unfoldable pub destroy : Ipc → ℕ → Ipc
destroy k i =
    let e = k.endpoints i in
    record (put_endpoint k i
      (record e { used = false; id = ep_invalid; refs = 0; waiters = []; senders = [] })) {
        live = if ltb 0 k.live then k.live - 1 else k.live;
        woken = k.woken ++ (e.waiters ++ e.senders);
      }

unfoldable pub endpoint_unref : Ipc → Option ℕ → Ipc
endpoint_unref k none = k
endpoint_unref k (some i) =
    let e = k.endpoints i in
    if not e.used || (e.refs == 0)
    then k
    else if ltb 0 (e.refs - 1)
    then put_endpoint k i (record e { refs = e.refs - 1 })
    else destroy k i

-- `queue[tail] = msg`, and the counters.
unfoldable pub enqueue : Endpoint → Msg → Endpoint
enqueue e m = record e {
  queue = λ j. if j == e.tail then m else e.queue j;
  tail = (e.tail + 1) % queue_len;
  count = (e.count + 1) % 2 ^ 32;
}

unfoldable pub dequeue : Endpoint → Endpoint
dequeue e = record e { head = (e.head + 1) % queue_len; count = e.count - 1 }

-- `self == NULL || self == sched_idle_thread()`, or the thread that may block.
unfoldable pub may_block : Caller → Option ℕ
may_block c = elim c.self [ none ↦ none | some t ↦ if t == c.idle then none else some t ]

-- One round of the loop of `ipc_send`: with a waiting receiver, with room, and with a full queue.
unfoldable pub send_round : Ipc → Caller → ℕ → Msg → Ipc × Outcome
send_round k c i m =
    let e = k.endpoints i in
    if not e.used then (k, returns noobj) else elim e.waiters [
      | receiver ∷ rest ↦ (
        record (put_endpoint k i (enqueue (record e { waiters = rest }) m)) {
          sent = (k.sent + 1) % 2 ^ 32;
          woken = k.woken ++ (receiver ∷ []);
        },
        returns ok,
      )
      | [] ↦
          if ltb e.count queue_len
          then (
            record (put_endpoint k i (enqueue e m)) { sent = (k.sent + 1) % 2 ^ 32 },
            returns ok,
          )
          else elim (may_block c) [
            | none ↦ (k, returns again)
            | some t ↦ (put_endpoint k i (record e { senders = e.senders ++ (t ∷ []) }), blocks)
          ]
    ]

-- `waiter_remove`: the first occurrence is taken out.
unfoldable pub remove : ℕ → List ℕ → List ℕ
remove t [] = []
remove t (x ∷ xs) = if x == t then xs else x ∷ remove t xs

-- A blocked sender that is woken takes itself off the list and goes round again.
unfoldable pub send_again : Ipc → Caller → ℕ → ℕ → Msg → Ipc × Outcome
send_again k c t i m =
    let e = k.endpoints i in
    send_round (put_endpoint k i (record e { senders = remove t e.senders })) c i m

unfoldable pub send : Ipc → Caller → Option ℕ → Option Msg → Ipc × Outcome
send k c none m = (k, returns inval)
send k c (some i) none = (k, returns inval)
send k c (some i) (some m) = send_round k c i m

-- One round of the loop of `ipc_recv`; the option is what goes through `out`.
unfoldable pub recv_round : Ipc → Caller → ℕ → Ipc × Outcome × Option Msg
recv_round k c i =
    let e = k.endpoints i in
    if not e.used
    then (k, returns noobj, none)
    else if ltb 0 e.count
    then elim e.senders [
      | [] ↦ (put_endpoint k i (dequeue e), returns ok, some (e.queue e.head))
      | sender ∷ rest ↦ (
        record (put_endpoint k i (dequeue (record e { senders = rest }))) {
          woken = k.woken ++ (sender ∷ []);
        },
        returns ok,
        some (e.queue e.head),
      )
    ]
    else elim (may_block c) [
      | none ↦ (k, returns again, none)
      | some t ↦ (put_endpoint k i (record e { waiters = e.waiters ++ (t ∷ []) }), blocks, none)
    ]

unfoldable pub recv_again : Ipc → Caller → ℕ → ℕ → Ipc × Outcome × Option Msg
recv_again k c t i =
    let e = k.endpoints i in
    recv_round (put_endpoint k i (record e { waiters = remove t e.waiters })) c i

-- `has_out` says that `out` is not NULL.
unfoldable pub recv : Ipc → Caller → Option ℕ → Bool → Ipc × Outcome × Option Msg
recv k c none has_out = (k, returns inval, none)
recv k c (some i) has_out = if has_out then recv_round k c i else (k, returns inval, none)
