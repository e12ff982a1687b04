-- ===== src/Ipc/Call.antt =====
-- `ipc_call` and `ipc_reply` of kernel/core/ipc.c. A call can block twice, in its send and in its
-- receive; a value of `Call` says where it stands.
use afriyie_os.Common.{ℕ, Bool, Option, none, some, update, if◌then◌else◌, Status, inval, nomem}
use afriyie_os.Ipc.State.{Msg, Ipc, Caller, Outcome, returns, blocks, word_reply_ep}
use afriyie_os.Ipc.Ops.{
  endpoint_create, endpoint_unref, send, send_round, send_again, recv_round, recv_again,
}

pub data Call : Type 0 where
  sending : ℕ → Msg → ℕ → Call
  receiving : ℕ → Call
  returned : Status → Option Msg → Call

abbrev pub request : Msg → ℕ → Msg
request m id = record m { words = update m.words word_reply_ep id }

-- After `ipc_recv` on the reply endpoint.
unfoldable pub after_recv : ℕ → Ipc × Outcome × Option Msg → Ipc × Call
after_recv r (k, returns status, m) = (endpoint_unref k (some r), returned status m)
after_recv r (k, blocks, m) = (k, receiving r)

-- After `ipc_send` of the request.
unfoldable pub after_send : Caller → ℕ → Msg → ℕ → Ipc × Outcome → Ipc × Call
after_send c i m r (k, blocks) = (k, sending i m r)
after_send c i m r (k, returns Status.ok) = after_recv r (recv_round k c r)
after_send c i m r (k, returns status) = (endpoint_unref k (some r), returned status none)

-- After `ipc_endpoint_create` of the reply endpoint.
unfoldable pub after_create : Caller → ℕ → Msg → Ipc × Option ℕ → Ipc × Call
after_create c i m (k, none) = (k, returned nomem none)
after_create c i m (k, some r) =
    let q = request m (k.endpoints r).id in after_send c i q r (send_round k c i q)

unfoldable pub call : Ipc → Caller → Option ℕ → Option Msg → Bool → Ipc × Call
call k c none m has_out = (k, returned inval none)
call k c (some i) none has_out = (k, returned inval none)
call k c (some i) (some m) has_out =
    if has_out then after_create c i m (endpoint_create k) else (k, returned inval none)

-- The thread `t` of the call is woken.
unfoldable pub call_again : Ipc → Caller → ℕ → Call → Ipc × Call
call_again k c t (sending i m r) = after_send c i m r (send_again k c t i m)
call_again k c t (receiving r) = after_recv r (recv_again k c t r)
call_again k c t (returned status m) = (k, returned status m)

unfoldable pub reply : Ipc → Caller → Option ℕ → Option Msg → Ipc × Outcome
reply k c ep m = send k c ep m
