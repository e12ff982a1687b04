-- ===== src/Ipc/State.antt =====
-- The data of kernel/core/ipc.c and kernel/include/afriyie/ipc.h.
use afriyie_os.Common.{ℕ, Bool, false, Option, List, [], update}
use afriyie_os.Common.{Status}

-- AF_MAX_ENDPOINTS, AF_EP_QUEUE_LEN, AF_EP_INVALID, AF_MSG_WORD_REPLY_EP
abbrev pub max_endpoints : ℕ
max_endpoints = 64

abbrev pub queue_len : ℕ
queue_len = 8

abbrev pub ep_invalid : ℕ
ep_invalid = 0

abbrev pub word_reply_ep : ℕ
word_reply_ep = 0

-- `af_msg_t`, without its padding.
pub record Msg : Type 0 where
  pub label : ℕ
  pub cap_count : ℕ
  pub caps : ℕ → ℕ
  pub words : ℕ → ℕ

abbrev pub zero_msg : Msg
zero_msg = record { label = 0; cap_count = 0; caps = λ i. 0; words = λ i. 0 }

-- `struct af_endpoint`, without the name that the log prints. A wait list is the list of the
-- identifiers of its threads; Ipc.WaitList has it as the links that the threads store.
pub record Endpoint : Type 0 where
  pub used : Bool
  pub id : ℕ
  pub refs : ℕ
  pub queue : ℕ → Msg
  pub head : ℕ
  pub tail : ℕ
  pub count : ℕ
  pub waiters : List ℕ
  pub senders : List ℕ

-- What `af_memset` leaves.
abbrev pub zero_endpoint : Endpoint
zero_endpoint = record {
  used = false;
  id = ep_invalid;
  refs = 0;
  queue = λ i. zero_msg;
  head = 0;
  tail = 0;
  count = 0;
  waiters = [];
  senders = [];
}

-- The static variables, and the threads handed to `sched_unblock`, the latest last.
pub record Ipc : Type 0 where
  pub endpoints : ℕ → Endpoint
  pub live : ℕ
  pub next_id : ℕ
  pub sent : ℕ
  pub woken : List ℕ

abbrev pub put_endpoint : Ipc → ℕ → Endpoint → Ipc
put_endpoint k i e = record k { endpoints = update k.endpoints i e }

-- The caller: `thread_current`, NULL before there are threads, and `sched_idle_thread`.
pub record Caller : Type 0 where
  pub self : Option ℕ
  pub idle : ℕ

-- A call either returns, or blocks its thread, which calls again when it is woken.
pub data Outcome : Type 0 where
  returns : Status → Outcome
  blocks : Outcome
