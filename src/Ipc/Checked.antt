-- ===== src/Ipc/Checked.antt =====
-- The capability-checked forms of kernel/core/ipc.c, which a system call lands on.
use afriyie_os.Common.{
  ℕ, ◌%◌, ◌^◌, Bool, Option, none, some, not, if◌then◌else◌, Status, inval, noobj,
}
use afriyie_os.Cap.Object.{Object, ObjectType, is_type, right_signal, right_wait}
use afriyie_os.Cap.Table.{Table}
use afriyie_os.Cap.Api.{cap_lookup}
use afriyie_os.Ipc.State.{Msg, Ipc, Caller, Outcome, returns}
use afriyie_os.Ipc.Ops.{endpoint_from_id, send, recv}
use afriyie_os.Ipc.Call.{Call, returned, call}

-- `endpoint_from_cap`: an endpoint, or the status to return. `(af_ep_t)object.id` cuts to 32 bits.
pub data Found : Type 0 where
  found : ℕ → Found
  refused : Status → Found

unfoldable pub endpoint_of : Ipc → Object → Found
endpoint_of k o =
    if not (is_type o.type ObjectType.endpoint)
    then refused inval
    else elim (endpoint_from_id k (o.id % 2 ^ 32)) [ none ↦ refused noobj | some i ↦ found i ]

unfoldable pub from_lookup : Ipc → Status × Option Object → Found
from_lookup k (Status.ok, some o) = endpoint_of k o
from_lookup k (Status.ok, none) = refused inval
from_lookup k (status, o) = refused status

unfoldable pub endpoint_from_cap : Ipc → Option Table → ℕ → ℕ → Found
endpoint_from_cap k t cap required = from_lookup k (cap_lookup t cap required)

unfoldable pub send_cap : Ipc → Caller → Option Table → ℕ → Option Msg → Ipc × Outcome
send_cap k c t cap m = elim (endpoint_from_cap k t cap right_signal) [
  | refused status ↦ (k, returns status)
  | found i ↦ send k c (some i) m
]

unfoldable pub recv_cap : Ipc → Caller → Option Table → ℕ → Bool → Ipc × Outcome × Option Msg
recv_cap k c t cap has_out = elim (endpoint_from_cap k t cap right_wait) [
  | refused status ↦ (k, returns status, none)
  | found i ↦ recv k c (some i) has_out
]

unfoldable pub call_cap : Ipc → Caller → Option Table → ℕ → Option Msg → Bool → Ipc × Call
call_cap k c t cap m has_out = elim (endpoint_from_cap k t cap right_signal) [
  | refused status ↦ (k, returned status none)
  | found i ↦ call k c (some i) m has_out
]
