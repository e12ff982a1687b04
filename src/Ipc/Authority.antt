-- ===== src/Ipc/Authority.antt =====
-- What the capability-checked calls of kernel/core/ipc.c do without the right, and with it.
use afriyie_os.Common.{
  ℕ, ◌%◌, ◌^◌, ◌<◌, ◌≡◌, refl, ap, ◌∙◌, ◌⊎◌, inl, inr, Bool, true, Option, none, some, arith, ◌==◌,
  Bool-cases, Option-cases, Status, ok,
}
use afriyie_os.Cap.Object.{Object, ObjectType, is_type, right_signal, right_wait}
use afriyie_os.Cap.Table.{Table}
use afriyie_os.Cap.Api.{cap_lookup}
use afriyie_os.Ipc.State.{Msg, Ipc, Caller, ep_invalid}
use afriyie_os.Ipc.Ops.{endpoint_from_id, send, recv}
use afriyie_os.Ipc.Call.{call}
use afriyie_os.Ipc.Checked.{
  Found, found, refused, endpoint_of, from_lookup, endpoint_from_cap, send_cap, recv_cap, call_cap,
}
use afriyie_os.Ipc.Table.{scan_id-found}

-- The handle carries the right to a live endpoint, whose slot is `i`.
pub record Holds (k : Ipc) (t : Option Table) (cap required i : ℕ) : Type 0 where
  pub object : Object
  pub granted : cap_lookup t cap required ≡ (ok, some object)
  pub type : object.type ≡ ObjectType.endpoint
  pub small : i < 64
  pub live : (k.endpoints i).used ≡ true
  pub named : (k.endpoints i).id ≡ object.id % 2 ^ 32

is_endpoint : (a : ObjectType) → is_type a ObjectType.endpoint ≡ true → a ≡ ObjectType.endpoint
is_endpoint ObjectType.endpoint e = refl
is_endpoint _ e = cc

from_id-live :
    (k : Ipc) (id i : ℕ)
    → endpoint_from_id k id ≡ some i
    → (i < 64) × ((k.endpoints i).used ≡ true) × ((k.endpoints i).id ≡ id)
unfolding endpoint_from_id
from_id-live k id i e = elim (Bool-cases (id == ep_invalid)) [
  | inl bad ↦ cc (rw (bad, endpoint_from_id) at e)
  | inr fine ↦
      let (lo, hi, live, same) = scan_id-found k id 64 0 i (rw (fine, endpoint_from_id) at e) in
      (omega arith, live, same)
]

endpoint_of-Holds :
    (k : Ipc) (t : Option Table) (cap required i : ℕ) (o : Object)
    → cap_lookup t cap required ≡ (ok, some o)
    → endpoint_of k o ≡ found i
    → Holds k t cap required i
unfolding endpoint_of
endpoint_of-Holds k t cap required i o given e =
    elim (Bool-cases (is_type o.type ObjectType.endpoint)) [
      | inr other ↦ cc (rw (other, endpoint_of) at e)
      | inl typed ↦ elim (Option-cases (endpoint_from_id k (o.id % 2 ^ 32))) [
        | inl out ↦ cc (rw (typed, out, endpoint_of) at e)
        | inr (j, hit) ↦
            let at : j ≡ i = cc (rw (typed, hit, endpoint_of) at e) in
            let (small, live, named) = from_id-live k (o.id % 2 ^ 32) i (hit ∙ ap some at) in
            record {
              object = o;
              granted = given;
              type = is_endpoint o.type typed;
              small = small;
              live = live;
              named = named;
            }
      ]
    ]

from_lookup-Holds :
    (k : Ipc) (t : Option Table) (cap required i : ℕ) (x : Status × Option Object)
    → cap_lookup t cap required ≡ x
    → from_lookup k x ≡ found i
    → Holds k t cap required i
unfolding from_lookup
from_lookup-Holds k t cap required i (Status.ok, some o) given e =
    endpoint_of-Holds k t cap required i o given e
from_lookup-Holds k t cap required i (Status.ok, none) given e = cc
from_lookup-Holds k t cap required i (_, o) given e = cc

-- An endpoint is found only through a handle that carries the right to it.
endpoint_from_cap-Holds :
    (k : Ipc) (t : Option Table) (cap required i : ℕ)
    → endpoint_from_cap k t cap required ≡ found i
    → Holds k t cap required i
unfolding endpoint_from_cap
endpoint_from_cap-Holds k t cap required i e =
    from_lookup-Holds k t cap required i (cap_lookup t cap required) refl e

Found-cases : (f : Found) → ((status : Status) × (f ≡ refused status)) ⊎ ((i : ℕ) × (f ≡ found i))
Found-cases (refused status) = inl (status, refl)
Found-cases (found i) = inr (i, refl)

-- Each of the three checked calls either changes nothing, or its handle carries the right that the
-- call needs (AF_RIGHT_SIGNAL for a send or a call, AF_RIGHT_WAIT for a receive) to a live
-- endpoint, and the call is the unchecked one on that endpoint.
pub checked_calls :
    (k : Ipc) (c : Caller) (t : Option Table) (cap : ℕ) (m : Option Msg) (has_out : Bool)
    → (((send_cap k c t cap m).0 ≡ k)
        ⊎ ((i : ℕ) × Holds k t cap right_signal i × (send_cap k c t cap m ≡ send k c (some i) m)))
      × (((recv_cap k c t cap has_out).0 ≡ k)
          ⊎ ((i : ℕ) × Holds k t cap right_wait i
              × (recv_cap k c t cap has_out ≡ recv k c (some i) has_out)))
      × (((call_cap k c t cap m has_out).0 ≡ k)
          ⊎ ((i : ℕ) × Holds k t cap right_signal i
              × (call_cap k c t cap m has_out ≡ call k c (some i) m has_out)))
unfolding send_cap recv_cap call_cap
checked_calls k c t cap m has_out = (
  (elim (Found-cases (endpoint_from_cap k t cap right_signal)) [
    | inl (status, e) ↦ inl (rw (e, send_cap))
    | inr (i, e) ↦ inr (i, endpoint_from_cap-Holds k t cap right_signal i e, rw (e, send_cap))
  ]),
  (elim (Found-cases (endpoint_from_cap k t cap right_wait)) [
    | inl (status, e) ↦ inl (rw (e, recv_cap))
    | inr (i, e) ↦ inr (i, endpoint_from_cap-Holds k t cap right_wait i e, rw (e, recv_cap))
  ]),
  (elim (Found-cases (endpoint_from_cap k t cap right_signal)) [
    | inl (status, e) ↦ inl (rw (e, call_cap))
    | inr (i, e) ↦ inr (i, endpoint_from_cap-Holds k t cap right_signal i e, rw (e, call_cap))
  ]),
)
