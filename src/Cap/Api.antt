-- ===== src/Cap/Api.antt =====
-- The functions of kernel/core/cap.c as they are called: `none` is a NULL table.
use afriyie_os.Common.{ℕ, Bool, Option, none, some, if◌then◌else◌, Status, cap_invalid}
use afriyie_os.Cap.Object.{Object}
use afriyie_os.Cap.Table.{Table, cap_invalid_handle, fresh_table}
use afriyie_os.Cap.Ops.{insert, lookup, derive, delete, revoke, used_slots, generation_of}

-- `allocated` says that `kzalloc` gave memory.
unfoldable pub cap_table_create : Bool → Option Table
cap_table_create allocated = if allocated then some fresh_table else none

unfoldable pub cap_insert : Option Table → Object → ℕ → Option Table × ℕ
cap_insert none object rights = (none, cap_invalid_handle)
cap_insert (some t) object rights = let (t', h) = insert t object rights in (some t', h)

unfoldable pub cap_lookup : Option Table → ℕ → ℕ → Status × Option Object
cap_lookup none cap required = (cap_invalid, none)
cap_lookup (some t) cap required = lookup t cap required

unfoldable pub cap_derive : Option Table → ℕ → ℕ → Bool → Option Table × Status × Option ℕ
cap_derive none cap rights has_out = (none, cap_invalid, none)
cap_derive (some t) cap rights has_out =
    let (t', status, out) = derive t cap rights has_out in (some t', status, out)

unfoldable pub cap_delete : Option Table → ℕ → Option Table × Status
cap_delete none cap = (none, cap_invalid)
cap_delete (some t) cap = let (t', status) = delete t cap in (some t', status)

-- `none`: the nested calls did not end within `depth`.
unfoldable pub cap_revoke : ℕ → Option Table → ℕ → Option (Option Table × Status)
cap_revoke depth none cap = some (none, cap_invalid)
cap_revoke depth (some t) cap = elim (revoke depth t cap) [
  | none ↦ none
  | some (t', status) ↦ some (some t', status)
]

unfoldable pub cap_used_slots : Option Table → ℕ
cap_used_slots none = 0
cap_used_slots (some t) = used_slots t

unfoldable pub cap_generation_of : Option Table → ℕ → ℕ
cap_generation_of none cap = 0
cap_generation_of (some t) cap = generation_of t cap
