-- ===== src/Cap/Ops.antt =====
-- The operations of kernel/core/cap.c on a table that is there. `Cap.Api` adds the NULL table.
use afriyie_os.Common.{
  ℕ, zero, suc, ◌+◌, ◌-◌, ◌%◌, ◌^◌, bit_and, Bool, true, false, not, ◌||◌, Option, none, some, ltb,
  ◌==◌, if◌then◌else◌, update, Status, ok, inval, perm, cap_invalid, toomany,
}
use afriyie_os.Cap.Object.{Object, ObjectType, is_type, right_revoke}
use afriyie_os.Cap.Table.{
  Table, Slot, put_slot, no_object, no_parent, cap_invalid_handle, pack, unpack_index, resolve,
}

-- The search of `cap_insert` from slot `i` on, for as many rounds as are given.
unfoldable pub find_free : Table → ℕ → ℕ → Option ℕ
find_free t zero i = none
find_free t (suc left) i =
    let rest = find_free t left (i + 1) in if not (t.slots i).used then some i else rest

-- What `cap_insert` writes into the slot that it found.
unfoldable pub fill_slot : Table → ℕ → Object → ℕ → Table
fill_slot t i object rights = record t {
  slots = update t.slots i (record {
    object = object;
    rights = rights;
    generation = (t.slots i).generation;
    parent = no_parent;
    used = true;
  });
  used = (t.used + 1) % 2 ^ 32;
}

unfoldable pub insert : Table → Object → ℕ → Table × ℕ
unfolding fill_slot
insert t object rights =
    if is_type object.type ObjectType.nothing
    then (t, cap_invalid_handle)
    else elim (find_free t 255 1) [
      | none ↦ (t, cap_invalid_handle)
      | some i ↦ (fill_slot t i object rights, pack i (t.slots i).generation)
    ]

-- The option is what goes through `out`.
unfoldable pub lookup : Table → ℕ → ℕ → Status × Option Object
lookup t cap required = elim (resolve t cap) [
  | none ↦ (cap_invalid, none)
  | some i ↦
      if not (bit_and (t.slots i).rights required == required)
      then (perm, none)
      else (ok, some (t.slots i).object)
]

unfoldable pub relink : Table → ℕ → ℕ → Table
relink t c parent = put_slot t c (record (t.slots c) { parent = parent })

-- The parent's index goes into the slot of the child, if the child's handle resolves.
unfoldable pub link_child : Table → ℕ → ℕ → Table
link_child t child cap = elim (resolve t child) [
  | none ↦ t
  | some c ↦ relink t c (unpack_index cap % 2 ^ 16)
]

-- `has_out` says that `out` is not NULL; the option is what goes through it.
unfoldable pub derive : Table → ℕ → ℕ → Bool → Table × Status × Option ℕ
derive t cap rights has_out = elim (resolve t cap) [
  | none ↦ (t, cap_invalid, none)
  | some p ↦
      if not has_out
      then (t, inval, none)
      else if not (bit_and rights (t.slots p).rights == rights)
      then (t, perm, none)
      else let (t', child) = insert t (t.slots p).object rights in
        if child == cap_invalid_handle
        then (t', toomany, none)
        else (link_child t' child cap, ok, some child)
]

-- The slot as `cap_delete` leaves it.
unfoldable pub free_slot : Slot → Slot
free_slot s = record {
  object = no_object;
  rights = 0;
  generation = (s.generation + 1) % 2 ^ 32;
  parent = no_parent;
  used = false;
}

unfoldable pub release : Table → ℕ → Table
release t i = record t {
  slots = update t.slots i (free_slot (t.slots i));
  used = if ltb 0 t.used then t.used - 1 else t.used;
}

unfoldable pub delete : Table → ℕ → Table × Status
delete t cap = elim (resolve t cap) [ none ↦ (t, cap_invalid) | some i ↦ (release t i, ok) ]

-- The loop of `revoke_children` from slot `i` on. `go` is the recursive call; the result is the
-- table and the number of slots revoked.
unfoldable pub revoke_loop :
    (Table → ℕ → Option (Table × ℕ)) → ℕ → ℕ → Table → ℕ → ℕ → Option (Table × ℕ)
revoke_loop go zero i t parent n = some (t, n)
revoke_loop go (suc left) i t parent n =
    elim (not (t.slots i).used || not ((t.slots i).parent == parent % 2 ^ 16)) [
      | true ↦ revoke_loop go left (i + 1) t parent n
      | false ↦ elim (go t i) [
        | none ↦ none
        | some (t', children) ↦
            revoke_loop go left (i + 1) (delete t' (pack i (t'.slots i).generation)).0 parent
              (n + children + 1)
      ]
    ]

-- `revoke_children`. The fuel is the depth of calls that the stack has room for; `none` means that
-- it was not enough.
unfoldable pub revoke_children : ℕ → Table → ℕ → Option (Table × ℕ)
revoke_children zero t parent = none
revoke_children (suc depth) t parent = revoke_loop (revoke_children depth) 255 1 t parent 0

unfoldable pub revoke : ℕ → Table → ℕ → Option (Table × Status)
revoke depth t cap = elim (resolve t cap) [
  | none ↦ some (t, cap_invalid)
  | some i ↦
      if bit_and (t.slots i).rights right_revoke == 0
      then some (t, perm)
      else elim (revoke_children depth t (unpack_index cap)) [
        | none ↦ none
        | some (t', children) ↦ some ((delete t' cap).0, ok)
      ]
]

-- `cap_used_slots`, `cap_generation_of`
unfoldable pub used_slots : Table → ℕ
used_slots t = t.used

unfoldable pub generation_of : Table → ℕ → ℕ
generation_of t cap =
    let index = unpack_index cap in
    if index == 0 || not (ltb index 256) then 0 else (t.slots index).generation
