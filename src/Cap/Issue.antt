-- ===== src/Cap/Issue.antt =====
-- The handles that `cap_insert` of kernel/core/cap.c gives out.
use afriyie_os.Common.{
  ℕ, ◌%◌, ◌^◌, ◌≤◌, ◌<◌, ◌≡◌, ◌≢◌, refl, sym, ◌∙◌, ap, subst, inl, inr, true, false, none, some,
  arith, bit_and, ◌==◌, if◌then◌else◌, Option-cases, ok, perm, cap_invalid,
}
use afriyie_os.Common.Count.{count-from}
use afriyie_os.Cap.Object.{Object, ObjectType}
use afriyie_os.Cap.Table.{Table, Slot, resolve, pack}
use afriyie_os.Cap.Ops.{fill_slot, insert, lookup, delete}
use afriyie_os.Cap.Handle.{resolve-Resolves, resolve-pack, pack_lem, pack-lt}
use afriyie_os.Cap.Insert.{insert-Inserted}
use afriyie_os.Cap.Invariant.{IsValid, in_use}
use afriyie_os.Cap.Revoke.Exact.{resolve-same}
use afriyie_os.Cap.Authority.Lookup.{lookup_stale}

-- With fewer than 255 slots in use one of them is free.
insert_room :
    (t : Table) (object : Object) (rights : ℕ)
    → IsValid t
    → object.type ≢ ObjectType.nothing
    → t.used < 255
    → (i : ℕ) × (1 ≤ i)
      × (i < 256)
      × ((t.slots i).used ≡ false)
      × (insert t object rights ≡ (fill_slot t i object rights, pack i (t.slots i).generation))
insert_room t object rights v typed room = elim (insert-Inserted t object rights) [
  | inr done ↦ done
  | inl (_, inl untyped) ↦ absurd (typed untyped)
  | inl (_, inr full) ↦ absurd (omega (arith, v.counted, count-from (in_use t) 1 256 full))
]

lookup_at :
    (t : Table) (h i required : ℕ)
    → resolve t h ≡ some i
    → lookup t h required ≡ (
        if bit_and (t.slots i).rights required == required
        then (ok, some (t.slots i).object)
        else (perm, none))
unfolding lookup
lookup_at t h i required e = rw (e, lookup) (ground arith)

lookup_same :
    (t s : Table) (h i required : ℕ)
    → resolve t h ≡ some i
    → s.slots i ≡ t.slots i
    → lookup s h required ≡ lookup t h required
lookup_same t s h i required e same =
    lookup_at s h i required (resolve-same s t h i e same)
    ∙ (rw same (sym (lookup_at t h i required e)))

module _ (t : Table) (object : Object) (rights i : ℕ) (lo : 1 ≤ i) (hi : i < 256)
    (free : (t.slots i).used ≡ false) where
  filled_slot :
      (fill_slot t i object rights).slots i
      ≡ record (t.slots i) { object = object; rights = rights; parent = 0xffff; used = true }
  unfolding fill_slot
  filled_slot = ground arith

  pub filled_resolves :
      (t.slots i).generation < 2 ^ 24
      → resolve (fill_slot t i object rights) (pack i (t.slots i).generation) ≡ some i
  filled_resolves fits =
      subst (λ g. resolve (fill_slot t i object rights) (pack i g) ≡ some i)
        (ap (λ (x : Slot). x.generation) filled_slot)
        (resolve-pack (fill_slot t i object rights) i lo hi (ap (λ (x : Slot). x.used) filled_slot)
          (rw (ap (λ (x : Slot). x.generation) filled_slot) fits))

  filled_others :
      (h j required : ℕ)
      → resolve t h ≡ some j
      → lookup (fill_slot t i object rights) h required ≡ lookup t h required
  unfolding fill_slot
  filled_others h j required e =
      lookup_same t (fill_slot t i object rights) h j required e
        (ground (arith, (resolve-Resolves t h j e).live))

-- While fewer than 255 slots are in use, and no generation is worn out, an object of some type gets
-- a handle, which is not AF_CAP_INVALID: a lookup by it gives the object for exactly the sets of
-- rights that `rights` covers and is refused with AF_ERR_PERM for all others; every handle that
-- was live gives what it gave.
pub insert_lem :
    (t : Table) (object : Object) (rights : ℕ)
    → IsValid t
    → object.type ≢ ObjectType.nothing
    → t.used < 255
    → ((j : ℕ) → (t.slots j).generation < 2 ^ 24)
    → let (s, h) = insert t object rights in
      (h ≢ 0)
      × ((required : ℕ)
          → lookup s h required
            ≡ (if bit_and rights required == required then (ok, some object) else (perm, none)))
      × ((h' j required : ℕ) → resolve t h' ≡ some j → lookup s h' required ≡ lookup t h' required)
insert_lem t object rights v typed room fits =
    let (i, lo, hi, free, e) = insert_room t object rights v typed room in
    rw e (
      (λ q. omega (arith, q, pack_lem i (t.slots i).generation)),
      (λ required.
          lookup_at _ _ i required (filled_resolves t object rights i lo hi free (fits i))
          ∙ (rw (filled_slot t object rights i lo hi free) refl)),
      filled_others t object rights i lo hi free,
    )

-- A slot whose generation has reached 2 ^ 24 is lost when it is filled: `cap_insert` returns a
-- handle that is not AF_CAP_INVALID, but every word of 32 bits fails to resolve to the slot, so
-- that this handle is stale from the start and the slot cannot be freed by it.
pub insert_worn :
    (t s : Table) (object : Object) (rights h : ℕ)
    → insert t object rights ≡ (s, h)
    → h ≢ 0
    → (t.slots (h % 256)).generation ≡ 2 ^ 24
    → ((h' : ℕ) → h' < 2 ^ 32 → resolve s h' ≢ some (h % 256))
      × ((required : ℕ) → lookup s h required ≡ (cap_invalid, none))
      × (delete s h ≡ (s, cap_invalid))
unfolding delete
insert_worn t s object rights h e made worn = elim (insert-Inserted t object rights) [
  | inl (q, _) ↦ absurd (made (cc))
  | inr (i, lo, hi, free, q) ↦
      let handle : pack i (t.slots i).generation ≡ h = cc in
      let at : h % 256 ≡ i = omega (arith, handle, pack_lem i (t.slots i).generation) in
      let small : h < 2 ^ 32 = omega (arith, handle, pack-lt i (t.slots i).generation) in
      let table : fill_slot t i object rights ≡ s = cc in
      let generation : (s.slots i).generation ≡ 2 ^ 24 = rw (← table) (
        ap (λ (x : Slot). x.generation) (filled_slot t object rights i lo hi free)
        ∙ subst (λ x. (t.slots x).generation ≡ 2 ^ 24) at worn) in
      let lost : (h' : ℕ) → h' < 2 ^ 32 → resolve s h' ≢ some (h % 256) = λ h' lt found. omega (
        arith,
        (resolve-Resolves s h' (h % 256) found).current,
        subst (λ x. (s.slots x).generation ≡ 2 ^ 24) (sym at) generation,
      ) in
      let out : resolve s h ≡ none = elim (Option-cases (resolve s h)) [
        | inl none_found ↦ none_found
        | inr (j, found) ↦
            absurd (lost h small (found ∙ ap some (resolve-Resolves s h j found).index))
      ] in
      (lost, (λ required. lookup_stale s h required out), rw (out, delete))
]
