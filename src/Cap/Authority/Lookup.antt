-- ===== src/Cap/Authority/Lookup.antt =====
-- What `cap_lookup` of kernel/core/cap.c answers.
use afriyie_os.Common.{
  ℕ, ◌≡◌, ap, inl, inr, ◌↔◌, none, some, bit_and, ◌==◌, ==_iff, Bool-cases, Option-cases, ok,
  cap_invalid,
}
use afriyie_os.Cap.Object.{Object}
use afriyie_os.Cap.Table.{Table, resolve}
use afriyie_os.Cap.Ops.{lookup}

-- The one place where authority is decided: a lookup gives an object exactly for a handle that
-- resolves to a slot with that object, all the required rights among those of the slot.
pub lookup-ok_iff :
    (t : Table) (h required : ℕ) (o : Object)
    → (lookup t h required ≡ (ok, some o)) ↔ (
        (i : ℕ) × (resolve t h ≡ some i)
        × (bit_and (t.slots i).rights required ≡ required)
        × ((t.slots i).object ≡ o))
unfolding lookup
lookup-ok_iff t h required o = (there, back)
  where
    there :
        lookup t h required ≡ (ok, some o)
        → (i : ℕ) × (resolve t h ≡ some i)
          × (bit_and (t.slots i).rights required ≡ required)
          × ((t.slots i).object ≡ o)
    there e = elim (Option-cases (resolve t h)) [
      | inl out ↦ cc (rw (out, lookup) at e)
      | inr (i, found) ↦ elim (Bool-cases (bit_and (t.slots i).rights required == required)) [
        | inl given ↦ (i, found, (==_iff _ _).0 given, cc (rw (found, given, lookup) at e))
        | inr missing ↦ cc (rw (found, missing, lookup) at e)
      ]
    ]

    back :
        ((i : ℕ) × (resolve t h ≡ some i)
          × (bit_and (t.slots i).rights required ≡ required)
          × ((t.slots i).object ≡ o))
        → lookup t h required ≡ (ok, some o)
    back (i, found, given, object) =
        rw (found, lookup, (==_iff _ _).1 given) (ap (λ x. (ok, some x)) object)

-- A handle that does not resolve is a stale one to every lookup.
pub lookup_stale :
    (t : Table) (h required : ℕ) → resolve t h ≡ none → lookup t h required ≡ (cap_invalid, none)
unfolding lookup
lookup_stale t h required e = rw (e, lookup)
