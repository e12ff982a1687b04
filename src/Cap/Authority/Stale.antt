-- ===== src/Cap/Authority/Stale.antt =====
-- Handles that were deleted, in kernel/core/cap.c, and the generations of slots.
use afriyie_os.Common.{
  ℕ, ◌/◌, ◌%◌, ◌^◌, ◌≤◌, ◌<◌, ◌≡◌, sym, ◌∙◌, ap, inl, inr, none, some, List, All, arith,
  Option-cases, Status, ok, cap_invalid,
}
use afriyie_os.Cap.Table.{Table, resolve}
use afriyie_os.Cap.Ops.{fill_slot, free_slot, lookup, relink, release, delete}
use afriyie_os.Cap.Handle.{resolve-Resolves}
use afriyie_os.Cap.History.{Op, IsWord, run, run_keeps}
use afriyie_os.Cap.Authority.Lookup.{lookup_stale}

-- A generation that has gone past `g` stays past it.
module _ (i g : ℕ) where
  abbrev Past : Table → Type 0
  Past t = g < (t.slots i).generation

  Past-run : (ops : List Op) (t s : Table) → All IsWord ops → Past t → run t ops ≡ some s → Past s
  unfolding fill_slot relink release free_slot
  Past-run =
      run_keeps Past (λ t j object rights v lo hi free. ground arith) (λ t j p v. ground arith)
        (λ t j v lo hi live fits. ground arith)

  Past-stale : (t : Table) (h : ℕ) → i ≡ h % 256 → h / 256 ≤ g → Past t → resolve t h ≡ none
  Past-stale t h at old past = elim (Option-cases (resolve t h)) [
    | inl out ↦ out
    | inr (j, found) ↦
        let r = resolve-Resolves t h j found in
        absurd (omega (arith, r.current, ap (λ x. (t.slots x).generation) (r.index ∙ sym at)))
  ]

-- After `cap_delete` accepted a handle, no history of operations makes a lookup by that handle
-- succeed again: it is refused as stale for ever, whatever takes the slot.
pub delete_stale :
    (t t' s : Table) (h required : ℕ) (ops : List Op)
    → h < 2 ^ 32
    → delete t h ≡ (t', ok)
    → All IsWord ops
    → run t' ops ≡ some s
    → lookup s h required ≡ (cap_invalid, none)
unfolding delete release free_slot
delete_stale t t' s h required ops small e words done = elim (Option-cases (resolve t h)) [
  | inl out ↦ cc (rw (out, delete) at e)
  | inr (i, found) ↦
      let r = resolve-Resolves t h i found in
      let freed : release t i ≡ t' = ap (λ (x : Table × Status). x.0) (rw (found, delete) at e) in
      let start : h / 256 < (t'.slots i).generation = rw (← freed) (ground (arith, r.current)) in
      lookup_stale s h required (
        Past-stale i (h / 256) s h r.index (omega arith)
          (Past-run i (h / 256) ops t' s words start done))
]
