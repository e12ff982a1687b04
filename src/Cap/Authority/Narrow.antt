-- ===== src/Cap/Authority/Narrow.antt =====
-- Rule 1 of kernel/include/afriyie/cap.h, over `cap_derive` and histories of kernel/core/cap.c.
use afriyie_os.Common.{
  ℕ, ◌≡◌, ◌≢◌, refl, sym, ◌∙◌, ap, subst, inl, inr, Bool, some, List, [], ◌∷◌, All, arith, bit_and,
  Option-cases, ok,
}
use native.Mathlib.Decide.{ℕ_discrete}
use afriyie_os.Common.Bits.{bit_and_comm, bit_and_subset_trans}
use afriyie_os.Cap.Object.{Object}
use afriyie_os.Cap.Table.{Table, Slot, resolve}
use afriyie_os.Cap.Ops.{free_slot, lookup, derive, release, delete, revoke}
use afriyie_os.Cap.Handle.{Resolves, resolve-Resolves, pack_lem}
use afriyie_os.Cap.History.{
  Op, inserts, derives, deletes, revokes, IsWord, step, run, delete_keeps, revoke_keeps,
}
use afriyie_os.Cap.Revoke.Exact.{resolve-same}
use afriyie_os.Cap.Derive.{HasChild, derive-HasChild}
use afriyie_os.Cap.Authority.Lookup.{lookup-ok_iff}

-- Every handle of `s` is one of `t`, to the same slot.
abbrev Within : Table → Table → Type 0
Within t s = (h i : ℕ) → resolve s h ≡ some i → (resolve t h ≡ some i) × (s.slots i ≡ t.slots i)

Within-release : (t s : Table) (i : ℕ) → Within t s → Within t (release s i)
unfolding release free_slot
Within-release t s i v h j found = (before.0, same ∙ before.1)
  where
    r : Resolves (release s i) h j
    r = resolve-Resolves (release s i) h j found

    same : (release s i).slots j ≡ s.slots j
    same = elim (ℕ_discrete j i) [ yes e ↦ ground (arith, r.live) | no ne ↦ ground arith ]

    before : (resolve t h ≡ some j) × (s.slots j ≡ t.slots j)
    before = v h j (resolve-same s (release s i) h j found (sym same))

-- What a table gives access to, by some handle.
abbrev pub Reaches : Table → Object → ℕ → Type 0
Reaches t o required = (h : ℕ) × (lookup t h required ≡ (ok, some o))

Within-Reaches :
    (t s : Table) (o : Object) (required : ℕ)
    → Within t s
    → Reaches s o required
    → Reaches t o required
Within-Reaches t s o required v (h, e) =
    let (i, found, given, object) = (lookup-ok_iff s h required o).0 e in
    let (found', same) = v h i found in
    (
      h,
      (lookup-ok_iff t h required o).1 (
        i,
        found',
        subst (λ (x : Slot). bit_and x.rights required ≡ required) same given,
        sym (ap (λ (x : Slot). x.object) same) ∙ object,
      ),
    )

module _ (t t' : Table) (p k h rights c : ℕ) (found : resolve t h ≡ some p)
    (v : HasChild t t' p k rights c) where
  -- Another slot than the child's resolves as it did.
  other_Reaches : (h' i : ℕ) → i ≢ k → resolve t' h' ≡ some i → resolve t h' ≡ some i
  other_Reaches h' i ne e = resolve-same t t' h' i e (sym (v.others i ne))

  -- The child's slot gives no more than the parent's handle does.
  child_narrows :
      (o : Object) (required : ℕ)
      → bit_and (t'.slots k).rights required ≡ required
      → (t'.slots k).object ≡ o
      → lookup t h required ≡ (ok, some o)
  child_narrows o required given object = (lookup-ok_iff t h required o).1 (
    p,
    found,
    bit_and_comm (t.slots p).rights required
        ∙ bit_and_subset_trans required rights (t.slots p).rights
            (bit_and_comm required rights ∙ subst (λ x. bit_and x required ≡ required) v.held given)
            v.narrow,
    sym v.object ∙ object,
  )

  HasChild-Reaches : (o : Object) (required : ℕ) → Reaches t' o required → Reaches t o required
  HasChild-Reaches o required (h', e) =
      let (i, into, given, object) = (lookup-ok_iff t' h' required o).0 e in
      elim (ℕ_discrete i k) [
        | yes q ↦ (
          h,
          child_narrows o required
              (subst (λ x. bit_and (t'.slots x).rights required ≡ required) q given)
              (subst (λ x. (t'.slots x).object ≡ o) q object),
        )
        | no ne ↦ (
          h',
          (lookup-ok_iff t h' required o).1 (
            i,
            other_Reaches h' i ne into,
            subst (λ (x : Slot). bit_and x.rights required ≡ required) (v.others i ne) given,
            ap (λ (x : Slot). x.object) (sym (v.others i ne)) ∙ object,
          ),
        )
      ]

  derived_lookup :
      (required : ℕ) (o : Object)
      → lookup t' c required ≡ (ok, some o)
      → (bit_and rights required ≡ required) × (lookup t h required ≡ (ok, some o))
  derived_lookup required o e =
      let (i, into, given, object) = (lookup-ok_iff t' c required o).0 e in
      let q : i ≡ k = omega (
        arith,
        (resolve-Resolves t' c i into).index,
        v.handle,
        v.below,
        pack_lem k (t.slots k).generation,
      ) in
      let given' = subst (λ x. bit_and (t'.slots x).rights required ≡ required) q given in
      (
        subst (λ x. bit_and x required ≡ required) v.held given',
        child_narrows o required given' (subst (λ x. (t'.slots x).object ≡ o) q object),
      )

-- What the handle made by `cap_derive` gives access to was among the rights asked for, and the
-- handle that it was derived from gave access to the same object with the same rights.
pub derive_narrows :
    (t t' : Table) (h rights c required : ℕ) (has_out : Bool) (o : Object)
    → derive t h rights has_out ≡ (t', ok, some c)
    → lookup t' c required ≡ (ok, some o)
    → (bit_and rights required ≡ required) × (lookup t h required ≡ (ok, some o))
derive_narrows t t' h rights c required has_out o e seen =
    elim (derive-HasChild t t' h rights has_out ok (some c) e) [
      | inl (_, failed, _) ↦ absurd (failed refl)
      | inr (p, k, c', _, same, found, v) ↦
          derived_lookup t t' p k h rights c' found v required o
            (subst (λ x. lookup t' x required ≡ (ok, some o)) (cc) seen)
    ]

-- Any operation but `cap_insert`.
abbrev pub IsNarrow : Op → Type 0
IsNarrow (inserts object rights) = ⊥
IsNarrow (derives h rights has_out) = Unit
IsNarrow (deletes h) = Unit
IsNarrow (revokes h) = Unit

step_narrows :
    (op : Op) (t s : Table) (o : Object) (required : ℕ)
    → IsNarrow op
    → IsWord op
    → step t op ≡ some s
    → Reaches s o required
    → Reaches t o required
unfolding step
step_narrows (inserts object rights) t s o required n w e = absurd n
step_narrows (derives h rights has_out) t s o required n w e =
    elim (derive-HasChild t (derive t h rights has_out).0 h rights has_out
      (derive t h rights has_out).1 (derive t h rights has_out).2 refl) [
        | inl (same, _, _) ↦
            subst (λ x. Reaches x o required → Reaches t o required) {x = t} {y = s}
              (ground (arith, same)) (λ x. x)
        | inr (p, k, c, _, _, found, v) ↦
            subst (λ x. Reaches x o required → Reaches t o required) {y = s} (ground arith)
              (HasChild-Reaches t _ p k h rights c found v o required)
      ]
step_narrows (deletes h) t s o required n w e = Within-Reaches t s o required (
    subst (Within t) {x = (delete t h).0} {y = s} (ground arith) (
      delete_keeps (Within t) (λ x i v lo hi live fits. Within-release t x i v) t h w
        (λ h' i q. (q, refl))))
step_narrows (revokes h) t s o required n w e = elim (Option-cases (revoke 257 t h)) [
  | inl out ↦ cc (rw (out, step) at e)
  | inr (r, done) ↦ Within-Reaches t s o required (
      subst (Within t) {x = r.0} {y = s} (ground arith) (
        revoke_keeps (Within t) (λ x i v lo hi live fits. Within-release t x i v) t h r w
          (λ h' i q. (q, refl)) done))
]

-- Rule 1 over whole histories: whatever is derived, deleted and revoked, a table gives access
-- to an object with certain rights only if it did so at the start. Only `cap_insert` adds any.
pub run_narrows :
    (ops : List Op) (t s : Table) (o : Object) (required : ℕ)
    → All IsNarrow ops
    → All IsWord ops
    → run t ops ≡ some s
    → Reaches s o required
    → Reaches t o required
unfolding run
run_narrows [] t s o required n w e v =
    subst (λ x. Reaches x o required) {x = s} {y = t} (ground arith) v
run_narrows (op ∷ ops) t s o required n w e v = elim (Option-cases (step t op)) [
  | inl out ↦ cc (rw (out, run) at e)
  | inr (t', done) ↦
      step_narrows op t t' o required n.0 w.0 done
        (run_narrows ops t' s o required n.1 w.1 (rw (done, run) at e) v)
]
