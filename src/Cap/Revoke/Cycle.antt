-- ===== src/Cap/Revoke/Cycle.antt =====
-- `revoke_children` of kernel/core/cap.c where the derivations have a cycle. `cap_delete` leaves
-- the derived slots their parent's index, and `cap_derive` may put a grandchild into the freed slot.
use afriyie_os.Common.{
  ℕ, zero, suc, ◌+◌, ◌%◌, ◌^◌, ◌≤◌, ◌<◌, ◌≡◌, ◌≢◌, refl, sym, ◌∙◌, subst, inl, inr, true, not, ◌||◌,
  Option, none, some, arith, ◌==◌, Bool-cases, Option-cases,
}
use afriyie_os.Cap.Table.{Table, pack, resolve}
use afriyie_os.Cap.Ops.{release, delete, revoke_loop, revoke_children}
use afriyie_os.Cap.Handle.{resolve-Resolves, pack_lem}
use afriyie_os.Cap.Tree.{Child}

-- `next` takes every slot of the set to a slot of the set that was derived from it. The set is not
-- empty where such a table is looked at, so it has a cycle.
abbrev pub Cyclic : (ℕ → Type 0) → (ℕ → ℕ) → Table → Type 0
Cyclic C next t = (x : ℕ) → C x → C (next x) × Child t (next x) x

module _ (C : ℕ → Type 0) (next : ℕ → ℕ) where
  -- Deleting a slot outside the set leaves it as it is.
  delete-Cyclic :
      (t : Table) (z g : ℕ)
      → z < 256
      → ¬ C z
      → Cyclic C next t
      → Cyclic C next (delete t (pack z g)).0
  unfolding delete release
  delete-Cyclic t z g small out cyc = elim (Option-cases (resolve t (pack z g))) [
    | inl e ↦ rw (e, delete) cyc
    | inr (i, e) ↦
        rw (e, delete)
          λ x cx.
            let (cy, ch) = cyc x cx in
            let at : i ≡ z =
              omega (arith, (resolve-Resolves t (pack z g) i e).index, pack_lem z g) in
            let ne : next x ≢ i = λ q. out (subst C (q ∙ at) cy) in
            (cy, (ch.0, ch.1, ground (arith, ch.2), ground (arith, ch.3)))
  ]

  -- A call on a member of the set does not return, and any other call keeps the set.
  abbrev Stuck : (Table → ℕ → Option (Table × ℕ)) → Type 0
  Stuck go =
      (t : Table) (x : ℕ)
      → Cyclic C next t
      → (C x → x < 256 → go t x ≡ none) × ((r : Table × ℕ) → go t x ≡ some r → Cyclic C next r.0)

  module _ (go : Table → ℕ → Option (Table × ℕ)) (stuck : Stuck go) where
    -- A round that returns kept the set as it was, and was on no member.
    round_out : (t s : Table) (i m : ℕ) → i < 256 → Cyclic C next t → go t i ≡ some (s, m) → ¬ C i
    round_out t s i m small cyc e c = cc ((stuck t i cyc).0 c small)

    round_Cyclic :
        (t s : Table) (i m : ℕ)
        → i < 256
        → Cyclic C next t
        → go t i ≡ some (s, m)
        → Cyclic C next (delete s (pack i (s.slots i).generation)).0
    round_Cyclic t s i m small cyc e =
        delete-Cyclic s i (s.slots i).generation small (round_out t s i m small cyc e)
          ((stuck t i cyc).1 (s, m) e)

    loop_keeps :
        (left i : ℕ) (t : Table) (p n : ℕ) (r : Table × ℕ)
        → i + left ≤ 256
        → Cyclic C next t
        → revoke_loop go left i t p n ≡ some r
        → Cyclic C next r.0
    unfolding revoke_loop
    loop_keeps zero i t p n r b cyc e =
        subst (λ x. Cyclic C next x) {x = t} {y = r.0} (ground arith) cyc
    loop_keeps (suc left) i t p n r b cyc e =
        elim (Bool-cases (not (t.slots i).used || not ((t.slots i).parent == p % 2 ^ 16))) [
          | inl skip ↦
              loop_keeps left (i + 1) t p n r (omega arith) cyc (rw (skip, revoke_loop) at e)
          | inr take ↦ elim (Option-cases (go t i)) [
            | inl deep ↦ cc (rw (take, deep, revoke_loop) at e)
            | inr ((s, m), into) ↦
                loop_keeps left (i + 1) (delete s (pack i (s.slots i).generation)).0 p (n + m + 1) r
                  (omega arith) (round_Cyclic t s i m (omega arith) cyc into)
                  (rw (take, into, revoke_loop) at e)
          ]
        ]

    -- The loop over the children of a member comes to a member before its end.
    loop_stuck :
        (left i : ℕ) (t : Table) (p n : ℕ)
        → i + left ≤ 256
        → p < 256
        → Cyclic C next t
        → C p
        → i ≤ next p
        → next p < i + left
        → revoke_loop go left i t p n ≡ none
    unfolding revoke_loop
    loop_stuck zero i t p n b small cyc cp lo hi = absurd (omega arith)
    loop_stuck (suc left) i t p n b small cyc cp lo hi =
        elim (Bool-cases (not (t.slots i).used || not ((t.slots i).parent == p % 2 ^ 16))) [
          | inl skip ↦
              rw (skip, revoke_loop)
                (loop_stuck left (i + 1) t p n (omega arith) small cyc cp
                  (later λ e. passed skip (subst (λ x. Child t x p) (sym e) (cyc p cp).1))
                  (omega arith))
          | inr take ↦ elim (Option-cases (go t i)) [
            | inl deep ↦ rw (take, deep, revoke_loop)
            | inr ((s, m), into) ↦
                rw (take, into, revoke_loop)
                  (loop_stuck left (i + 1) (delete s (pack i (s.slots i).generation)).0 p
                    (n + m + 1) (omega arith) small (round_Cyclic t s i m (omega arith) cyc into) cp
                    (later
                      λ e. round_out t s i m (omega arith) cyc into (subst C (sym e) (cyc p cp).0))
                    (omega arith))
          ]
        ]
      where
        later : i ≢ next p → i + 1 ≤ next p
        later ne = omega arith

        passed :
            (not (t.slots i).used || not ((t.slots i).parent == p % 2 ^ 16)) ≡ true → ¬ Child t i p
        passed skip ch = ground (arith, ch.2, ch.3)

  revoke_children-Stuck : (depth : ℕ) → Stuck (revoke_children depth)
  unfolding revoke_children
  revoke_children-Stuck zero t x cyc = (λ c lt. refl, λ r e. cc)
  revoke_children-Stuck (suc depth) t x cyc = (
    (λ c lt.
        loop_stuck (revoke_children depth) (revoke_children-Stuck depth) 255 1 t x 0 (omega arith)
          lt cyc c (cyc x c).1.0 (cyc x c).1.1),
    (λ r e.
        loop_keeps (revoke_children depth) (revoke_children-Stuck depth) 255 1 t x 0 r (omega arith)
          cyc e),
  )

  -- Where the derivations run in a cycle, `revoke_children` on a slot of it recurses without end:
  -- no depth of calls is enough.
  pub revoke_children_endless :
      (t : Table) (p : ℕ)
      → Cyclic C next t
      → C p
      → p < 256
      → (depth : ℕ) → revoke_children depth t p ≡ none
  revoke_children_endless t p cyc cp small depth = (revoke_children-Stuck depth t p cyc).0 cp small
