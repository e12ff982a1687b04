-- ===== src/Cap/Revoke/Growth.antt =====
-- What new capabilities of kernel/core/cap.c do to the tree of the recorded parents.
use afriyie_os.Common.{
  ℕ, ◌+◌, ◌≤◌, ◌<◌, ◌≡◌, ◌≢◌, sym, ◌∙◌, ap, subst, ◌⊎◌, inl, inr, true, false, arith, update,
}
use native.Mathlib.Decide.{ℕ_discrete}
use afriyie_os.Cap.Object.{Object}
use afriyie_os.Cap.Table.{Table, Slot, no_parent}
use afriyie_os.Cap.Ops.{fill_slot}
use afriyie_os.Cap.Tree.{IsForest}

-- The derivations have no cycle, the parent of a slot in use is in use, and the generations have
-- reached `bound` at most.
pub record IsTree (t : Table) (rank : ℕ → ℕ) (bound : ℕ) : Type 0 where
  pub forest : IsForest t rank
  pub closed :
      (j : ℕ)
      → 1 ≤ j
      → j < 256
      → (t.slots j).used ≡ true
      → ((t.slots j).parent ≡ no_parent) ⊎ ((t.slots (t.slots j).parent).used ≡ true)
  pub young : (j : ℕ) → (t.slots j).generation ≤ bound

-- Slot `k` was free, and is now in use with parent `p`.
pub record Adds (t t' : Table) (p k : ℕ) : Type 0 where
  pub small : k < 256
  pub free : (t.slots k).used ≡ false
  pub others : (j : ℕ) → j ≢ k → t'.slots j ≡ t.slots j
  pub live : (t'.slots k).used ≡ true
  pub parent : (t'.slots k).parent ≡ p
  pub generation : (t'.slots k).generation ≡ (t.slots k).generation

module _ {t t' : Table} {rank : ℕ → ℕ} {bound p k : ℕ} (v : IsTree t rank bound) (a : Adds t t' p k)
    (root : (p ≡ no_parent) ⊎ ((t.slots p).used ≡ true)) where
  -- The slot that was free is no parent.
  not_parent : (j : ℕ) → 1 ≤ j → j < 256 → (t.slots j).used ≡ true → (t.slots j).parent ≢ k
  not_parent j lo hi live e = elim (v.closed j lo hi live) [
    | inl q ↦ omega (arith, a.small)
    | inr u ↦ cc (a.free, subst (λ x. (t.slots x).used ≡ true) e u)
  ]

  old_live : (j : ℕ) → j ≢ k → (t'.slots j).used ≡ true → (t.slots j).used ≡ true
  old_live j ne live = ap (λ (x : Slot). x.used) (sym (a.others j ne)) ∙ live

  p-ne : p ≢ k
  p-ne e = elim root [
    | inl q ↦ omega (arith, a.small)
    | inr u ↦ cc (a.free, subst (λ x. (t.slots x).used ≡ true) e u)
  ]

  abbrev pub rank' : ℕ → ℕ
  rank' = update rank k (rank p + 1)

  Adds-IsForest : IsForest t' rank'
  Adds-IsForest j q ch = elim (ℕ_discrete j k) [
    | yes e ↦
        let at : q ≡ p = sym ch.3 ∙ ap (λ x. (t'.slots x).parent) e ∙ a.parent in
        ground (arith, e, at, p-ne)
    | no ne ↦
        let live = old_live j ne ch.2 in
        let at : (t.slots j).parent ≡ q =
          ap (λ (x : Slot). x.parent) (sym (a.others j ne)) ∙ ch.3 in
        let other : q ≢ k = λ e. not_parent j ch.0 ch.1 live (at ∙ e) in
        ground (arith, v.forest j q (ch.0, ch.1, live, at))
  ]

  kept_live : (j : ℕ) → (t.slots j).used ≡ true → (t'.slots j).used ≡ true
  kept_live j live = elim (ℕ_discrete j k) [ yes e ↦ rw e a.live | no ne ↦ rw (a.others j ne) live ]

  Adds-closed :
      (j : ℕ)
      → 1 ≤ j
      → j < 256
      → (t'.slots j).used ≡ true
      → ((t'.slots j).parent ≡ no_parent) ⊎ ((t'.slots (t'.slots j).parent).used ≡ true)
  Adds-closed j lo hi live = elim (ℕ_discrete j k) [
    | yes e ↦ elim root [
      | inl q ↦ inl (ap (λ x. (t'.slots x).parent) e ∙ a.parent ∙ q)
      | inr u ↦ inr (
          subst (λ x. (t'.slots x).used ≡ true) (sym (ap (λ x. (t'.slots x).parent) e ∙ a.parent))
            (kept_live p u))
    ]
    | no ne ↦
        let same = ap (λ (x : Slot). x.parent) (a.others j ne) in
        elim (v.closed j lo hi (old_live j ne live)) [
          | inl q ↦ inl (same ∙ q)
          | inr u ↦ inr (subst (λ x. (t'.slots x).used ≡ true) (sym same) (kept_live _ u))
        ]
  ]

  pub Adds-IsTree : IsTree t' rank' bound
  Adds-IsTree = record {
    forest = Adds-IsForest;
    closed = Adds-closed;
    young = λ j. elim (ℕ_discrete j k) [
      | yes e ↦ rw (e, a.generation) (v.young k)
      | no ne ↦ rw (a.others j ne) (v.young j)
    ];
  }

pub fill_slot-Adds :
    (t : Table) (k : ℕ) (object : Object) (rights : ℕ)
    → k < 256
    → (t.slots k).used ≡ false
    → Adds t (fill_slot t k object rights) no_parent k
unfolding fill_slot
fill_slot-Adds t k object rights small free = record {
  small = small;
  free = free;
  others = λ j ne. ground arith;
  live = ground arith;
  parent = ground arith;
  generation = ground arith;
}
