-- ===== src/Cap/Revoke/Histories.antt =====
-- Histories of kernel/core/cap.c without `cap_delete`.
use afriyie_os.Common.{
  ℕ, ◌+◌, ◌^◌, ◌≤◌, ◌<◌, ◌≡◌, ◌≢◌, refl, sym, ◌∙◌, ap, subst, inl, inr, Bool, true, some, List, [],
  ◌∷◌, All, length, arith, bit_and, ==_iff, Bool-cases, Option-cases, Status, ok, perm, cap_invalid,
}
use native.Mathlib.Decide.{ℕ_discrete, dec_le}
use afriyie_os.Cap.Object.{Object, right_revoke}
use afriyie_os.Cap.Table.{Table, Slot, resolve, fresh_table}
use afriyie_os.Cap.Ops.{free_slot, insert, derive, revoke}
use afriyie_os.Cap.Handle.{resolve-Resolves}
use afriyie_os.Cap.Insert.{insert-Inserted}
use afriyie_os.Cap.Derive.{HasChild, derive-HasChild}
use afriyie_os.Cap.History.{Op, inserts, derives, deletes, revokes, step, run}
use afriyie_os.Cap.Tree.{Under, below, IsForest}
use afriyie_os.Cap.Revoke.Exact.{revoke_exact}
use afriyie_os.Cap.Revoke.Growth.{IsTree, Adds, Adds-IsTree, fill_slot-Adds}

abbrev pub HasTree : Table → ℕ → Type 0
HasTree t bound = (rank : ℕ → ℕ) × IsTree t rank bound

pub insert-HasTree :
    (t : Table) (object : Object) (rights bound : ℕ)
    → HasTree t bound
    → HasTree (insert t object rights).0 bound
insert-HasTree t object rights bound (rank, v) = elim (insert-Inserted t object rights) [
  | inl (e, _) ↦ rw e (rank, v)
  | inr (k, lo, hi, free, e) ↦
      rw e (_, Adds-IsTree v (fill_slot-Adds t k object rights hi free) (inl refl))
]

HasChild-Adds :
    {t t' : Table} {p k rights c : ℕ}
    → HasChild t t' p k rights c
    → (t.slots k).generation < 2 ^ 24
    → Adds t t' p k
HasChild-Adds w fits = record {
  small = w.below;
  free = w.free;
  others = w.others;
  live = w.live;
  parent = w.parent fits;
  generation = w.generation;
}

pub derive-HasTree :
    (t : Table) (h rights : ℕ) (has_out : Bool) (bound : ℕ)
    → bound < 2 ^ 24
    → HasTree t bound
    → HasTree (derive t h rights has_out).0 bound
derive-HasTree t h rights has_out bound fits (rank, v) =
    elim (derive-HasChild t _ h rights has_out _ _ refl) [
      | inl (same, _, _) ↦ rw same (rank, v)
      | inr (p, k, c, _, _, found, w) ↦ (
        _,
        Adds-IsTree v (HasChild-Adds w (omega (arith, v.young k)))
            (inr (resolve-Resolves t h p found).live),
      )
    ]

-- A revocation removes whole subtrees, so what stays is a tree.
module _ (t s : Table) (rank : ℕ → ℕ) (bound i : ℕ) (fits : bound < 2 ^ 24)
    (v : IsTree t rank bound) (gone : (j : ℕ) → Under t i j → s.slots j ≡ free_slot (t.slots j))
    (kept : (j : ℕ) → ¬ Under t i j → s.slots j ≡ t.slots j) where
  gone_dead : (j : ℕ) → Under t i j → (s.slots j).used ≢ true
  unfolding free_slot
  gone_dead j u live = cc (ap (λ (x : Slot). x.used) (gone j u))

  live_out : (j : ℕ) → (s.slots j).used ≡ true → ¬ Under t i j
  live_out j live u = gone_dead j u live

  live_kept : (j : ℕ) → (s.slots j).used ≡ true → s.slots j ≡ t.slots j
  live_kept j live = kept j (live_out j live)

  was_live : (j : ℕ) → (s.slots j).used ≡ true → (t.slots j).used ≡ true
  was_live j live = ap (λ (x : Slot). x.used) (sym (live_kept j live)) ∙ live

  -- The parent of a slot that stays stays.
  parent_stays :
      (j : ℕ)
      → 1 ≤ j
      → j < 256
      → (s.slots j).used ≡ true
      → (t.slots (t.slots j).parent).used ≡ true
      → (s.slots (t.slots j).parent).used ≡ true
  parent_stays j lo hi live up = elim (Bool-cases (s.slots (t.slots j).parent).used) [
    | inl stays ↦ stays
    | inr dead ↦
        let out : ¬ Under t i (t.slots j).parent =
          λ u. live_out j live (below (lo, hi, was_live j live, refl) u) in
        ap (λ (x : Slot). x.used) (kept _ out) ∙ up
  ]

  pruned_young : (j : ℕ) → (s.slots j).generation ≤ bound + 1
  unfolding free_slot
  pruned_young j = elim (dec_le (s.slots j).generation (bound + 1)) [
    | yes le ↦ le
    | no gt ↦
        let out : ¬ Under t i j =
          λ u. gt (omega (arith, ap (λ (x : Slot). x.generation) (gone j u), v.young j)) in
        omega (arith, ap (λ (x : Slot). x.generation) (kept j out), v.young j)
  ]

  pruned-IsForest : IsForest s rank
  pruned-IsForest j k ch =
      v.forest j k
        (ch.0, ch.1, was_live j ch.2, ap (λ (x : Slot). x.parent) (sym (live_kept j ch.2)) ∙ ch.3)

  pruned-IsTree : IsTree s rank (bound + 1)
  pruned-IsTree = record {
    forest = pruned-IsForest;
    closed = λ j lo hi live.
        let same = ap (λ (x : Slot). x.parent) (live_kept j live) in
        elim (v.closed j lo hi (was_live j live)) [
          | inl q ↦ inl (same ∙ q)
          | inr up ↦
              inr (subst (λ x. (s.slots x).used ≡ true) (sym same) (parent_stays j lo hi live up))
        ];
    young = pruned_young;
  }

IsTree-mono : {t : Table} {rank : ℕ → ℕ} {b c : ℕ} → b ≤ c → IsTree t rank b → IsTree t rank c
IsTree-mono le v = record {
  forest = v.forest;
  closed = v.closed;
  young = λ j. omega (arith, v.young j);
}

revoke-HasTree :
    (t : Table) (h bound : ℕ)
    → bound < 2 ^ 24
    → HasTree t bound
    → (r : Table × Status) × (revoke 257 t h ≡ some r) × HasTree r.0 (bound + 1)
unfolding revoke
revoke-HasTree t h bound fits (rank, v) = elim (Option-cases (resolve t h)) [
  | inl out ↦ ((t, cap_invalid), rw (out, revoke), (rank, IsTree-mono (omega arith) v))
  | inr (i, found) ↦ elim (ℕ_discrete (bit_and (t.slots i).rights right_revoke) 0) [
    | yes zero ↦ (
      (t, perm),
      rw (found, (==_iff (bit_and (t.slots i).rights right_revoke) 0).1 zero, revoke),
      (rank, IsTree-mono (omega arith) v),
    )
    | no right ↦
        let (s, done, gone, kept) =
          revoke_exact rank t h i v.forest (λ j live. omega (arith, v.young j)) found right in
        ((s, ok), done, (rank, pruned-IsTree t s rank bound i fits v gone kept))
  ]
]

-- Any operation but `cap_delete`.
abbrev pub KeepsTree : Op → Type 0
KeepsTree (inserts object rights) = Unit
KeepsTree (derives h rights has_out) = Unit
KeepsTree (deletes h) = ⊥
KeepsTree (revokes h) = Unit

step-HasTree :
    (op : Op) (t : Table) (bound : ℕ)
    → bound < 2 ^ 24
    → KeepsTree op
    → HasTree t bound
    → (s : Table) × (step t op ≡ some s) × HasTree s (bound + 1)
unfolding step
step-HasTree (inserts object rights) t bound fits k v =
    let (rank, w) = insert-HasTree t object rights bound v in
    (_, refl, (rank, IsTree-mono (omega arith) w))
step-HasTree (derives h rights has_out) t bound fits k v =
    let (rank, w) = derive-HasTree t h rights has_out bound fits v in
    (_, refl, (rank, IsTree-mono (omega arith) w))
step-HasTree (deletes h) t bound fits k v = absurd k
step-HasTree (revokes h) t bound fits k v =
    let (r, done, w) = revoke-HasTree t h bound fits v in (r.0, rw (done, step), w)

-- From a table whose derivations are a tree, a history without `cap_delete` runs to its end: no
-- `cap_revoke` in it needs more than 257 nested calls, as long as the generations cannot have
-- outgrown the handles; and the derivations are a tree again.
pub run_returns :
    (ops : List Op) (t : Table) (bound : ℕ)
    → bound + length ops ≤ 2 ^ 24
    → All KeepsTree ops
    → HasTree t bound
    → (s : Table) × (run t ops ≡ some s) × HasTree s (bound + length ops)
unfolding run
run_returns [] t bound fits k v = (t, refl, (v.0, IsTree-mono (omega arith) v.1))
run_returns (op ∷ ops) t bound fits k v =
    let (t', done, v') = step-HasTree op t bound (omega arith) k.0 v in
    let (s, rest, (rank, w)) = run_returns ops t' (bound + 1) (omega arith) k.1 v' in
    (s, rw (done, run) rest, (rank, IsTree-mono (omega arith) w))

-- A new table is one.
pub fresh_table-HasTree : HasTree fresh_table 1
unfolding fresh_table
fresh_table-HasTree = (
  λ j. 0,
  record { forest = λ j k ch. cc (ch.2); closed = λ j lo hi live. cc; young = λ j. omega arith },
)
