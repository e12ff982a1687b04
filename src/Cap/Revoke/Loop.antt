-- ===== src/Cap/Revoke/Loop.antt =====
-- `revoke_children` and `cap_revoke` of kernel/core/cap.c on a table without cycles: the recursion
-- ends, and what it frees.
use afriyie_os.Common.{
  ℕ, zero, suc, ◌+◌, ◌%◌, ◌^◌, ◌≤◌, ◌<◌, ◌≡◌, ◌≢◌, refl, ap, subst, inl, inr, Bool, true, false,
  not, ◌&&◌, ◌||◌, Option, some, arith, ltb, ◌==◌, Bool-cases,
}
use afriyie_os.Common.Count.{count, count-lt, count-le}
use afriyie_os.Cap.Table.{Table, pack}
use afriyie_os.Cap.Ops.{free_slot, delete, revoke_loop, revoke_children}
use afriyie_os.Cap.Tree.{
  Child, Under, self, below, Under-trans, Under-rank, Under-first, IsForest, IsFresh,
}
use afriyie_os.Cap.Revoke.Step.{
  IsPruned, live_same, Child-lift, IsForest-kept, IsFresh-kept, IsPruned-start, IsPruned-skip,
  IsPruned-take,
}

-- The slots in use that a chain of derivations from `p` can still reach.
abbrev pub above : Table → (ℕ → ℕ) → ℕ → ℕ → Bool
above t rank p j = (t.slots j).used && ltb (rank p) (rank j)

-- A call on a child has fewer of them.
above-lt :
    {s t : Table} {p i : ℕ} (rank : ℕ → ℕ)
    → IsForest t rank
    → IsPruned s t p i
    → Child s i p
    → count (above s rank i) 256 < count (above t rank p) 256
above-lt {s} {t} {p} {i} rank f v ch =
    count-lt (above s rank i) (above t rank p) i 256 ch.1 (ground arith)
      (ground (arith, f i p (Child-lift v i p ch), (Child-lift v i p ch).2)) step
  where
    step : (j : ℕ) → j < 256 → above s rank i j ≡ true → above t rank p j ≡ true
    step j lt e = elim (Bool-cases (s.slots j).used) [
      | inr dead ↦ cc (rw dead at e)
      | inl live ↦ ground (arith, live_same v j live, f i p (Child-lift v i p ch))
    ]

-- A call that returns, and has removed exactly what lies under the children of `p`.
abbrev pub Prunes : Table → ℕ → Option (Table × ℕ) → Type 0
Prunes t p r = (s : Table) × (n : ℕ) × (r ≡ some (s, n)) × IsPruned s t p 256

module _ (rank : ℕ → ℕ) (t : Table) (p : ℕ) (forest : IsForest t rank) (fresh : IsFresh t)
    (small : p < 256) (go : Table → ℕ → Option (Table × ℕ))
    (goes : (s : Table) (i : ℕ) → IsPruned s t p i → Child s i p → Prunes s i (go s i)) where
  not-Child :
      (s : Table) (i : ℕ)
      → (not (s.slots i).used || not ((s.slots i).parent == p % 2 ^ 16)) ≡ true
      → ¬ Child s i p
  not-Child s i e ch = ground (arith, ch.2, ch.3)

  is_Child :
      (s : Table) (i : ℕ)
      → 1 ≤ i
      → i < 256
      → (not (s.slots i).used || not ((s.slots i).parent == p % 2 ^ 16)) ≡ false
      → Child s i p
  is_Child s i lo hi e = (lo, hi, ground arith, ground arith)

  loop_Prunes :
      (left i n : ℕ) (s : Table)
      → 1 ≤ i
      → i + left ≡ 256
      → IsPruned s t p i
      → Prunes t p (revoke_loop go left i s p n)
  unfolding revoke_loop
  loop_Prunes zero i n s lo e v = (s, n, refl, subst (IsPruned s t p) (omega arith) v)
  loop_Prunes (suc left) i n s lo e v =
      elim (Bool-cases (not (s.slots i).used || not ((s.slots i).parent == p % 2 ^ 16))) [
        | inl skip ↦
            rw (skip, revoke_loop)
              (loop_Prunes left (i + 1) n s (omega arith) (omega arith)
                (IsPruned-skip v (not-Child s i skip)))
        | inr take ↦
            let ch = is_Child s i lo (omega arith) take in
            let (s', m, done, w) = goes s i v ch in
            rw (take, done, revoke_loop)
              (loop_Prunes left (i + 1) (n + m + 1) (delete s' (pack i (s'.slots i).generation)).0
                (omega arith) (omega arith) (IsPruned-take rank forest fresh v ch w))
      ]

-- With room for one call more than a chain below `p` has slots, `revoke_children` returns, with
-- just the slots under the children of `p` freed.
pub revoke_children-Prunes :
    (rank : ℕ → ℕ) (depth : ℕ) (t : Table) (p : ℕ)
    → IsForest t rank
    → IsFresh t
    → p < 256
    → count (above t rank p) 256 < depth
    → Prunes t p (revoke_children depth t p)
unfolding revoke_children
revoke_children-Prunes rank zero t p f g small room = absurd (omega arith)
revoke_children-Prunes rank (suc depth) t p f g small room =
    loop_Prunes rank t p f g small (revoke_children depth)
      (λ s i v ch.
        revoke_children-Prunes rank depth s i (IsForest-kept rank v f) (IsFresh-kept v g) ch.1
          (omega (arith, above-lt rank f v ch)))
      255 1 0 t (omega arith) (omega arith) (IsPruned-start t p)

-- On a table without cycles whose generations fit a handle, 257 nested calls of `revoke_children`
-- suffice. The table that it returns has exactly the slots under slot `p` freed, and every other slot
-- unchanged.
pub revoke_children_exact :
    (rank : ℕ → ℕ) (t : Table) (p : ℕ)
    → IsForest t rank
    → IsFresh t
    → p < 256
    → (s : Table) × (n : ℕ) × (revoke_children 257 t p ≡ some (s, n))
      × ((j : ℕ) → Under t p j → j ≢ p → s.slots j ≡ free_slot (t.slots j))
      × ((j : ℕ) → ¬ (Under t p j × (j ≢ p)) → s.slots j ≡ t.slots j)
revoke_children_exact rank t p f g small =
    let (s, n, done, w) =
      revoke_children-Prunes rank 257 t p f g small
        (omega (arith, count-le (above t rank p) 256)) in
    (s, n, done, gone s w, kept s w)
  where
    gone :
        (s : Table)
        → IsPruned s t p 256
        → (j : ℕ) → Under t p j
        → j ≢ p
        → s.slots j ≡ free_slot (t.slots j)
    gone s w j u ne = elim (Under-first u) [
      | inl e ↦ absurd (ne e)
      | inr (c, first, over) ↦ w.complete j c first.1 first over
    ]

    kept :
        (s : Table)
        → IsPruned s t p 256
        → (j : ℕ) → ¬ (Under t p j × (j ≢ p))
        → s.slots j ≡ t.slots j
    kept s w j out = elim (w.effect j) [
      | inl same ↦ same
      | inr (c, _, first, over, dead) ↦ absurd (
          out (
            Under-trans (below first self) over,
            λ e. omega (arith, f c p first, Under-rank rank f over, ap rank e),
          ))
    ]
