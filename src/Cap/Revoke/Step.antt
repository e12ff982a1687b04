-- ===== src/Cap/Revoke/Step.antt =====
-- The state of the loop of `revoke_children` between two slots, and how a round changes it.
use afriyie_os.Common.{
  ℕ, ◌+◌, ◌<◌, ◌≡◌, ◌≢◌, refl, sym, ◌∙◌, ap, subst, ◌⊎◌, inl, inr, true, false, arith,
}
use native.Mathlib.Decide.{ℕ_discrete}
use afriyie_os.Cap.Table.{Table, Slot, pack}
use afriyie_os.Cap.Ops.{free_slot, release, delete}
use afriyie_os.Cap.Handle.{resolve-pack}
use afriyie_os.Cap.Tree.{
  Child, Under, self, below, IsForest, IsFresh, Under-trans, Under-rank, Under-first, Under-live,
}

-- Of table `t` the loop has made `s`: freed is what lies under the children of `p` below `i`, and
-- nothing else has changed.
pub record IsPruned (s t : Table) (p i : ℕ) : Type 0 where
  pub effect :
      (j : ℕ)
      → (s.slots j ≡ t.slots j)
        ⊎ ((c : ℕ) × (c < i) × Child t c p × Under t c j × (s.slots j ≡ free_slot (t.slots j)))
  pub complete : (j c : ℕ) → c < i → Child t c p → Under t c j → s.slots j ≡ free_slot (t.slots j)

free-dead : (s t : Table) (j : ℕ) → s.slots j ≡ free_slot (t.slots j) → (s.slots j).used ≡ false
unfolding free_slot
free-dead s t j e = ap (λ (x : Slot). x.used) e

-- What is in use was so before.
pub live_same :
    {s t : Table} {p i : ℕ}
    → IsPruned s t p i
    → (j : ℕ) → (s.slots j).used ≡ true
    → s.slots j ≡ t.slots j
live_same {s} {t} v j live = elim (v.effect j) [
  | inl same ↦ same
  | inr (c, _, _, _, freed) ↦ cc (free-dead s t j freed)
]

pub Child-lift : {s t : Table} {p i : ℕ} → IsPruned s t p i → (j k : ℕ) → Child s j k → Child t j k
Child-lift v j k ch =
    let e = live_same v j ch.2 in
    (
      ch.0,
      ch.1,
      ap (λ (x : Slot). x.used) (sym e) ∙ ch.2,
      ap (λ (x : Slot). x.parent) (sym e) ∙ ch.3,
    )

Under-lift : {s t : Table} {p i : ℕ} → IsPruned s t p i → {c j : ℕ} → Under s c j → Under t c j
Under-lift v self = self
Under-lift v (below {j} {k} ch u) = below (Child-lift v j k ch) (Under-lift v u)

-- A slot under `i` is still under it, unless the loop has met it under an earlier child.
still-Under :
    {s t : Table} {p i : ℕ}
    → IsPruned s t p i
    → {j : ℕ} → Under t i j
    → ((c : ℕ) × (c < i) × Child t c p × Under t c j) ⊎ Under s i j
still-Under v self = inr self
still-Under {s} {t} v (below {j} {k} ch u) = elim (still-Under v u) [
  | inl (c, lt, first, rest) ↦ inl (c, lt, first, below ch rest)
  | inr u' ↦ elim (v.effect j) [
    | inl same ↦ inr (below (kept same) u')
    | inr (c, lt, first, rest, _) ↦ inl (c, lt, first, rest)
  ]
]
  where
    kept : s.slots j ≡ t.slots j → Child s j k
    kept same =
        (ch.0, ch.1, ap (λ (x : Slot). x.used) same ∙ ch.2, ap (λ (x : Slot). x.parent) same ∙ ch.3)

-- What has the measure of `t` has it in `s`.
pub IsForest-kept :
    {s t : Table} {p i : ℕ} (rank : ℕ → ℕ) → IsPruned s t p i → IsForest t rank → IsForest s rank
IsForest-kept rank v f j k ch = f j k (Child-lift v j k ch)

pub IsFresh-kept : {s t : Table} {p i : ℕ} → IsPruned s t p i → IsFresh t → IsFresh s
IsFresh-kept v f j live =
    let e = live_same v j live in rw e (f j (ap (λ (x : Slot). x.used) (sym e) ∙ live))

-- The start.
pub IsPruned-start : (t : Table) (p : ℕ) → IsPruned t t p 1
IsPruned-start t p = record {
  effect = λ j. inl refl;
  complete = λ j c lt ch u. absurd (omega (arith, ch.0));
}

-- A slot that is no child of `p` is passed over.
pub IsPruned-skip :
    {s t : Table} {p i : ℕ} → IsPruned s t p i → ¬ Child s i p → IsPruned s t p (i + 1)
IsPruned-skip {s} {t} {p} {i} v other = record {
  effect = λ j. elim (v.effect j) [
    | inl same ↦ inl same
    | inr (c, lt, ch, u, freed) ↦ inr (c, omega arith, ch, u, freed)
  ];
  complete = λ j c lt ch u. elim (ℕ_discrete c i) [
    | no ne ↦ v.complete j c (omega arith) ch u
    | yes e ↦ met j (subst (λ x. Child t x p) e ch) (subst (λ x. Under t x j) e u)
  ];
}
  where
    met : (j : ℕ) → Child t i p → Under t i j → s.slots j ≡ free_slot (t.slots j)
    met j ch u = elim (v.effect i) [
      | inl same ↦ absurd (
          other (
            ch.0,
            ch.1,
            ap (λ (x : Slot). x.used) same ∙ ch.2,
            ap (λ (x : Slot). x.parent) same ∙ ch.3,
          ))
      | inr (c, lt, first, over, _) ↦ v.complete j c lt first (Under-trans over u)
    ]

-- Nothing is derived from itself, so the recursive call leaves its own slot alone.
pub root_kept :
    {s' s : Table} {i : ℕ} (rank : ℕ → ℕ)
    → IsForest s rank
    → IsPruned s' s i 256
    → s'.slots i ≡ s.slots i
root_kept {i = i} rank f w = elim (w.effect i) [
  | inl same ↦ same
  | inr (c, _, first, over, _) ↦ absurd (omega (arith, f c i first, Under-rank rank f over))
]

-- After the recursive call on a child `i` the loop frees the child itself.
module _ {s' s t : Table} {p i : ℕ} (rank : ℕ → ℕ) (forest : IsForest t rank) (fresh : IsFresh t)
    (v : IsPruned s t p i) (ch : Child s i p) (w : IsPruned s' s i 256) where
  at_root : s'.slots i ≡ s.slots i
  at_root = root_kept rank (IsForest-kept rank v forest) w

  freed_child : (delete s' (pack i (s'.slots i).generation)).0 ≡ release s' i
  unfolding delete
  freed_child = rw (
    resolve-pack s' i ch.0 ch.1 (ap (λ (x : Slot). x.used) at_root ∙ ch.2)
        (rw at_root (IsFresh-kept v fresh i ch.2)),
    delete,
  )

  root_freed : (release s' i).slots i ≡ free_slot (t.slots i)
  unfolding release
  root_freed = ground (arith, at_root, live_same v i ch.2)

  others_kept : (j : ℕ) → j ≢ i → (release s' i).slots j ≡ s'.slots j
  unfolding release
  others_kept j ne = ground arith

  dead_kept : (j : ℕ) → s.slots j ≡ free_slot (t.slots j) → s'.slots j ≡ free_slot (t.slots j)
  dead_kept j dead = elim (w.effect j) [
    | inl same ↦ same ∙ dead
    | inr (c, _, first, over, _) ↦ cc (free-dead s t j dead, Under-live first.2 over)
  ]

  -- What the recursive call freed lies under the child.
  effect_taken :
      (j : ℕ)
      → j ≢ i
      → (s'.slots j ≡ t.slots j)
        ⊎ ((c : ℕ) × (c < i + 1) × Child t c p × Under t c j × (s'.slots j ≡ free_slot (t.slots j)))
  effect_taken j ne = elim (w.effect j) [
    | inl same ↦ elim (v.effect j) [
      | inl old ↦ inl (same ∙ old)
      | inr (c, lt, first, over, dead) ↦ inr (c, omega arith, first, over, same ∙ dead)
    ]
    | inr (c, _, first, over, dead) ↦ inr (
      i,
      omega arith,
      Child-lift v i p ch,
      Under-trans (below (Child-lift v c i first) self) (Under-lift v over),
      dead ∙ ap free_slot (live_same v j (Under-live first.2 over)),
    )
  ]

  -- All that lies under the child is free after the call.
  complete_taken : (j : ℕ) → j ≢ i → Under t i j → s'.slots j ≡ free_slot (t.slots j)
  complete_taken j ne u = elim (still-Under v u) [
    | inl (c, lt, first, over) ↦ dead_kept j (v.complete j c lt first over)
    | inr u' ↦ elim (Under-first u') [
      | inl e ↦ absurd (ne e)
      | inr (c, first, over) ↦
          w.complete j c first.1 first over ∙ ap free_slot (live_same v j (Under-live first.2 over))
    ]
  ]

  pub IsPruned-take : IsPruned (delete s' (pack i (s'.slots i).generation)).0 t p (i + 1)
  IsPruned-take = rw freed_child (record {
    effect = λ j. elim (ℕ_discrete j i) [
      | yes e ↦ inr (
        i,
        omega arith,
        Child-lift v i p ch,
        subst (λ x. Under t i x) (sym e) self,
        rw e root_freed,
      )
      | no ne ↦ rw (others_kept j ne) (effect_taken j ne)
    ];
    complete = λ j c lt first over. elim (ℕ_discrete j i) [
      | yes e ↦ rw e root_freed
      | no ne ↦ others_kept j ne ∙ (elim (ℕ_discrete c i) [
        | yes e ↦ complete_taken j ne (subst (λ x. Under t x j) e over)
        | no old ↦ dead_kept j (v.complete j c (omega arith) first over)
      ])
    ];
  })
