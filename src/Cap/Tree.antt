-- ===== src/Cap/Tree.antt =====
-- The parents that `cap_derive` of kernel/core/cap.c records, as a tree over the slots. A parent is the
-- index of a slot, which may hold another capability by now.
use afriyie_os.Common.{ℕ, ◌≤◌, ◌<◌, ◌^◌, ◌≡◌, ◌∙◌, refl, ◌⊎◌, inl, inr, true, arith}
use afriyie_os.Cap.Table.{Table}

-- Slot `j` is in use and names slot `k` as its parent.
abbrev pub Child : Table → ℕ → ℕ → Type 0
Child t j k = (1 ≤ j) × (j < 256) × ((t.slots j).used ≡ true) × ((t.slots j).parent ≡ k)

-- Slot `j` is slot `c`, or the parents lead from it to `c` in some number of steps.
pub data Under (t : Table) (c : ℕ) : ℕ → Type 0 where
  self : Under t c c
  below : {j k : ℕ} → Child t j k → Under t c k → Under t c j

-- The parents have no cycle: some measure grows from a parent to each slot that names it.
abbrev pub IsForest : Table → (ℕ → ℕ) → Type 0
IsForest t rank = (j k : ℕ) → Child t j k → rank k < rank j

-- The generation of every slot in use fits the bits that a handle has for it.
abbrev pub IsFresh : Table → Type 0
IsFresh t = (j : ℕ) → (t.slots j).used ≡ true → (t.slots j).generation < 2 ^ 24

pub Under-trans : {t : Table} {b c j : ℕ} → Under t b c → Under t c j → Under t b j
Under-trans u self = u
Under-trans u (below ch v) = below ch (Under-trans u v)

pub Under-rank :
    {t : Table} (rank : ℕ → ℕ) {c j : ℕ} → IsForest t rank → Under t c j → rank c ≤ rank j
Under-rank rank f self = omega arith
Under-rank rank f (below {j} {k} ch u) = omega (arith, f j k ch, Under-rank rank f u)

-- The first step down, of more than none.
pub Under-first :
    {t : Table} {c j : ℕ} → Under t c j → (j ≡ c) ⊎ ((b : ℕ) × Child t b c × Under t b j)
Under-first self = inl refl
Under-first (below {j} {k} ch u) = elim (Under-first u) [
  | inl e ↦ inr (j, (ch.0, ch.1, ch.2, ch.3 ∙ e), self)
  | inr (b, first, rest) ↦ inr (b, first, below ch rest)
]

-- What lies under a slot in use is in use.
pub Under-live :
    {t : Table} {c j : ℕ} → (t.slots c).used ≡ true → Under t c j → (t.slots j).used ≡ true
Under-live live self = live
Under-live live (below ch u) = ch.2
