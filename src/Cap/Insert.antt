-- ===== src/Cap/Insert.antt =====
-- `cap_insert` of kernel/core/cap.c: which slot it takes, and when there is none.
use afriyie_os.Common.{
  ℕ, zero, suc, ◌+◌, ◌≤◌, ◌<◌, ◌≡◌, refl, ◌⊎◌, inl, inr, true, false, Option, none, some, arith,
  Bool-cases,
}
use native.Mathlib.Decide.{ℕ_discrete}
use afriyie_os.Cap.Object.{Object, ObjectType, is_type}
use afriyie_os.Cap.Table.{Table, pack}
use afriyie_os.Cap.Ops.{find_free, fill_slot, insert}

-- What the search of `left` slots from `i` on says.
abbrev pub FoundFree : Table → ℕ → ℕ → Option ℕ → Type 0
FoundFree t left i none = (j : ℕ) → i ≤ j → j < i + left → (t.slots j).used ≡ true
FoundFree t left i (some j) =
    (i ≤ j)
    × (j < i + left)
    × ((t.slots j).used ≡ false)
    × ((k : ℕ) → i ≤ k → k < j → (t.slots k).used ≡ true)

-- A slot in use in front of the range makes the range longer.
FoundFree-cons :
    (t : Table) (left i : ℕ) (r : Option ℕ)
    → (t.slots i).used ≡ true
    → FoundFree t left (i + 1) r
    → FoundFree t (suc left) i r
FoundFree-cons t left i none u f =
    λ j lo hi. elim (ℕ_discrete i j) [ yes e ↦ rw e at u | no ne ↦ f j (omega arith) (omega arith) ]
FoundFree-cons t left i (some j) u f = (omega arith, omega arith, f.2, before)
  where
    before : (k : ℕ) → i ≤ k → k < j → (t.slots k).used ≡ true
    before k lo hi = elim (ℕ_discrete i k) [ yes e ↦ rw e at u | no ne ↦ f.3 k (omega arith) hi ]

-- The search returns the first free slot of its range, and fails only if there is none.
pub find_free-FoundFree : (t : Table) (left i : ℕ) → FoundFree t left i (find_free t left i)
unfolding find_free
find_free-FoundFree t zero i = λ j lo hi. absurd (omega arith)
find_free-FoundFree t (suc left) i = elim (Bool-cases (t.slots i).used) [
  | inl u ↦
      rw u
        (FoundFree-cons t left i (find_free t left (i + 1)) u (find_free-FoundFree t left (i + 1)))
  | inr u ↦ rw u (omega arith, omega arith, u, λ k lo hi. absurd (omega arith))
]

-- `cap_insert` refuses the object of no type and the full table, and leaves the table as it was;
-- otherwise it fills a free slot from 1 on and returns its handle.
abbrev pub Inserted : Table → Object → ℕ → Table × ℕ → Type 0
Inserted t object rights r =
    ((r ≡ (t, 0))
      × ((object.type ≡ ObjectType.nothing)
          ⊎ ((j : ℕ) → 1 ≤ j → j < 256 → (t.slots j).used ≡ true)))
    ⊎ ((i : ℕ) × (1 ≤ i)
        × (i < 256)
        × ((t.slots i).used ≡ false)
        × (r ≡ (fill_slot t i object rights, pack i (t.slots i).generation)))

is_type-nothing : (a : ObjectType) → is_type a ObjectType.nothing ≡ true → a ≡ ObjectType.nothing
is_type-nothing ObjectType.nothing e = refl
is_type-nothing _ e = cc

pub insert-Inserted :
    (t : Table) (object : Object) (rights : ℕ) → Inserted t object rights (insert t object rights)
unfolding insert fill_slot
insert-Inserted t object rights = elim (Bool-cases (is_type object.type ObjectType.nothing)) [
  | inl e ↦ inl (rw (e, insert), inl (is_type-nothing object.type e))
  | inr e ↦ go (find_free t 255 1) refl (find_free-FoundFree t 255 1) e
]
  where
    go :
        (r : Option ℕ)
        → find_free t 255 1 ≡ r
        → FoundFree t 255 1 r
        → is_type object.type ObjectType.nothing ≡ false
        → Inserted t object rights (insert t object rights)
    go none q f e = inl (ground arith, inr f)
    go (some i) q f e = inr (i, f.0, f.1, f.2, ground arith)
