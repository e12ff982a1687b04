-- ===== src/Cap/Derive.antt =====
-- What `cap_derive` of kernel/core/cap.c leaves in the table.
use afriyie_os.Common.{
  ℕ, ◌%◌, ◌^◌, ◌≤◌, ◌<◌, ◌≡◌, ◌≢◌, refl, ap, subst, ◌⊎◌, inl, inr, Bool, true, false, Option, none,
  some, arith, bit_and, Option-cases, Status, ok,
}
use afriyie_os.Cap.Table.{Table, resolve, pack, unpack_index}
use afriyie_os.Cap.Ops.{fill_slot, relink, link_child, derive}
use afriyie_os.Cap.Handle.{resolve-Resolves, resolve-pack, pack_lem, unpack_index_lem}
use afriyie_os.Cap.Insert.{insert-Inserted}
use afriyie_os.Cap.Cases.{derive-Derived}

-- Slot `k` was free and has the capability derived from slot `p`; all else is as it was.
pub record HasChild (t t' : Table) (p k rights child : ℕ) : Type 0 where
  pub above : 1 ≤ k
  pub below : k < 256
  pub free : (t.slots k).used ≡ false
  pub narrow : bit_and rights (t.slots p).rights ≡ rights
  pub handle : child ≡ pack k (t.slots k).generation
  pub others : (j : ℕ) → j ≢ k → t'.slots j ≡ t.slots j
  pub object : (t'.slots k).object ≡ (t.slots p).object
  pub held : (t'.slots k).rights ≡ rights
  pub generation : (t'.slots k).generation ≡ (t.slots k).generation
  pub live : (t'.slots k).used ≡ true
  pub parent : (t.slots k).generation < 2 ^ 24 → (t'.slots k).parent ≡ p

-- The child's handle can only resolve to the slot that was filled.
module _ (t : Table) (p k h rights : ℕ) (lo : 1 ≤ k) (hi : k < 256)
    (free : (t.slots k).used ≡ false) (narrow : bit_and rights (t.slots p).rights ≡ rights)
    (found : resolve t h ≡ some p) where
  abbrev filled : Table
  filled = fill_slot t k (t.slots p).object rights

  filled_live : (filled.slots k).used ≡ true
  unfolding fill_slot
  filled_live = ground arith

  filled_generation : (filled.slots k).generation ≡ (t.slots k).generation
  unfolding fill_slot
  filled_generation = ground arith

  -- If the generation fits a handle, the child's handle resolves.
  child_resolves :
      (t.slots k).generation < 2 ^ 24 → resolve filled (pack k (t.slots k).generation) ≡ some k
  child_resolves fits =
      subst (λ g. resolve filled (pack k g) ≡ some k) filled_generation
        (resolve-pack filled k lo hi filled_live (rw filled_generation fits))

  linked_HasChild :
      HasChild t
        (link_child filled (pack k (t.slots k).generation) h)
        p
        k
        rights
        (pack k (t.slots k).generation)
  unfolding fill_slot link_child relink
  linked_HasChild = elim (Option-cases (resolve filled (pack k (t.slots k).generation))) [
    | inl out ↦
        rw (out, link_child)
          (record {
            above = lo;
            below = hi;
            free = free;
            narrow = narrow;
            handle = refl;
            others = λ j ne. ground arith;
            object = ground arith;
            held = ground arith;
            generation = ground arith;
            live = ground arith;
            parent = λ fits. cc (child_resolves fits, out);
          })
    | inr (c, into) ↦
        let at : c ≡ k =
          omega (arith, (resolve-Resolves _ _ c into).index, pack_lem k (t.slots k).generation) in
        let index : unpack_index h % 2 ^ 16 ≡ p =
          omega (arith, unpack_index_lem h, (resolve-Resolves t h p found).index) in
        rw (into, link_child)
          (record {
            above = lo;
            below = hi;
            free = free;
            narrow = narrow;
            handle = refl;
            others = λ j ne. ground (arith, at);
            object = ground (arith, at);
            held = ground (arith, at);
            generation = ground (arith, at);
            live = ground (arith, at);
            parent = λ fits. ground (arith, at, index);
          })
  ]

-- A successful `cap_derive` has put its child into a free slot; a failed one changed nothing.
pub derive-HasChild :
    (t t' : Table) (h rights : ℕ) (has_out : Bool) (status : Status) (out : Option ℕ)
    → derive t h rights has_out ≡ (t', status, out)
    → ((t' ≡ t) × (status ≢ ok) × (out ≡ none))
      ⊎ ((p : ℕ) × (k : ℕ) × (c : ℕ) × (status ≡ ok)
          × (out ≡ some c)
          × (resolve t h ≡ some p)
          × HasChild t t' p k rights c)
derive-HasChild t t' h rights has_out status out e = elim (derive-Derived t h rights has_out) [
  | inl (same, failed, nothing) ↦ inl (cc, λ q. failed (cc), cc)
  | inr (p, found, given, narrow, made, q) ↦ elim (insert-Inserted t (t.slots p).object rights) [
    | inl (full, _) ↦ absurd (made (ap (λ (x : Table × ℕ). x.1) full))
    | inr (k, lo, hi, free, done) ↦ inr (
      p,
      k,
      pack k (t.slots k).generation,
      cc,
      cc,
      found,
      subst (λ x. HasChild t x p k rights (pack k (t.slots k).generation)) (cc)
          (linked_HasChild t p k h rights lo hi free narrow found),
    )
  ]
]
