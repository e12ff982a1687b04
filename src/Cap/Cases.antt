-- ===== src/Cap/Cases.antt =====
-- The cases of `cap_derive` and `cap_revoke` of kernel/core/cap.c, for the proofs about them.
use afriyie_os.Common.{
  ℕ, ◌≡◌, ◌≢◌, refl, ap, ◌⊎◌, inl, inr, Bool, true, Option, none, some, arith, bit_and, ◌==◌,
  Option-cases, Bool-cases, Status, ok, perm, cap_invalid, ==_iff,
}
use afriyie_os.Cap.Object.{Object, right_revoke}
use afriyie_os.Cap.Table.{Table, resolve, unpack_index, cap_invalid_handle}
use afriyie_os.Cap.Handle.{pack_lem}
use afriyie_os.Cap.Insert.{insert-Inserted}
use afriyie_os.Cap.Ops.{insert, link_child, derive, delete, revoke_children, revoke}

-- A call of `cap_revoke` that returns went one of three ways.
abbrev pub Revoked : ℕ → Table → ℕ → Table × Status → Type 0
Revoked depth t h r =
    ((resolve t h ≡ none) × (r ≡ (t, cap_invalid)))
    ⊎ ((i : ℕ) × (resolve t h ≡ some i)
        × (bit_and (t.slots i).rights right_revoke ≡ 0)
        × (r ≡ (t, perm)))
    ⊎ ((i : ℕ) × (t' : Table) × (n : ℕ) × (resolve t h ≡ some i)
        × (bit_and (t.slots i).rights right_revoke ≢ 0)
        × (revoke_children depth t (unpack_index h) ≡ some (t', n))
        × (r ≡ ((delete t' h).0, ok)))

pub revoke-Revoked :
    (depth : ℕ) (t : Table) (h : ℕ) (r : Table × Status)
    → revoke depth t h ≡ some r
    → Revoked depth t h r
unfolding revoke
revoke-Revoked depth t h r e = elim (Option-cases (resolve t h)) [
  | inl out ↦ inl (out, ground arith)
  | inr (i, found) ↦ elim (Bool-cases (bit_and (t.slots i).rights right_revoke == 0)) [
    | inl refused ↦ inr (inl (i, found, (==_iff _ _).0 refused, ground arith))
    | inr allowed ↦ elim (Option-cases (revoke_children depth t (unpack_index h))) [
      | inl deep ↦ cc (rw (found, allowed, deep, revoke) at e)
      | inr ((t', n), done) ↦ inr (inr (i, t', n, found, ground arith, done, ground arith))
    ]
  ]
]

-- A call of `cap_derive` that fails leaves the table and `out` alone; one that succeeds has
-- inserted the child and linked it.
abbrev pub Derived : Table → ℕ → ℕ → Bool → Table × Status × Option ℕ → Type 0
Derived t h rights has_out r =
    ((r.0 ≡ t) × (r.1 ≢ ok) × (r.2 ≡ none))
    ⊎ ((p : ℕ) × (resolve t h ≡ some p)
        × (has_out ≡ true)
        × (bit_and rights (t.slots p).rights ≡ rights)
        × ((insert t (t.slots p).object rights).1 ≢ 0)
        × (r ≡ (
          link_child (insert t (t.slots p).object rights).0 (insert t (t.slots p).object rights).1
              h,
          ok,
          some (insert t (t.slots p).object rights).1,
        )))

-- A call of `cap_insert` that returns no handle has changed nothing.
insert_failed :
    (t : Table) (object : Object) (rights : ℕ)
    → (insert t object rights).1 ≡ 0
    → (insert t object rights).0 ≡ t
insert_failed t object rights e = elim (insert-Inserted t object rights) [
  | inl (q, _) ↦ ap (λ (r : Table × ℕ). r.0) q
  | inr (i, lo, hi, free, q) ↦
      absurd (omega (arith, e, ap (λ (r : Table × ℕ). r.1) q, pack_lem i (t.slots i).generation))
]

pub derive-Derived :
    (t : Table) (h rights : ℕ) (has_out : Bool)
    → Derived t h rights has_out (derive t h rights has_out)
unfolding derive
derive-Derived t h rights has_out = elim (Option-cases (resolve t h)) [
  | inl out ↦ rw (out, derive) (inl (refl, λ e. cc, refl))
  | inr (p, found) ↦ elim (Bool-cases has_out) [
    | inr null ↦ rw (found, null, derive) (inl (refl, λ e. cc, refl))
    | inl given ↦ elim (Bool-cases (bit_and rights (t.slots p).rights == rights)) [
      | inr wide ↦ rw (found, given, wide, derive) (inl (refl, λ e. cc, refl))
      | inl narrow ↦
          elim (Bool-cases ((insert t (t.slots p).object rights).1 == cap_invalid_handle)) [
            | inl full ↦
                rw (found, given, narrow, full, derive)
                  (inl (
                    insert_failed t (t.slots p).object rights ((==_iff _ _).0 full),
                    λ e. cc,
                    refl,
                  ))
            | inr fits ↦
                rw (found, given, narrow, fits, derive)
                  (inr (p, refl, refl, (==_iff _ _).0 narrow, ground arith, refl))
          ]
    ]
  ]
]
