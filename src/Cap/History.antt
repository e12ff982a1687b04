-- ===== src/Cap/History.antt =====
-- Histories of capability operations, and the rule by which a property of tables holds throughout.
use afriyie_os.Common.{
  ℕ, zero, suc, ◌+◌, ◌%◌, ◌^◌, ◌≤◌, ◌<◌, ◌≡◌, subst, inl, inr, Bool, true, false, not, ◌||◌, Option,
  none, some, List, [], ◌∷◌, All, arith, ◌==◌, Bool-cases, Option-cases, Status,
}
use afriyie_os.Cap.Object.{Object}
use afriyie_os.Cap.Table.{Table, pack, resolve, unpack_index}
use afriyie_os.Cap.Ops.{
  fill_slot, insert, relink, link_child, derive, release, delete, revoke_loop, revoke_children,
  revoke,
}
use afriyie_os.Cap.Handle.{resolve-Resolves, pack-lt}
use afriyie_os.Cap.Insert.{insert-Inserted}
use afriyie_os.Cap.Cases.{derive-Derived, revoke-Revoked}

pub data Op : Type 0 where
  inserts : Object → ℕ → Op
  derives : ℕ → ℕ → Bool → Op
  deletes : ℕ → Op
  revokes : ℕ → Op

-- The handle that an operation is given is a word of 32 bits.
abbrev pub IsWord : Op → Type 0
IsWord (inserts object rights) = Unit
IsWord (derives h rights has_out) = h < 2 ^ 32
IsWord (deletes h) = h < 2 ^ 32
IsWord (revokes h) = h < 2 ^ 32

-- `none`: `cap_revoke` did not return within 257 nested calls.
unfoldable pub step : Table → Op → Option Table
step t (inserts object rights) = some (insert t object rights).0
step t (derives h rights has_out) = some (derive t h rights has_out).0
step t (deletes h) = some (delete t h).0
step t (revokes h) = elim (revoke 257 t h) [ none ↦ none | some (t', status) ↦ some t' ]

unfoldable pub run : Table → List Op → Option Table
run t [] = some t
run t (op ∷ ops) = elim (step t op) [ none ↦ none | some t' ↦ run t' ops ]

-- What freeing a slot in use keeps, deletion and revocation keep.
module _ {ℓ} (P : Table → Type ℓ)
    (releases : (t : Table) (i : ℕ)
      → P t
      → 1 ≤ i
      → i < 256
      → (t.slots i).used ≡ true
      → (t.slots i).generation < 2 ^ 24
      → P (release t i)) where
  pub delete_keeps : (t : Table) (h : ℕ) → h < 2 ^ 32 → P t → P (delete t h).0
  unfolding delete
  delete_keeps t h small v = elim (Option-cases (resolve t h)) [
    | inl e ↦ rw (e, delete) v
    | inr (i, e) ↦
        let r = resolve-Resolves t h i e in
        rw (e, delete) (releases t i v r.above r.below r.live (omega (arith, r.current)))
  ]

  loop_keeps :
      (go : Table → ℕ → Option (Table × ℕ))
      (keeps : (t : Table) (i : ℕ) (r : Table × ℕ) → P t → go t i ≡ some r → P r.0) (left i : ℕ)
      (t : Table) (p n : ℕ) (r : Table × ℕ)
      → P t
      → revoke_loop go left i t p n ≡ some r
      → P r.0
  unfolding revoke_loop
  loop_keeps go keeps zero i t p n r v e = subst (λ x. P x) {x = t} {y = r.0} (ground arith) v
  loop_keeps go keeps (suc left) i t p n r v e =
      elim (Bool-cases (not (t.slots i).used || not ((t.slots i).parent == p % 2 ^ 16))) [
        | inl skip ↦ loop_keeps go keeps left (i + 1) t p n r v (rw (skip, revoke_loop) at e)
        | inr child ↦ elim (Option-cases (go t i)) [
          | inl out ↦ cc (rw (child, out, revoke_loop) at e)
          | inr ((s, c), into) ↦
              loop_keeps go keeps left (i + 1) (delete s (pack i (s.slots i).generation)).0 p
                (n + c + 1) r
                (delete_keeps s _ (pack-lt i (s.slots i).generation) (keeps t i (s, c) v into))
                (rw (child, into, revoke_loop) at e)
        ]
      ]

  children_keeps :
      (depth : ℕ) (t : Table) (p : ℕ) (r : Table × ℕ)
      → P t
      → revoke_children depth t p ≡ some r
      → P r.0
  unfolding revoke_children
  children_keeps zero t p r v e = cc
  children_keeps (suc depth) t p r v e =
      loop_keeps (revoke_children depth) (λ t' i r' v' e'. children_keeps depth t' i r' v' e') 255 1
        t p 0 r v e

  pub revoke_keeps :
      (t : Table) (h : ℕ) (r : Table × Status) → h < 2 ^ 32 → P t → revoke 257 t h ≡ some r → P r.0
  revoke_keeps t h r small v e = elim (revoke-Revoked 257 t h r e) [
    | inl (_, q) ↦ rw q v
    | inr (inl (_, _, _, q)) ↦ rw q v
    | inr (inr (i, s, n, _, _, done, q)) ↦
        rw q (delete_keeps s h small (children_keeps 257 t (unpack_index h) (s, n) v done))
  ]

module _ {ℓ} (P : Table → Type ℓ)
    (fills : (t : Table) (i : ℕ) (object : Object) (rights : ℕ)
      → P t
      → 1 ≤ i
      → i < 256
      → (t.slots i).used ≡ false
      → P (fill_slot t i object rights))
    (relinks : (t : Table) (i p : ℕ) → P t → P (relink t i p))
    (releases : (t : Table) (i : ℕ)
      → P t
      → 1 ≤ i
      → i < 256
      → (t.slots i).used ≡ true
      → (t.slots i).generation < 2 ^ 24
      → P (release t i)) where
  insert_keeps : (t : Table) (object : Object) (rights : ℕ) → P t → P (insert t object rights).0
  insert_keeps t object rights v = elim (insert-Inserted t object rights) [
    | inl (e, _) ↦ rw e v
    | inr (i, lo, hi, free, e) ↦ rw e (fills t i object rights v lo hi free)
  ]

  link_child_keeps : (t : Table) (child h : ℕ) → P t → P (link_child t child h)
  unfolding link_child
  link_child_keeps t child h v = elim (Option-cases (resolve t child)) [
    | inl e ↦ rw (e, link_child) v
    | inr (c, e) ↦ rw (e, link_child) (relinks t c _ v)
  ]

  derive_keeps : (t : Table) (h rights : ℕ) (has_out : Bool) → P t → P (derive t h rights has_out).0
  derive_keeps t h rights has_out v = elim (derive-Derived t h rights has_out) [
    | inl (e, _, _) ↦ rw e v
    | inr (p, _, _, _, _, e) ↦
        rw e (link_child_keeps _ _ h (insert_keeps t (t.slots p).object rights v))
  ]

  -- What filling a free slot, setting a parent and freeing a slot in use keep, every operation keeps.
  pub step_keeps : (op : Op) (t s : Table) → IsWord op → P t → step t op ≡ some s → P s
  unfolding step
  step_keeps (inserts object rights) t s w v e =
      subst (λ x. P x) {y = s} (ground arith) (insert_keeps t object rights v)
  step_keeps (derives h rights has_out) t s w v e =
      subst (λ x. P x) {y = s} (ground arith) (derive_keeps t h rights has_out v)
  step_keeps (deletes h) t s w v e =
      subst (λ x. P x) {y = s} (ground arith) (delete_keeps P releases t h w v)
  step_keeps (revokes h) t s w v e = elim (Option-cases (revoke 257 t h)) [
    | inl out ↦ cc (rw (out, step) at e)
    | inr (r, done) ↦
        subst (λ x. P x) {x = r.0} {y = s} (ground arith) (revoke_keeps P releases t h r w v done)
  ]

  pub run_keeps : (ops : List Op) (t s : Table) → All IsWord ops → P t → run t ops ≡ some s → P s
  unfolding run
  run_keeps [] t s w v e = subst (λ x. P x) {x = t} {y = s} (ground arith) v
  run_keeps (op ∷ ops) t s w v e = elim (Option-cases (step t op)) [
    | inl out ↦ cc (rw (out, run) at e)
    | inr (t', done) ↦ run_keeps ops t' s w.1 (step_keeps op t t' w.0 v done) (rw (done, run) at e)
  ]
