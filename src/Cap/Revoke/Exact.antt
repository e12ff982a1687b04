-- ===== src/Cap/Revoke/Exact.antt =====
-- `cap_revoke` of kernel/core/cap.c, as a whole, on a table without cycles.
use afriyie_os.Common.{ℕ, ◌≡◌, ◌≢◌, refl, sym, ◌∙◌, ap, subst, some, arith, bit_and, ==_ne, ok}
use native.Mathlib.Decide.{ℕ_discrete}
use afriyie_os.Cap.Object.{right_revoke}
use afriyie_os.Cap.Table.{Table, Slot, resolve, unpack_index}
use afriyie_os.Cap.Ops.{free_slot, release, delete, revoke_children, revoke}
use afriyie_os.Cap.Handle.{resolve-Resolves, Resolves-resolve, unpack_index_lem}
use afriyie_os.Cap.Tree.{Under, self, IsForest, IsFresh}
use afriyie_os.Cap.Revoke.Loop.{revoke_children_exact}

-- A handle that resolves goes on resolving while its slot is left alone.
pub resolve-same :
    (s t : Table) (h i : ℕ) → resolve t h ≡ some i → s.slots i ≡ t.slots i → resolve s h ≡ some i
resolve-same s t h i e same =
    let r = resolve-Resolves t h i e in
    Resolves-resolve s h i (record {
      index = r.index;
      above = r.above;
      below = r.below;
      live = ap (λ (x : Slot). x.used) same ∙ r.live;
      current = ap (λ (x : Slot). x.generation) same ∙ r.current;
    })

release_self : (s : Table) (i : ℕ) → (release s i).slots i ≡ free_slot (s.slots i)
unfolding release
release_self s i = ground arith

release_other : (s : Table) (i j : ℕ) → j ≢ i → (release s i).slots j ≡ s.slots j
unfolding release
release_other s i j ne = ground arith

revoke_returns :
    (depth : ℕ) (t s : Table) (h i n : ℕ)
    → resolve t h ≡ some i
    → bit_and (t.slots i).rights right_revoke ≢ 0
    → revoke_children depth t i ≡ some (s, n)
    → resolve s h ≡ some i
    → revoke depth t h ≡ some (release s i, ok)
unfolding revoke delete
revoke_returns depth t s h i n e right done again =
    let index : unpack_index h ≡ i = unpack_index_lem h ∙ sym (resolve-Resolves t h i e).index in
    let held = ==_ne (bit_and (t.slots i).rights right_revoke) 0 right in
    rw (e, held, index, done, again, revoke, delete)

-- `cap_revoke` with a handle that has AF_RIGHT_REVOKE frees the slot of its capability and each slot in use from which
-- the recorded parents lead to it in any number of steps, and leaves every other slot as it was. The parents are
-- indices of slots without a generation: where the slot was deleted and filled again, the slots that were derived
-- from what it held before are among those freed. The recorded parents have no cycle and the generations fit a
-- handle; 257 nested calls suffice.
pub revoke_exact :
    (rank : ℕ → ℕ) (t : Table) (h i : ℕ)
    → IsForest t rank
    → IsFresh t
    → resolve t h ≡ some i
    → bit_and (t.slots i).rights right_revoke ≢ 0
    → (s : Table) × (revoke 257 t h ≡ some (s, ok))
      × ((j : ℕ) → Under t i j → s.slots j ≡ free_slot (t.slots j))
      × ((j : ℕ) → ¬ Under t i j → s.slots j ≡ t.slots j)
revoke_exact rank t h i f g e right =
    let (s, n, done, gone, kept) =
      revoke_children_exact rank t i f g (resolve-Resolves t h i e).below in
    let root : s.slots i ≡ t.slots i = kept i (λ c. c.1 refl) in
    (
      release s i,
      revoke_returns 257 t s h i n e right done (resolve-same s t h i e root),
      (λ j u. elim (ℕ_discrete j i) [
        | yes q ↦ rw q (release_self s i ∙ ap free_slot root)
        | no ne ↦ release_other s i j ne ∙ gone j u ne
      ]),
      (λ j out.
          let ne : j ≢ i = λ q. out (subst (Under t i) (sym q) self) in
          release_other s i j ne ∙ kept j (λ c. out c.0)),
    )
