-- ===== src/Cap/Tests.antt =====
-- Capability tables of kernel/core/cap.c on concrete inputs, among them those of
-- kernel/core/cap_selftest.c's kind.
use afriyie_os.Common.{
  ℕ, ◌+◌, ◌^◌, ◌≡◌, ◌≢◌, refl, ◌⊎◌, inl, inr, true, none, some, List, [], ◌∷◌, arith, bit_and, ◌==◌,
  if◌then◌else◌, ok, perm, cap_invalid,
}
use afriyie_os.Cap.Object.{Object, ObjectType, right_read, right_revoke, right_all}
use afriyie_os.Cap.Table.{Table, fresh_table, resolve, pack, unpack_index, unpack_generation}
use afriyie_os.Cap.Ops.{
  find_free, fill_slot, free_slot, insert, lookup, relink, link_child, derive, release, delete,
  revoke, revoke_children,
}
use afriyie_os.Cap.History.{Op, inserts, derives, revokes, step, run}
use afriyie_os.Cap.Invariant.{IsValid, fresh_table-IsValid, run-IsValid}
use afriyie_os.Cap.Tree.{Under}
use afriyie_os.Cap.Revoke.Exact.{revoke_exact}
use afriyie_os.Cap.Revoke.Cycle.{Cyclic, revoke_children_endless}
use afriyie_os.Cap.Revoke.Histories.{
  HasTree, run_returns, fresh_table-HasTree, insert-HasTree, derive-HasTree,
}
use afriyie_os.Cap.Authority.Stale.{delete_stale}
use afriyie_os.Cap.Authority.Narrow.{Reaches, run_narrows}
use afriyie_os.Cap.Issue.{insert_lem}

abbrev frame_object : Object
frame_object = record { type = ObjectType.frame; id = 0x5000 }

-- One capability with all rights, in slot 1 under handle 257.
abbrev owned : Table
owned = (insert fresh_table frame_object right_all).0

-- A capability with AF_RIGHT_READ derived from it, in slot 2 under handle 258.
abbrev shared : Table
shared = (derive owned 257 right_read true).0

handles_made :
    ((insert fresh_table frame_object right_all).1 ≡ 257)
    × ((derive owned 257 right_read true).2 ≡ some 258)
    × ((derive shared 258 right_all true).1 ≡ perm)
unfolding insert find_free fill_slot fresh_table pack derive resolve link_child relink unpack_index
    unpack_generation
handles_made = (refl, refl, refl)

owned_resolves : resolve owned 257 ≡ some 1
unfolding insert find_free fill_slot fresh_table pack resolve unpack_index unpack_generation
owned_resolves = refl

shared_resolves : resolve shared 257 ≡ some 1
unfolding insert find_free fill_slot fresh_table pack derive resolve link_child relink unpack_index
    unpack_generation
shared_resolves = refl

shared_revocable : bit_and (shared.slots 1).rights right_revoke ≢ 0
unfolding insert find_free fill_slot fresh_table pack derive resolve link_child relink unpack_index
    unpack_generation
shared_revocable e = omega arith

shared-HasTree : HasTree shared 1
shared-HasTree =
    derive-HasTree owned 257 right_read true 1 (omega arith)
      (insert-HasTree fresh_table frame_object right_all 1 fresh_table-HasTree)

revoke_exact_example :
    (s : Table) × (revoke 257 shared 257 ≡ some (s, ok))
    × ((j : ℕ) → Under shared 1 j → s.slots j ≡ free_slot (shared.slots j))
    × ((j : ℕ) → ¬ Under shared 1 j → s.slots j ≡ shared.slots j)
revoke_exact_example =
    revoke_exact shared-HasTree.0 shared 257 1 shared-HasTree.1.forest
      (λ j live. omega (arith, shared-HasTree.1.young j)) shared_resolves shared_revocable

abbrev history : List Op
history = derives 258 right_read true ∷ revokes 257 ∷ inserts frame_object right_read ∷ []

run_returns_example : (s : Table) × (run shared history ≡ some s) × HasTree s (1 + 3)
run_returns_example = run_returns history shared 1 (omega arith) (tt, (tt, (tt, tt))) shared-HasTree

-- The first capability is deleted, and a third derived from the second takes its slot.
abbrev looped : Table
looped = (derive (delete shared 257).0 258 right_read true).0

abbrev OnLoop : ℕ → Type 0
OnLoop x = (x ≡ 1) ⊎ (x ≡ 2)

abbrev around : ℕ → ℕ
around x = if x == 1 then 2 else 1

looped-Cyclic : Cyclic OnLoop around looped
unfolding insert find_free fill_slot fresh_table pack derive resolve link_child relink unpack_index
    unpack_generation delete release free_slot
looped-Cyclic x (inl e) = rw e (inr refl, (omega arith, omega arith, refl, refl))
looped-Cyclic x (inr e) = rw e (inl refl, (omega arith, omega arith, refl, refl))

revoke_children_endless_example : revoke_children 257 looped 1 ≡ none
revoke_children_endless_example =
    revoke_children_endless OnLoop around looped 1 looped-Cyclic (inl refl) (omega arith) 257

shared_reaches : lookup shared 258 right_read ≡ (ok, some frame_object)
unfolding insert find_free fill_slot fresh_table pack derive resolve link_child relink unpack_index
    unpack_generation lookup
shared_reaches = refl

derive-shared : derive owned 257 right_read true ≡ (shared, ok, some 258)
unfolding insert find_free fill_slot fresh_table pack derive resolve link_child relink unpack_index
    unpack_generation
derive-shared = refl

run_narrows_example : Reaches owned frame_object right_read
unfolding run step
run_narrows_example =
    run_narrows (derives 257 right_read true ∷ []) owned shared frame_object right_read (tt, tt)
      (omega arith) refl (258, shared_reaches)

delete_stale_example :
    lookup (insert (delete owned 257).0 frame_object right_all).0 257 right_read
    ≡ (cap_invalid, none)
unfolding run step insert find_free fill_slot fresh_table pack resolve unpack_index
    unpack_generation delete release free_slot
delete_stale_example =
    delete_stale owned (delete owned 257).0 (insert (delete owned 257).0 frame_object right_all).0
      257 right_read (inserts frame_object right_all ∷ []) (omega arith) refl (tt, tt) refl

insert_lem_example :
    let (s, h) = insert fresh_table frame_object right_all in
    (h ≢ 0)
    × ((required : ℕ)
        → lookup s h required ≡ (
            if bit_and right_all required == required
            then (ok, some frame_object)
            else (perm, none)))
    × ((h' j required : ℕ)
        → resolve fresh_table h' ≡ some j
        → lookup s h' required ≡ lookup fresh_table h' required)
unfolding fresh_table
insert_lem_example =
    insert_lem fresh_table frame_object right_all fresh_table-IsValid (λ e. cc) (omega arith)
      (λ j. omega arith)

-- Slot 1 was freed so often that its generation does not fit a handle.
abbrev worn : Table
worn = record fresh_table {
  slots = λ j. record (fresh_table.slots j) { generation = if j == 1 then 2 ^ 24 else 1 };
}

run-IsValid_example : IsValid shared
unfolding run step
run-IsValid_example =
    run-IsValid (inserts frame_object right_all ∷ derives 257 right_read true ∷ []) fresh_table
      shared (omega arith) fresh_table-IsValid refl
