-- ===== src/Ipc/Table.antt =====
-- The table of endpoints of kernel/core/ipc.c: searches, identifiers, creation and destruction.
use afriyie_os.Common.{
  ℕ, zero, suc, ◌+◌, ◌≤◌, ◌<◌, ◌≡◌, ◌≢◌, refl, inl, inr, Bool, true, false, ◌&&◌, none, some, arith,
  ◌==◌, Bool-cases, Option-cases,
}
use native.Mathlib.Decide.{ℕ_discrete}
use afriyie_os.Common.Count.{count}
use afriyie_os.Ipc.State.{Ipc}
use afriyie_os.Ipc.Ops.{scan_id, endpoint_from_id, scan_free}

-- Where a search by identifier ends.
pub scan_id-found :
    (k : Ipc) (id left i j : ℕ)
    → scan_id k id left i ≡ some j
    → (i ≤ j) × (j < i + left) × ((k.endpoints j).used ≡ true) × ((k.endpoints j).id ≡ id)
unfolding scan_id
scan_id-found k id zero i j e = cc
scan_id-found k id (suc left) i j e =
    elim (Bool-cases ((k.endpoints i).used && ((k.endpoints i).id == id))) [
      | inl hit ↦
          let at : i ≡ j = cc (rw (hit, scan_id) at e) in
          rw (← at) (omega arith, omega arith, ground arith, ground arith)
      | inr miss ↦
          let (lo, hi, live, same) = scan_id-found k id left (i + 1) j (rw (miss, scan_id) at e) in
          (omega arith, omega arith, live, same)
    ]

pub scan_id-none :
    (k : Ipc) (id left i j : ℕ)
    → scan_id k id left i ≡ none
    → i ≤ j
    → j < i + left
    → (k.endpoints j).used ≡ true
    → (k.endpoints j).id ≢ id
unfolding scan_id
scan_id-none k id zero i j e lo hi live same = absurd (omega arith)
scan_id-none k id (suc left) i j e lo hi live same =
    elim (Bool-cases ((k.endpoints i).used && ((k.endpoints i).id == id))) [
      | inl hit ↦ cc (rw (hit, scan_id) at e)
      | inr miss ↦ elim (ℕ_discrete i j) [
        | yes at ↦ ground (arith, at)
        | no ne ↦
            scan_id-none k id left (i + 1) j (rw (miss, scan_id) at e) (omega arith) (omega arith)
              live same
      ]
    ]

-- The first free slot of the range.
pub scan_free-found :
    (k : Ipc) (left i j : ℕ)
    → scan_free k left i ≡ some j
    → (i ≤ j) × (j < i + left) × ((k.endpoints j).used ≡ false)
unfolding scan_free
scan_free-found k zero i j e = cc
scan_free-found k (suc left) i j e = elim (Bool-cases (k.endpoints i).used) [
  | inr free ↦
      let at : i ≡ j = cc (rw (free, scan_free) at e) in rw (← at) (omega arith, omega arith, free)
  | inl used ↦
      let (lo, hi, free) = scan_free-found k left (i + 1) j (rw (used, scan_free) at e) in
      (omega arith, omega arith, free)
]

pub scan_free_first :
    (k : Ipc) (left i j : ℕ)
    → i ≤ j
    → j < i + left
    → (k.endpoints j).used ≡ false
    → ((n : ℕ) → i ≤ n → n < j → (k.endpoints n).used ≡ true)
    → scan_free k left i ≡ some j
unfolding scan_free
scan_free_first k zero i j lo hi free busy = absurd (omega arith)
scan_free_first k (suc left) i j lo hi free busy = elim (ℕ_discrete i j) [
  | yes at ↦ rw at (rw (free, scan_free))
  | no ne ↦
      rw (busy i (omega arith) (omega arith), scan_free)
        (scan_free_first k left (i + 1) j (omega arith) (omega arith) free
          (λ n lo' hi'. busy n (omega arith) hi'))
]

abbrev pub in_use : Ipc → ℕ → Bool
in_use k j = (k.endpoints j).used

-- Identifiers in use are not AF_EP_INVALID, are behind the next one and differ; `live` counts.
pub record IsTable (k : Ipc) : Type 0 where
  pub named :
      (j : ℕ)
      → (k.endpoints j).used ≡ true
      → (0 < (k.endpoints j).id) × ((k.endpoints j).id < k.next_id)
  pub distinct :
      (i j : ℕ)
      → (k.endpoints i).used ≡ true
      → (k.endpoints j).used ≡ true
      → (k.endpoints i).id ≡ (k.endpoints j).id
      → i ≡ j
  pub counted : k.live ≡ count (in_use k) 64
  pub started : 0 < k.next_id

-- In such a table the search finds an endpoint exactly by its identifier.
pub endpoint_from_id_iff :
    (k : Ipc) (i : ℕ)
    → IsTable k
    → i < 64
    → (k.endpoints i).used ≡ true
    → endpoint_from_id k (k.endpoints i).id ≡ some i
unfolding endpoint_from_id
endpoint_from_id_iff k i v small live = elim (Option-cases (scan_id k (k.endpoints i).id 64 0)) [
  | inl out ↦
      absurd (scan_id-none k (k.endpoints i).id 64 0 i out (omega arith) (omega arith) live refl)
  | inr (j, found) ↦
      let (lo, hi, used, same) = scan_id-found k (k.endpoints i).id 64 0 j found in
      let at : j ≡ i = v.distinct j i used live same in ground (arith, v.named i live, found, at)
]
