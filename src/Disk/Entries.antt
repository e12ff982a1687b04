-- ===== src/Disk/Entries.antt =====
-- The loop over the partition entries of kernel/fs/gpt.c, and the search for a type.
use afriyie_os.Common.{
  ℕ, zero, suc, ◌+◌, ◌-◌, ◌/◌, ◌%◌, ◌^◌, ◌≤◌, ◌<◌, ◌≡◌, refl, sym, ap, ◌∙◌, ◌⊎◌, inl, inr, Bool,
  true, false, ◌↔◌, Option, none, some, List, [], ◌∷◌, ◌++◌, All, arith, ltb, if◌then◌else◌,
  Bool-cases, ok, noent,
}
use native.Mathlib.Decide.{ℕ_discrete}
use afriyie_os.Disk.Block.{Device, loaded, block_read}
use afriyie_os.Disk.Gpt.{
  Partition, same_bytes, esp_type_guid, read_partition, per_sector, entry_in, is_empty, add_entry,
  read_entries, find_esp,
}

-- The partitions of `left` entries from entry `i` on, where entry `i` lies in sector `s i`.
unfoldable pub present : (ℕ → ℕ → ℕ) → ℕ → ℕ → ℕ → List Partition
present s size zero i = []
present s size (suc left) i =
    let rest = present s size left (i + 1) in
    let e = entry_in (s i) size i in if is_empty e then rest else read_partition e ∷ rest

unfoldable pub take : ℕ → List Partition → List Partition
take zero ps = []
take (suc n) [] = []
take (suc n) (p ∷ ps) = p ∷ take n ps

take-nil : (n : ℕ) → take n [] ≡ []
unfolding take
take-nil zero = refl
take-nil (suc n) = refl

pub listed :
    (d : Option Device) (lba size : ℕ) (s : ℕ → ℕ → ℕ) (left i room : ℕ)
    → ((j : ℕ)
        → j < i + left
        → block_read d ((lba + j / per_sector size) % 2 ^ 64) 1 ≡ loaded (s j))
    → room ≤ 8
    → read_entries d lba size left i (8 - room) ≡ (ok, take room (present s size left i))
unfolding read_entries present take
listed d lba size s zero i room reads le = ap (λ x. (ok, x)) (sym (take-nil room))
listed d lba size s (suc left) i zero reads le = refl
listed d lba size s (suc left) i (suc room) reads le =
    let e = entry_in (s i) size i in
    let below : ltb (8 - suc room) 8 ≡ true = ground arith in
    elim (Bool-cases (is_empty e)) [
      | inl empty ↦
          rw (below, reads i (omega arith), empty)
            (listed d lba size s left (i + 1) (suc room) (λ j lt. reads j (omega arith)) le)
      | inr full ↦
          let one_more : 8 - suc room + 1 ≡ 8 - room = omega arith in
          let rest =
            listed d lba size s left (i + 1) room (λ j lt. reads j (omega arith)) (omega arith) in
          rw (below, reads i (omega arith), full)
            (ap (add_entry (read_partition e))
              (ap (read_entries d lba size left (i + 1)) one_more ∙ rest))
    ]

-- The sixteen bytes are those of `k_esp_type_guid`.
unfoldable pub IsEsp : Partition → Type 0
IsEsp p = (i : ℕ) → i < 16 → p.type_guid i ≡ esp_type_guid i

same_bytes_iff :
    (a b : ℕ → ℕ) (n i : ℕ)
    → (same_bytes a b n i ≡ true) ↔ ((j : ℕ) → i ≤ j → j < i + n → a j ≡ b j)
unfolding same_bytes
same_bytes_iff a b zero i = ((λ e j lo hi. absurd (omega arith)), (λ h. refl))
same_bytes_iff a b (suc n) i = (
  (λ e j lo hi. elim (ℕ_discrete i j) [
    | yes at ↦ let first : a i ≡ b i = ground (arith, e) in sym (ap a at) ∙ first ∙ ap b at
    | no ne ↦ (same_bytes_iff a b n (i + 1)).0 (ground (arith, e)) j (omega arith) (omega arith)
  ]),
  (λ h. ground (
    arith,
    h i (omega arith) (omega arith),
    (same_bytes_iff a b n (i + 1)).1 (λ j lo hi. h j (omega arith) (omega arith)),
  )),
)

-- `partition_find_esp` returns the first partition with the type of an EFI system partition, and
-- AF_ERR_NOENT where there is none.
pub find_esp_lem :
    (ps : List Partition)
    → ((find_esp ps ≡ (noent, none)) × All (λ p. ¬ IsEsp p) ps)
      ⊎ ((before : List Partition) × (p : Partition) × (after : List Partition) × (ps
            ≡ before ++ (p ∷ after))
          × (find_esp ps ≡ (ok, some p))
          × IsEsp p
          × All (λ q. ¬ IsEsp q) before)
unfolding find_esp IsEsp
find_esp_lem [] = inl (refl, tt)
find_esp_lem (p ∷ ps) = elim (Bool-cases (same_bytes p.type_guid esp_type_guid 16 0)) [
  | inl hit ↦ inr (
    [],
    p,
    ps,
    refl,
    rw (hit, find_esp) refl,
    (λ i lt. (same_bytes_iff p.type_guid esp_type_guid 16 0).0 hit i (omega arith) (omega arith)),
    tt,
  )
  | inr miss ↦
      let other : ¬ IsEsp p = λ h.
        let hit =
          (same_bytes_iff p.type_guid esp_type_guid 16 0).1 (λ j lo hi. h j (omega arith)) in
        clash (same_bytes p.type_guid esp_type_guid 16 0) hit miss in
      elim (find_esp_lem ps) [
        | inl (e, all) ↦ inl (rw (miss, find_esp) e, (other, all))
        | inr (before, q, after, e, found, esp, all) ↦
            inr (
              p ∷ before,
              q,
              after,
              ap (λ x. p ∷ x) e,
              rw (miss, find_esp) found,
              esp,
              (other, all),
            )
      ]
]
  where
    clash : (x : Bool) → x ≡ true → x ≡ false → ⊥
    clash x t e = cc
