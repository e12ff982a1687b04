-- ===== src/Disk/Range.antt =====
-- The range check of kernel/core/block.c.
use afriyie_os.Common.{
  ℕ, ◌+◌, ◌-◌, ◌%◌, ◌^◌, ◌≤◌, ◌<◌, ◌≡◌, refl, ◌⊎◌, inl, inr, some, arith, ltb, leb, ◌==◌,
  Bool-cases, ok, inval,
}
use afriyie_os.Disk.Block.{Device, failed, check_range, driver_read, read_checked, block_read}

-- The sectors are on the device.
abbrev pub OnDevice : Device → ℕ → ℕ → Type 0
OnDevice d lba count = (0 < count) × (lba + count ≤ d.sector_count)

check_range_cases :
    (d : Device) (lba count : ℕ)
    → d.sector_count ≤ 2 ^ 64 - 2 ^ 32
    → count < 2 ^ 32
    → (OnDevice d lba count × (check_range (some d) lba count ≡ ok))
      ⊎ (¬ OnDevice d lba count × (check_range (some d) lba count ≡ inval))
unfolding check_range
check_range_cases d lba count size word = elim (Bool-cases (leb d.sector_count lba)) [
  | inl far ↦ inr ((λ (pos, fits). ground arith), ground arith)
  | inr near ↦
      let below : lba < d.sector_count = ground arith in
      let sum : (lba + count) % 2 ^ 64 ≡ lba + count = omega arith in
      elim (Bool-cases (ltb d.sector_count (lba + count))) [
        | inl past ↦ inr ((λ (pos, fits). ground arith), ground (arith, sum))
        | inr inside ↦ elim (Bool-cases (count == 0)) [
          | inl empty ↦ inr ((λ (pos, fits). ground arith), ground arith)
          | inr some_sectors ↦ inl ((ground arith, ground arith), ground (arith, sum))
        ]
      ]
]

-- On a device of at most 2^64 - 2^32 sectors, `block_read` asks the driver exactly when the sectors
-- are at least one and all on the device, and otherwise returns AF_ERR_INVAL without asking it.
pub block_read_lem :
    (d : Device) (lba count : ℕ)
    → d.sector_count ≤ 2 ^ 64 - 2 ^ 32
    → count < 2 ^ 32
    → (OnDevice d lba count × (block_read (some d) lba count ≡ driver_read (some d) lba count))
      ⊎ (¬ OnDevice d lba count × (block_read (some d) lba count ≡ failed inval))
unfolding block_read read_checked
block_read_lem d lba count size word = elim (check_range_cases d lba count size word) [
  | inl (on, e) ↦ inl (on, rw (e, block_read) refl)
  | inr (off, e) ↦ inr (off, rw (e, block_read) refl)
]
