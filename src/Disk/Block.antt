-- ===== src/Disk/Block.antt =====
-- Reads through kernel/core/block.c. The driver is a function of the device, which the kernel calls
-- through a pointer: it returns the bytes that it has read, or an error.
use afriyie_os.Common.{
  ℕ, ◌+◌, ◌%◌, ◌^◌, Option, none, some, ltb, leb, ◌==◌, if◌then◌else◌, Status, ok, inval, nodev,
  notsup,
}

pub data Loaded : Type 0 where
  loaded : (ℕ → ℕ) → Loaded
  failed : Status → Loaded

pub record Device : Type 0 where
  pub sector_count : ℕ
  pub read : Option (ℕ → ℕ → Loaded)

unfoldable pub check_range : Option Device → ℕ → ℕ → Status
check_range none lba count = nodev
check_range (some d) lba count =
    if count == 0
    then inval
    else if leb d.sector_count lba
    then inval
    else if ltb d.sector_count ((lba + count) % 2 ^ 64)
    then inval
    else ok

-- `dev->read`, NULL or not.
unfoldable pub driver_read : Option Device → ℕ → ℕ → Loaded
driver_read none lba count = failed nodev
driver_read (some d) lba count = elim d.read [ none ↦ failed notsup | some read ↦ read lba count ]

unfoldable pub read_checked : Status → Loaded → Loaded
read_checked Status.ok read = read
read_checked status read = failed status

unfoldable pub block_read : Option Device → ℕ → ℕ → Loaded
block_read d lba count = read_checked (check_range d lba count) (driver_read d lba count)
