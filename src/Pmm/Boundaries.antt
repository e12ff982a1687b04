-- ===== src/Pmm/Boundaries.antt =====
-- How far the addresses of kernel/core/pmm.c and kernel/core/boot_info.c reach when every region of
-- the memory map ends below a bound.
use afriyie_os.Common.{
  ℕ, ◌+◌, ◌^◌, ◌≤◌, not, ◌&&◌, ◌||◌, List, [], ◌∷◌, All, arith, ltb, if◌then◌else◌,
}
use afriyie_os.Boot.Info.{
  BootInfo, Region, is_usable, is_allocatable, region_end, max_end, max_address,
  max_allocatable_end, max_usable_address,
}
use afriyie_os.Pmm.Init.{pick_region, overlaps_kernel}

abbrev pub IsLow : Region → Type 0
IsLow r = r.base + r.length ≤ 2 ^ 43

max_end-le : (m : ℕ) (rs : List Region) → All IsLow rs → m ≤ 2 ^ 43 → max_end m rs ≤ 2 ^ 43
unfolding max_end
max_end-le m [] a le = le
max_end-le m (r ∷ rs) (low, a) le =
    max_end-le (if ltb m (region_end r) then region_end r else m) rs a (ground arith)

max_allocatable_end-le :
    (m : ℕ) (rs : List Region) → All IsLow rs → m ≤ 2 ^ 43 → max_allocatable_end m rs ≤ 2 ^ 43
unfolding max_allocatable_end
max_allocatable_end-le m [] a le = le
max_allocatable_end-le m (r ∷ rs) (low, a) le =
    max_allocatable_end-le
      (if is_allocatable r.type && ltb m (region_end r) then region_end r else m) rs a
      (ground arith)

pub max_usable_address-le :
    (b : BootInfo) → All IsLow b.memory_regions → max_usable_address b ≤ 2 ^ 43
unfolding max_usable_address max_address
max_usable_address-le b a = ground (
  arith,
  max_end-le 0 b.memory_regions a (omega arith),
  max_allocatable_end-le 0 b.memory_regions a (omega arith),
)

pub pick_region-le :
    (b : BootInfo) (best : ℕ × ℕ) (rs : List Region)
    → All IsLow rs
    → best.0 + best.1 ≤ 2 ^ 43
    → let r = pick_region b best rs in r.0 + r.1 ≤ 2 ^ 43
unfolding pick_region
pick_region-le b best [] a le = le
pick_region-le b best (r ∷ rs) (low, a) le =
    pick_region-le b
      (if not (is_usable r.type) || overlaps_kernel b r || not (ltb best.1 r.length)
        then best
        else (r.base, r.length))
      rs a (ground arith)
