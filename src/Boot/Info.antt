-- ===== src/Boot/Info.antt =====
-- The data of kernel/include/afriyie/boot_info.h that the kernel decides on, and the queries of the
-- memory map. The first `memory_region_count` entries of `memory_regions` are a list.
use afriyie_os.Common.{
  ℕ, ◌+◌, ◌%◌, ◌^◌, Bool, true, false, ◌&&◌, Option, none, some, List, [], ◌∷◌, ltb, leb, ◌==◌,
  if◌then◌else◌,
}

pub data MemoryType : Type 0 where
  usable reserved acpi_reclaim acpi_nvs bad bootloader kernel framebuffer runtime table : MemoryType

pub record Region : Type 0 where
  pub base : ℕ
  pub length : ℕ
  pub type : MemoryType

pub record Framebuffer : Type 0 where
  pub address : ℕ
  pub size : ℕ
  pub width : ℕ
  pub height : ℕ
  pub pitch : ℕ
  pub bpp : ℕ

pub record BootInfo : Type 0 where
  pub magic : ℕ
  pub version : ℕ
  pub size : ℕ
  pub boot_flags : ℕ
  pub kernel_phys_base : ℕ
  pub kernel_phys_size : ℕ
  pub ramdisk_phys_base : ℕ
  pub ramdisk_size : ℕ
  pub framebuffer : Framebuffer
  pub memory_region_count : ℕ
  pub memory_regions : List Region

-- AF_BOOT_FLAG_FRAMEBUFFER, AF_BOOT_FLAG_RAMDISK
abbrev pub flag_framebuffer : ℕ
flag_framebuffer = 1

abbrev pub flag_ramdisk : ℕ
flag_ramdisk = 16

-- `type == AF_MEM_USABLE`, and `type == AF_MEM_USABLE || type == AF_MEM_BOOTLOADER`
abbrev pub is_usable : MemoryType → Bool
is_usable MemoryType.usable = true
is_usable _ = false

abbrev pub is_allocatable : MemoryType → Bool
is_allocatable MemoryType.usable = true
is_allocatable MemoryType.bootloader = true
is_allocatable _ = false

-- `r->base + r->length` on 64 bits
abbrev pub region_end : Region → ℕ
region_end r = (r.base + r.length) % 2 ^ 64

-- The loops, with the value so far.
unfoldable pub sum_usable : ℕ → List Region → ℕ
sum_usable total [] = total
sum_usable total (r ∷ rs) =
    sum_usable (if is_allocatable r.type then (total + r.length) % 2 ^ 64 else total) rs

unfoldable pub usable_bytes : BootInfo → ℕ
usable_bytes b = sum_usable 0 b.memory_regions

unfoldable pub max_end : ℕ → List Region → ℕ
max_end m [] = m
max_end m (r ∷ rs) = max_end (if ltb m (region_end r) then region_end r else m) rs

unfoldable pub max_address : BootInfo → ℕ
max_address b = max_end 0 b.memory_regions

unfoldable pub max_allocatable_end : ℕ → List Region → ℕ
max_allocatable_end m [] = m
max_allocatable_end m (r ∷ rs) =
    max_allocatable_end (if is_allocatable r.type && ltb m (region_end r) then region_end r else m)
      rs

unfoldable pub max_usable_address : BootInfo → ℕ
max_usable_address b =
    let m = max_allocatable_end 0 b.memory_regions in if m == 0 then max_address b else m

unfoldable pub find_in : List Region → ℕ → Option Region
find_in [] a = none
find_in (r ∷ rs) a =
    let rest = find_in rs a in if leb r.base a && ltb a (region_end r) then some r else rest

unfoldable pub find_region : BootInfo → ℕ → Option Region
find_region b a = find_in b.memory_regions a
