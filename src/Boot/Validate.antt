-- ===== src/Boot/Validate.antt =====
-- `af_boot_info_validate` of kernel/core/boot_info.c.
use afriyie_os.Common.{
  ℕ, ◌+◌, ◌*◌, ◌/◌, ◌%◌, ◌^◌, Bool, false, not, ◌||◌, Option, none, some, List, [], ◌∷◌, bit_and,
  ltb, ◌==◌, if◌then◌else◌, Status, ok, inval, boot_magic, boot_memmap, boot_nofb, boot_version,
}
use afriyie_os.Boot.Info.{BootInfo, Region, Framebuffer, flag_framebuffer, is_usable}

-- AF_BOOT_INFO_MAGIC, AF_BOOT_INFO_VERSION, AF_MAX_MEMORY_REGIONS
abbrev pub info_magic : ℕ
info_magic = 0x4146524F20212121

abbrev pub info_version : ℕ
info_version = 1

abbrev pub max_regions : ℕ
max_regions = 512

-- `sizeof(af_boot_info_t)`: the packed fields before the memory regions, 512 regions, and the rest.
abbrev pub info_size : ℕ
info_size = 172 + 8 + 512 * 24 + 16 + 256

-- The loop over the regions: `none` where it returns AF_ERR_BOOT_MEMMAP, and `has_usable`.
unfoldable pub scan_regions : Bool → List Region → Option Bool
scan_regions has_usable [] = some has_usable
scan_regions has_usable (r ∷ rs) =
    let rest = scan_regions (is_usable r.type || has_usable) rs in
    if r.length == 0
    then none
    else if not (r.base % 4096 == 0) || not (r.length % 4096 == 0)
    then none
    else rest

unfoldable pub validate_framebuffer : Framebuffer → Status
validate_framebuffer f =
    if (f.address == 0) || (f.width == 0) || (f.height == 0)
    then boot_nofb
    else if f.bpp == 0
    then boot_nofb
    else if ltb f.pitch (f.width * f.bpp % 2 ^ 32 / 8)
    then boot_nofb
    else ok

unfoldable pub validate_regions : BootInfo → Status
validate_regions b = elim (scan_regions false b.memory_regions) [
  | none ↦ boot_memmap
  | some has_usable ↦
      if not has_usable
      then boot_memmap
      else if bit_and b.boot_flags flag_framebuffer == 0
      then ok
      else validate_framebuffer b.framebuffer
]

unfoldable pub validate : Option BootInfo → Status
validate none = inval
validate (some b) =
    if not (b.magic == info_magic)
    then boot_magic
    else if not (b.version == info_version)
    then boot_version
    else if ltb b.size info_size
    then boot_version
    else if b.memory_region_count == 0
    then boot_memmap
    else if ltb max_regions b.memory_region_count
    then boot_memmap
    else validate_regions b
