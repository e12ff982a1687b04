-- ===== src/Boot/Tests.antt =====
-- kernel/core/boot_info.c on a concrete handoff.
use afriyie_os.Common.{◌≡◌, refl, ◌↔◌, some, ok, boot_memmap, boot_nofb}
use afriyie_os.Boot.Info.{usable_bytes, sum_usable, max_usable_address, max_allocatable_end}
use afriyie_os.Boot.Validate.{scan_regions, validate_framebuffer, validate_regions, validate}
use afriyie_os.Boot.Sample.{screen, handoff}
use afriyie_os.Boot.Accepted.{IsAccepted, validate_iff}

handoff_ok : validate (some handoff) ≡ ok
unfolding validate validate_regions validate_framebuffer scan_regions
handoff_ok = refl

short_pitch :
    validate (some (record handoff { framebuffer = record screen { pitch = 1024 } })) ≡ boot_nofb
unfolding validate validate_regions validate_framebuffer scan_regions
short_pitch = refl

empty_map : validate (some (record handoff { memory_region_count = 0 })) ≡ boot_memmap
unfolding validate
empty_map = refl

map_extent : (usable_bytes handoff ≡ 0x419f000) × (max_usable_address handoff ≡ 0x4200000)
unfolding usable_bytes sum_usable max_usable_address max_allocatable_end
map_extent = (refl, refl)

validate_iff_example : (validate (some handoff) ≡ ok) ↔ IsAccepted handoff
validate_iff_example = validate_iff handoff
