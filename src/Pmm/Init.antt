-- ===== src/Pmm/Init.antt =====
-- `pmm_init` of kernel/core/pmm.c. The linker's `__kernel_start` and `__kernel_end` are parameters.
use afriyie_os.Common.{
  ℕ, ◌+◌, ◌-◌, ◌*◌, ◌/◌, ◌%◌, ◌^◌, Bool, true, not, ◌&&◌, ◌||◌, Option, none, some, List, [], ◌∷◌,
  bit_and, ltb, ◌==◌, if◌then◌else◌, Status, ok, inval, nomem, boot_memmap,
}
use afriyie_os.Common.Count.{count}
use afriyie_os.Boot.Info.{
  BootInfo, Region, is_usable, is_allocatable, region_end, flag_framebuffer, flag_ramdisk,
  max_usable_address,
}
use afriyie_os.Boot.Validate.{info_size}
use afriyie_os.Pmm.State.{Pmm, addr_to_frame, align_down}
use afriyie_os.Pmm.Range.{mark_range_free, reserve_range}
use afriyie_os.Pmm.Invariant.{is_free}

-- Bytes of the bitmap, in whole frames, and of the bitmap with the reference counts.
abbrev pub bitmap_bytes : ℕ → ℕ
bitmap_bytes n = ((n + 7) % 2 ^ 32 / 8 + 4095) / 4096 * 4096

abbrev pub metadata_bytes : ℕ → ℕ
metadata_bytes n = bitmap_bytes n + n

-- The region overlaps the kernel image that the loader reported.
abbrev pub overlaps_kernel : BootInfo → Region → Bool
overlaps_kernel b r =
    ltb r.base ((b.kernel_phys_base + b.kernel_phys_size) % 2 ^ 64)
    && ltb b.kernel_phys_base (region_end r)

-- The largest usable region apart from the kernel: its base and size, and the best so far.
unfoldable pub pick_region : BootInfo → ℕ × ℕ → List Region → ℕ × ℕ
pick_region b best [] = best
pick_region b best (r ∷ rs) =
    let skipped = not (is_usable r.type) || overlaps_kernel b r || not (ltb best.1 r.length) in
    pick_region b (if skipped then best else (r.base, r.length)) rs

-- All frames used; the entries past the arrays are never read.
abbrev pub all_used : ℕ → Pmm
all_used n = record {
  mapped = true;
  bitmap = λ i. 255;
  refcount = λ f. 0;
  frame_count = n;
  usable_frames = 0;
  free_frames = 0;
  search_hint = 0;
}

unfoldable pub free_regions : Pmm → List Region → Pmm
free_regions p [] = p
free_regions p (r ∷ rs) =
    free_regions (if is_allocatable r.type then mark_range_free p r.base r.length else p) rs

-- The loop that counts what was freed.
unfoldable pub count_free : Pmm → Pmm
count_free p =
    let free = count (is_free p) p.frame_count in
    record p { free_frames = p.free_frames + free; usable_frames = p.usable_frames + free }

abbrev pub kernel_limit : BootInfo → ℕ → ℕ
kernel_limit b kernel_end =
    let reported = (b.kernel_phys_base + b.kernel_phys_size) % 2 ^ 64 in
    if ltb kernel_end reported then reported else kernel_end

-- The ranges to reserve, in order, with their sizes; a size of 0 reserves nothing.
abbrev pub kept_ranges : BootInfo → ℕ → ℕ → ℕ → ℕ → List (ℕ × ℕ)
kept_ranges b kernel_start kernel_end region_base n =
    let limit = kernel_limit b kernel_end in
    (0, 4096)
    ∷ (0x7000, info_size)
    ∷ (kernel_start, if ltb kernel_start limit then limit - kernel_start else 0)
    ∷ (region_base, metadata_bytes n)
    ∷ (
      b.framebuffer.address,
      if bit_and b.boot_flags flag_framebuffer == 0 then 0 else b.framebuffer.size,
    )
    ∷ (b.ramdisk_phys_base, if bit_and b.boot_flags flag_ramdisk == 0 then 0 else b.ramdisk_size)
    ∷ []

unfoldable pub reserve_all : Pmm → List (ℕ × ℕ) → Pmm
reserve_all p [] = p
reserve_all p (x ∷ xs) = reserve_all (reserve_range p x.0 x.1) xs

-- The state after a successful start over `n` frames with the metadata at `region_base`.
unfoldable pub set_up : BootInfo → ℕ → ℕ → ℕ → ℕ → Pmm
set_up b kernel_start kernel_end region_base n =
    reserve_all (count_free (free_regions (all_used n) b.memory_regions))
      (kept_ranges b kernel_start kernel_end region_base n)

unfoldable pub init : Pmm → Option BootInfo → ℕ → ℕ → Pmm × Status
init p none kernel_start kernel_end = (p, inval)
init p (some b) kernel_start kernel_end =
    let highest = max_usable_address b in
    let n = addr_to_frame (align_down highest) in
    let best = pick_region b (0, 0) b.memory_regions in
    if highest == 0
    then (p, boot_memmap)
    else if ltb n 1024
    then (record p { frame_count = n }, boot_memmap)
    else if (best.0 == 0) || ltb best.1 (metadata_bytes n + 0x100000)
    then (record p { frame_count = n }, nomem)
    else (set_up b kernel_start kernel_end best.0 n, ok)
