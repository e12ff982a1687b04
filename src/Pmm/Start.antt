-- ===== src/Pmm/Start.antt =====
-- What `pmm_init` of kernel/core/pmm.c leaves free.
use afriyie_os.Common.{
  ℕ, ◌+◌, ◌-◌, ◌/◌, ◌%◌, ◌^◌, ◌≤◌, ◌<◌, ◌≡◌, ◌≢◌, refl, sym, ap, subst, ◌∙◌, inl, inr, Bool, true,
  false, ◌||◌, some, All, arith, ltb, ◌==◌, if◌then◌else◌, Bool-cases, bit_and, Status, ok,
}
use afriyie_os.Boot.Validate.{info_size}
use afriyie_os.Boot.Info.{BootInfo, max_usable_address}
use afriyie_os.Pmm.State.{addr_to_frame, align_down, Pmm, frame_is_used}
use afriyie_os.Pmm.Frames.{full_byte-used}
use afriyie_os.Pmm.Invariant.{IsValid, IsOpen-IsValid}
use afriyie_os.Pmm.Reserve.{touches}
use afriyie_os.Pmm.Boundaries.{IsLow, max_usable_address-le, pick_region-le}
use afriyie_os.Pmm.Init.{
  kernel_limit, pick_region, metadata_bytes, all_used, free_regions, count_free, kept_ranges,
  set_up, init,
}
use afriyie_os.Pmm.Clear.{InMap, free_regions-Freed}
use afriyie_os.Pmm.Keep.{mapped-IsOpen, Avoids, IsLowRange, reserve_all-Kept}

-- The handoff describes no memory, and the kernel no image, beyond 8 TiB.
pub record IsLowBoot (b : BootInfo) (kernel_start kernel_end : ℕ) : Type 0 where
  pub regions : All IsLow b.memory_regions
  pub image : (kernel_start ≤ 2 ^ 43) × (kernel_limit b kernel_end ≤ 2 ^ 43)
  pub screen : b.framebuffer.address + b.framebuffer.size ≤ 2 ^ 43
  pub ramdisk : b.ramdisk_phys_base + b.ramdisk_size ≤ 2 ^ 43

kept_ranges-low :
    (b : BootInfo) (kernel_start kernel_end region_base n : ℕ)
    → IsLowBoot b kernel_start kernel_end
    → region_base + metadata_bytes n ≤ 2 ^ 43
    → All IsLowRange (kept_ranges b kernel_start kernel_end region_base n)
kept_ranges-low b kernel_start kernel_end region_base n low meta = (
  omega arith,
  (
    omega arith,
    (
      ground (arith, low.image),
      (omega arith, (ground (arith, low.screen), (ground (arith, low.ramdisk), tt))),
    ),
  ),
)

count_free-used : (x : Pmm) (g : ℕ) → frame_is_used (count_free x) g ≡ frame_is_used x g
unfolding count_free frame_is_used
count_free-used x g = refl

count_free-size : (x : Pmm) → (count_free x).frame_count ≡ x.frame_count
unfolding count_free
count_free-size x = refl

null_touched : touches 0 4096 0 ≡ true
null_touched = refl

set_up_lem :
    (b : BootInfo) (kernel_start kernel_end region_base n : ℕ)
    → IsLowBoot b kernel_start kernel_end
    → region_base + metadata_bytes n ≤ 2 ^ 43
    → 0 < n
    → n ≤ 2 ^ 31
    → let p = set_up b kernel_start kernel_end region_base n in
      IsValid p
      × (p.frame_count ≡ n)
      × ((g : ℕ)
          → g < n
          → frame_is_used p g ≡ false
          → InMap b.memory_regions g
            × Avoids (kept_ranges b kernel_start kernel_end region_base n) g)
unfolding set_up
set_up_lem b kernel_start kernel_end region_base n low meta pos le =
    let q : Pmm = count_free (free_regions (all_used n) b.memory_regions) in
    let freed = free_regions-Freed (all_used n) b.memory_regions low.regions in
    let k =
      reserve_all-Kept q (kept_ranges b kernel_start kernel_end region_base n)
        (mapped-IsOpen n b.memory_regions low.regions le)
        (kept_ranges-low b kernel_start kernel_end region_base n low meta) in
    let sized : q.frame_count ≡ n =
      count_free-size (free_regions (all_used n) b.memory_regions) ∙ freed.kept.1 in
    let inside : (g : ℕ)
        → g < n
        → frame_is_used (set_up b kernel_start kernel_end region_base n) g ≡ false
        → InMap b.memory_regions g
          × Avoids (kept_ranges b kernel_start kernel_end region_base n) g =
      λ g lt free.
        let (before, out) = k.avoids g (omega (arith, sized)) free in
        let back = sym (count_free-used (free_regions (all_used n) b.memory_regions) g) ∙ before in
        elim (freed.back g back) [
          | inl never ↦ ground (arith, never, full_byte-used (all_used n) g refl)
          | inr allowed ↦ (allowed, out)
        ] in
    let null : frame_is_used (set_up b kernel_start kernel_end region_base n) 0 ≡ true =
      elim (Bool-cases (frame_is_used (set_up b kernel_start kernel_end region_base n) 0)) [
        | inl used ↦ used
        | inr free ↦
            let (_, out) = k.avoids 0 (omega (arith, sized)) free in
            absurd (clash (touches 0 4096 0) null_touched (out.0 (omega arith)))
      ] in
    (
      IsOpen-IsValid (set_up b kernel_start kernel_end region_base n) k.steady null,
      k.size ∙ sized,
      inside,
    )
  where
    clash : (x : Bool) → x ≡ true → x ≡ false → ⊥
    clash x t e = cc

-- No address from `low` to `high` lies in the frame.
abbrev pub Apart : ℕ → ℕ → ℕ → Type 0
Apart g low high = (a : ℕ) → low ≤ a → a < high → a / 4096 ≢ g

-- The frame is none of those that must survive.
pub record IsSpare (b : BootInfo) (kernel_start kernel_end region_base n g : ℕ) : Type 0 where
  pub null : 0 < g
  pub backup : Apart g 0x7000 (0x7000 + info_size)
  pub linked : Apart g kernel_start kernel_end
  pub reported : Apart g kernel_start ((b.kernel_phys_base + b.kernel_phys_size) % 2 ^ 64)
  pub tables : Apart g region_base (region_base + metadata_bytes n)
  pub screen :
      bit_and b.boot_flags 1 ≢ 0
      → Apart g b.framebuffer.address (b.framebuffer.address + b.framebuffer.size)
  pub ramdisk :
      bit_and b.boot_flags 16 ≢ 0
      → Apart g b.ramdisk_phys_base (b.ramdisk_phys_base + b.ramdisk_size)

apart : (g base size : ℕ) → (0 < size → touches base size g ≡ false) → Apart g base (base + size)
apart g base size out a lo hi e = ground (arith, out (omega arith))

apart_if :
    (g base size flag : ℕ)
    → flag ≢ 0
    → (0 < (if flag == 0 then 0 else size) → touches base (if flag == 0 then 0 else size) g ≡ false)
    → Apart g base (base + size)
apart_if g base size flag on out =
    let same : (if flag == 0 then 0 else size) ≡ size = ground arith in
    subst (λ z. Apart g base (base + z)) same (apart g base (if flag == 0 then 0 else size) out)

-- Up to an end that the range reaches.
apart_until :
    (g base limit high : ℕ)
    → high ≤ limit
    → Apart g base (base + (if ltb base limit then limit - base else 0))
    → Apart g base high
apart_until g base limit high le out a lo hi e =
    let reach : a < base + (if ltb base limit then limit - base else 0) = ground arith in
    out a lo reach e

Avoids-IsSpare :
    (b : BootInfo) (kernel_start kernel_end region_base n g : ℕ)
    → Avoids (kept_ranges b kernel_start kernel_end region_base n) g
    → IsSpare b kernel_start kernel_end region_base n g
Avoids-IsSpare b kernel_start kernel_end region_base n g
      (null, (backup, (image, (tables, (screen, (ramdisk, _)))))) =
    let whole = apart g kernel_start _ image in
    record {
      null = ground (arith, null (omega arith));
      backup = apart g 0x7000 info_size backup;
      linked =
          apart_until g kernel_start (kernel_limit b kernel_end) kernel_end (ground arith) whole;
      reported =
          apart_until g kernel_start (kernel_limit b kernel_end)
            ((b.kernel_phys_base + b.kernel_phys_size) % 2 ^ 64) (ground arith) whole;
      tables = apart g region_base (metadata_bytes n) tables;
      screen = λ on. apart_if g b.framebuffer.address b.framebuffer.size _ on screen;
      ramdisk = λ on. apart_if g b.ramdisk_phys_base b.ramdisk_size _ on ramdisk;
    }

abbrev Starts : BootInfo → ℕ → ℕ → ℕ → Pmm → Type 0
Starts b kernel_start kernel_end region_base p =
    IsValid p
    × ((g : ℕ)
        → g < p.frame_count
        → frame_is_used p g ≡ false
        → InMap b.memory_regions g × IsSpare b kernel_start kernel_end region_base p.frame_count g)

set_up-Starts :
    (b : BootInfo) (kernel_start kernel_end region_base n : ℕ)
    → IsLowBoot b kernel_start kernel_end
    → region_base + metadata_bytes n ≤ 2 ^ 43
    → 0 < n
    → n ≤ 2 ^ 31
    → Starts b kernel_start kernel_end region_base (set_up b kernel_start kernel_end region_base n)
set_up-Starts b kernel_start kernel_end region_base n low meta pos le =
    let (v, size, inside) = set_up_lem b kernel_start kernel_end region_base n low meta pos le in
    (
      v,
      (λ g lt free.
          let (allowed, out) = inside g (omega (arith, size)) free in
          (
            allowed,
            subst (λ m. IsSpare b kernel_start kernel_end region_base m g) (sym size)
                (Avoids-IsSpare b kernel_start kernel_end region_base n g out),
          )),
    )

-- Where `pmm_init` returns AF_OK, for a handoff and a kernel image below 8 TiB, the state is valid,
-- and every frame that is free, and so may be handed out, lies whole in a region of the memory map
-- that is usable or was the loader's, is not frame 0, and has no address in the backup of the
-- handoff, the kernel image from the linker's start to the linker's and to the reported end, the
-- memory manager's own tables, an announced framebuffer, or an announced ramdisk.
pub init_lem :
    (p p' : Pmm) (b : BootInfo) (kernel_start kernel_end : ℕ)
    → IsLowBoot b kernel_start kernel_end
    → init p (some b) kernel_start kernel_end ≡ (p', ok)
    → IsValid p'
      × ((g : ℕ)
          → g < p'.frame_count
          → frame_is_used p' g ≡ false
          → InMap b.memory_regions g
            × IsSpare b kernel_start kernel_end
                (pick_region b (0, 0) b.memory_regions).0
                p'.frame_count
                g)
unfolding init
init_lem p p' b kernel_start kernel_end low e =
    let highest : ℕ = max_usable_address b in
    let n : ℕ = addr_to_frame (align_down highest) in
    let best : ℕ × ℕ = pick_region b (0, 0) b.memory_regions in
    elim (Bool-cases (highest == 0)) [
      | inl nothing ↦ cc (rw (nothing, init) at e)
      | inr some_memory ↦ elim (Bool-cases (ltb n 1024)) [
        | inl few ↦ cc (rw (some_memory, few, init) at e)
        | inr many ↦ elim (Bool-cases ((best.0 == 0) || ltb best.1 (metadata_bytes n + 0x100000))) [
          | inl cramped ↦ cc (rw (some_memory, many, cramped, init) at e)
          | inr room ↦
              let made : set_up b kernel_start kernel_end best.0 n ≡ p' =
                ap (λ (x : Pmm × Status). x.0) (rw (some_memory, many, room, init) at e) in
              let top = max_usable_address-le b low.regions in
              let reach = pick_region-le b (0, 0) b.memory_regions low.regions (omega arith) in
              let fits : metadata_bytes n ≤ best.1 = ground arith in
              let enough : 1024 ≤ n = ground arith in
              subst (Starts b kernel_start kernel_end best.0) made (
                set_up-Starts b kernel_start kernel_end best.0 n low (omega (arith, reach))
                  (omega arith) (omega (arith, top)))
        ]
      ]
    ]
