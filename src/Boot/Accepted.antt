-- ===== src/Boot/Accepted.antt =====
-- What `af_boot_info_validate` of kernel/core/boot_info.c lets through.
use afriyie_os.Common.{
  ◌*◌, ◌/◌, ◌%◌, ◌^◌, ◌≤◌, ◌<◌, ◌≡◌, ◌≢◌, refl, ap, ◌↔◌, ◌⊎◌, inl, inr, Bool, true, false, not,
  ◌||◌, some, List, [], ◌∷◌, All, arith, bit_and, ◌==◌, Bool-cases, Option-cases, ok,
}
use afriyie_os.Boot.Info.{MemoryType, BootInfo, Region, Framebuffer, is_usable}
use afriyie_os.Boot.Validate.{
  info_magic, info_version, info_size, scan_regions, validate_framebuffer, validate_regions,
  validate,
}

-- A region that is not empty, on page boundaries.
abbrev pub IsPaged : Region → Type 0
IsPaged r = (r.length ≢ 0) × (r.base % 4096 ≡ 0) × (r.length % 4096 ≡ 0)

abbrev pub HasUsable : List Region → Type 0
HasUsable [] = ⊥
HasUsable (r ∷ rs) = (r.type ≡ MemoryType.usable) ⊎ HasUsable rs

abbrev pub IsDrawable : Framebuffer → Type 0
IsDrawable f =
    (f.address ≢ 0)
    × (f.width ≢ 0)
    × (f.height ≢ 0)
    × (f.bpp ≢ 0)
    × (f.width * f.bpp % 2 ^ 32 / 8 ≤ f.pitch)

pub record IsAccepted (b : BootInfo) : Type 0 where
  pub magic : b.magic ≡ info_magic
  pub version : b.version ≡ info_version
  pub size : info_size ≤ b.size
  pub count : (0 < b.memory_region_count) × (b.memory_region_count ≤ 512)
  pub regions : All IsPaged b.memory_regions
  pub usable : HasUsable b.memory_regions
  pub screen : bit_and b.boot_flags 1 ≢ 0 → IsDrawable b.framebuffer

usable_iff : (t : MemoryType) → (is_usable t ≡ true) ↔ (t ≡ MemoryType.usable)
usable_iff MemoryType.usable = ((λ e. refl), (λ e. refl))
usable_iff _ = ((λ e. cc), (λ e. cc))

region-IsPaged :
    (r : Region)
    → (r.length == 0) ≡ false
    → (not (r.base % 4096 == 0) || not (r.length % 4096 == 0)) ≡ false
    → IsPaged r
region-IsPaged r l a = (ground arith, ground arith, ground arith)

scan_regions-found :
    (h : Bool) (rs : List Region)
    → scan_regions h rs ≡ some true
    → All IsPaged rs × ((h ≡ true) ⊎ HasUsable rs)
unfolding scan_regions
scan_regions-found h [] e = (tt, inl cc)
scan_regions-found h (r ∷ rs) e = elim (Bool-cases (r.length == 0)) [
  | inl empty ↦ cc (rw (empty, scan_regions) at e)
  | inr full ↦ elim (Bool-cases (not (r.base % 4096 == 0) || not (r.length % 4096 == 0))) [
    | inl askew ↦ cc (rw (full, askew, scan_regions) at e)
    | inr paged ↦
        let (all, found) =
          scan_regions-found (is_usable r.type || h) rs (rw (full, paged, scan_regions) at e) in
        (
          (region-IsPaged r full paged, all),
          elim found [
            | inr later ↦ inr (inr later)
            | inl here ↦ elim (Bool-cases (is_usable r.type)) [
              | inl yes_usable ↦ inr (inl ((usable_iff r.type).0 yes_usable))
              | inr other ↦ inl (ground (arith, here, other))
            ]
          ],
        )
  ]
]

carried :
    (h : Bool) (r : Region) (rs : List Region)
    → (h ≡ true) ⊎ HasUsable (r ∷ rs)
    → ((is_usable r.type || h) ≡ true) ⊎ HasUsable rs
carried h r rs (inl e) = inl (ground (arith, e))
carried h r rs (inr (inl t)) = inl (ground (arith, (usable_iff r.type).1 t))
carried h r rs (inr (inr later)) = inr later

scan_regions-accepts :
    (h : Bool) (rs : List Region)
    → All IsPaged rs
    → (h ≡ true) ⊎ HasUsable rs
    → scan_regions h rs ≡ some true
unfolding scan_regions
scan_regions-accepts h [] a (inl e) = ap some e
scan_regions-accepts h [] a (inr x) = absurd x
scan_regions-accepts h (r ∷ rs) ((l, b, s), a) found =
    let full : (r.length == 0) ≡ false = ground arith in
    let paged : (not (r.base % 4096 == 0) || not (r.length % 4096 == 0)) ≡ false = ground arith in
    rw (full, paged) (scan_regions-accepts (is_usable r.type || h) rs a (carried h r rs found))

validate_framebuffer_iff : (f : Framebuffer) → (validate_framebuffer f ≡ ok) ↔ IsDrawable f
unfolding validate_framebuffer
validate_framebuffer_iff f = ground arith

scan_regions_iff :
    (rs : List Region) → (scan_regions false rs ≡ some true) ↔ (All IsPaged rs × HasUsable rs)
scan_regions_iff rs = (
  (λ e.
      let (a, found) = scan_regions-found false rs e in
      (a, elim found [ inl no_start ↦ cc | inr u ↦ u ])),
  (λ (a, u). scan_regions-accepts false rs a (inr u)),
)

validate_regions_iff :
    (b : BootInfo)
    → (validate_regions b ≡ ok) ↔ (
        (scan_regions false b.memory_regions ≡ some true)
        × (bit_and b.boot_flags 1 ≢ 0 → validate_framebuffer b.framebuffer ≡ ok))
unfolding validate_regions
validate_regions_iff b = elim (Option-cases (scan_regions false b.memory_regions)) [
  | inl bad ↦ ground (arith, bad)
  | inr (true, found) ↦ ground (arith, found)
  | inr (false, found) ↦ ground (arith, found)
]

abbrev HeaderFits : BootInfo → Type 0
HeaderFits b =
    (b.magic ≡ info_magic)
    × (b.version ≡ info_version)
    × (info_size ≤ b.size)
    × (0 < b.memory_region_count)
    × (b.memory_region_count ≤ 512)

header_iff : (b : BootInfo) → (validate (some b) ≡ ok) ↔ (HeaderFits b × (validate_regions b ≡ ok))
unfolding validate
header_iff b = ground arith

-- `af_boot_info_validate` returns AF_OK exactly for a handoff with the right magic and version and a
-- size that covers the structure, with 1 to 512 memory regions, none of them empty and all on page
-- boundaries, at least one of them usable, and, where it announces a framebuffer, one with an
-- address, an extent, a depth and a pitch of at least an eighth of width times depth, a product that is taken in 32
-- bits and so may have wrapped.
pub validate_iff : (b : BootInfo) → (validate (some b) ≡ ok) ↔ IsAccepted b
validate_iff b = (
  (λ e.
      let ((m, n, z, lo, hi), x) = (header_iff b).0 e in
      let (scan, draw) = (validate_regions_iff b).0 x in
      let (paged, has) = (scan_regions_iff b.memory_regions).0 scan in
      record {
        magic = m;
        version = n;
        size = z;
        count = (lo, hi);
        regions = paged;
        usable = has;
        screen = λ on. (validate_framebuffer_iff b.framebuffer).0 (draw on);
      }),
  (λ a.
      let scan = (scan_regions_iff b.memory_regions).1 (a.regions, a.usable) in
      let draw : bit_and b.boot_flags 1 ≢ 0 → validate_framebuffer b.framebuffer ≡ ok =
        λ on. (validate_framebuffer_iff b.framebuffer).1 (a.screen on) in
      (header_iff b).1 (
        (a.magic, a.version, a.size, a.count.0, a.count.1),
        (validate_regions_iff b).1 (scan, draw),
      )),
)
