-- ===== src/Pmm/Frames.antt =====
-- The bitmap of kernel/core/pmm.c as the set of its frames: a mark changes one frame.
use afriyie_os.Common.{
  ℕ, ◌-◌, ◌/◌, ◌%◌, ◌^◌, ◌<◌, ◌≡◌, ap, true, false, bit_and, bit_or, arith, ◌==◌, if◌then◌else◌,
}
use afriyie_os.Common.Digits.{
  digit, digit-le, digit-or, digit-and, digit-power, digit-complement, and-power, power-lt,
  power_pos, digit-zero,
}
use afriyie_os.Pmm.State.{Pmm, frame_is_used, frame_mark_used, frame_mark_free, clear_mask}

-- A frame is used exactly when its digit is one.
digit_of : (p : Pmm) (f : ℕ) → frame_is_used p f ≡ (digit (f % 8) (p.bitmap (f / 8)) == 1)
unfolding frame_is_used
digit_of p f = ground (
  arith,
  and-power (f % 8) (p.bitmap (f / 8)),
  power_pos (f % 8),
  digit-le (f % 8) (p.bitmap (f / 8)),
)

used_mask : (k j b : ℕ) → digit j (bit_or b (2 ^ k)) ≡ (if j == k then 1 else digit j b)
used_mask k j b = ground (arith, digit-or j b (2 ^ k), digit-power j k, digit-le j b)

free_mask :
    (k j b : ℕ)
    → k < 8
    → j < 8
    → digit j (bit_and b (clear_mask k)) ≡ (if j == k then 0 else digit j b)
free_mask k j b hk hj =
    let low : 2 ^ k < 256 = power-lt k 8 hk in
    let cut : clear_mask k ≡ 255 - 2 ^ k = omega (arith, low) in
    let comp : digit j (255 - 2 ^ k) ≡ 1 - digit j (2 ^ k) = digit-complement 8 j (2 ^ k) low hj in
    ground (
      arith,
      ap (λ x. digit j (bit_and b x)) cut,
      digit-and j b (255 - 2 ^ k),
      comp,
      digit-power j k,
      digit-le j b,
    )

pub mark_used-used :
    (p : Pmm) (f g : ℕ)
    → frame_is_used (frame_mark_used p f) g ≡ (if g == f then true else frame_is_used p g)
unfolding frame_mark_used
mark_used-used p f g = ground (
  arith,
  digit_of p g,
  digit_of (frame_mark_used p f) g,
  used_mask (f % 8) (g % 8) (p.bitmap (f / 8)),
)

pub mark_free-used :
    (p : Pmm) (f g : ℕ)
    → frame_is_used (frame_mark_free p f) g ≡ (if g == f then false else frame_is_used p g)
unfolding frame_mark_free
mark_free-used p f g = ground (
  arith,
  digit_of p g,
  digit_of (frame_mark_free p f) g,
  free_mask (f % 8) (g % 8) (p.bitmap (f / 8)) (omega arith) (omega arith),
)

-- The frames of a byte of ones are used.
pub full_byte-used : (p : Pmm) (g : ℕ) → p.bitmap (g / 8) ≡ 255 → frame_is_used p g ≡ true
full_byte-used p g full =
    let one : digit (g % 8) (255 - 0) ≡ 1 - digit (g % 8) 0 =
      digit-complement 8 (g % 8) 0 (omega arith) (omega arith) in
    ground (arith, digit_of p g, ap (digit (g % 8)) full, one, digit-zero (g % 8))
