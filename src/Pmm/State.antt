-- ===== src/Pmm/State.antt =====
-- The static variables of kernel/core/pmm.c, and its bitmap primitives. The bitmap is held as its
-- bytes.
use afriyie_os.Common.{ℕ, ◌+◌, ◌-◌, ◌*◌, ◌/◌, ◌%◌, ◌^◌, Bool, not, bit_and, bit_or, ◌==◌, update}

-- `mapped` says that `s_bitmap` is not NULL.
pub record Pmm : Type 0 where
  pub mapped : Bool
  pub bitmap : ℕ → ℕ
  pub refcount : ℕ → ℕ
  pub frame_count : ℕ
  pub usable_frames : ℕ
  pub free_frames : ℕ
  pub search_hint : ℕ

-- AF_FRAME_SIZE, AF_FRAME_INVALID, AF_REFCOUNT_MAX
abbrev pub frame_size : ℕ
frame_size = 4096

abbrev pub frame_invalid : ℕ
frame_invalid = 0

abbrev pub refcount_max : ℕ
refcount_max = 255

-- `frame >> 3` is `frame / 8`, and `frame & 7` is `frame % 8`.
unfoldable pub frame_is_used : Pmm → ℕ → Bool
frame_is_used p f = not (bit_and (p.bitmap (f / 8)) (2 ^ (f % 8)) == 0)

unfoldable pub frame_mark_used : Pmm → ℕ → Pmm
frame_mark_used p f = record p {
  bitmap = update p.bitmap (f / 8) (bit_or (p.bitmap (f / 8)) (2 ^ (f % 8)));
}

-- `(af_u8)~(1u << (frame & 7u))`
abbrev pub clear_mask : ℕ → ℕ
clear_mask k = (2 ^ 32 - 1 - 2 ^ k) % 2 ^ 8

unfoldable pub frame_mark_free : Pmm → ℕ → Pmm
frame_mark_free p f = record p {
  bitmap = update p.bitmap (f / 8) (bit_and (p.bitmap (f / 8)) (clear_mask (f % 8)));
}

abbrev pub addr_to_frame : ℕ → ℕ
addr_to_frame a = a / 4096 % 2 ^ 32

abbrev pub frame_to_addr : ℕ → ℕ
frame_to_addr f = f * 4096 % 2 ^ 64

-- AF_ALIGN_DOWN and AF_ALIGN_UP for frames, on 64-bit words.
abbrev pub align_down : ℕ → ℕ
align_down a = a / 4096 * 4096

abbrev pub align_up : ℕ → ℕ
align_up a = (a + 4095) % 2 ^ 64 / 4096 * 4096
