-- ===== src/Text/Memory.antt =====
-- The memory routines of kernel/core/kstring.c. Memory is a function from addresses to bytes, and an int is
-- the 32-bit word that holds it.
use afriyie_os.Common.{
  ℕ, zero, suc, ◌+◌, ◌-◌, ◌*◌, ◌/◌, ◌%◌, ◌^◌, not, ◌&&◌, ◌||◌, ltb, leb, ◌==◌, if◌then◌else◌,
  update, bit_or,
}

abbrev pub Memory : Type 0
Memory = ℕ → ℕ

-- The loops `*d++ = v`.
unfoldable pub fill_bytes : ℕ → Memory → (d v : ℕ) → Memory
fill_bytes zero m d v = m
fill_bytes (suc n) m d v = fill_bytes n (update m d v) (d + 1) v

-- The bytes up to an aligned address, while at least a word is left: the memory, the address and the number
-- of bytes left.
unfoldable pub fill_head : ℕ → Memory → (d v : ℕ) → Memory × ℕ × ℕ
fill_head zero m d v = (m, d, 0)
fill_head (suc n) m d v =
    let rest = fill_head n (update m d v) (d + 1) v in
    if leb 8 (suc n) && not (d % 8 == 0) then rest else (m, d, suc n)

-- `*(af_u64 *)d = w`, the lowest byte first.
unfoldable pub store_word : Memory → (d w : ℕ) → Memory
store_word m d w a = if leb d a && ltb a (d + 8) then w / 256 ^ (a - d) % 256 else m a

unfoldable pub fill_words : ℕ → Memory → (d w : ℕ) → Memory
fill_words zero m d w = m
fill_words (suc n) m d w = fill_words n (store_word m d w) (d + 8) w

-- The byte in all eight places.
unfoldable pub pattern_of : ℕ → ℕ
pattern_of v =
    bit_or
      (bit_or
        (bit_or
          (bit_or (bit_or (bit_or (bit_or (v * 2 ^ 56) (v * 2 ^ 48)) (v * 2 ^ 40)) (v * 2 ^ 32))
            (v * 2 ^ 24))
          (v * 2 ^ 16))
        (v * 2 ^ 8))
      v

unfoldable pub memset : Memory → (dst value n : ℕ) → Memory
memset m dst value n =
    let v = value % 256 in
    let (m1, d1, n1) = fill_head n m dst v in
    let m2 = fill_words (n1 / 8) m1 d1 (pattern_of v) in fill_bytes (n1 % 8) m2 (d1 + n1 / 8 * 8) v

-- The loop from the first byte up.
unfoldable pub copy_up : ℕ → Memory → (d s : ℕ) → Memory
copy_up zero m d s = m
copy_up (suc n) m d s = copy_up n (update m d (m s)) (d + 1) (s + 1)

-- The loop from the last byte down.
unfoldable pub copy_down : ℕ → Memory → (d s : ℕ) → Memory
copy_down zero m d s = m
copy_down (suc n) m d s = copy_down n (update m (d + n) (m (s + n))) d s

unfoldable pub memcpy : Memory → (dst src n : ℕ) → Memory
memcpy m dst src n = copy_up n m dst src

unfoldable pub memmove : Memory → (dst src n : ℕ) → Memory
memmove m dst src n =
    if (dst == src) || (n == 0)
    then m
    else if ltb dst src
    then copy_up n m dst src
    else copy_down n m dst src

-- `(int)a - (int)b` of two bytes.
unfoldable pub int_difference : ℕ → ℕ → ℕ
int_difference a b = (a + 2 ^ 32 - b) % 2 ^ 32

unfoldable pub memcmp : ℕ → Memory → (a b : ℕ) → ℕ
memcmp zero m a b = 0
memcmp (suc n) m a b =
    let rest = memcmp n m (a + 1) (b + 1) in if m a == m b then rest else int_difference (m a) (m b)
