-- ===== src/Common/Bits.antt =====
-- `&` and `|` of C on unsigned words, at variables: a bit set as the set of its bits.
use Prim.Native.Nat.{
  ℕ, zero, suc, ◌+◌, ◌*◌, ◌/◌, ◌%◌, ◌^◌, ◌≤◌, ◌<◌, min, max, bit_and, bit_or, digits,
  bit_and-bitwise, bit_or-bitwise,
}
use native.Mathlib.Nat.{pow-suc}
use native.Mathlib.Decide.{ℕ_discrete}
use mathlib.Core.Path.{◌≡◌, refl, sym, ap, ◌∙◌}
use native.Mathlib.Omega.{arith}

-- The native operations are a recursion on the digits of the first operand, given as many rounds
-- as its value. Rounds beyond that change nothing.
module _ (z : ℕ → ℕ) (f : ℕ → ℕ → ℕ) where
  spare_round : (n x y : ℕ) → x ≤ n → digits z f (suc n) x y ≡ digits z f n x y
  spare_round zero zero y le = refl
  spare_round (suc n) zero y le = refl
  spare_round zero (suc x) y le = elim le [ ]
  spare_round (suc n) (suc x) y le =
      ap (λ (t : ℕ). t * 2 + f (suc x % 2) (y % 2))
        (spare_round n (suc x / 2) (y / 2) (omega arith))

  spare_rounds : (m n x y : ℕ) → x ≤ n → n ≤ m → digits z f m x y ≡ digits z f n x y
  spare_rounds zero n x y le up =
      let e : zero ≡ n = omega arith in ap (λ (t : ℕ). digits z f t x y) e
  spare_rounds (suc m) n x y le up = elim (ℕ_discrete n (suc m)) [
    | yes e ↦ ap (λ (t : ℕ). digits z f t x y) (sym e)
    | no ne ↦ spare_round m x y (omega arith) ∙ spare_rounds m n x y le (omega arith)
  ]

  -- The lowest digit, and the rest with just the rounds that it needs.
  lowest_digit :
      (x y : ℕ)
      → digits z f (suc x) (suc x) y
        ≡ digits z f (suc x / 2) (suc x / 2) (y / 2) * 2 + f (suc x % 2) (y % 2)
  lowest_digit x y =
      ap (λ (t : ℕ). t * 2 + f (suc x % 2) (y % 2))
        (spare_rounds x (suc x / 2) (suc x / 2) (y / 2) (omega arith) (omega arith))

and_none : (y : ℕ) → bit_and 0 y ≡ 0
and_none y = bit_and-bitwise 0 y

or_none : (y : ℕ) → bit_or 0 y ≡ y
or_none y = bit_or-bitwise 0 y

pub and_by_digit : (x y : ℕ) → bit_and x y ≡ 2 * bit_and (x / 2) (y / 2) + min (x % 2) (y % 2)
and_by_digit zero y = omega (arith, and_none y, and_none (y / 2))
and_by_digit (suc x) y = omega (
  arith,
  bit_and-bitwise (suc x) y ∙ lowest_digit (λ t. 0) min x y,
  bit_and-bitwise (suc x / 2) (y / 2),
)

pub or_by_digit : (x y : ℕ) → bit_or x y ≡ 2 * bit_or (x / 2) (y / 2) + max (x % 2) (y % 2)
or_by_digit zero y = omega (arith, or_none y, or_none (y / 2))
or_by_digit (suc x) y = omega (
  arith,
  bit_or-bitwise (suc x) y ∙ lowest_digit (λ t. t) max x y,
  bit_or-bitwise (suc x / 2) (y / 2),
)

or_zero_below : (n x : ℕ) → x ≤ n → bit_or x 0 ≡ x
or_zero_below n zero le = refl
or_zero_below zero (suc x) le = elim le [ ]
or_zero_below (suc n) (suc x) le =
    omega (arith, or_by_digit (suc x) 0, or_zero_below n (suc x / 2) (omega arith))

and_zero_below : (n x : ℕ) → x ≤ n → bit_and x 0 ≡ 0
and_zero_below n zero le = and_none 0
and_zero_below zero (suc x) le = elim le [ ]
and_zero_below (suc n) (suc x) le =
    omega (arith, and_by_digit (suc x) 0, and_zero_below n (suc x / 2) (omega arith))

pub and_zero : (x : ℕ) → bit_and x 0 ≡ 0
and_zero x = and_zero_below x x (omega arith)

bit_and_comm_below : (n a b : ℕ) → a ≤ n → bit_and a b ≡ bit_and b a
bit_and_comm_below n zero b h = and_none b ∙ sym (and_zero_below b b (omega arith))
bit_and_comm_below zero (suc a) b h = absurd (omega arith)
bit_and_comm_below (suc n) (suc a) b h = omega (
  arith,
  and_by_digit (suc a) b,
  and_by_digit b (suc a),
  bit_and_comm_below n (suc a / 2) (b / 2) (omega arith),
)

pub bit_and_comm : (a b : ℕ) → bit_and a b ≡ bit_and b a
bit_and_comm a b = bit_and_comm_below a a b (omega arith)

-- The halves and the lowest bit of a conjunction.
bit_and_half : (a b : ℕ) → bit_and a b / 2 ≡ bit_and (a / 2) (b / 2)
bit_and_half a b = omega (arith, and_by_digit a b)

bit_and_low : (a b : ℕ) → bit_and a b % 2 ≡ min (a % 2) (b % 2)
bit_and_low a b = omega (arith, and_by_digit a b)

bit_and_assoc_below : (n a b c : ℕ) → a ≤ n → bit_and (bit_and a b) c ≡ bit_and a (bit_and b c)
bit_and_assoc_below n zero b c h =
    ap (λ x. bit_and x c) (and_none b) ∙ and_none c ∙ sym (and_none (bit_and b c))
bit_and_assoc_below zero (suc a) b c h = absurd (omega arith)
bit_and_assoc_below (suc n) (suc a) b c h = omega (
  arith,
  and_by_digit (bit_and (suc a) b) c,
  and_by_digit (suc a) (bit_and b c),
  bit_and_low (suc a) b,
  bit_and_low b c,
  ap (λ x. bit_and x (c / 2)) (bit_and_half (suc a) b),
  ap (λ x. bit_and (suc a / 2) x) (bit_and_half b c),
  bit_and_assoc_below n (suc a / 2) (b / 2) (c / 2) (omega arith),
)

pub bit_and_assoc : (a b c : ℕ) → bit_and (bit_and a b) c ≡ bit_and a (bit_and b c)
bit_and_assoc a b c = bit_and_assoc_below a a b c (omega arith)

-- The test `(a & b) == a` is transitive: what is covered by a covered set is covered.
pub bit_and_subset_trans : (a b c : ℕ) → bit_and a b ≡ a → bit_and b c ≡ b → bit_and a c ≡ a
bit_and_subset_trans a b c p q =
    ap (λ x. bit_and x c) (sym p) ∙ bit_and_assoc a b c ∙ ap (bit_and a) q ∙ p

-- `(a << k) | b` is a sum where `b` has only the `k` low bits.
pub bit_or-shifted : (k a b : ℕ) → b < 2 ^ k → bit_or (a * 2 ^ k) b ≡ a * 2 ^ k + b
bit_or-shifted zero a b h = ground (arith, or_zero_below a a)
bit_or-shifted (suc k) a b h = ground (
  arith,
  or_by_digit (a * 2 ^ suc k) b,
  ap (λ (t : ℕ). a * t) (pow-suc 2 k),
  pow-suc 2 k,
  bit_or-shifted k a (b / 2),
)

bit_or_comm_below : (n a b : ℕ) → a ≤ n → bit_or a b ≡ bit_or b a
bit_or_comm_below n zero b h = or_none b ∙ sym (or_zero_below b b (omega arith))
bit_or_comm_below zero (suc a) b h = absurd (omega arith)
bit_or_comm_below (suc n) (suc a) b h = omega (
  arith,
  or_by_digit (suc a) b,
  or_by_digit b (suc a),
  bit_or_comm_below n (suc a / 2) (b / 2) (omega arith),
)

-- `a | (b << k)` is a sum where `a` has only the `k` low bits.
pub bit_or-low : (k a b : ℕ) → a < 2 ^ k → bit_or a (b * 2 ^ k) ≡ a + b * 2 ^ k
bit_or-low k a b lt =
    omega (arith, bit_or_comm_below a a (b * 2 ^ k) (omega arith), bit_or-shifted k b a lt)

-- A mask of low bits is a remainder.
bit_and-seven : (a : ℕ) → bit_and a 7 ≡ a % 8
bit_and-seven a = omega (
  arith,
  and_by_digit a 7,
  and_by_digit (a / 2) 3,
  and_by_digit (a / 2 / 2) 1,
  and_zero_below (a / 2 / 2 / 2) (a / 2 / 2 / 2),
)

bit_and_127 : (a : ℕ) → bit_and a 127 ≡ a % 128
bit_and_127 a = omega (
  arith,
  and_by_digit a 127,
  and_by_digit (a / 2) 63,
  and_by_digit (a / 2 / 2) 31,
  and_by_digit (a / 2 / 2 / 2) 15,
  bit_and-seven (a / 2 / 2 / 2 / 2),
)

pub bit_and-low_byte : (a : ℕ) → bit_and a 0xff ≡ a % 256
bit_and-low_byte a = omega (arith, and_by_digit a 255, bit_and_127 (a / 2))
