-- ===== src/Common/Digits.antt =====
-- Single binary digits of a word, and what `|`, `&` and the complement do to them.
use Prim.Native.Nat.{ℕ, zero, suc, ◌-◌, ◌*◌, ◌/◌, ◌%◌, ◌^◌, ◌≤◌, ◌<◌, min, max, bit_and, bit_or}
use native.Mathlib.Nat.{pow-suc}
use mathlib.Core.Path.{◌≡◌, refl, ap, ◌∙◌}
use native.Mathlib.Omega.{arith}
use afriyie_os.Common.Tests.{◌==◌, if◌then◌else◌}
use afriyie_os.Common.Bits.{and_by_digit, or_by_digit, and_zero}

-- Digit `j` of a number.
pub digit : ℕ → ℕ → ℕ
digit zero x = x % 2
digit (suc j) x = digit j (x / 2)

pub digit-le : (j x : ℕ) → digit j x ≤ 1
unfolding digit
digit-le zero x = omega arith
digit-le (suc j) x = digit-le j (x / 2)

pub digit-or : (j x y : ℕ) → digit j (bit_or x y) ≡ max (digit j x) (digit j y)
unfolding digit
digit-or zero x y = omega (arith, or_by_digit x y)
digit-or (suc j) x y =
    let half : bit_or x y / 2 ≡ bit_or (x / 2) (y / 2) = omega (arith, or_by_digit x y) in
    ap (digit j) half ∙ digit-or j (x / 2) (y / 2)

pub digit-and : (j x y : ℕ) → digit j (bit_and x y) ≡ min (digit j x) (digit j y)
unfolding digit
digit-and zero x y = omega (arith, and_by_digit x y)
digit-and (suc j) x y =
    let half : bit_and x y / 2 ≡ bit_and (x / 2) (y / 2) = omega (arith, and_by_digit x y) in
    ap (digit j) half ∙ digit-and j (x / 2) (y / 2)

pub digit-zero : (j : ℕ) → digit j 0 ≡ 0
unfolding digit
digit-zero zero = refl
digit-zero (suc j) = digit-zero j

-- A power of two has one digit.
pub digit-power : (j k : ℕ) → digit j (2 ^ k) ≡ (if j == k then 1 else 0)
unfolding digit
digit-power zero zero = refl
digit-power zero (suc k) = ground (arith, pow-suc 2 k)
digit-power (suc j) zero = ground (arith, digit-zero j)
digit-power (suc j) (suc k) =
    let half : 2 ^ suc k / 2 ≡ 2 ^ k = omega (arith, pow-suc 2 k) in
    ground (arith, ap (digit j) half, digit-power j k)

pub power_pos : (k : ℕ) → 0 < 2 ^ k
power_pos zero = omega arith
power_pos (suc k) = omega (arith, pow-suc 2 k, power_pos k)

pub power-lt : (k n : ℕ) → k < n → 2 ^ k < 2 ^ n
power-lt k zero lt = absurd (omega arith)
power-lt zero (suc n) lt = omega (arith, pow-suc 2 n, power_pos n)
power-lt (suc k) (suc n) lt = omega (arith, pow-suc 2 n, pow-suc 2 k, power-lt k n (omega arith))

-- The complement in `n` digits.
pub digit-complement : (n j x : ℕ) → x < 2 ^ n → j < n → digit j (2 ^ n - 1 - x) ≡ 1 - digit j x
unfolding digit
digit-complement zero j x fits lt = absurd (omega arith)
digit-complement (suc n) zero x fits lt = omega (arith, pow-suc 2 n)
digit-complement (suc n) (suc j) x fits lt =
    let half : (2 ^ suc n - 1 - x) / 2 ≡ 2 ^ n - 1 - x / 2 = omega (arith, pow-suc 2 n) in
    ap (digit j) half ∙ digit-complement n j (x / 2) (omega (arith, pow-suc 2 n)) (omega arith)

-- `x & (1 << k)` is the digit in its place.
pub and-power : (k x : ℕ) → bit_and x (2 ^ k) ≡ digit k x * 2 ^ k
unfolding digit
and-power zero x = omega (arith, and_by_digit x 1, and_zero (x / 2))
and-power (suc k) x =
    let half : 2 ^ suc k / 2 ≡ 2 ^ k = omega (arith, pow-suc 2 k) in
    ground (
      arith,
      and_by_digit x (2 ^ suc k),
      ap (bit_and (x / 2)) half,
      pow-suc 2 k,
      and-power k (x / 2),
      ap (λ (t : ℕ). digit k (x / 2) * t) (pow-suc 2 k),
    )
