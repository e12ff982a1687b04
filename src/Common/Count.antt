-- ===== src/Common/Count.antt =====
-- How many indices below a bound pass a test: the number behind the counters of fixed tables.
use Prim.Native.Nat.{ℕ, zero, suc, ◌+◌, ◌-◌, ◌≤◌, ◌<◌}
use mathlib.Core.Path.{◌≡◌, refl}
use mathlib.Core.Logic.{◌≢◌}
use mathlib.Core.Bool.{Bool, true, false}
use native.Mathlib.Omega.{arith}
use native.Mathlib.Decide.{ℕ_discrete}
use afriyie_os.Common.Tests.{if◌then◌else◌}

unfoldable pub count : (ℕ → Bool) → ℕ → ℕ
count p zero = 0
count p (suc n) = let rest = count p n in if p n then rest + 1 else rest

pub count-le : (p : ℕ → Bool) (n : ℕ) → count p n ≤ n
unfolding count
count-le p zero = omega arith
count-le p (suc n) = ground (arith, count-le p n)

pub count-none : (n : ℕ) → count (λ j. false) n ≡ 0
unfolding count
count-none zero = refl
count-none (suc n) = count-none n

-- Tests that agree below the bound count alike.
pub count-congr : (p q : ℕ → Bool) (n : ℕ) → ((j : ℕ) → j < n → p j ≡ q j) → count p n ≡ count q n
unfolding count
count-congr p q zero h = refl
count-congr p q (suc n) h =
    ground (arith, h n (omega arith), count-congr p q n (λ j lt. h j (omega arith)))

pub count_mono :
    (p q : ℕ → Bool) (n : ℕ) → ((j : ℕ) → j < n → p j ≡ true → q j ≡ true) → count p n ≤ count q n
unfolding count
count_mono p q zero h = omega arith
count_mono p q (suc n) h =
    ground (arith, h n (omega arith), count_mono p q n (λ j lt. h j (omega arith)))

-- One index more, and none less.
pub count-gain :
    (p q : ℕ → Bool) (i n : ℕ)
    → i < n
    → p i ≡ false
    → q i ≡ true
    → ((j : ℕ) → j ≢ i → p j ≡ q j)
    → count q n ≡ count p n + 1
unfolding count
count-gain p q i zero lt f t h = absurd (omega arith)
count-gain p q i (suc n) lt f t h = elim (ℕ_discrete n i) [
  | yes e ↦ ground (arith, count-congr p q n (λ j below. h j (omega arith)))
  | no ne ↦ ground (arith, h n ne, count-gain p q i n (omega arith) f t h)
]

-- What holds nowhere more, and at some index less, counts less.
pub count-lt :
    (p q : ℕ → Bool) (i n : ℕ)
    → i < n
    → p i ≡ false
    → q i ≡ true
    → ((j : ℕ) → j < n → p j ≡ true → q j ≡ true)
    → count p n < count q n
unfolding count
count-lt p q i zero lt f t h = absurd (omega arith)
count-lt p q i (suc n) lt f t h = elim (ℕ_discrete n i) [
  | yes e ↦ ground (arith, count_mono p q n (λ j below. h j (omega arith)))
  | no ne ↦
      ground (
        arith,
        h n (omega arith),
        count-lt p q i n (omega arith) f t (λ j below. h j (omega arith)),
      )
]

-- Where every index from `i` on passes, so many are counted.
pub count-from :
    (p : ℕ → Bool) (i n : ℕ) → ((j : ℕ) → i ≤ j → j < n → p j ≡ true) → n - i ≤ count p n
unfolding count
count-from p i zero h = omega arith
count-from p i (suc n) h = elim (ℕ_discrete (suc n - i) 0) [
  | yes e ↦ omega arith
  | no ne ↦
      ground
        (arith, h n (omega arith) (omega arith), count-from p i n (λ j lo hi. h j lo (omega arith)))
]

-- A run of indices that pass counts at least its length.
pub count-run :
    (p : ℕ → Bool) (s c n : ℕ) → s + c ≤ n → ((j : ℕ) → j < c → p (s + j) ≡ true) → c ≤ count p n
unfolding count
count-run p s c zero fits h = omega arith
count-run p s zero (suc n) fits h = omega arith
count-run p s (suc c) (suc n) fits h = elim (ℕ_discrete (s + c) n) [
  | yes e ↦
      let last : p n ≡ true = ground (arith, h c (omega arith), e) in
      ground (arith, last, count-run p s c n (omega arith) (λ j lt. h j (omega arith)))
  | no ne ↦ ground (arith, count-run p s (suc c) n (omega arith) h)
]
