-- ===== src/Text/Copy.antt =====
-- Lengths and copies of strings by kernel/core/kstring.c.
use Prim.Native.Nat.{min}
use afriyie_os.Common.{
  ℕ, zero, suc, ◌+◌, ◌-◌, ◌≤◌, ◌<◌, ◌≡◌, ◌≢◌, ap, true, false, ◌&&◌, some, ltb, leb, ◌==◌, ==_ne,
  if◌then◌else◌, update, arith, ◌⊎◌,
}
use native.Mathlib.Decide.{ℕ_discrete}
use afriyie_os.Text.Memory.{Memory}
use afriyie_os.Text.Strings.{length_from, copy_string, strlcpy}

-- The string at `s` has `n` characters.
abbrev pub Ends : Memory → (s n : ℕ) → Type 0
Ends m s n = (m (s + n) ≡ 0) × ((j : ℕ) → j < n → m (s + j) ≢ 0)

pub length_from-Ends :
    (left : ℕ) (m : Memory) (s n : ℕ) → Ends m s n → n < left → length_from left m s ≡ some n
unfolding length_from
length_from-Ends zero m s n e lt = absurd (omega arith)
length_from-Ends (suc left) m s zero (here, before) lt = ground (arith, here, ap m)
length_from-Ends (suc left) m s (suc n) (last, before) lt =
    let rest : length_from left m (s + 1) ≡ some n =
      length_from-Ends left m (s + 1) n
        (
          ground (arith, last, ap m),
          (λ j below. λ e. before (j + 1) (omega arith) (ground (arith, e, ap m))),
        )
        (omega arith) in
    let go_on : (m s == 0) ≡ false =
      ==_ne (m s) 0 (λ e. before 0 (omega arith) (ground (arith, e, ap m))) in
    let next : n + 1 ≡ suc n = omega arith in rw (length_from, go_on, rest) (ap some next)

-- What `copied` characters from `i` on and the zero behind them leave.
abbrev pub written : Memory → (dst src i r a : ℕ) → ℕ
written m dst src i r a =
    if leb (dst + i) a && ltb a (dst + r)
    then m (src + (a - dst))
    else if a == dst + r
    then 0
    else m a

copy_string-written :
    (room : ℕ) (m : Memory) (dst src i n a : ℕ)
    → m (src + n) ≡ 0
    → ((j : ℕ) → i ≤ j → j < n → m (src + j) ≢ 0)
    → i ≤ n
    → (dst + (i + room) < src + i) ⊎ (src + n < dst + i)
    → ((copy_string room m dst src i).1 ≡ min n (i + room))
      × ((copy_string room m dst src i).0 a ≡ written m dst src i (min n (i + room)) a)
unfolding copy_string
copy_string-written zero m dst src i n a last before le apart = (ground arith, ground arith)
copy_string-written (suc room) m dst src i n a last before le apart = elim (ℕ_discrete i n) [
  | yes e ↦
      let stop : (m (src + i) == 0) ≡ true = ground (arith, last, e, ap m) in
      rw stop (ground (arith, e), ground (arith, e))
  | no ne ↦
      let go_on : (m (src + i) == 0) ≡ false =
        ==_ne (m (src + i)) 0 (before i (omega arith) (omega arith)) in
      let m1 : Memory = update m (dst + i) (m (src + i)) in
      let (count, bytes) =
        copy_string-written room m1 dst src (i + 1) n a (ground (arith, last, apart))
          (λ j lo hi. λ z. before j (omega arith) hi (ground (arith, z, apart))) (omega arith)
          (ground (arith, apart)) in
      rw go_on (
        ground (arith, count),
        elim (ℕ_discrete a (dst + i)) [
          | yes here ↦ ground (arith, bytes, here, ne, le, ap m)
          | no other ↦ ground (arith, bytes, other, ne, le, apart, ap m)
        ],
      )
]

-- `af_strlcpy` into a buffer of `size` bytes that does not overlap the source copies as many characters as
-- fit besides a zero, returns their number, ends the copy with a zero inside the buffer, and writes
-- nothing else.
pub strlcpy_lem :
    (m : Memory) (dst src size n a : ℕ)
    → 0 < size
    → Ends m src n
    → (dst + size ≤ src) ⊎ (src + n < dst)
    → let (m', copied) = strlcpy m (some dst) (some src) size in
      (copied ≡ min n (size - 1))
      × (m' a ≡ (
          if leb dst a && ltb a (dst + copied)
          then m (src + (a - dst))
          else if a == dst + copied
          then 0
          else m a))
      × Ends m' dst copied
unfolding strlcpy
strlcpy_lem m dst src size n a pos (last, before) apart =
    let sized : (size == 0) ≡ false = ground arith in
    let end : m (src + n) ≡ 0 = last in
    let at = λ (x : ℕ).
      copy_string-written (size - 1) m dst src 0 n x end (λ j lo hi. before j hi) (omega arith)
        (ground (arith, apart)) in
    rw sized (
      ground (arith, (at a).0),
      ground (arith, (at a).0, (at a).1),
      (
        ground (arith, (at a).0, (at (dst + (copy_string (size - 1) m dst src 0).1)).1),
        (λ j lt e.
            before j (ground (arith, (at a).0))
              (ground (arith, (at a).0, (at (dst + j)).1, e, ap m))),
      ),
    )
