-- ===== src/Text/Move.antt =====
-- `af_memcpy`, `af_memmove` and `af_memcmp` of kernel/core/kstring.c.
use afriyie_os.Common.{
  ℕ, zero, suc, ◌+◌, ◌-◌, ◌≤◌, ◌<◌, ◌≡◌, ◌↔◌, refl, sym, ap, ◌∙◌, ◌&&◌, ◌||◌, ltb, leb, ◌==◌,
  if◌then◌else◌, update, arith, Bool-cases, inl, inr, ◌⊎◌,
}
use native.Mathlib.Decide.{ℕ_discrete}
use afriyie_os.Text.Memory.{Memory, copy_up, copy_down, memcpy, memmove, memcmp, int_difference}

-- The `n` bytes from `d` on are those that were at `s`, and the others are unchanged.
abbrev pub moved : Memory → (d s n a : ℕ) → ℕ
moved m d s n a = if leb d a && ltb a (d + n) then m (s + (a - d)) else m a

-- Upwards nothing is overwritten before it is read if the destination is not inside the source above its start.
copy_up-moved :
    (n : ℕ) (m : Memory) (d s a : ℕ) → (d ≤ s) ⊎ (s + n ≤ d) → copy_up n m d s a ≡ moved m d s n a
unfolding copy_up
copy_up-moved zero m d s a apart = ground arith
copy_up-moved (suc n) m d s a apart =
    let rest = copy_up-moved n (update m d (m s)) (d + 1) (s + 1) a (ground (arith, apart)) in
    elim (ℕ_discrete a d) [
      | yes e ↦ ground (arith, rest, e, ap m)
      | no ne ↦ ground (arith, rest, ne, apart, ap m)
    ]

copy_down-moved : (n : ℕ) (m : Memory) (d s a : ℕ) → s ≤ d → copy_down n m d s a ≡ moved m d s n a
unfolding copy_down
copy_down-moved zero m d s a le = ground arith
copy_down-moved (suc n) m d s a le =
    let rest = copy_down-moved n (update m (d + n) (m (s + n))) d s a le in
    elim (ℕ_discrete a (d + n)) [
      | yes e ↦ ground (arith, rest, e, le, ap m)
      | no ne ↦ ground (arith, rest, ne, le, ap m)
    ]

-- `af_memmove` moves the bytes, whether and how the two ranges overlap, and writes no other byte.
pub memmove_lem :
    (m : Memory) (dst src n a : ℕ)
    → memmove m dst src n a ≡ (if leb dst a && ltb a (dst + n) then m (src + (a - dst)) else m a)
unfolding memmove
memmove_lem m dst src n a = elim (Bool-cases ((dst == src) || (n == 0))) [
  | inl nothing ↦ ground (arith, nothing, ap m)
  | inr moves ↦ elim (Bool-cases (ltb dst src)) [
    | inl low ↦ ground (arith, moves, low, copy_up-moved n m dst src a (inl (ground (arith, low))))
    | inr high ↦ ground (arith, moves, high, copy_down-moved n m dst src a (ground (arith, high)))
  ]
]

-- `af_memcpy` does the same as `af_memmove` where the destination does not start inside the source.
memcpy_moves :
    (m : Memory) (dst src n a : ℕ)
    → (dst ≤ src) ⊎ (src + n ≤ dst)
    → memcpy m dst src n a ≡ memmove m dst src n a
unfolding memcpy
memcpy_moves m dst src n a apart =
    copy_up-moved n m dst src a apart ∙ sym (memmove_lem m dst src n a)

-- `af_memcmp` is 0 just where the bytes agree.
pub memcmp_lem :
    (n : ℕ) (m : Memory) (a b : ℕ)
    → ((j : ℕ) → m j < 256)
    → (memcmp n m a b ≡ 0) ↔ ((j : ℕ) → j < n → m (a + j) ≡ m (b + j))
unfolding memcmp int_difference
memcmp_lem zero m a b bytes = ((λ e j lt. absurd (omega arith)), (λ h. refl))
memcmp_lem (suc n) m a b bytes =
    let (only, if_all) = memcmp_lem n m (a + 1) (b + 1) bytes in
    elim (ℕ_discrete (m a) (m b)) [
      | yes e ↦ (
        (λ zero_out j lt. elim (ℕ_discrete j 0) [
          | yes first ↦ ground (arith, first, e, ap m)
          | no later ↦ ground (
            arith,
            only (ground (arith, zero_out, e)) (j - 1) (omega (arith, later)),
            ap m,
            later,
          )
        ]),
        (λ all.
            ground (arith, e, if_all (λ j lt. ground (arith, all (j + 1) (omega arith), ap m)))),
      )
      | no ne ↦ (
        (λ zero_out. absurd (ground (arith, zero_out, ne, bytes a, bytes b))),
        (λ all. absurd (ground (arith, ne, all 0 (omega arith), ap m))),
      )
    ]
