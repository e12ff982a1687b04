-- ===== src/Text/Fill.antt =====
-- `af_memset` of kernel/core/kstring.c against its bytes.
use afriyie_os.Common.{
  ℕ, zero, suc, ◌+◌, ◌-◌, ◌*◌, ◌/◌, ◌%◌, ◌^◌, ◌≤◌, ◌<◌, ◌≡◌, refl, sym, ap, ◌∙◌, not, ◌&&◌, ltb,
  leb, ◌==◌, if◌then◌else◌, update, bit_or, arith, Bool-cases, inl, inr,
}
use afriyie_os.Common.Bits.{bit_or-shifted}
use afriyie_os.Text.Memory.{
  Memory, fill_bytes, fill_head, store_word, fill_words, pattern_of, memset,
}

-- The bytes from `d` on for `n` bytes are `v`, and the others those of `m`.
abbrev pub filled : Memory → (d v n a : ℕ) → ℕ
filled m d v n a = if leb d a && ltb a (d + n) then v else m a

fill_bytes-filled : (n : ℕ) (m : Memory) (d v a : ℕ) → fill_bytes n m d v a ≡ filled m d v n a
unfolding fill_bytes
fill_bytes-filled zero m d v a = ground arith
fill_bytes-filled (suc n) m d v a = ground (arith, fill_bytes-filled n (update m d v) (d + 1) v a)

-- A word above the bits of another one is added to it.
or_above : (k x a b : ℕ) → x ≡ a * 2 ^ k → b < 2 ^ k → bit_or x b ≡ x + b
or_above k x a b e small =
    ap (λ y. bit_or y b) e ∙ bit_or-shifted k a b small ∙ ap (λ y. y + b) (sym e)

pattern_of-sum :
    (v : ℕ)
    → v < 256
    → pattern_of v
      ≡ v * 2 ^ 56 + v * 2 ^ 48 + v * 2 ^ 40 + v * 2 ^ 32 + v * 2 ^ 24 + v * 2 ^ 16 + v * 2 ^ 8 + v
unfolding pattern_of
pattern_of-sum v small =
    let p1 : bit_or (v * 2 ^ 56) (v * 2 ^ 48) ≡ v * 2 ^ 56 + v * 2 ^ 48 =
      or_above 56 (v * 2 ^ 56) (v * 1) (v * 2 ^ 48) (omega arith) (omega arith) in
    let p2 : bit_or (v * 2 ^ 56 + v * 2 ^ 48) (v * 2 ^ 40) ≡ v * 2 ^ 56 + v * 2 ^ 48 + v * 2 ^ 40 =
      or_above 48 (v * 2 ^ 56 + v * 2 ^ 48) (v * 257) (v * 2 ^ 40) (omega arith) (omega arith) in
    let p3 : bit_or (v * 2 ^ 56 + v * 2 ^ 48 + v * 2 ^ 40) (v * 2 ^ 32)
        ≡ v * 2 ^ 56 + v * 2 ^ 48 + v * 2 ^ 40 + v * 2 ^ 32 =
      or_above 40 (v * 2 ^ 56 + v * 2 ^ 48 + v * 2 ^ 40) (v * 65793) (v * 2 ^ 32) (omega arith)
        (omega arith) in
    let p4 : bit_or (v * 2 ^ 56 + v * 2 ^ 48 + v * 2 ^ 40 + v * 2 ^ 32) (v * 2 ^ 24)
        ≡ v * 2 ^ 56 + v * 2 ^ 48 + v * 2 ^ 40 + v * 2 ^ 32 + v * 2 ^ 24 =
      or_above 32 (v * 2 ^ 56 + v * 2 ^ 48 + v * 2 ^ 40 + v * 2 ^ 32) (v * 16843009) (v * 2 ^ 24)
        (omega arith) (omega arith) in
    let p5 : bit_or (v * 2 ^ 56 + v * 2 ^ 48 + v * 2 ^ 40 + v * 2 ^ 32 + v * 2 ^ 24) (v * 2 ^ 16)
        ≡ v * 2 ^ 56 + v * 2 ^ 48 + v * 2 ^ 40 + v * 2 ^ 32 + v * 2 ^ 24 + v * 2 ^ 16 =
      or_above 24 (v * 2 ^ 56 + v * 2 ^ 48 + v * 2 ^ 40 + v * 2 ^ 32 + v * 2 ^ 24) (v * 4311810305)
        (v * 2 ^ 16) (omega arith) (omega arith) in
    let p6 : bit_or (v * 2 ^ 56 + v * 2 ^ 48 + v * 2 ^ 40 + v * 2 ^ 32 + v * 2 ^ 24 + v * 2 ^ 16)
          (v * 2 ^ 8)
        ≡ v * 2 ^ 56 + v * 2 ^ 48 + v * 2 ^ 40 + v * 2 ^ 32 + v * 2 ^ 24 + v * 2 ^ 16 + v * 2 ^ 8 =
      or_above 16 (v * 2 ^ 56 + v * 2 ^ 48 + v * 2 ^ 40 + v * 2 ^ 32 + v * 2 ^ 24 + v * 2 ^ 16)
        (v * 1103823438081) (v * 2 ^ 8) (omega arith) (omega arith) in
    let p7 : bit_or
          (v * 2 ^ 56 + v * 2 ^ 48 + v * 2 ^ 40 + v * 2 ^ 32 + v * 2 ^ 24 + v * 2 ^ 16 + v * 2 ^ 8)
          (v)
        ≡ v * 2 ^ 56
          + v * 2 ^ 48
          + v * 2 ^ 40
          + v * 2 ^ 32
          + v * 2 ^ 24
          + v * 2 ^ 16
          + v * 2 ^ 8
          + v =
      or_above 8
        (v * 2 ^ 56 + v * 2 ^ 48 + v * 2 ^ 40 + v * 2 ^ 32 + v * 2 ^ 24 + v * 2 ^ 16 + v * 2 ^ 8)
        (v * 282578800148737) (v) (omega arith) (omega arith) in
    ap (λ x. bit_or x (v))
      (ap (λ x. bit_or x (v * 2 ^ 8))
          (ap (λ x. bit_or x (v * 2 ^ 16))
              (ap (λ x. bit_or x (v * 2 ^ 24))
                  (ap (λ x. bit_or x (v * 2 ^ 32)) (ap (λ x. bit_or x (v * 2 ^ 40)) (p1) ∙ p2) ∙ p3)
                ∙ p4)
            ∙ p5)
        ∙ p6)
    ∙ p7

-- Each byte of the word is the value.
pattern_of-byte : (v j : ℕ) → v < 256 → j < 8 → pattern_of v / 256 ^ j % 256 ≡ v
pattern_of-byte v zero small lt = omega (arith, pattern_of-sum v small)
pattern_of-byte v (suc zero) small lt = omega (arith, pattern_of-sum v small)
pattern_of-byte v (suc (suc zero)) small lt = omega (arith, pattern_of-sum v small)
pattern_of-byte v (suc (suc (suc zero))) small lt = omega (arith, pattern_of-sum v small)
pattern_of-byte v (suc (suc (suc (suc zero)))) small lt = omega (arith, pattern_of-sum v small)
pattern_of-byte v (suc (suc (suc (suc (suc zero))))) small lt =
    omega (arith, pattern_of-sum v small)
pattern_of-byte v (suc (suc (suc (suc (suc (suc zero)))))) small lt =
    omega (arith, pattern_of-sum v small)
pattern_of-byte v (suc (suc (suc (suc (suc (suc (suc zero))))))) small lt =
    omega (arith, pattern_of-sum v small)
pattern_of-byte v (suc (suc (suc (suc (suc (suc (suc (suc j)))))))) small lt = absurd (omega arith)

fill_words-filled :
    (n : ℕ) (m : Memory) (d v a : ℕ)
    → v < 256
    → fill_words n m d (pattern_of v) a ≡ filled m d v (8 * n) a
unfolding fill_words store_word
fill_words-filled zero m d v a small = ground arith
fill_words-filled (suc n) m d v a small = elim (Bool-cases (leb d a && ltb a (d + 8))) [
  | inl here ↦ ground (
    arith,
    fill_words-filled n (store_word m d (pattern_of v)) (d + 8) v a small,
    pattern_of-byte v (a - d) small,
    here,
  )
  | inr away ↦
      ground (arith, fill_words-filled n (store_word m d (pattern_of v)) (d + 8) v a small, away)
]

-- The head writes what is not left, and the rest lies behind it.
fill_head-filled :
    (n : ℕ) (m : Memory) (d v a : ℕ)
    → let (m', d', n') = fill_head n m d v in
      (d' + n' ≡ d + n) × (d ≤ d') × (m' a ≡ filled m d v (d' - d) a)
unfolding fill_head
fill_head-filled zero m d v a = (refl, omega arith, ground arith)
fill_head-filled (suc n) m d v a = elim (Bool-cases (leb 8 (suc n) && not (d % 8 == 0))) [
  | inl more ↦
      let (ends, behind, same) = fill_head-filled n (update m d v) (d + 1) v a in
      rw more (omega (arith, ends), omega (arith, behind), ground (arith, same, behind))
  | inr stop ↦ rw stop (refl, omega arith, ground arith)
]

-- `af_memset` with its words writes the low byte of the value to each of the `n` bytes, and to no other.
pub memset_lem :
    (m : Memory) (dst value n a : ℕ)
    → memset m dst value n a ≡ (if leb dst a && ltb a (dst + n) then value % 256 else m a)
unfolding memset
memset_lem m dst value n a =
    let v = value % 256 in
    let h = fill_head n m dst v in
    let (ends, behind, head) = fill_head-filled n m dst v a in
    ground (
      arith,
      fill_bytes-filled (h.2 % 8) (fill_words (h.2 / 8) h.0 h.1 (pattern_of v)) (h.1 + h.2 / 8 * 8)
          v a,
      fill_words-filled (h.2 / 8) h.0 h.1 v a (omega arith),
      head,
      ends,
      behind,
    )
