-- ===== src/Text/Parse.antt =====
-- What `af_utoa_base` of kernel/core/kstring.c writes, read back.
use afriyie_os.Common.{
  ℕ, zero, suc, ◌+◌, ◌-◌, ◌*◌, ◌/◌, ◌%◌, ◌^◌, ◌≤◌, ◌<◌, ◌≡◌, ◌≢◌, sym, ap, ◌∙◌, Bool, false, ◌||◌,
  some, List, [], ◌∷◌, All, length, ltb, ◌==◌, ==_ne, if◌then◌else◌, update, arith, Bool-cases, inl,
  inr, ◌⊎◌,
}
use native.Mathlib.Nat.{div-add-mod', div-lt_iff_lt-mul, mod-lt, pow-suc, pow-zero}
use afriyie_os.Text.Memory.{Memory}
use afriyie_os.Text.Numbers.{digit_char, digits_of, put_chars, utoa_base, tmp_size}

-- The value of a digit.
abbrev pub digit_value : ℕ → ℕ
digit_value c = if ltb c 58 then c - 48 else if ltb c 97 then c - 55 else c - 87

digit_value-char : (uppercase : Bool) (d : ℕ) → d < 16 → digit_value (digit_char uppercase d) ≡ d
digit_value-char uppercase d lt = ground arith

-- The number that the digits spell, after `v`.
abbrev pub number : (base v : ℕ) → List ℕ → ℕ
number base v [] = v
number base v (c ∷ cs) = number base (v * base + digit_value c) cs

digits_of-number :
    (left value base : ℕ) (uppercase : Bool) (tmp : List ℕ)
    → 2 ≤ base
    → base ≤ 16
    → value < base ^ left
    → number base 0 (digits_of left value base uppercase tmp) ≡ number base value tmp
unfolding digits_of
digits_of-number zero value base uppercase tmp two sixteen lt =
    let e : 0 ≡ value = omega (arith, lt, pow-zero base) in ap (λ v. number base v tmp) e
digits_of-number (suc left) value base uppercase tmp two sixteen lt =
    elim (Bool-cases (value == 0)) [
      | inl e ↦
          let none_left : 0 ≡ value = ground (arith, e) in
          rw e (ap (λ v. number base v tmp) none_left)
      | inr e ↦
          let pos : 0 < base = omega (arith, two) in
          let small : value / base < base ^ left =
            (div-lt_iff_lt-mul pos).1 (ground (arith, lt, pow-suc base left)) in
          let last : value % base < 16 = omega (arith, mod-lt value pos, sixteen) in
          let spelled : value / base * base + digit_value (digit_char uppercase (value % base))
              ≡ value =
            ap (λ d. value / base * base + d) (digit_value-char uppercase (value % base) last)
            ∙ div-add-mod' value base in
          rw e (
            digits_of-number left (value / base) base uppercase
              (digit_char uppercase (value % base) ∷ tmp) two sixteen small
            ∙ ap (λ v. number base v tmp) spelled)
    ]

-- The number of digits, and that each is a character.
digits_of-length :
    (left value base : ℕ) (uppercase : Bool) (tmp : List ℕ)
    → length (digits_of left value base uppercase tmp) ≤ left + length tmp
unfolding digits_of
digits_of-length zero value base uppercase tmp = omega arith
digits_of-length (suc left) value base uppercase tmp = ground (
  arith,
  digits_of-length left (value / base) base uppercase (digit_char uppercase (value % base) ∷ tmp),
)

digits_of-chars :
    (left value base : ℕ) (uppercase : Bool) (tmp : List ℕ)
    → All (λ c. c ≢ 0) tmp
    → All (λ c. c ≢ 0) (digits_of left value base uppercase tmp)
unfolding digits_of
digits_of-chars zero value base uppercase tmp a = a
digits_of-chars (suc left) value base uppercase tmp a = elim (Bool-cases (value == 0)) [
  | inl e ↦ rw e a
  | inr e ↦ rw e (
      digits_of-chars left (value / base) base uppercase (digit_char uppercase (value % base) ∷ tmp)
        ((λ z. ground (arith, z)), a))
]

-- Reading a number up to the zero behind it.
abbrev pub read_number : ℕ → Memory → (a base v : ℕ) → ℕ
read_number zero m a base v = v
read_number (suc left) m a base v =
    let rest = read_number left m (a + 1) base (v * base + digit_value (m a)) in
    if m a == 0 then v else rest

put_chars-outside :
    (room : ℕ) (m : Memory) (out : ℕ) (tmp : List ℕ) (a : ℕ)
    → (a < out) ⊎ (out + room < a)
    → put_chars room m out tmp a ≡ m a
unfolding put_chars
put_chars-outside zero m out tmp a away = ground arith
put_chars-outside (suc room) m out [] a away = ground arith
put_chars-outside (suc room) m out (c ∷ tmp) a away =
    ground (arith, put_chars-outside room (update m out c) (out + 1) tmp a (ground (arith, away)))

put_chars-read :
    (room left : ℕ) (m : Memory) (out base v : ℕ) (tmp : List ℕ)
    → All (λ c. c ≢ 0) tmp
    → length tmp ≤ room
    → length tmp < left
    → read_number left (put_chars room m out tmp) out base v ≡ number base v tmp
unfolding put_chars
put_chars-read room zero m out base v tmp a fits lt = absurd (omega arith)
put_chars-read zero (suc left) m out base v [] a fits lt = ground arith
put_chars-read zero (suc left) m out base v (c ∷ tmp) a fits lt = absurd (omega arith)
put_chars-read (suc room) (suc left) m out base v [] a fits lt = ground arith
put_chars-read (suc room) (suc left) m out base v (c ∷ tmp) (ne, a) fits lt =
    let m1 : Memory = update m out c in
    let kept : put_chars room m1 (out + 1) tmp out ≡ c =
      put_chars-outside room m1 (out + 1) tmp out (inl (omega arith)) ∙ ground arith in
    let go_on : (put_chars room m1 (out + 1) tmp out == 0) ≡ false =
      ==_ne (put_chars room m1 (out + 1) tmp out) 0 (λ z. ne (sym kept ∙ z)) in
    let rest =
      put_chars-read room left m1 (out + 1) base (v * base + digit_value c) tmp a (omega arith)
        (omega arith) in
    rw go_on (
      ap
        (λ x.
          read_number left (put_chars room m1 (out + 1) tmp) (out + 1) base
            (v * base + digit_value x))
        kept
      ∙ rest)

abbrev chars_of : (value base : ℕ) → Bool → List ℕ
chars_of value base uppercase =
    if value == 0 then 48 ∷ [] else digits_of tmp_size value base uppercase []

chars_of-lem :
    (value base : ℕ) (uppercase : Bool)
    → 2 ≤ base
    → base ≤ 16
    → value < base ^ 24
    → (number base 0 (chars_of value base uppercase) ≡ value)
      × All (λ c. c ≢ 0) (chars_of value base uppercase)
      × (length (chars_of value base uppercase) ≤ 24)
chars_of-lem value base uppercase two sixteen small = elim (Bool-cases (value == 0)) [
  | inl e ↦ rw e (ground (arith, e), ((λ z. omega (arith, z)), tt), omega arith)
  | inr e ↦ rw e (
    digits_of-number 24 value base uppercase [] two sixteen small,
    digits_of-chars 24 value base uppercase [] tt,
    omega (arith, digits_of-length 24 value base uppercase []),
  )
]

-- A number below the base to the power 24, written in a base from 2 to 16 to a buffer of more than 24 bytes, is
-- read back from it, and no byte outside the buffer is written.
pub utoa_base_lem :
    (m : Memory) (value out out_size base : ℕ) (uppercase : Bool) (a : ℕ)
    → 2 ≤ base
    → base ≤ 16
    → value < base ^ 24
    → 24 < out_size
    → (a < out) ⊎ (out + out_size ≤ a)
    → let m' = utoa_base m value (some out) out_size base uppercase in
      (read_number out_size m' out base 0 ≡ value) × (m' a ≡ m a)
unfolding utoa_base
utoa_base_lem m value out out_size base uppercase a two sixteen small lt away =
    let (spelled, chars, few) = chars_of-lem value base uppercase two sixteen small in
    let in_range : (ltb base 2 || ltb 16 base) ≡ false = ground (arith, two, sixteen) in
    let some_left : (out_size == 0) ≡ false = ground (arith, lt) in
    rw (some_left, in_range)
      (
        put_chars-read (out_size - 1) out_size m out base 0 (chars_of value base uppercase) chars
              (omega (arith, few)) (omega (arith, few))
            ∙ spelled,
        put_chars-outside (out_size - 1) m out (chars_of value base uppercase) a
            (ground (arith, away, some_left)),
      )
