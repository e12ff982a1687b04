-- ===== src/Text/Numbers.antt =====
-- The number routines of kernel/core/kstring.c. A 64-bit integer is the word that holds it. A local buffer is a
-- range of memory whose address is an argument.
use afriyie_os.Common.{
  ℕ, zero, suc, ◌+◌, ◌-◌, ◌/◌, ◌%◌, ◌^◌, Bool, false, ◌||◌, Option, none, some, List, [], ◌∷◌, ltb,
  leb, ◌==◌, if◌then◌else◌, update,
}
use afriyie_os.Text.Memory.{Memory, fill_bytes, copy_up}
use afriyie_os.Text.Strings.{length_from, strlcpy}

-- The length of the buffer `tmp`.
abbrev pub tmp_size : ℕ
tmp_size = 24

-- `digits[d]`
abbrev pub digit_char : Bool → ℕ → ℕ
digit_char uppercase d = if ltb d 10 then 48 + d else if uppercase then 55 + d else 87 + d

-- The loop that fills `tmp`; the list holds `tmp` from its last digit on.
unfoldable pub digits_of : ℕ → (value base : ℕ) → Bool → List ℕ → List ℕ
digits_of zero value base uppercase tmp = tmp
digits_of (suc left) value base uppercase tmp =
    let rest =
      digits_of left (value / base) base uppercase (digit_char uppercase (value % base) ∷ tmp) in
    if value == 0 then tmp else rest

-- The loop that copies `tmp` backwards, with room for `room` characters, and the zero.
unfoldable pub put_chars : ℕ → Memory → ℕ → List ℕ → Memory
put_chars zero m out tmp = update m out 0
put_chars (suc room) m out [] = update m out 0
put_chars (suc room) m out (c ∷ tmp) = put_chars room (update m out c) (out + 1) tmp

unfoldable pub utoa_base : Memory → (value : ℕ) → Option ℕ → (out_size base : ℕ) → Bool → Memory
utoa_base m value none out_size base uppercase = m
utoa_base m value (some out) out_size base uppercase =
    if out_size == 0
    then m
    else if ltb base 2 || ltb 16 base
    then update m out 0
    else put_chars (out_size - 1) m out
        (if value == 0 then 48 ∷ [] else digits_of tmp_size value base uppercase [])

unfoldable pub itoa : Memory → (value : ℕ) → Option ℕ → (out_size : ℕ) → Memory
itoa m value none out_size = m
itoa m value (some out) out_size =
    if out_size == 0
    then m
    else if leb (2 ^ 63) value
    then utoa_base (update m out 45) ((2 ^ 64 - 1 - value + 1) % 2 ^ 64) (some (out + 1))
        (out_size - 1) 10 false
    else utoa_base m value (some out) out_size 10 false

unfoldable pub format_u64 : Memory → (tmp value : ℕ) → Option ℕ → (out_size : ℕ) → Memory × ℕ
format_u64 m tmp value out out_size =
    strlcpy (utoa_base m value (some tmp) tmp_size 10 false) out (some tmp) out_size

-- The characters of `buf`: the prefix, the padding and the digits, with the zero behind them.
unfoldable pub hex_buffer : Memory → (digits buf length : ℕ) → (prefix zero_pad_16 : Bool) → Memory
hex_buffer m digits buf length prefix zero_pad_16 =
    let m1 = if prefix then update (update m buf 48) (buf + 1) 120 else m in
    let p1 = if prefix then buf + 2 else buf in
    let m2 = if zero_pad_16 then fill_bytes (16 - length) m1 p1 48 else m1 in
    let p2 = if zero_pad_16 then p1 + (16 - length) else p1 in
    update (copy_up length m2 p2 digits) (p2 + length) 0

-- `none` would be a number without an end inside its buffer.
unfoldable pub format_hex :
    Memory
    → (digits buf value : ℕ) → (prefix zero_pad_16 : Bool) → Option ℕ
    → (out_size : ℕ) → Option (Memory × ℕ)
format_hex m digits buf value prefix zero_pad_16 none out_size = some (m, 0)
format_hex m digits buf value prefix zero_pad_16 (some out) out_size =
    if out_size == 0
    then some (m, 0)
    else let m1 = utoa_base m value (some digits) tmp_size 16 false in
      elim (length_from tmp_size m1 digits) [
        | none ↦ none
        | some length ↦ some (
            strlcpy (hex_buffer m1 digits buf length prefix zero_pad_16) (some out) (some buf)
              out_size)
      ]
