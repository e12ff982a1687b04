-- ===== src/Text/Tests.antt =====
-- The theorems about strings and numbers at concrete inputs.
use Prim.Native.Nat.{min}
use afriyie_os.Common.{
  ◌+◌, ◌-◌, ◌%◌, ◌^◌, ◌≡◌, refl, false, ◌&&◌, some, ltb, leb, ◌==◌, if◌then◌else◌, arith, inr,
}
use afriyie_os.Text.Memory.{Memory, memset, int_difference}
use afriyie_os.Text.Strings.{strlcpy, strncmp, compare_up_to}
use afriyie_os.Text.Numbers.{utoa_base, itoa}
use afriyie_os.Text.Fill.{memset_lem}
use afriyie_os.Text.Copy.{Ends, strlcpy_lem}
use afriyie_os.Text.Parse.{read_number, utoa_base_lem}

-- Every byte is its address.
abbrev ramp : Memory
ramp a = a % 256

-- "abc" at address 10
abbrev abc : Memory
abc a = if a == 10 then 97 else if a == 11 then 98 else if a == 12 then 99 else 0

memset_lem_example : memset ramp 3 0x141 20 11 ≡ 0x41
memset_lem_example = memset_lem ramp 3 0x141 20 11

abc-Ends : Ends abc 10 3
abc-Ends = (refl, λ j lt e. ground arith)

strlcpy_lem_example :
    let (m', copied) = strlcpy abc (some 20) (some 10) 3 in
    (copied ≡ min 3 (3 - 1))
    × (m' 21 ≡ (
        if leb 20 21 && ltb 21 (20 + copied)
        then abc (10 + (21 - 20))
        else if 21 == 20 + copied
        then 0
        else abc 21))
    × Ends m' 20 copied
strlcpy_lem_example = strlcpy_lem abc 20 10 3 3 21 (omega arith) abc-Ends (inr (omega arith))

utoa_base_lem_example :
    let m' = utoa_base ramp 4711 (some 100) 30 10 false in
    (read_number 30 m' 100 10 0 ≡ 4711) × (m' 130 ≡ 130)
utoa_base_lem_example =
    utoa_base_lem ramp 4711 100 30 10 false 130 (omega arith) (omega arith) (omega arith)
      (omega arith) (inr (omega arith))

-- A negative number in a buffer of one byte is left without a zero behind it.
itoa_in_one_byte :
    (itoa ramp (2 ^ 64 - 5) (some 0) 1 0 ≡ 45) × (itoa ramp (2 ^ 64 - 5) (some 0) 1 1 ≡ 1)
unfolding itoa utoa_base
itoa_in_one_byte = (refl, refl)

-- "abc" is greater than the empty string.
abc_is_greater : strncmp abc (some 10) (some 13) 5 ≡ 97
unfolding strncmp compare_up_to int_difference
abc_is_greater = refl
