-- ===== src/Text/Strings.antt =====
-- The string routines of kernel/core/kstring.c. A string ends at its first zero byte, and a pointer is
-- `none` where it is NULL. A loop to the end of a string has a bound, and `none` stands for an end that lies
-- beyond it.
use afriyie_os.Common.{
  ℕ, zero, suc, ◌+◌, ◌-◌, ◌%◌, ◌^◌, Bool, true, false, not, ◌&&◌, ◌||◌, Option, none, some, leb,
  ◌==◌, if◌then◌else◌, update,
}
use afriyie_os.Text.Memory.{Memory, int_difference}

unfoldable pub length_from : ℕ → Memory → ℕ → Option ℕ
length_from zero m s = none
length_from (suc left) m s =
    let rest = length_from left m (s + 1) in
    if m s == 0 then some 0 else elim rest [ none ↦ none | some n ↦ some (n + 1) ]

unfoldable pub strlen : ℕ → Memory → Option ℕ → Option ℕ
strlen left m none = some 0
strlen left m (some s) = length_from left m s

-- -1 as an int
abbrev pub minus_one : ℕ
minus_one = 2 ^ 32 - 1

unfoldable pub compare_from : ℕ → Memory → (a b : ℕ) → Option ℕ
compare_from zero m a b = none
compare_from (suc left) m a b =
    let rest = compare_from left m (a + 1) (b + 1) in
    if not (m a == 0) && (m a == m b) then rest else some (int_difference (m a) (m b))

unfoldable pub strcmp : ℕ → Memory → (a b : Option ℕ) → Option ℕ
strcmp left m none none = some 0
strcmp left m none (some b) = some minus_one
strcmp left m (some a) none = some 1
strcmp left m (some a) (some b) = if a == b then some 0 else compare_from left m a b

unfoldable pub compare_up_to : ℕ → Memory → (a b : ℕ) → ℕ
compare_up_to zero m a b = 0
compare_up_to (suc n) m a b =
    let rest = compare_up_to n m (a + 1) (b + 1) in
    if not (m a == m b) then int_difference (m a) (m b) else if m a == 0 then 0 else rest

unfoldable pub strncmp : Memory → (a b : Option ℕ) → (n : ℕ) → ℕ
strncmp m none none n = 0
strncmp m none (some b) n = if n == 0 then 0 else minus_one
strncmp m (some a) none n = if n == 0 then 0 else 1
strncmp m (some a) (some b) n = if (a == b) || (n == 0) then 0 else compare_up_to n m a b

-- The outer option is the bound, the inner one NULL.
unfoldable pub find_from : ℕ → Memory → (s c : ℕ) → Option (Option ℕ)
find_from zero m s c = none
find_from (suc left) m s c =
    let rest = find_from left m (s + 1) c in
    if m s == 0
    then some (if c == 0 then some s else none)
    else if m s == c
    then some (some s)
    else rest

unfoldable pub strchr : ℕ → Memory → Option ℕ → ℕ → Option (Option ℕ)
strchr left m none c = some none
strchr left m (some s) c = find_from left m s (c % 256)

-- The loop of `af_strlcpy` from index `i` on, with room for `room` bytes besides the zero.
unfoldable pub copy_string : ℕ → Memory → (dst src i : ℕ) → Memory × ℕ
copy_string zero m dst src i = (update m (dst + i) 0, i)
copy_string (suc room) m dst src i =
    let rest = copy_string room (update m (dst + i) (m (src + i))) dst src (i + 1) in
    if m (src + i) == 0 then (update m (dst + i) 0, i) else rest

unfoldable pub strlcpy : Memory → (dst src : Option ℕ) → (size : ℕ) → Memory × ℕ
strlcpy m none src size = (m, 0)
strlcpy m (some dst) none size = if size == 0 then (m, 0) else (update m dst 0, 0)
strlcpy m (some dst) (some src) size =
    if size == 0 then (m, 0) else copy_string (size - 1) m dst src 0

unfoldable pub strlcat : ℕ → Memory → (dst src : Option ℕ) → (size : ℕ) → Option (Memory × ℕ)
strlcat left m none src size = some (m, 0)
strlcat left m (some dst) src size =
    if size == 0 then some (m, 0) else elim (length_from left m dst) [
      | none ↦ none
      | some n ↦
          if leb size n
          then some (m, size - 1)
          else let (m', copied) = strlcpy m (some (dst + n)) src (size - n) in some (m', n + copied)
    ]

unfoldable pub prefix_from : ℕ → Memory → (s p : ℕ) → Option Bool
prefix_from zero m s p = none
prefix_from (suc left) m s p =
    let rest = prefix_from left m (s + 1) (p + 1) in
    if m p == 0 then some true else if not (m s == m p) then some false else rest

unfoldable pub str_has_prefix : ℕ → Memory → (s p : Option ℕ) → Option Bool
str_has_prefix left m none p = some false
str_has_prefix left m (some s) none = some false
str_has_prefix left m (some s) (some p) = prefix_from left m s p
