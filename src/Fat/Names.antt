-- ===== src/Fat/Names.antt =====
-- The names in directory entries of kernel/fs/fat32.c. A name is the list of its characters, without the
-- zero behind them.
use afriyie_os.Common.{
  ℕ, zero, suc, ◌+◌, ◌-◌, ◌*◌, ◌/◌, ◌%◌, ◌^◌, Bool, true, false, ◌&&◌, ◌||◌, List, [], ◌∷◌, ◌++◌,
  length, bit_or, ltb, leb, ◌==◌, if◌then◌else◌,
}

-- `short_name_checksum` from byte `i` on.
unfoldable pub checksum_from : ℕ → (ℕ → ℕ) → (i sum : ℕ) → ℕ
checksum_from zero e i sum = sum
checksum_from (suc left) e i sum =
    checksum_from left e (i + 1) ((sum % 2 * 2 ^ 7 + sum / 2 + e i) % 256)

abbrev pub short_name_checksum : (ℕ → ℕ) → ℕ
short_name_checksum e = checksum_from 11 e 0 0

-- Where code unit `u` of a fragment stands in its entry.
abbrev pub unit_position : ℕ → ℕ
unit_position u =
    if ltb u 5 then 1 + u * 2 else if ltb u 11 then 14 + (u - 5) * 2 else 28 + (u - 11) * 2

abbrev pub unit_at : (ℕ → ℕ) → ℕ → ℕ
unit_at e u = bit_or (e (unit_position u)) (e (unit_position u + 1) * 2 ^ 8) % 2 ^ 16

unfoldable pub fragment_from : ℕ → (ℕ → ℕ) → ℕ → List ℕ
fragment_from zero e u = []
fragment_from (suc left) e u =
    let unit = unit_at e u in
    let rest = fragment_from left e (u + 1) in
    if unit == 0 || unit == 0xFFFF then [] else (if ltb unit 128 then unit else 0x3F) ∷ rest

-- `have_lfn`, `lfn` and `lfn_checksum`.
pub record LongName : Type 0 where
  pub is_there : Bool
  pub chars : List ℕ
  pub checksum : ℕ

-- The long name is given up; its checksum stays as it is.
abbrev pub forget : LongName → LongName
forget n = record n { is_there = false; chars = [] }

-- The entry of a fragment: it goes before what has been collected, if that leaves room for the zero.
unfoldable pub add_fragment : (ℕ → ℕ) → LongName → LongName
add_fragment e n =
    let ordinal = e 0 % 32 in
    let fragment = fragment_from 13 e 0 in
    if ordinal == 0 || ltb 20 ordinal
    then forget n
    else if ltb (length fragment + length n.chars + 1) 256
    then record { is_there = true; chars = fragment ++ n.chars; checksum = e 13 }
    else n

-- The characters up to a blank.
unfoldable pub until_blank : ℕ → (ℕ → ℕ) → ℕ → List ℕ
until_blank zero e i = []
until_blank (suc left) e i =
    let rest = until_blank left e (i + 1) in if e i == 0x20 then [] else e i ∷ rest

-- As a string, a list of characters ends at its first zero.
unfoldable pub until_zero : List ℕ → List ℕ
until_zero [] = []
until_zero (c ∷ cs) = let rest = until_zero cs in if c == 0 then [] else c ∷ rest

unfoldable pub short_name : (ℕ → ℕ) → List ℕ
short_name e =
    let base = until_zero (until_blank 8 e 0) in
    elim (until_zero (until_blank 3 e 8)) [ [] ↦ base | c ∷ cs ↦ base ++ (0x2E ∷ c ∷ cs) ]

unfoldable pub name_of : (ℕ → ℕ) → LongName → List ℕ
name_of e n =
    if e 0 == 0x2E
    then 0x2E ∷ (if e 1 == 0x2E then 0x2E ∷ [] else [])
    else if n.is_there && (n.checksum == short_name_checksum e)
    then n.chars
    else short_name e

abbrev pub upper : ℕ → ℕ
upper c = if leb 97 c && leb c 122 then c - 32 else c

unfoldable pub same_upper : List ℕ → List ℕ → Bool
same_upper [] [] = true
same_upper [] (d ∷ ds) = false
same_upper (c ∷ cs) [] = false
same_upper (c ∷ cs) (d ∷ ds) = (upper c == upper d) && same_upper cs ds
