-- ===== src/Disk/Table.antt =====
-- A partition table as the bytes on the disk, and what kernel/fs/gpt.c makes of it.
use afriyie_os.Common.{
  ℕ, zero, suc, ◌+◌, ◌-◌, ◌*◌, ◌/◌, ◌%◌, ◌^◌, ◌<◌, ◌≡◌, refl, ap, ◌∙◌, ◌⊎◌, inl, inr, Bool, true,
  ◌&&◌, Option, List, [], ◌∷◌, arith, ltb, ◌==◌, if◌then◌else◌, bit_or, ok,
}
use afriyie_os.Common.Bits.{bit_or-low}
use afriyie_os.Disk.Block.{Device, loaded, block_read}
use afriyie_os.Disk.Gpt.{
  Partition, read_le32, read_le64, read_name, read_partition, per_sector, offset_of, entry_in,
  is_empty, same_bytes, read_entries,
}
use afriyie_os.Disk.Entries.{present, take, listed}

-- The number that `n` bytes spell from byte `i` on, the lowest first.
unfoldable pub spelled : (ℕ → ℕ) → (n i : ℕ) → ℕ
spelled p zero i = 0
spelled p (suc n) i = p i + 256 * spelled p n (i + 1)

-- The characters of at most `n` code units of two bytes from byte `i` on, up to a unit of zero.
unfoldable pub characters : (ℕ → ℕ) → (n i : ℕ) → List ℕ
characters p zero i = []
characters p (suc n) i =
    let rest = characters p n (i + 2) in
    let unit = spelled p 2 i in
    if unit == 0 then [] else (if ltb unit 128 then unit else 0x3F) ∷ rest

-- An entry: the type at byte 0, the first and the last sector at bytes 32 and 40, the name at byte 56.
abbrev pub partition_of : (ℕ → ℕ) → Partition
partition_of e = record {
  start_lba = spelled e 8 32;
  sector_count = (spelled e 8 40 + 2 ^ 64 - spelled e 8 32 + 1) % 2 ^ 64;
  name = characters e 36 56;
  type_guid = λ i. if ltb i 16 then e i else 0;
}

-- The `n` bytes from byte `i` on are zero.
unfoldable pub all_zero : (ℕ → ℕ) → (n i : ℕ) → Bool
all_zero e zero i = true
all_zero e (suc n) i = (e i == 0) && all_zero e n (i + 1)

-- The partitions of `left` entries from entry `i` on, in a table that lies in the sectors `s` one behind the other.
unfoldable pub partitions : (ℕ → ℕ → ℕ) → (size left i : ℕ) → List Partition
partitions s size zero i = []
partitions s size (suc left) i =
    let rest = partitions s size left (i + 1) in
    let e : ℕ → ℕ = λ b. s ((i * size) / 512) ((i * size) % 512 + b) in
    if all_zero e 16 0 then rest else partition_of e ∷ rest

le32_spelled :
    (p : ℕ → ℕ) (i : ℕ)
    → ((j : ℕ) → p j < 256)
    → (read_le32 p i ≡ spelled p 4 i) × (read_le32 p i < 2 ^ 32)
unfolding spelled
le32_spelled p i bytes =
    let a = bytes i in
    let b = bytes (i + 1) in
    let c = bytes (i + 2) in
    let d = bytes (i + 3) in
    let one : bit_or (p i) (p (i + 1) * 2 ^ 8) ≡ p i + p (i + 1) * 256 =
      bit_or-low 8 (p i) (p (i + 1)) (omega (arith, a)) in
    let two : bit_or (bit_or (p i) (p (i + 1) * 2 ^ 8)) (p (i + 2) * 2 ^ 16)
        ≡ p i + p (i + 1) * 256 + p (i + 2) * 65536 =
      ap (λ x. bit_or x (p (i + 2) * 2 ^ 16)) one
      ∙ bit_or-low 16 (p i + p (i + 1) * 256) (p (i + 2)) (omega (arith, a, b)) in
    let three : read_le32 p i ≡ p i + p (i + 1) * 256 + p (i + 2) * 65536 + p (i + 3) * 16777216 =
      ap (λ x. bit_or x (p (i + 3) * 2 ^ 24)) two
      ∙ bit_or-low 24 (p i + p (i + 1) * 256 + p (i + 2) * 65536) (p (i + 3))
          (omega (arith, a, b, c)) in
    (ground (arith, three, ap p), omega (arith, three, a, b, c, d))

le64_spelled : (p : ℕ → ℕ) (i : ℕ) → ((j : ℕ) → p j < 256) → read_le64 p i ≡ spelled p 8 i
unfolding spelled
le64_spelled p i bytes =
    let (low, small) = le32_spelled p i bytes in
    let (high, small') = le32_spelled p (i + 4) bytes in
    let joined : read_le64 p i ≡ read_le32 p i + read_le32 p (i + 4) * 2 ^ 32 =
      bit_or-low 32 (read_le32 p i) (read_le32 p (i + 4)) small in
    ground (arith, joined, low, high, ap p)

unit_spelled :
    (p : ℕ → ℕ) (i : ℕ) → ((j : ℕ) → p j < 256) → bit_or (p i) (p (i + 1) * 2 ^ 8) ≡ spelled p 2 i
unfolding spelled
unit_spelled p i bytes = omega (arith, bit_or-low 8 (p i) (p (i + 1)) (bytes i))

name_characters :
    (e : ℕ → ℕ) (left c : ℕ)
    → ((j : ℕ) → e j < 256)
    → read_name (λ i. e (56 + i)) left c ≡ characters e left (56 + c * 2)
unfolding read_name characters
name_characters e zero c bytes = refl
name_characters e (suc left) c bytes =
    let unit : bit_or (e (56 + c * 2)) (e (56 + (c * 2 + 1)) * 2 ^ 8) ≡ spelled e 2 (56 + c * 2) =
      ap (λ x. bit_or (e (56 + c * 2)) (e x * 2 ^ 8)) (omega arith)
      ∙ unit_spelled e (56 + c * 2) bytes in
    let rest : read_name (λ i. e (56 + i)) left (c + 1) ≡ characters e left (56 + c * 2 + 2) =
      name_characters e left (c + 1) bytes ∙ ap (characters e left) (omega arith) in
    rw (unit, rest) refl

empty_zero : (e : ℕ → ℕ) (n i : ℕ) → same_bytes e (λ j. 0) n i ≡ all_zero e n i
unfolding same_bytes all_zero
empty_zero e zero i = refl
empty_zero e (suc n) i = ap (λ b. (e i == 0) && b) (empty_zero e n (i + 1))

abbrev assembled : (ℕ → ℕ) → (first last : ℕ) → List ℕ → Partition
assembled e first last name = record {
  start_lba = first;
  sector_count = (last + 2 ^ 64 - first + 1) % 2 ^ 64;
  name = name;
  type_guid = λ i. if ltb i 16 then e i else 0;
}

read_partition-of : (e : ℕ → ℕ) → ((j : ℕ) → e j < 256) → read_partition e ≡ partition_of e
read_partition-of e bytes =
    ap (λ x. assembled e x (read_le64 e 40) (read_name (λ i. e (56 + i)) 36 0))
      (le64_spelled e 32 bytes)
    ∙ ap (λ x. assembled e (spelled e 8 32) x (read_name (λ i. e (56 + i)) 36 0))
        (le64_spelled e 40 bytes)
    ∙ ap (assembled e (spelled e 8 32) (spelled e 8 40)) (name_characters e 36 0 bytes)

-- Entry sizes of which a sector holds a whole number.
abbrev pub IsWhole : ℕ → Type 0
IsWhole size = (size ≡ 128) ⊎ (size ≡ 256) ⊎ (size ≡ 512)

entry_place :
    (size i : ℕ)
    → IsWhole size
    → (i / per_sector size ≡ i * size / 512) × (offset_of size i ≡ i * size % 512)
entry_place size i w = elim w [
  | inl e ↦ rw e (omega arith, omega arith)
  | inr (inl e) ↦ rw e (omega arith, omega arith)
  | inr (inr e) ↦ rw e (omega arith, omega arith)
]

entry_inside : (size j n : ℕ) → IsWhole size → j < n → j / per_sector size * 512 < n * size
entry_inside size j n w lt = elim w [
  | inl e ↦ rw e (omega (arith, lt))
  | inr (inl e) ↦ rw e (omega (arith, lt))
  | inr (inr e) ↦ rw e (omega (arith, lt))
]

present-partitions :
    (s : ℕ → ℕ → ℕ) (size left i : ℕ)
    → IsWhole size
    → ((a b : ℕ) → s a b < 256)
    → present (λ j. s (j / per_sector size)) size left i ≡ partitions s size left i
unfolding present partitions
present-partitions s size zero i w bytes = refl
present-partitions s size (suc left) i w bytes =
    let (sector, offset) = entry_place size i w in
    let at : ℕ → ℕ → ℕ → ℕ = λ x y b. s x (y + b) in
    let e' = at (i * size / 512) (i * size % 512) in
    let same : entry_in (s (i / per_sector size)) size i ≡ e' =
      ap (λ x. at x (offset_of size i)) sector ∙ ap (at (i * size / 512)) offset in
    let bytes' : (j : ℕ) → e' j < 256 = λ j. bytes (i * size / 512) (i * size % 512 + j) in
    let rest = present-partitions s size left (i + 1) w bytes in
    ap
      (λ (e : ℕ → ℕ).
        if is_empty e
        then present (λ j. s (j / per_sector size)) size left (i + 1)
        else read_partition e ∷ present (λ j. s (j / per_sector size)) size left (i + 1))
      same
    ∙ rw (empty_zero e' 16 0, read_partition-of e' bytes', rest) refl

-- For entries of 128, 256 or 512 bytes that follow one another in sectors which can all be read, the loop of
-- `partition_table_read` returns AF_OK and the first eight partitions whose type is not zero, in order, with the
-- numbers, the name and the type that their bytes spell. Bytes are below 256.
pub read_entries_lem :
    (d : Option Device) (lba size n : ℕ) (s : ℕ → ℕ → ℕ)
    → IsWhole size
    → ((a b : ℕ) → s a b < 256)
    → ((j : ℕ) → j * 512 < n * size → block_read d ((lba + j) % 2 ^ 64) 1 ≡ loaded (s j))
    → read_entries d lba size n 0 0 ≡ (ok, take 8 (partitions s size n 0))
read_entries_lem d lba size n s w bytes reads =
    let per : ℕ = per_sector size in
    listed d lba size (λ j. s (j / per_sector size)) n 0 8
      (λ j lt. reads (j / per_sector size) (entry_inside size j n w (omega (arith, lt))))
      (omega arith)
    ∙ ap (λ ps. (ok, take 8 ps)) (present-partitions s size n 0 w bytes)
