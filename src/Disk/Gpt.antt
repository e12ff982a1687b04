-- ===== src/Disk/Gpt.antt =====
-- kernel/fs/gpt.c. A buffer is a function of the index of its bytes.
use afriyie_os.Common.{
  ℕ, zero, suc, ◌+◌, ◌-◌, ◌*◌, ◌/◌, ◌%◌, ◌^◌, Bool, true, false, not, ◌&&◌, ◌||◌, Option, none,
  some, List, [], ◌∷◌, bit_or, ltb, ◌==◌, if◌then◌else◌, Status, ok, inval, noent, notsup,
  fs_corrupt,
}
use afriyie_os.Disk.Block.{Device, loaded, failed, block_read}

pub record Partition : Type 0 where
  pub start_lba : ℕ
  pub sector_count : ℕ
  pub name : List ℕ
  pub type_guid : ℕ → ℕ

-- `out`: whether `is_gpt` is set, and the entries.
pub record PartitionTable : Type 0 where
  pub is_gpt : Bool
  pub entries : List Partition

-- AF_MAX_PARTITIONS
abbrev pub max_partitions : ℕ
max_partitions = 8

abbrev pub read_le32 : (ℕ → ℕ) → ℕ → ℕ
read_le32 p i =
    bit_or (bit_or (bit_or (p i) (p (i + 1) * 2 ^ 8)) (p (i + 2) * 2 ^ 16)) (p (i + 3) * 2 ^ 24)

abbrev pub read_le64 : (ℕ → ℕ) → ℕ → ℕ
read_le64 p i = bit_or (read_le32 p i) (read_le32 p (i + 4) * 2 ^ 32)

-- `af_memcmp(a, b, n) == 0` from byte `i` on.
unfoldable pub same_bytes : (ℕ → ℕ) → (ℕ → ℕ) → ℕ → ℕ → Bool
same_bytes a b zero i = true
same_bytes a b (suc n) i = (a i == b i) && same_bytes a b n (i + 1)

-- A string constant as bytes.
abbrev pub byte_at : List ℕ → ℕ → ℕ
byte_at [] i = 0
byte_at (x ∷ xs) zero = x
byte_at (x ∷ xs) (suc i) = byte_at xs i

abbrev pub efi_part : ℕ → ℕ
efi_part = byte_at (0x45 ∷ 0x46 ∷ 0x49 ∷ 0x20 ∷ 0x50 ∷ 0x41 ∷ 0x52 ∷ 0x54 ∷ [])

-- `k_esp_type_guid`
abbrev pub esp_type_guid : ℕ → ℕ
esp_type_guid = byte_at (
    0x28 ∷ 0x73 ∷ 0x2A ∷ 0xC1 ∷ 0x1F ∷ 0xF8 ∷ 0xD2 ∷ 0x11 ∷ 0xBA ∷ 0x4B ∷ 0x00 ∷ 0xA0 ∷ 0xC9 ∷ 0x3E
    ∷ 0xC9 ∷ 0x3B ∷ [])

-- The name: up to 36 code units, those beyond ASCII as '?'.
unfoldable pub read_name : (ℕ → ℕ) → ℕ → ℕ → List ℕ
read_name name zero c = []
read_name name (suc left) c =
    let unit = bit_or (name (c * 2)) (name (c * 2 + 1) * 2 ^ 8) in
    let rest = read_name name left (c + 1) in
    if unit == 0 then [] else (if ltb unit 128 then unit else 0x3F) ∷ rest

abbrev pub read_partition : (ℕ → ℕ) → Partition
read_partition e = record {
  start_lba = read_le64 e 32;
  sector_count = (read_le64 e 40 + 2 ^ 64 - read_le64 e 32 + 1) % 2 ^ 64;
  name = read_name (λ i. e (56 + i)) 36 0;
  type_guid = λ i. if ltb i 16 then e i else 0;
}

abbrev pub per_sector : ℕ → ℕ
per_sector size = if 512 / size == 0 then 1 else 512 / size

abbrev pub offset_of : ℕ → ℕ → ℕ
offset_of size i = i % per_sector size * size

abbrev pub entry_in : (ℕ → ℕ) → ℕ → ℕ → ℕ → ℕ
entry_in sector size i b = sector (offset_of size i + b)

abbrev pub is_empty : (ℕ → ℕ) → Bool
is_empty e = same_bytes e (λ i. 0) 16 0

abbrev pub add_entry : Partition → Status × List Partition → Status × List Partition
add_entry p (status, ps) = (status, p ∷ ps)

-- The loop over the entries from entry `i` on, with `count` partitions in the table.
unfoldable pub read_entries : Option Device → ℕ → ℕ → ℕ → ℕ → ℕ → Status × List Partition
read_entries d lba size zero i count = (ok, [])
read_entries d lba size (suc left) i count =
    if not (ltb count max_partitions)
    then (ok, [])
    else elim (block_read d ((lba + i / per_sector size) % 2 ^ 64) 1) [
      | failed status ↦ (status, [])
      | loaded sector ↦
          let e = entry_in sector size i in
          let rest =
            read_entries d lba size left (i + 1) (if is_empty e then count else count + 1) in
          if is_empty e then rest else add_entry (read_partition e) rest
    ]

abbrev pub no_table : PartitionTable
no_table = record { is_gpt = false; entries = [] }

unfoldable pub read_header : Option Device → (ℕ → ℕ) → Status × PartitionTable
read_header d h =
    let lba = read_le64 h 72 in
    let count = read_le32 h 80 in
    let size = read_le32 h 84 in
    if ltb size 128 || ltb 512 size
    then (fs_corrupt, record { is_gpt = true; entries = [] })
    else let (status, ps) = read_entries d lba size (if ltb 128 count then 128 else count) 0 0 in
      (status, record { is_gpt = true; entries = ps })

unfoldable pub table_read : Option Device → Status × PartitionTable
table_read none = (inval, no_table)
table_read (some d) = elim (block_read (some d) 0 1) [
  | failed status ↦ (status, no_table)
  | loaded mbr ↦
      if not (mbr 510 == 0x55) || not (mbr 511 == 0xAA)
      then (noent, no_table)
      else elim (block_read (some d) 1 1) [
        | failed status ↦ (status, no_table)
        | loaded h ↦
            if not (same_bytes h efi_part 8 0) then (notsup, no_table) else read_header (some d) h
      ]
]

unfoldable pub find_esp : List Partition → Status × Option Partition
find_esp [] = (noent, none)
find_esp (p ∷ ps) =
    let rest = find_esp ps in
    if same_bytes p.type_guid esp_type_guid 16 0 then (ok, some p) else rest
