-- ===== src/Disk/Tests.antt =====
-- kernel/core/block.c and kernel/fs/gpt.c on a small disk.
use afriyie_os.Common.{
  ◌*◌, Bool, true, ◌&&◌, zero, suc, List, ◌∷◌, inl, ℕ, ◌+◌, ◌%◌, ◌^◌, ◌≡◌, refl, ap, ◌<◌, some, [],
  arith, ltb, ◌==◌, if◌then◌else◌, ok, inval,
}
use afriyie_os.Disk.Block.{
  Device, loaded, failed, check_range, driver_read, read_checked, block_read,
}
use afriyie_os.Disk.Gpt.{
  byte_at, Partition, efi_part, esp_type_guid, same_bytes, read_name, read_entries, read_header,
  table_read, find_esp,
}
use afriyie_os.Disk.Entries.{take}
use afriyie_os.Disk.Table.{partitions, read_entries_lem}

-- Byte `i` of the header: the entries begin at sector 2, four of 128 bytes.
abbrev header : ℕ → ℕ
header i = if i == 72 then 2 else if i == 80 then 4 else if i == 84 then 128 else efi_part i

-- The second entry is an EFI system partition of sectors 2048 to 4095 named "EF"; the others are
-- empty.
abbrev esp_entry : ℕ → ℕ
esp_entry i =
    if ltb i 16
    then esp_type_guid i
    else if i == 33
    then 8
    else if i == 40
    then 0xff
    else if i == 41
    then 15
    else if i == 56
    then 0x45
    else if i == 58
    then 0x46
    else 0

abbrev entries : ℕ → ℕ
entries i = if ltb i 128 then 0 else if ltb i 256 then esp_entry (i % 128) else 0

abbrev boot_sector : ℕ → ℕ
boot_sector i = if i == 510 then 0x55 else if i == 511 then 0xAA else 0

abbrev disk : Device
disk = record {
  sector_count = 5000;
  read = some (λ lba count.
      loaded (if lba == 0 then boot_sector else if lba == 1 then header else entries));
}

disk_read :
    let (status, t) = table_read (some disk) in
    (status ≡ ok) × ((find_esp t.entries).0 ≡ ok) × (take 9 t.entries ≡ t.entries)
unfolding table_read read_header read_entries block_read read_checked check_range driver_read
    same_bytes read_name find_esp take
disk_read = (refl, refl, refl)

past_the_end : block_read (some disk) 4999 2 ≡ failed inval
unfolding block_read read_checked check_range
past_the_end = refl

entries_read :
    (j : ℕ) → j * 512 < 4 * 128 → block_read (some disk) ((2 + j) % 2 ^ 64) 1 ≡ loaded entries
unfolding block_read read_checked check_range driver_read
entries_read j lt =
    let at : (2 + j) % 2 ^ 64 ≡ 2 = omega arith in ap (λ a. block_read (some disk) a 1) at

abbrev all_bytes : List ℕ → Bool
all_bytes [] = true
all_bytes (x ∷ xs) = ltb x 256 && all_bytes xs

byte_at-small : (xs : List ℕ) (i : ℕ) → all_bytes xs ≡ true → byte_at xs i < 256
byte_at-small [] i all = omega arith
byte_at-small (x ∷ xs) zero all = ground (arith, all)
byte_at-small (x ∷ xs) (suc i) all = byte_at-small xs i (ground (arith, all))

abbrev guid_bytes : List ℕ
guid_bytes =
    0x28 ∷ 0x73 ∷ 0x2A ∷ 0xC1 ∷ 0x1F ∷ 0xF8 ∷ 0xD2 ∷ 0x11 ∷ 0xBA ∷ 0x4B ∷ 0x00 ∷ 0xA0 ∷ 0xC9 ∷ 0x3E
    ∷ 0xC9 ∷ 0x3B ∷ []

guid-small : (i : ℕ) → esp_type_guid i < 256
guid-small i = byte_at-small guid_bytes i refl

entries-bytes : (a b : ℕ) → entries b < 256
entries-bytes a b = ground (arith, guid-small (b % 128))

read_entries_lem_example :
    read_entries (some disk) 2 128 4 0 0 ≡ (ok, take 8 (partitions (λ j. entries) 128 4 0))
read_entries_lem_example =
    read_entries_lem (some disk) 2 128 4 (λ j. entries) (inl refl) entries-bytes entries_read

abbrev boot_partition : Partition
boot_partition = record {
  start_lba = 2048;
  sector_count = 2048;
  name = [];
  type_guid = esp_type_guid;
}
