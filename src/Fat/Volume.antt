-- ===== src/Fat/Volume.antt =====
-- Mounting and the clusters of kernel/fs/fat32.c.
use afriyie_os.Common.{
  ℕ, ◌+◌, ◌-◌, ◌*◌, ◌/◌, ◌%◌, ◌^◌, Bool, true, false, not, ◌&&◌, ◌||◌, Option, none, some, bit_and,
  bit_or, ltb, leb, ◌==◌, if◌then◌else◌, Status, ok, inval, fs_corrupt,
}
use afriyie_os.Disk.Block.{Device, Loaded, loaded, failed, block_read}
use afriyie_os.Disk.Gpt.{Partition}

-- FAT32_EOC
abbrev pub end_of_chain : ℕ
end_of_chain = 0x0FFFFFF8

abbrev pub rd16 : (ℕ → ℕ) → ℕ → ℕ
rd16 p i = bit_or (p i) (p (i + 1) * 2 ^ 8)

abbrev pub rd32 : (ℕ → ℕ) → ℕ → ℕ
rd32 p i =
    bit_or (bit_or (bit_or (p i) (p (i + 1) * 2 ^ 8)) (p (i + 2) * 2 ^ 16)) (p (i + 3) * 2 ^ 24)

abbrev pub is_power : ℕ → Bool
is_power v = not (v == 0) && (bit_and v (v - 1) == 0)

-- `fat32_volume_t`, with the bytes that memory holds behind those that a read has filled: what is left in a static
-- buffer, and what lies behind it.
pub record Volume : Type 0 where
  pub dev : Option Device
  pub partition_start : ℕ
  pub bytes_per_sector : ℕ
  pub sectors_per_cluster : ℕ
  pub reserved_sectors : ℕ
  pub num_fats : ℕ
  pub fat_sectors : ℕ
  pub root_cluster : ℕ
  pub bytes_per_cluster : ℕ
  pub fat_start_lba : ℕ
  pub data_start_lba : ℕ
  pub cluster_count : ℕ
  pub mounted : Bool
  pub behind : ℕ → ℕ

-- The volume after `af_memset` and the first two assignments.
abbrev pub cleared : (ℕ → ℕ) → Device → Partition → Volume
cleared behind d part = record {
  dev = some d;
  partition_start = part.start_lba;
  bytes_per_sector = 0;
  sectors_per_cluster = 0;
  reserved_sectors = 0;
  num_fats = 0;
  fat_sectors = 0;
  root_cluster = 0;
  bytes_per_cluster = 0;
  fat_start_lba = 0;
  data_start_lba = 0;
  cluster_count = 0;
  mounted = false;
  behind = behind;
}

abbrev pub read_bpb : Volume → (ℕ → ℕ) → Volume
read_bpb v bpb = record v {
  bytes_per_sector = rd16 bpb 11;
  sectors_per_cluster = bpb 13;
  reserved_sectors = rd16 bpb 14;
  num_fats = bpb 16;
  fat_sectors = rd32 bpb 36;
  root_cluster = rd32 bpb 44;
}

-- The checks on the fields of the boot sector.
unfoldable pub is_sane : Volume → Bool
is_sane v =
    (v.bytes_per_sector == 512
      || v.bytes_per_sector == 1024
      || v.bytes_per_sector == 2048
      || v.bytes_per_sector == 4096)
    && is_power v.sectors_per_cluster
    && leb v.sectors_per_cluster 128
    && not (v.reserved_sectors == 0)
    && not (v.num_fats == 0)
    && leb v.num_fats 4
    && not (v.fat_sectors == 0)
    && leb 2 v.root_cluster

unfoldable pub data_sectors : Volume → Partition → ℕ
data_sectors v part =
    (part.sector_count + (2 ^ 64 - v.reserved_sectors) + (2 ^ 64 - v.num_fats * v.fat_sectors))
    % 2 ^ 64

unfoldable pub set_layout : Volume → Partition → Volume
set_layout v part = record v {
  bytes_per_cluster = v.bytes_per_sector * v.sectors_per_cluster % 2 ^ 32;
  fat_start_lba = (part.start_lba + v.reserved_sectors) % 2 ^ 64;
  data_start_lba =
      ((part.start_lba + v.reserved_sectors) % 2 ^ 64 + v.num_fats * v.fat_sectors) % 2 ^ 64;
  cluster_count = data_sectors v part / v.sectors_per_cluster % 2 ^ 32;
}

-- The boot sector has been read.
unfoldable pub mount_sector : Volume → Partition → (ℕ → ℕ) → Status × Volume
mount_sector v part bpb =
    if not (bpb 510 == 0x55) || not (bpb 511 == 0xAA)
    then (fs_corrupt, v)
    else if not (is_sane (read_bpb v bpb))
    then (fs_corrupt, read_bpb v bpb)
    else if ltb (set_layout (read_bpb v bpb) part).cluster_count 65525
    then (fs_corrupt, set_layout (read_bpb v bpb) part)
    else (ok, record (set_layout (read_bpb v bpb) part) { mounted = true })

-- `fat32_mount` of a volume that is not NULL: the volume that it leaves, or `none` for the one at hand.
unfoldable pub mount : (behind : ℕ → ℕ) → Option Device → Option Partition → Status × Option Volume
mount behind none part = (inval, none)
mount behind (some d) none = (inval, none)
mount behind (some d) (some part) = elim (block_read (some d) part.start_lba 1) [
  | failed status ↦ (status, some (cleared behind d part))
  | loaded bpb ↦ let (status, v) = mount_sector (cleared behind d part) part bpb in (status, some v)
]

unfoldable pub cluster_to_lba : Volume → ℕ → ℕ
cluster_to_lba v cluster =
    (v.data_start_lba + (cluster + 2 ^ 32 - 2) % 2 ^ 32 * v.sectors_per_cluster % 2 ^ 64) % 2 ^ 64

-- A buffer of which a read has filled `n` bytes.
abbrev pub buffered : Volume → ℕ → (ℕ → ℕ) → ℕ → ℕ
buffered v n content i = if ltb i n then content i else v.behind i

abbrev pub buffered_read : Volume → ℕ → Loaded → Loaded
buffered_read v n (failed status) = failed status
buffered_read v n (loaded content) = loaded (buffered v n content)

-- The next cluster of a chain. The entry is looked up at an offset below the volume's bytes per sector, in a buffer of
-- 512 bytes.
unfoldable pub fat_next_cluster : Volume → ℕ → ℕ
fat_next_cluster v cluster =
    elim (block_read v.dev ((v.fat_start_lba + cluster * 4 / v.bytes_per_sector) % 2 ^ 64) 1) [
      | failed status ↦ end_of_chain
      | loaded sector ↦
          bit_and (rd32 (buffered v 512 sector) (cluster * 4 % v.bytes_per_sector)) 0x0FFFFFFF
    ]

unfoldable pub read_cluster : Volume → ℕ → Loaded
read_cluster v cluster =
    if ltb cluster 2 || leb ((v.cluster_count + 2) % 2 ^ 32) cluster
    then failed fs_corrupt
    else buffered_read v (v.sectors_per_cluster * 512)
        (block_read v.dev (cluster_to_lba v cluster) v.sectors_per_cluster)
