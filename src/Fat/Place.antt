-- ===== src/Fat/Place.antt =====
-- Where the clusters of a volume lie that kernel/fs/fat32.c has mounted.
use afriyie_os.Common.{
  ℕ, ◌+◌, ◌-◌, ◌*◌, ◌/◌, ◌%◌, ◌^◌, ◌≤◌, ◌<◌, ◌≡◌, refl, sym, ap, subst, ◌∙◌, true, false, not, ◌||◌,
  Option, some, ltb, leb, ◌==◌, arith, Bool-cases, inl, inr, ◌⊎◌, Status, ok, fs_corrupt,
}
use native.Mathlib.Nat.{div-mul-le_self, mul-le-mul_right, suc-mul, mod-le}
use afriyie_os.Disk.Block.{Device, Loaded, loaded, failed, block_read}
use afriyie_os.Disk.Gpt.{Partition}
use afriyie_os.Fat.Volume.{
  Volume, cleared, read_bpb, is_sane, data_sectors, set_layout, mount_sector, mount, cluster_to_lba,
  buffered_read, read_cluster,
}

-- What a mounted volume is.
pub record IsMounted (d : Device) (part : Partition) (v : Volume) : Type 0 where
  pub device : v.dev ≡ some d
  pub sane : is_sane v ≡ true
  pub starts :
      v.data_start_lba
      ≡ ((part.start_lba + v.reserved_sectors) % 2 ^ 64 + v.num_fats * v.fat_sectors) % 2 ^ 64
  pub counted : v.cluster_count ≡ data_sectors v part / v.sectors_per_cluster % 2 ^ 32
  pub many : 65525 ≤ v.cluster_count
  pub cluster_bytes : v.bytes_per_cluster ≡ v.bytes_per_sector * v.sectors_per_cluster % 2 ^ 32

set_layout-IsMounted :
    (behind : ℕ → ℕ) (d : Device) (part : Partition) (bpb : ℕ → ℕ)
    → let v = set_layout (read_bpb (cleared behind d part) bpb) part in
      is_sane (read_bpb (cleared behind d part) bpb) ≡ true
      → 65525 ≤ v.cluster_count
      → IsMounted d part (record v { mounted = true })
unfolding set_layout data_sectors is_sane
set_layout-IsMounted behind d part bpb sane many = record {
  device = refl;
  sane = sane;
  starts = refl;
  counted = refl;
  many = many;
  cluster_bytes = refl;
}

-- Either the boot sector is refused, or it is sane and the volume is laid out after it.
mount_sector-cases :
    (behind : ℕ → ℕ) (d : Device) (part : Partition) (bpb : ℕ → ℕ)
    → let read_in = read_bpb (cleared behind d part) bpb in
      let v = set_layout read_in part in
      ((mount_sector (cleared behind d part) part bpb).1.mounted ≡ false)
      ⊎ ((is_sane read_in ≡ true)
          × (65525 ≤ v.cluster_count)
          × (mount_sector (cleared behind d part) part bpb ≡ (ok, record v { mounted = true })))
unfolding mount_sector set_layout
mount_sector-cases behind d part bpb =
    let read_in = read_bpb (cleared behind d part) bpb in
    elim (Bool-cases (not (bpb 510 == 0x55) || not (bpb 511 == 0xAA))) [
      | inl unsigned ↦ inl (rw unsigned refl)
      | inr signed ↦ elim (Bool-cases (is_sane read_in)) [
        | inr bad ↦ inl (rw (signed, bad) refl)
        | inl sane ↦ elim (Bool-cases (ltb (set_layout read_in part).cluster_count 65525)) [
          | inl few ↦ inl (rw (signed, sane, few) refl)
          | inr many ↦ inr (sane, ground (arith, many), rw (signed, sane, many) refl)
        ]
      ]
    ]

mounted-volume :
    (behind : ℕ → ℕ) (d : Device) (part : Partition) (bpb : ℕ → ℕ)
    → (mount_sector (cleared behind d part) part bpb).1.mounted ≡ true
    → IsMounted d part (mount_sector (cleared behind d part) part bpb).1
mounted-volume behind d part bpb e = elim (mount_sector-cases behind d part bpb) [
  | inl refused ↦ absurd (ground (arith, refused, e))
  | inr (sane, many, all) ↦
      subst (IsMounted d part) (ap (λ (r : Status × Volume). r.1) (sym all))
        (set_layout-IsMounted behind d part bpb sane many)
]

-- What `mount` leaves for what reading the boot sector gave.
abbrev mounts : (ℕ → ℕ) → Device → Partition → Loaded → Volume
mounts behind d part (failed status) = cleared behind d part
mounts behind d part (loaded bpb) = (mount_sector (cleared behind d part) part bpb).1

mounts-IsMounted :
    (behind : ℕ → ℕ) (d : Device) (part : Partition) (r : Loaded)
    → (mounts behind d part r).mounted ≡ true
    → IsMounted d part (mounts behind d part r)
mounts-IsMounted behind d part (failed status) e = absurd (ground (arith, e))
mounts-IsMounted behind d part (loaded bpb) e = mounted-volume behind d part bpb e

mount-mounts :
    (behind : ℕ → ℕ) (d : Device) (part : Partition) (r : Loaded)
    → (elim r as (λ _. Status × Option Volume) [
      | failed status ↦ (status, some (cleared behind d part))
      | loaded bpb ↦
          let (status, v) = mount_sector (cleared behind d part) part bpb in (status, some v)
    ]).1
      ≡ some (mounts behind d part r)
mount-mounts behind d part (failed status) = refl
mount-mounts behind d part (loaded bpb) = refl

mount-IsMounted :
    (behind : ℕ → ℕ) (d : Device) (part : Partition) (v : Volume)
    → (mount behind (some d) (some part)).1 ≡ some v
    → v.mounted ≡ true
    → IsMounted d part v
unfolding mount
mount-IsMounted behind d part v e mounted =
    let r = block_read (some d) part.start_lba 1 in
    let same : mounts behind d part r ≡ v = ground (arith, e, mount-mounts behind d part r) in
    subst (IsMounted d part) same
      (mounts-IsMounted behind d part r (ap (λ (x : Volume). x.mounted) same ∙ mounted))

place-lba :
    (part : Partition) (v : Volume) (cluster : ℕ)
    → v.data_start_lba
      ≡ ((part.start_lba + v.reserved_sectors) % 2 ^ 64 + v.num_fats * v.fat_sectors) % 2 ^ 64
    → (cluster + 2 ^ 32 - 2) % 2 ^ 32 ≡ cluster - 2
    → part.start_lba
        + v.reserved_sectors
        + v.num_fats * v.fat_sectors
        + (cluster - 2) * v.sectors_per_cluster
      < 2 ^ 64
    → cluster_to_lba v cluster
      ≡ part.start_lba
        + v.reserved_sectors
        + v.num_fats * v.fat_sectors
        + (cluster - 2) * v.sectors_per_cluster
unfolding cluster_to_lba
place-lba part v cluster starts number small = rw number (
    let tables = v.num_fats * v.fat_sectors in
    let before = (cluster - 2) * v.sectors_per_cluster in
    let begins : v.data_start_lba ≡ part.start_lba + v.reserved_sectors + tables =
      omega (arith, starts, small) in
    omega (arith, begins, small))

-- Clusters after the tables, where nothing wraps.
place-bounds :
    (d : Device) (part : Partition) (v : Volume) (cluster : ℕ)
    → IsMounted d part v
    → part.start_lba + part.sector_count < 2 ^ 64
    → v.reserved_sectors + v.num_fats * v.fat_sectors ≤ part.sector_count
    → 2 ≤ cluster
    → cluster < v.cluster_count + 2
    → cluster < 2 ^ 32
    → (part.start_lba + v.reserved_sectors + v.num_fats * v.fat_sectors ≤ cluster_to_lba v cluster)
      × (cluster_to_lba v cluster + v.sectors_per_cluster ≤ part.start_lba + part.sector_count)
unfolding cluster_to_lba data_sectors
place-bounds d part v cluster m fits tables low high word =
    let total = data_sectors v part in
    let left : total ≡ part.sector_count - (v.reserved_sectors + v.num_fats * v.fat_sectors) =
      omega (arith, tables, fits) in
    let few : v.cluster_count ≤ total / v.sectors_per_cluster =
      omega (arith, m.counted, mod-le (total / v.sectors_per_cluster) (2 ^ 32)) in
    let inner : v.cluster_count * v.sectors_per_cluster ≤ total = omega (
      arith,
      mul-le-mul_right v.sectors_per_cluster few,
      div-mul-le_self total v.sectors_per_cluster,
    ) in
    let own : (cluster - 2) * v.sectors_per_cluster + v.sectors_per_cluster
        ≤ v.cluster_count * v.sectors_per_cluster =
      omega (
        arith,
        suc-mul (cluster - 2) v.sectors_per_cluster,
        mul-le-mul_right {m = cluster - 2 + 1} {n = v.cluster_count} v.sectors_per_cluster
            (omega (arith, low, high)),
      ) in
    let number : (cluster + 2 ^ 32 - 2) % 2 ^ 32 ≡ cluster - 2 = omega (arith, low, word) in
    let at : cluster_to_lba v cluster
        ≡ part.start_lba
          + v.reserved_sectors
          + v.num_fats * v.fat_sectors
          + (cluster - 2) * v.sectors_per_cluster =
      place-lba part v cluster m.starts number (omega (arith, own, inner, left, tables, fits)) in
    (omega (arith, at), omega (arith, at, own, inner, left, tables))

-- A read of a cluster of a mounted volume whose partition ends below 2^64 and has room for the reserved sectors and
-- the tables is either refused, or asks the device for sectors of the partition behind the tables.
pub read_cluster_lem :
    (behind : ℕ → ℕ) (d : Device) (part : Partition) (v : Volume) (cluster : ℕ)
    → (mount behind (some d) (some part)).1 ≡ some v
    → v.mounted ≡ true
    → part.start_lba + part.sector_count < 2 ^ 64
    → v.reserved_sectors + v.num_fats * v.fat_sectors ≤ part.sector_count
    → cluster < 2 ^ 32
    → (read_cluster v cluster ≡ failed fs_corrupt)
      ⊎ ((read_cluster v cluster
            ≡ buffered_read v
                (v.sectors_per_cluster * 512)
                (block_read (some d) (cluster_to_lba v cluster) v.sectors_per_cluster))
          × (part.start_lba + v.reserved_sectors + v.num_fats * v.fat_sectors
              ≤ cluster_to_lba v cluster)
          × (cluster_to_lba v cluster + v.sectors_per_cluster ≤ part.start_lba + part.sector_count))
unfolding read_cluster
read_cluster_lem behind d part v cluster e mounted fits tables word =
    let m = mount-IsMounted behind d part v e mounted in
    elim (Bool-cases (ltb cluster 2 || leb ((v.cluster_count + 2) % 2 ^ 32) cluster)) [
      | inl refused ↦ inl (rw refused refl)
      | inr passes ↦
          let low : 2 ≤ cluster = ground (arith, passes) in
          let near : cluster < (v.cluster_count + 2) % 2 ^ 32 = ground (arith, passes) in
          let (from, to) =
            place-bounds d part v cluster m fits tables low
              (omega (arith, near, mod-le (v.cluster_count + 2) (2 ^ 32))) word in
          let asks : Option Device → Loaded = λ x.
            buffered_read v (v.sectors_per_cluster * 512)
              (block_read x (cluster_to_lba v cluster) v.sectors_per_cluster) in
          inr (rw passes (ap asks m.device), from, to)
    ]
