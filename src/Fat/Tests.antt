-- ===== src/Fat/Tests.antt =====
-- The theorems about FAT32 at a concrete volume.
use afriyie_os.Common.{◌^◌, ltb, ◌∷◌, ◌≢◌, none}
use afriyie_os.Common.{
  ℕ, zero, suc, ◌+◌, ◌*◌, ◌%◌, ◌≤◌, ◌<◌, ◌≡◌, refl, ap, true, false, Option, some, [], ◌==◌,
  if◌then◌else◌, arith, ◌⊎◌, Status, ok, fs_corrupt,
}
use afriyie_os.Disk.Block.{
  Device, loaded, failed, block_read, check_range, driver_read, read_checked,
}
use afriyie_os.Disk.Gpt.{Partition}
use afriyie_os.Fat.Volume.{
  buffered_read, Volume, mount, mount_sector, is_sane, set_layout, data_sectors, cluster_to_lba,
  fat_next_cluster, read_cluster,
}
use afriyie_os.Fat.File.{File, fat_read, ends_chain}
use afriyie_os.Fat.Names.{name_of, short_name, until_blank, until_zero, same_upper, checksum_from}
use afriyie_os.Fat.Directory.{
  Entry, readdir, walk_clusters, scan_entries, search, take_component, skip_separators,
  after_search, next_directory, walk_path, lookup_path,
}
use afriyie_os.Fat.Open.{read_file, read_entry, open_entry, free_file, read_opened, finish_file}
use afriyie_os.Fat.Search.{lookup_path_lem}
use afriyie_os.Fat.Handles.{read_file_lem}
use afriyie_os.Fat.File.{finish_read, read_loop, skip_clusters}
use afriyie_os.Fat.Place.{read_cluster_lem}
use afriyie_os.Fat.Chain.{IsChain, byte_of, read_lem}

-- One sector per cluster, 32 reserved sectors, two tables of 1600 sectors.
abbrev boot_sector : ℕ → ℕ
boot_sector i =
    if i == 510
    then 0x55
    else if i == 511
    then 0xAA
    else if i == 12
    then 2
    else if i == 13
    then 1
    else if i == 14
    then 32
    else if i == 16
    then 2
    else if i == 36
    then 64
    else if i == 37
    then 6
    else if i == 44
    then 2
    else 0

-- The table links cluster 5 to cluster 6, where the chain ends.
abbrev first_table : ℕ → ℕ
first_table i =
    if i == 20
    then 6
    else if i == 24
    then 0xF8
    else if i == 25
    then 0xFF
    else if i == 26
    then 0xFF
    else if i == 27
    then 0x0F
    else 0

-- One file, "A", of 700 bytes from cluster 5 on.
abbrev root_directory : ℕ → ℕ
root_directory i =
    if i == 0
    then 65
    else if ltb i 11
    then 32
    else if i == 26
    then 5
    else if i == 28
    then 188
    else if i == 29
    then 2
    else 0

-- A byte of a cluster is the sum of its sector and its index.
abbrev disk : Device
disk = record {
  sector_count = 1000000;
  read = some (λ lba count. loaded (
      if lba == 2048
      then boot_sector
      else if lba == 2080
      then first_table
      else if lba == 5280
      then root_directory
      else λ i. (lba + i) % 256));
}

abbrev partition : Partition
partition = record { start_lba = 2048; sector_count = 200000; name = []; type_guid = λ i. 0 }

abbrev volume : Volume
volume = record {
  dev = some disk;
  partition_start = 2048;
  bytes_per_sector = 512;
  sectors_per_cluster = 1;
  reserved_sectors = 32;
  num_fats = 2;
  fat_sectors = 1600;
  root_cluster = 2;
  bytes_per_cluster = 512;
  fat_start_lba = 2080;
  data_start_lba = 5280;
  cluster_count = 196768;
  mounted = true;
  behind = λ i. 0;
}

mount-volume : mount (λ i. 0) (some disk) (some partition) ≡ (ok, some volume)
unfolding mount mount_sector is_sane set_layout data_sectors block_read check_range driver_read
    read_checked
mount-volume = refl

read_cluster_lem_example :
    (read_cluster volume 5 ≡ failed fs_corrupt)
    ⊎ ((read_cluster volume 5
          ≡ buffered_read volume (1 * 512) (block_read (some disk) (cluster_to_lba volume 5) 1))
        × (2048 + 32 + 2 * 1600 ≤ cluster_to_lba volume 5)
        × (cluster_to_lba volume 5 + 1 ≤ 2048 + 200000))
read_cluster_lem_example =
    read_cluster_lem (λ i. 0) disk partition volume 5
      (ap (λ (r : Status × Option Volume). r.1) mount-volume) refl (omega arith) (omega arith)
      (omega arith)

abbrev file_clusters : ℕ → ℕ
file_clusters k = if k == 0 then 5 else 6

abbrev file_content : ℕ → ℕ → ℕ
file_content k i = (5283 + k + i) % 256

volume-goes_on : (k : ℕ) → k < 2 → ends_chain (file_clusters k) ≡ false
volume-goes_on zero lt = refl
volume-goes_on (suc zero) lt = refl
volume-goes_on (suc (suc k)) lt = absurd (omega arith)

volume-in_range : (k : ℕ) → k < 2 → file_clusters k < (196768 + 2) % 2 ^ 32
volume-in_range k lt = ground arith

volume-reads :
    (k : ℕ)
    → k < 2
    → block_read (some disk) (cluster_to_lba volume (file_clusters k)) 1 ≡ loaded (file_content k)
unfolding fat_next_cluster read_cluster cluster_to_lba block_read check_range driver_read
    read_checked
volume-reads zero lt = refl
volume-reads (suc zero) lt = refl
volume-reads (suc (suc k)) lt = absurd (omega arith)

volume-links :
    (k : ℕ) → k + 1 < 2 → file_clusters (k + 1) ≡ fat_next_cluster volume (file_clusters k)
unfolding fat_next_cluster read_cluster cluster_to_lba block_read check_range driver_read
    read_checked
volume-links zero lt = refl
volume-links (suc k) lt = absurd (omega arith)

volume-IsChain : IsChain volume file_clusters file_content 2
volume-IsChain = record {
  goes_on = volume-goes_on;
  in_range = volume-in_range;
  reads = volume-reads;
  links = volume-links;
}

abbrev open_file : File
open_file = record { in_use = true; volume = volume; first_cluster = 5; size = 700; offset = 500 }

-- 100 bytes across the end of the first cluster.
read_lem_example :
    let after = fat_read (some open_file) (λ j. 0) 100 in
    (after.status ≡ ok)
    × (after.file ≡ some (record open_file { offset = 500 + 100 }))
    × (after.bytes_read ≡ some 100)
    × (after.buffer 20 ≡ byte_of file_content 512 (500 + 20))
read_lem_example =
    read_lem open_file file_clusters file_content 2 100 20 (λ j. 0) refl volume-IsChain refl refl
      refl (omega arith) (omega arith) (omega arith) (omega arith) (omega arith) (omega arith)

lookup_path_lem_example : lookup_path volume (0x2F ∷ 0x61 ∷ []) ≢ none
lookup_path_lem_example = lookup_path_lem volume (0x2F ∷ 0x61 ∷ []) (omega arith)

abbrev no_files : ℕ → File
no_files i = record { in_use = false; volume = volume; first_cluster = 0; size = 0; offset = 0 }

abbrev found_a : Entry
found_a = record { first_cluster = 5; size = 700; is_directory = false; name = 65 ∷ [] }

lookup_path-a : lookup_path volume (0x2F ∷ 0x61 ∷ []) ≡ some (ok, some found_a)
unfolding lookup_path walk_path search readdir walk_clusters scan_entries name_of short_name
    until_blank until_zero same_upper take_component skip_separators after_search next_directory
    fat_next_cluster read_cluster cluster_to_lba block_read check_range driver_read read_checked
    checksum_from
lookup_path-a = refl

read_file-a :
    read_file no_files volume (0x2F ∷ 0x61 ∷ []) (λ j. 0) 1000
    ≡ some (read_entry no_files volume (λ j. 0) 1000 (ok, some found_a))
unfolding read_file
read_file-a = rw (lookup_path-a, read_file) refl

read_file_lem_example :
    ((read_entry no_files volume (λ j. 0) 1000 (ok, some found_a)).files 0).in_use ≡ false
read_file_lem_example =
    read_file_lem no_files volume (0x2F ∷ 0x61 ∷ []) (λ j. 0) 1000 0
      (read_entry no_files volume (λ j. 0) 1000 (ok, some found_a)) read_file-a

-- "/a" is read whole.
read_a : (read_entry no_files volume (λ j. 0) 1000 (ok, some found_a)).bytes_read ≡ some 700
unfolding read_entry open_entry free_file read_opened finish_file fat_read finish_read read_loop
    skip_clusters fat_next_cluster read_cluster cluster_to_lba block_read check_range driver_read
    read_checked
read_a = refl
