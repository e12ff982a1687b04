-- ===== src/Fat/File.antt =====
-- Reading files of kernel/fs/fat32.c.
use afriyie_os.Common.{
  ℕ, zero, suc, ◌+◌, ◌-◌, ◌/◌, ◌%◌, ◌^◌, Bool, false, not, ◌&&◌, ◌||◌, Option, none, some, ltb, leb,
  if◌then◌else◌, Status, ok, inval, fs_corrupt,
}
use afriyie_os.Disk.Block.{loaded, failed}
use afriyie_os.Fat.Volume.{Volume, end_of_chain, fat_next_cluster, read_cluster}

-- `fat32_file_t`, with the first cluster and the size of its entry.
pub record File : Type 0 where
  pub in_use : Bool
  pub volume : Volume
  pub first_cluster : ℕ
  pub size : ℕ
  pub offset : ℕ

-- What `fat32_read` leaves: its status, the file, the buffer and `*bytes_read`, which `none` leaves as it
-- was.
pub record ReadResult : Type 0 where
  pub status : Status
  pub file : Option File
  pub buffer : ℕ → ℕ
  pub bytes_read : Option ℕ

abbrev pub ends_chain : ℕ → Bool
ends_chain cluster = ltb cluster 2 || leb end_of_chain cluster

-- Whole clusters are skipped to reach the read position; `none` where the chain ends before it.
unfoldable pub skip_clusters : ℕ → Volume → ℕ → Option ℕ
skip_clusters zero v cluster = some cluster
skip_clusters (suc left) v cluster =
    let rest = skip_clusters left v (fat_next_cluster v cluster) in
    if ends_chain cluster then none else rest

-- `af_memcpy(out + done, cluster_data + within, take)`
abbrev pub copied : (out content : ℕ → ℕ) → (done within take : ℕ) → ℕ → ℕ
copied out content done within take j =
    if leb done j && ltb j (done + take) then content (within + (j - done)) else out j

-- The loop over the clusters; the guard lets it go round as often as the volume has clusters.
unfoldable pub read_loop :
    ℕ → Volume → (cluster within done bytes : ℕ) → (ℕ → ℕ) → Status × ℕ × (ℕ → ℕ)
read_loop zero v cluster within done bytes out =
    if ltb done bytes then (fs_corrupt, done, out) else (ok, done, out)
read_loop (suc left) v cluster within done bytes out =
    if not (ltb done bytes)
    then (ok, done, out)
    else if ends_chain cluster
    then (fs_corrupt, done, out)
    else elim (read_cluster v cluster) [
      | failed status ↦ (status, done, out)
      | loaded content ↦
          let available = v.bytes_per_cluster - within in
          let take = if ltb available (bytes - done) then available else bytes - done in
          read_loop left v (if ltb (done + take) bytes then fat_next_cluster v cluster else cluster)
            0 (done + take) bytes (copied out content done within take)
    ]

unfoldable pub finish_read : File → Status × ℕ × (ℕ → ℕ) → ReadResult
finish_read f (Status.ok, done, out) = record {
  status = ok;
  file = some (record f { offset = (f.offset + done) % 2 ^ 32 });
  buffer = out;
  bytes_read = some done;
}
finish_read f (status, done, out) = record {
  status = status;
  file = some f;
  buffer = out;
  bytes_read = some 0;
}

-- `fat32_read` into a buffer that is not NULL, with a `bytes_read` that is not NULL.
unfoldable pub fat_read : Option File → (ℕ → ℕ) → ℕ → ReadResult
fat_read none out wanted = record { status = inval; file = none; buffer = out; bytes_read = none }
fat_read (some f) out wanted =
    let remaining = f.size - f.offset in
    let bytes = if ltb remaining wanted then remaining else wanted in
    if not f.in_use
    then record { status = inval; file = some f; buffer = out; bytes_read = none }
    else if leb f.size f.offset
    then record { status = ok; file = some f; buffer = out; bytes_read = some 0 }
    else elim (skip_clusters (f.offset / f.volume.bytes_per_cluster) f.volume f.first_cluster) [
      | none ↦ record { status = fs_corrupt; file = some f; buffer = out; bytes_read = some 0 }
      | some cluster ↦ finish_read f (
          read_loop f.volume.cluster_count f.volume cluster (f.offset % f.volume.bytes_per_cluster)
            0 bytes out)
    ]

unfoldable pub close : Option File → Status × Option File
close none = (inval, none)
close (some f) = if not f.in_use then (inval, some f) else (ok, some (record f { in_use = false }))
