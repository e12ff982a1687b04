-- ===== src/Fat/Open.antt =====
-- Open files of kernel/fs/fat32.c, and the reading of whole files.
use afriyie_os.Common.{
  ℕ, zero, suc, ◌+◌, true, not, Option, none, some, List, ltb, ◌==◌, if◌then◌else◌, update, Status,
  ok, isdir, toomany, overflow, io,
}
use afriyie_os.Fat.Volume.{Volume}
use afriyie_os.Fat.File.{File, ReadResult, fat_read, close}
use afriyie_os.Fat.Directory.{Entry, lookup_path}

-- AF_FAT_MAX_OPEN
abbrev pub max_open : ℕ
max_open = 16

-- `s_open_files` from handle `i` on: the first that is free.
unfoldable pub free_file : ℕ → (ℕ → File) → ℕ → Option ℕ
free_file zero files i = none
free_file (suc left) files i =
    let rest = free_file left files (i + 1) in if not (files i).in_use then some i else rest

abbrev pub opened_file : Volume → Entry → File
opened_file v e = record {
  in_use = true;
  volume = v;
  first_cluster = e.first_cluster;
  size = e.size;
  offset = 0;
}

-- `fat32_open` of an entry that has been looked up: the table and the handle.
unfoldable pub open_entry :
    (ℕ → File) → Volume → Status × Option Entry → Status × (ℕ → File) × Option ℕ
open_entry files v (status, none) = (status, files, none)
open_entry files v (status, some e) =
    if e.is_directory then (isdir, files, none) else elim (free_file max_open files 0) [
      | none ↦ (toomany, files, none)
      | some i ↦ (ok, update files i (opened_file v e), some i)
    ]

-- The outer `none` is that of the lookup.
unfoldable pub open_path : (ℕ → File) → Volume → List ℕ → Option (Status × (ℕ → File) × Option ℕ)
open_path files v path = elim (lookup_path v path) [
  | none ↦ none
  | some found ↦ some (open_entry files v found)
]

-- What `fat32_read_file` leaves: its status, the open files, the buffer and `*bytes_read`.
pub record FileRead : Type 0 where
  pub status : Status
  pub files : ℕ → File
  pub buffer : ℕ → ℕ
  pub bytes_read : Option ℕ

abbrev pub refuse : Status → (ℕ → File) → (ℕ → ℕ) → FileRead
refuse status files out = record { status = status; files = files; buffer = out; bytes_read = none }

-- The table when a handle has been read from and close_handle.
abbrev pub close_handle : (ℕ → File) → ℕ → Option File → ℕ → File
close_handle files i file = elim (close file).1 [ none ↦ files | some f ↦ update files i f ]

-- The end of `fat32_read_file`, after `fat32_read`.
unfoldable pub finish_file : (ℕ → File) → (i size : ℕ) → ReadResult → FileRead
finish_file files i size r = elim r.status [
  | ok ↦ elim r.bytes_read [
    | none ↦ refuse io (close_handle files i r.file) r.buffer
    | some n ↦
        if n == size
        then record {
          status = ok;
          files = close_handle files i r.file;
          buffer = r.buffer;
          bytes_read = some n;
        }
        else refuse io (close_handle files i r.file) r.buffer
  ]
  | bad ↦ refuse bad (close_handle files i r.file) r.buffer
]

unfoldable pub read_opened : (size : ℕ) → (ℕ → ℕ) → Status × (ℕ → File) × Option ℕ → FileRead
read_opened size out (status, files, none) = refuse status files out
read_opened size out (status, files, some i) =
    finish_file files i size (fat_read (some (files i)) out size)

unfoldable pub read_entry :
    (ℕ → File) → Volume → (ℕ → ℕ) → (buffer_size : ℕ) → Status × Option Entry → FileRead
read_entry files v out buffer_size (status, none) = refuse status files out
read_entry files v out buffer_size (status, some e) =
    if e.is_directory
    then refuse isdir files out
    else if ltb buffer_size e.size
    then refuse overflow files out
    else read_opened e.size out (open_entry files v (status, some e))

-- `fat32_read_file`; `fat32_open` looks the path up once more, with the same result.
unfoldable pub read_file :
    (ℕ → File) → Volume → List ℕ → (ℕ → ℕ) → (buffer_size : ℕ) → Option FileRead
read_file files v path out buffer_size = elim (lookup_path v path) [
  | none ↦ none
  | some found ↦ some (read_entry files v out buffer_size found)
]
