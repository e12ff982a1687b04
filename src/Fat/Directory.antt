-- ===== src/Fat/Directory.antt =====
-- Directories and paths of kernel/fs/fat32.c.
use afriyie_os.Common.{
  ℕ, zero, suc, ◌+◌, ◌*◌, ◌/◌, ◌%◌, ◌^◌, Bool, true, false, not, ◌&&◌, ◌||◌, Option, none, some,
  List, [], ◌∷◌, ltb, ◌==◌, if◌then◌else◌, bit_and, Status, ok, inval, noent, notdir, notsup,
  fs_corrupt,
}
use afriyie_os.Disk.Block.{loaded, failed}
use afriyie_os.Fat.Volume.{Volume, rd16, rd32, fat_next_cluster, read_cluster}
use afriyie_os.Fat.File.{ends_chain}
use afriyie_os.Fat.Names.{LongName, forget, add_fragment, name_of, same_upper}

-- `fat32_entry_t`
pub record Entry : Type 0 where
  pub first_cluster : ℕ
  pub size : ℕ
  pub is_directory : Bool
  pub name : List ℕ

abbrev pub entry_of : (ℕ → ℕ) → LongName → Entry
entry_of e n = record {
  first_cluster = (rd16 e 20 * 2 ^ 16 % 2 ^ 32 + rd16 e 26) % 2 ^ 32;
  size = rd32 e 28;
  is_directory = not (bit_and (e 11) 0x10 == 0);
  name = name_of e n;
}

-- What the walk through the entries of a cluster finds.
pub data Scan : Type 0 where
  at_end : Scan
  gives : Entry → Scan
  goes_on : (found : ℕ) → LongName → Scan

-- The loop over the entries of a cluster, with the number of the next.
unfoldable pub scan_entries : (left : ℕ) → (ℕ → ℕ) → (offset found index : ℕ) → LongName → Scan
scan_entries zero content offset found index n = goes_on found n
scan_entries (suc left) content offset found index n =
    let e : ℕ → ℕ = λ i. content (offset + i) in
    let deleted = e 0 == 0xE5 in
    let is_fragment = e 11 == 0x0F in
    let is_label = not (bit_and (e 11) 8 == 0) && (bit_and (e 11) 0x10 == 0) in
    let passed = deleted || is_fragment || is_label in
    let n' =
      if deleted
      then forget n
      else if is_fragment
      then add_fragment e n
      else if is_label
      then n
      else forget n in
    let rest =
      scan_entries left content (offset + 32) (if passed then found else (found + 1) % 2 ^ 32) index
        n' in
    if e 0 == 0
    then at_end
    else if not passed && (found == index)
    then gives (entry_of e n)
    else rest

-- The loop of `fat32_readdir` over the clusters, with its guard.
unfoldable pub walk_clusters :
    (left : ℕ) → Volume → (cluster found index : ℕ) → LongName → Status × Option Entry
walk_clusters zero v cluster found index n =
    if ends_chain cluster then (noent, none) else (fs_corrupt, none)
walk_clusters (suc left) v cluster found index n =
    if ends_chain cluster then (noent, none) else elim (read_cluster v cluster) [
      | failed status ↦ (status, none)
      | loaded content ↦
          elim (scan_entries ((v.bytes_per_cluster + 31) / 32) content 0 found index n) [
            | at_end ↦ (noent, none)
            | gives e ↦ (ok, some e)
            | goes_on found' n' ↦ walk_clusters left v (fat_next_cluster v cluster) found' index n'
          ]
    ]

abbrev pub no_name : LongName
no_name = record { is_there = false; chars = []; checksum = 0 }

-- `fat32_readdir` into an entry that is not NULL, of a volume that is not NULL.
unfoldable pub readdir : Volume → (dir_cluster index : ℕ) → Status × Option Entry
readdir v dir_cluster index =
    if not v.mounted
    then (inval, none)
    else if ltb (64 * 1024) v.bytes_per_cluster
    then (notsup, none)
    else walk_clusters v.cluster_count v dir_cluster 0 index no_name

abbrev pub is_separator : ℕ → Bool
is_separator c = (c == 0x2F) || (c == 0x5C)

unfoldable pub skip_separators : List ℕ → List ℕ
skip_separators [] = []
skip_separators (c ∷ cs) = let rest = skip_separators cs in if is_separator c then rest else c ∷ cs

-- A component of at most `room` characters, and the path behind it.
unfoldable pub take_component : (room : ℕ) → List ℕ → List ℕ × List ℕ
take_component room [] = ([], [])
take_component zero (c ∷ cs) =
    let rest = take_component zero cs in if is_separator c then ([], c ∷ cs) else ([], rest.1)
take_component (suc room) (c ∷ cs) =
    let rest = take_component room cs in
    if is_separator c then ([], c ∷ cs) else (c ∷ rest.0, rest.1)

-- The search of a directory from entry `i` on; the outer `none` says that `left` rounds were too few.
unfoldable pub search :
    (left : ℕ) → Volume → (cluster i : ℕ) → List ℕ → Option (Status × Option Entry)
search zero v cluster i component = none
search (suc left) v cluster i component =
    elim (readdir v cluster i).1 as (λ _. Option (Status × Option Entry)) [
      | none ↦ some (readdir v cluster i)
      | some e ↦ elim (same_upper e.name component) [
        | true ↦ some (ok, some e)
        | false ↦ search left v cluster ((i + 1) % 2 ^ 32) component
      ]
    ]

-- Rounds that are enough for any directory of the volume.
abbrev pub search_rounds : Volume → ℕ
search_rounds v = suc (v.cluster_count * ((v.bytes_per_cluster + 31) / 32))

-- A component has been looked up; `deeper` is the rest of the walk.
unfoldable pub after_search :
    Status × Option Entry
    → (path : List ℕ) → Option (Status × Option Entry)
    → Option (Status × Option Entry)
after_search (status, none) path deeper = some (status, none)
after_search (status, some e) [] deeper = some (ok, some e)
after_search (status, some e) (c ∷ cs) deeper =
    if not e.is_directory then some (notdir, none) else deeper

unfoldable pub next_directory : Status × Option Entry → ℕ → ℕ
next_directory (status, none) cluster = cluster
next_directory (status, some e) cluster = e.first_cluster

-- The loop of `fat32_lookup`, with the levels that its guard lets it go on; the path does not begin with
-- a separator.
unfoldable pub walk_path :
    (left : ℕ) → Volume → (cluster : ℕ) → List ℕ → Option (Status × Option Entry)
walk_path zero v cluster path =
    let component = (take_component 255 path).0 in
    let rest = skip_separators (take_component 255 path).1 in
    elim (search (search_rounds v) v cluster 0 component) [
      | none ↦ none
      | some found ↦ after_search found rest (some (inval, none))
    ]
walk_path (suc left) v cluster path =
    let component = (take_component 255 path).0 in
    let rest = skip_separators (take_component 255 path).1 in
    elim (search (search_rounds v) v cluster 0 component) [
      | none ↦ none
      | some found ↦ after_search found rest (walk_path left v (next_directory found cluster) rest)
    ]

unfoldable pub lookup_path : Volume → List ℕ → Option (Status × Option Entry)
lookup_path v path = if not v.mounted then some (inval, none) else elim (skip_separators path) [
  | [] ↦ some (
    ok,
    some (record {
      first_cluster = v.root_cluster;
      size = 0;
      is_directory = true;
      name = 0x2F ∷ [];
    }),
  )
  | c ∷ cs ↦ walk_path 32 v v.root_cluster (c ∷ cs)
]
