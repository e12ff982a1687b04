-- ===== src/Fat/Search.antt =====
-- How long the searches of directories of kernel/fs/fat32.c go on.
use afriyie_os.Common.{
  ℕ, zero, suc, ◌+◌, ◌-◌, ◌*◌, ◌/◌, ◌%◌, ◌^◌, ◌≤◌, ◌<◌, ◌≡◌, ◌≢◌, refl, subst, Bool, true, false,
  not, ◌&&◌, ◌||◌, Option, none, some, List, [], ◌∷◌, ltb, ◌==◌, if◌then◌else◌, arith, Bool-cases,
  inl, inr, ◌⊎◌, bit_and, Status, ok, inval, noent,
}
use native.Mathlib.Nat.{suc-mul}
use afriyie_os.Disk.Block.{Loaded, loaded, failed}
use afriyie_os.Fat.Volume.{Volume, fat_next_cluster, read_cluster}
use afriyie_os.Fat.File.{ends_chain}
use afriyie_os.Fat.Names.{LongName, forget, add_fragment, same_upper}
use afriyie_os.Fat.Directory.{
  Entry, entry_of, Scan, at_end, gives, goes_on, scan_entries, walk_clusters, no_name, readdir,
  skip_separators, take_component, search, search_rounds, after_search, next_directory, walk_path,
  lookup_path,
}

-- The entries of a cluster, as the code counts them.
abbrev pub entries_in : Volume → ℕ
entries_in v = (v.bytes_per_cluster + 31) / 32

-- An entry that is given has a number below the bound, and what has been found is not above it.
abbrev Within : (bound index : ℕ) → Scan → Type 0
Within bound index at_end = Unit
Within bound index (gives e) = index < bound
Within bound index (goes_on found n) = found ≤ bound

Within-weaken :
    (bound bound' index : ℕ) (s : Scan)
    → bound ≤ bound'
    → Within bound index s
    → Within bound' index s
Within-weaken bound bound' index at_end le w = tt
Within-weaken bound bound' index (gives e) le w = omega (arith, le, w)
Within-weaken bound bound' index (goes_on found n) le w = omega (arith, le, w)

Within-if :
    (bound index : ℕ) (b : Bool) (s t : Scan)
    → Within bound index s
    → Within bound index t
    → Within bound index (if b then s else t)
Within-if bound index true s t ws wt = ws
Within-if bound index false s t ws wt = wt

gives-Within :
    (bound found index : ℕ) (passed : Bool) (e : Entry) (t : Scan)
    → found < bound
    → Within bound index t
    → Within bound index (if not passed && (found == index) then gives e else t)
gives-Within bound found index passed e t lt w =
    elim (Bool-cases (not passed && (found == index))) [
      | inl here ↦ rw here (ground (arith, here, lt))
      | inr other ↦ rw other w
    ]

scan_entries-Within :
    (left : ℕ) (content : ℕ → ℕ) (offset found index : ℕ) (n : LongName)
    → found + left < 2 ^ 32
    → Within (found + left) index (scan_entries left content offset found index n)
unfolding scan_entries
scan_entries-Within zero content offset found index n small = omega arith
scan_entries-Within (suc left) content offset found index n small =
    let e : ℕ → ℕ = λ i. content (offset + i) in
    let deleted = e 0 == 0xE5 in
    let is_fragment = e 11 == 0x0F in
    let is_label = not (bit_and (e 11) 8 == 0) && (bit_and (e 11) 0x10 == 0) in
    let passed = deleted || is_fragment || is_label in
    let n' =
      if deleted
      then forget n
      else if is_fragment
      then add_fragment e n
      else if is_label
      then n
      else forget n in
    let found' : ℕ = if passed then found else (found + 1) % 2 ^ 32 in
    let few : found' ≤ found + 1 = elim (Bool-cases passed) [
      | inl p ↦ rw p (omega arith)
      | inr p ↦ rw p (omega (arith, small))
    ] in
    let rest = scan_entries left content (offset + 32) found' index n' in
    let within = Within-weaken (found' + left) (found + suc left) index rest (omega (arith, few)) (
      scan_entries-Within left content (offset + 32) found' index n' (omega (arith, few, small))) in
    Within-if (found + suc left) index (e 0 == 0) at_end
      (if not passed && (found == index) then gives (entry_of e n) else rest) tt
      (gives-Within (found + suc left) found index passed (entry_of e n) rest (omega arith) within)

-- What follows on a scanned cluster.
scanned :
    (s : Scan) (bound total index : ℕ) (deeper : ℕ → LongName → Status × Option Entry)
    → bound ≤ total
    → Within bound index s
    → ((f : ℕ) (n : LongName) → f ≤ bound → ((deeper f n).1 ≡ none) ⊎ (index < total))
    → ((elim s as (λ _. Status × Option Entry) [
      | at_end ↦ (noent, none)
      | gives e ↦ (ok, some e)
      | goes_on f n ↦ deeper f n
    ]).1
        ≡ none)
      ⊎ (index < total)
scanned at_end bound total index deeper le w go = inl refl
scanned (gives e) bound total index deeper le w go = inr (omega (arith, le, w))
scanned (goes_on f n) bound total index deeper le w go = go f n w

read_in :
    (r : Loaded) (total index : ℕ) (deeper : (ℕ → ℕ) → Status × Option Entry)
    → ((content : ℕ → ℕ) → ((deeper content).1 ≡ none) ⊎ (index < total))
    → ((elim r as (λ _. Status × Option Entry) [
      | failed status ↦ (status, none)
      | loaded content ↦ deeper content
    ]).1
        ≡ none)
      ⊎ (index < total)
read_in (failed status) total index deeper go = inl refl
read_in (loaded content) total index deeper go = go content

walk_clusters-few :
    (left : ℕ) (v : Volume) (cluster found index : ℕ) (n : LongName)
    → found + left * entries_in v < 2 ^ 32
    → ((walk_clusters left v cluster found index n).1 ≡ none)
      ⊎ (index < found + left * entries_in v)
unfolding walk_clusters
walk_clusters-few zero v cluster found index n small = elim (Bool-cases (ends_chain cluster)) [
  | inl e ↦ inl (rw e refl)
  | inr e ↦ inl (rw e refl)
]
walk_clusters-few (suc left) v cluster found index n small =
    elim (Bool-cases (ends_chain cluster)) [
      | inl e ↦ inl (rw e refl)
      | inr e ↦
          let per = entries_in v in
          let total = found + suc left * per in
          let more : suc left * per ≡ left * per + per = suc-mul left per in
          rw e (
            read_in (read_cluster v cluster) total index
              (λ content.
                elim (scan_entries per content 0 found index n) as (λ _. Status × Option Entry) [
                  | at_end ↦ (noent, none)
                  | gives e ↦ (ok, some e)
                  | goes_on f n' ↦ walk_clusters left v (fat_next_cluster v cluster) f index n'
                ])
              (λ content.
                scanned (scan_entries per content 0 found index n) (found + per) total index
                  (λ f n'. walk_clusters left v (fat_next_cluster v cluster) f index n')
                  (omega (arith, more))
                  (scan_entries-Within per content 0 found index n (omega (arith, more, small)))
                  (λ f n' le.
                    elim (walk_clusters-few left v (fat_next_cluster v cluster) f index n'
                      (omega (arith, le, more, small))) [
                        | inl none_left ↦ inl none_left
                        | inr lt ↦ inr (omega (arith, lt, le, more))
                      ])))
    ]

readdir-none :
    (v : Volume) (cluster index : ℕ)
    → v.cluster_count * entries_in v < 2 ^ 32
    → v.cluster_count * entries_in v ≤ index
    → (readdir v cluster index).1 ≡ none
unfolding readdir
readdir-none v cluster index small past = elim (Bool-cases v.mounted) [
  | inr early ↦ ground (arith, early)
  | inl mounted ↦ elim (Bool-cases (ltb (64 * 1024) v.bytes_per_cluster)) [
    | inl big ↦ ground (arith, mounted, big)
    | inr fits ↦
        elim (walk_clusters-few v.cluster_count v cluster 0 index no_name (omega (arith, small))) [
          | inl none_left ↦ ground (arith, mounted, fits, none_left)
          | inr lt ↦ absurd (omega (arith, lt, past))
        ]
  ]
]

-- It is a value, not the end of the rounds.
abbrev Returns : Option (Status × Option Entry) → Type 0
Returns none = ⊥
Returns (some r) = Unit

if-Returns :
    (b : Bool) (s t : Option (Status × Option Entry))
    → Returns s
    → Returns t
    → Returns (if b then s else t)
if-Returns true s t rs rt = rs
if-Returns false s t rs rt = rt

chosen-Returns :
    (b : Bool) (s t : Option (Status × Option Entry))
    → Returns s
    → Returns t
    → Returns (elim b as (λ _. Option (Status × Option Entry)) [ true ↦ s | false ↦ t ])
chosen-Returns true s t rs rt = rs
chosen-Returns false s t rs rt = rt

matched-Returns :
    (o : Option Entry) (r : Status × Option Entry) (f : Entry → Option (Status × Option Entry))
    → ((e : Entry) → o ≡ some e → Returns (f e))
    → Returns (elim o as (λ _. Option (Status × Option Entry)) [ none ↦ some r | some e ↦ f e ])
matched-Returns none r f go = tt
matched-Returns (some e) r f go = go e refl

search-Returns :
    (left : ℕ) (v : Volume) (cluster i : ℕ) (component : List ℕ)
    → v.cluster_count * entries_in v < 2 ^ 32 - 1
    → i ≤ v.cluster_count * entries_in v
    → v.cluster_count * entries_in v < i + left
    → Returns (search left v cluster i component)
unfolding search
search-Returns zero v cluster i component small le enough = absurd (omega (arith, le, enough))
search-Returns (suc left) v cluster i component small le enough =
    matched-Returns (readdir v cluster i).1 (readdir v cluster i)
      (λ e. elim (same_upper e.name component) [
        | true ↦ some (ok, some e)
        | false ↦ search left v cluster ((i + 1) % 2 ^ 32) component
      ])
      (λ e given. elim (Bool-cases (ltb i (v.cluster_count * entries_in v))) [
        | inl below ↦
            let lt : i < v.cluster_count * entries_in v = ground (arith, below) in
            chosen-Returns (same_upper e.name component) (some (ok, some e))
              (search left v cluster ((i + 1) % 2 ^ 32) component) tt
              (search-Returns left v cluster ((i + 1) % 2 ^ 32) component small
                (omega (arith, lt, small)) (omega (arith, lt, small, enough)))
        | inr above ↦ absurd (
            ground (
              arith,
              given,
              readdir-none v cluster i (omega (arith, small)) (ground (arith, above)),
            ))
      ])

after_search-Returns :
    (found : Status × Option Entry) (path : List ℕ) (deeper : Option (Status × Option Entry))
    → Returns deeper
    → Returns (after_search found path deeper)
unfolding after_search
after_search-Returns (status, none) path deeper r = tt
after_search-Returns (status, some e) [] deeper r = tt
after_search-Returns (status, some e) (c ∷ cs) deeper r =
    if-Returns (not e.is_directory) _ deeper tt r

found-Returns :
    (o : Option (Status × Option Entry))
    (f : Status × Option Entry → Option (Status × Option Entry))
    → Returns o
    → ((r : Status × Option Entry) → Returns (f r))
    → Returns
        (elim o as (λ _. Option (Status × Option Entry)) [ none ↦ none | some found ↦ f found ])
found-Returns none f r go = r
found-Returns (some found) f r go = go found

walk_path-Returns :
    (left : ℕ) (v : Volume) (cluster : ℕ) (path : List ℕ)
    → v.cluster_count * entries_in v < 2 ^ 32 - 1
    → Returns (walk_path left v cluster path)
unfolding walk_path
walk_path-Returns zero v cluster path small =
    let component = (take_component 255 path).0 in
    let rest = skip_separators (take_component 255 path).1 in
    found-Returns (search (search_rounds v) v cluster 0 component)
      (λ found. after_search found rest (some (inval, none)))
      (search-Returns (search_rounds v) v cluster 0 component small (omega arith) (omega arith))
      (λ found. after_search-Returns found rest (some (inval, none)) tt)
walk_path-Returns (suc left) v cluster path small =
    let component = (take_component 255 path).0 in
    let rest = skip_separators (take_component 255 path).1 in
    found-Returns (search (search_rounds v) v cluster 0 component)
      (λ found. after_search found rest (walk_path left v (next_directory found cluster) rest))
      (search-Returns (search_rounds v) v cluster 0 component small (omega arith) (omega arith))
      (λ found.
        after_search-Returns found rest (walk_path left v (next_directory found cluster) rest)
          (walk_path-Returns left v (next_directory found cluster) rest small))

from_root :
    (v : Volume) (path : List ℕ) (root : Entry)
    → v.cluster_count * entries_in v < 2 ^ 32 - 1
    → Returns (elim path as (λ _. Option (Status × Option Entry)) [
      | [] ↦ some (ok, some root)
      | c ∷ cs ↦ walk_path 32 v v.root_cluster (c ∷ cs)
    ])
from_root v [] root small = tt
from_root v (c ∷ cs) root small = walk_path-Returns 32 v v.root_cluster (c ∷ cs) small

-- On a volume with fewer than 2^32 - 1 directory entries the search of every directory on a path ends, whatever the
-- tables and the directories contain: `fat32_lookup` returns.
pub lookup_path_lem :
    (v : Volume) (path : List ℕ)
    → v.cluster_count * ((v.bytes_per_cluster + 31) / 32) < 2 ^ 32 - 1
    → lookup_path v path ≢ none
unfolding lookup_path
lookup_path_lem v path small e = subst Returns e (
    if-Returns (not v.mounted) (some (inval, none)) _ tt
      (from_root v (skip_separators path) _ small))
