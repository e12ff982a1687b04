-- ===== src/Fat/Handles.antt =====
-- The file handles of kernel/fs/fat32.c after `fat32_read_file`.
use afriyie_os.Common.{
  ℕ, zero, suc, ◌+◌, ◌/◌, ◌%◌, ◌^◌, ◌≡◌, refl, sym, ap, subst, ◌∙◌, Bool, true, false, not, Option,
  none, some, List, ltb, leb, ◌==◌, if◌then◌else◌, update, arith, Bool-cases, Option-cases, inl,
  inr, Status, ok, toomany,
}
use native.Mathlib.Decide.{ℕ_discrete}
use afriyie_os.Fat.Volume.{Volume}
use afriyie_os.Fat.File.{File, ReadResult, skip_clusters, finish_read, fat_read, close}
use afriyie_os.Fat.Directory.{Entry, lookup_path}
use afriyie_os.Fat.Open.{
  free_file, opened_file, open_entry, FileRead, close_handle, finish_file, read_opened, read_entry,
  read_file, max_open,
}

-- A read leaves the file open.
abbrev StaysOpen : ReadResult → Type 0
StaysOpen r = (f : File) × (r.file ≡ some f) × (f.in_use ≡ true)

finish_read-open :
    (f : File) (status : Status) (done : ℕ) (out : ℕ → ℕ)
    → f.in_use ≡ true
    → StaysOpen (finish_read f (status, done, out))
unfolding finish_read
finish_read-open f ok done out e = (record f { offset = (f.offset + done) % 2 ^ 32 }, refl, e)
finish_read-open f bad done out e = (f, refl, e)

free_file-free :
    (left : ℕ) (files : ℕ → File) (i j : ℕ)
    → free_file left files i ≡ some j
    → (files j).in_use ≡ false
unfolding free_file
free_file-free zero files i j e = absurd (ground (arith, e))
free_file-free (suc left) files i j e = elim (Bool-cases (files i).in_use) [
  | inl used ↦ free_file-free left files (i + 1) j (ground (arith, used, e))
  | inr free ↦
      let here : i ≡ j = ground (arith, free, e) in subst (λ x. (files x).in_use ≡ false) here free
]

open-if : (b : Bool) (r t : ReadResult) → StaysOpen r → StaysOpen t → StaysOpen (if b then r else t)
open-if true r t or ot = or
open-if false r t or ot = ot

open-option :
    (o : Option ℕ) (r : ReadResult) (g : ℕ → ReadResult)
    → StaysOpen r
    → ((c : ℕ) → StaysOpen (g c))
    → StaysOpen (elim o as (λ _. ReadResult) [ none ↦ r | some c ↦ g c ])
open-option none r g or og = or
open-option (some c) r g or og = og c

fat_read-open :
    (f : File) (out : ℕ → ℕ) (wanted : ℕ)
    → f.in_use ≡ true
    → StaysOpen (fat_read (some f) out wanted)
unfolding fat_read
fat_read-open f out wanted e =
    open-if (not f.in_use) _ _ (f, refl, e)
      (open-if (leb f.size f.offset) _ _ (f, refl, e)
        (open-option
          (skip_clusters (f.offset / f.volume.bytes_per_cluster) f.volume f.first_cluster) _ _
          (f, refl, e) (λ c. finish_read-open f _ _ _ e)))

close_handle-restores :
    (files : ℕ → File) (i j : ℕ) (g f : File)
    → (files i).in_use ≡ false
    → f.in_use ≡ true
    → (close_handle (update files i g) i (some f) j).in_use ≡ (files j).in_use
unfolding close
close_handle-restores files i j g f free in_use = elim (ℕ_discrete j i) [
  | yes same ↦
      let was : (files j).in_use ≡ false = ap (λ (x : ℕ). (files x).in_use) same ∙ free in
      ground (arith, same, in_use, was)
  | no other ↦ ground (arith, other, in_use)
]

finish_file-files :
    (files : ℕ → File) (i size : ℕ) (status : Status) (file : Option File) (out : ℕ → ℕ)
    (count : Option ℕ)
    → (finish_file files i size
        (record { status = status; file = file; buffer = out; bytes_read = count })).files
      ≡ close_handle files i file
unfolding finish_file
finish_file-files files i size ok file out none = refl
finish_file-files files i size ok file out (some n) = elim (Bool-cases (n == size)) [
  | inl all ↦ rw all refl
  | inr part ↦ rw part refl
]
finish_file-files files i size bad file out count = refl

read_opened-files :
    (files : ℕ → File) (i j size : ℕ) (g : File) (out : ℕ → ℕ)
    → (files i).in_use ≡ false
    → g.in_use ≡ true
    → ((read_opened size out (ok, update files i g, some i)).files j).in_use ≡ (files j).in_use
unfolding read_opened
read_opened-files files i j size g out free in_use =
    let at : (update files i g i).in_use ≡ true = ground (arith, in_use) in
    let r = fat_read (some (update files i g i)) out size in
    let (f, left, still) = fat_read-open (update files i g i) out size at in
    let e : close_handle (update files i g) i r.file j
        ≡ close_handle (update files i g) i (some f) j =
      ap (λ (o : Option File). close_handle (update files i g) i o j) left in
    ap (λ (t : ℕ → File). (t j).in_use)
      (finish_file-files (update files i g) i size r.status r.file r.buffer r.bytes_read)
    ∙ ap (λ (x : File). x.in_use) e
    ∙ close_handle-restores files i j g f free still

opens :
    (files : ℕ → File) (v : Volume) (e : Entry) (out : ℕ → ℕ) (j : ℕ) (o : Option ℕ)
    → free_file max_open files 0 ≡ o
    → ((read_opened e.size out (elim o as (λ _. Status × (ℕ → File) × Option ℕ) [
      | none ↦ (toomany, files, none)
      | some i ↦ (ok, update files i (opened_file v e), some i)
    ])).files
        j).in_use
      ≡ (files j).in_use
unfolding read_opened
opens files v e out j none given = refl
opens files v e out j (some i) given =
    read_opened-files files i j e.size (opened_file v e) out
      (free_file-free max_open files 0 i given) refl

if-files :
    (b : Bool) (r t : FileRead) (j : ℕ) (x : Bool)
    → (r.files j).in_use ≡ x
    → (t.files j).in_use ≡ x
    → ((if b then r else t).files j).in_use ≡ x
if-files true r t j x er et = er
if-files false r t j x er et = et

opened-if :
    (b : Bool) (size : ℕ) (out : ℕ → ℕ) (r t : Status × (ℕ → File) × Option ℕ) (j : ℕ) (x : Bool)
    → ((read_opened size out r).files j).in_use ≡ x
    → ((read_opened size out t).files j).in_use ≡ x
    → ((read_opened size out (if b then r else t)).files j).in_use ≡ x
opened-if true size out r t j x er et = er
opened-if false size out r t j x er et = et

read_entry-files :
    (files : ℕ → File) (v : Volume) (out : ℕ → ℕ) (buffer_size j : ℕ)
    (found : Status × Option Entry)
    → ((read_entry files v out buffer_size found).files j).in_use ≡ (files j).in_use
unfolding read_entry open_entry read_opened
read_entry-files files v out buffer_size j (status, none) = refl
read_entry-files files v out buffer_size j (status, some e) =
    if-files e.is_directory _ _ j (files j).in_use refl (
      if-files (ltb buffer_size e.size) _ _ j (files j).in_use refl (
        opened-if e.is_directory e.size out _ _ j (files j).in_use refl
          (opens files v e out j (free_file max_open files 0) refl)))

-- Whatever `fat32_read_file` finds and returns, each file handle is open after it just where it was before: the handle
-- that it takes is closed again on every path.
pub read_file_lem :
    (files : ℕ → File) (v : Volume) (path : List ℕ) (out : ℕ → ℕ) (buffer_size j : ℕ) (r : FileRead)
    → read_file files v path out buffer_size ≡ some r
    → (r.files j).in_use ≡ (files j).in_use
unfolding read_file
read_file_lem files v path out buffer_size j r e = elim (Option-cases (lookup_path v path)) [
  | inl none_left ↦ absurd (ground (arith, e, none_left))
  | inr (found, given) ↦
      let same : read_entry files v out buffer_size found ≡ r = ground (arith, e, given) in
      ap (λ (x : FileRead). (x.files j).in_use) (sym same)
      ∙ read_entry-files files v out buffer_size j found
]
