-- ===== src/Fat/Chain.antt =====
-- Reads of a file whose cluster chain is sound, by kernel/fs/fat32.c.
use afriyie_os.Common.{
  ◌||◌, ℕ, zero, suc, ◌+◌, ◌-◌, ◌*◌, ◌/◌, ◌%◌, ◌^◌, ◌≤◌, ◌<◌, ◌≡◌, refl, sym, ap, ◌∙◌, true, false,
  ◌&&◌, some, ltb, leb, if◌then◌else◌, arith, Bool-cases, inl, inr, Status, ok,
}
use native.Mathlib.Nat.{
  div-add-mod', mod-lt, mul-add-div_right, mul-add-mod_self_right, div-eq_of_lt, mod-eq_of_lt,
  mul-le-mul_right, suc-mul,
}
use afriyie_os.Disk.Block.{block_read, loaded}
use afriyie_os.Fat.Volume.{
  buffered, buffered_read, cluster_to_lba, Volume, fat_next_cluster, read_cluster,
}
use afriyie_os.Fat.File.{
  File, ReadResult, ends_chain, skip_clusters, copied, read_loop, finish_read, fat_read,
}

-- Clusters that follow one another, with what reading each leaves in the buffer.
record IsLinked (v : Volume) (clusters : ℕ → ℕ) (content : ℕ → ℕ → ℕ) (count : ℕ) : Type 0 where
  goes_on : (k : ℕ) → k < count → ends_chain (clusters k) ≡ false
  reads : (k : ℕ) → k < count → read_cluster v (clusters k) ≡ loaded (content k)
  links : (k : ℕ) → k + 1 < count → clusters (k + 1) ≡ fat_next_cluster v (clusters k)

-- Byte `p` of a file in clusters of `size` bytes.
abbrev pub byte_of : (ℕ → ℕ → ℕ) → (size p : ℕ) → ℕ
byte_of content size p = content (p / size) (p % size)

byte_of-within :
    (content : ℕ → ℕ → ℕ) (size k r : ℕ)
    → r < size
    → byte_of content size (k * size + r) ≡ content k r
byte_of-within content size k r lt =
    let pos : 0 < size = omega (arith, lt) in
    let quotient : (k * size + r) / size ≡ k =
      mul-add-div_right pos k r ∙ ap (λ q. k + q) (div-eq_of_lt lt) ∙ omega arith in
    let rest : (k * size + r) % size ≡ r = mul-add-mod_self_right k size r ∙ mod-eq_of_lt lt in
    cc (quotient, rest)

-- What the loop leaves in byte `j` of the buffer, with `p` the position in the file.
abbrev pub filled : (ℕ → ℕ) → (ℕ → ℕ → ℕ) → (size p done bytes j : ℕ) → ℕ
filled out content size p done bytes j =
    if leb done j && ltb j bytes then byte_of content size (p + (j - done)) else out j

inside :
    (size k within more count : ℕ) → 0 < more → k * size + within + more ≤ count * size → k < count
inside size k within more count pos fits = elim (Bool-cases (ltb k count)) [
  | inl below ↦ ground (arith, below)
  | inr above ↦
      let le : count ≤ k = ground (arith, above) in
      absurd (omega (arith, fits, mul-le-mul_right size le))
]

-- One round copies a part of a cluster; the rest of the clusters fill what is behind it.
filled-next :
    (out : ℕ → ℕ) (content : ℕ → ℕ → ℕ) (size k within done take bytes j : ℕ)
    → within + take ≤ size
    → done + take ≤ bytes
    → (done + take < bytes → within + take ≡ size)
    → 0 < take
    → filled
        (copied out (content k) done within take)
        content
        size
        ((k + 1) * size + 0)
        (done + take)
        bytes
        j
      ≡ filled out content size (k * size + within) done bytes j
filled-next out content size k within done take bytes j room le whole pos =
    elim (Bool-cases (leb done j && ltb j bytes)) [
      | inr outside ↦ ground (arith, outside, le)
      | inl there ↦ elim (Bool-cases (ltb j (done + take))) [
        | inl first ↦
            let r = within + (j - done) in
            let here : byte_of content size (k * size + within + (j - done)) ≡ content k r =
              ap (byte_of content size) (omega arith)
              ∙ byte_of-within content size k r (ground (arith, first, there, room)) in
            let before : leb (done + take) j ≡ false = ground (arith, first) in
            let copies : leb done j ≡ true = ground (arith, there) in
            let now : (leb done j && ltb j bytes) ≡ true = there in
            rw (before, now, copies, first) (sym here)
        | inr later ↦
            let reached : done + take ≤ j = ground (arith, later, there) in
            let full : within + take ≡ size = whole (ground (arith, later, there)) in
            let at : (k + 1) * size + 0 + (j - (done + take)) ≡ k * size + within + (j - done) =
              omega (arith, suc-mul k size, full, reached) in
            let behind : leb (done + take) j ≡ true = ground (arith, later) in
            let below : ltb j bytes ≡ true = ground (arith, there) in
            let from : leb done j ≡ true = ground (arith, there) in
            rw (behind, below, from) (ap (byte_of content size) at)
      ]
    ]

read_loop-step :
    (left : ℕ) (v : Volume) (cluster within done bytes : ℕ) (out content : ℕ → ℕ)
    → ltb done bytes ≡ true
    → ends_chain cluster ≡ false
    → read_cluster v cluster ≡ loaded content
    → let available = v.bytes_per_cluster - within in
      let take = if ltb available (bytes - done) then available else bytes - done in
      read_loop (suc left) v cluster within done bytes out
      ≡ read_loop left v
          (if ltb (done + take) bytes then fat_next_cluster v cluster else cluster)
          0
          (done + take)
          bytes
          (copied out content done within take)
unfolding read_loop
read_loop-step left v cluster within done bytes out content more on reads =
    rw (more, on, reads) refl

read_loop-ok :
    (left : ℕ) (v : Volume) (clusters : ℕ → ℕ) (content : ℕ → ℕ → ℕ) (count : ℕ)
    (k cluster within done bytes : ℕ) (out : ℕ → ℕ) (j : ℕ)
    → IsLinked v clusters content count
    → within < v.bytes_per_cluster
    → done ≤ bytes
    → count ≤ k + left
    → (done < bytes
        → (cluster ≡ clusters k)
          × (k * v.bytes_per_cluster + within + (bytes - done) ≤ count * v.bytes_per_cluster))
    → let r = read_loop left v cluster within done bytes out in
      (r.0 ≡ ok)
      × (r.1 ≡ bytes)
      × (r.2 j
          ≡ filled out content v.bytes_per_cluster (k * v.bytes_per_cluster + within) done bytes j)
unfolding read_loop
read_loop-ok zero v clusters content count k cluster within done bytes out j chain lt le enough go =
    elim (Bool-cases (ltb done bytes)) [
      | inl more ↦
          let less : done < bytes = ground (arith, more) in
          let below =
            inside v.bytes_per_cluster k within (bytes - done) count (omega arith) (go less).1 in
          absurd (omega (arith, below, enough))
      | inr stop ↦ (ground (arith, stop), ground (arith, stop), ground (arith, stop))
    ]
read_loop-ok (suc left) v clusters content count k cluster within done bytes out j chain lt le
      enough go =
    elim (Bool-cases (ltb done bytes)) [
      | inr stop ↦ (ground (arith, stop), ground (arith, stop), ground (arith, stop))
      | inl more ↦
          let less : done < bytes = ground (arith, more) in
          let (at, fits) = go less in
          let size = v.bytes_per_cluster in
          let below : k < count = inside size k within (bytes - done) count (omega arith) fits in
          let available = size - within in
          let take : ℕ = if ltb available (bytes - done) then available else bytes - done in
          let next : ℕ = if ltb (done + take) bytes then fat_next_cluster v cluster else cluster in
          let pos : 0 < take = ground (arith, lt, less) in
          let room : within + take ≤ size = ground (arith, lt) in
          let le' : done + take ≤ bytes = ground (arith, less) in
          let whole : done + take < bytes → within + take ≡ size = λ h. ground (arith, h, lt) in
          let rest =
            read_loop-ok left v clusters content count (k + 1) next 0 (done + take) bytes
              (copied out (content k) done within take) j chain (omega (arith, lt)) le'
              (omega (arith, enough))
              (λ h.
                let fits' : (k + 1) * size + 0 + (bytes - (done + take)) ≤ count * size =
                  omega (arith, whole h, fits, suc-mul k size) in
                let next_in : k + 1 < count =
                  inside size (k + 1) 0 (bytes - (done + take)) count (omega (arith, h)) fits' in
                (ground (arith, h, at, chain.links k next_in), fits')) in
          let step =
            read_loop-step left v cluster within done bytes out (content k) more
              (ap ends_chain at ∙ chain.goes_on k below)
              (ap (read_cluster v) at ∙ chain.reads k below) in
          (
            ap (λ (r : Status × ℕ × (ℕ → ℕ)). r.0) step ∙ rest.0,
            ap (λ (r : Status × ℕ × (ℕ → ℕ)). r.1) step ∙ rest.1,
            ap (λ (r : Status × ℕ × (ℕ → ℕ)). r.2 j) step
                ∙ rest.2
                ∙ filled-next out content size k within done take bytes j room le' whole pos,
          )
    ]

skip_clusters-ok :
    (n : ℕ) (v : Volume) (clusters : ℕ → ℕ) (content : ℕ → ℕ → ℕ) (count k : ℕ)
    → IsLinked v clusters content count
    → k + n < count
    → skip_clusters n v (clusters k) ≡ some (clusters (k + n))
unfolding skip_clusters
skip_clusters-ok zero v clusters content count k chain le =
    ap (λ i. some (clusters i)) (omega arith)
skip_clusters-ok (suc n) v clusters content count k chain le =
    let rest = skip_clusters-ok n v clusters content count (k + 1) chain (omega (arith, le)) in
    rw (chain.goes_on k (omega (arith, le)), sym (chain.links k (omega (arith, le))))
      (rest ∙ ap (λ i. some (clusters i)) (omega arith))

finish_read-ok :
    (f : File) (status : Status) (done n : ℕ) (out : ℕ → ℕ)
    → status ≡ ok
    → done ≡ n
    → f.offset + n < 2 ^ 32
    → finish_read f (status, done, out) ≡ record {
      status = ok;
      file = some (record f { offset = f.offset + n });
      buffer = out;
      bytes_read = some n;
    }
unfolding finish_read
finish_read-ok f status done n out good all small =
    let left : ℕ → ReadResult = λ o. record {
      status = ok;
      file = some (record f { offset = o });
      buffer = out;
      bytes_read = some n;
    } in
    rw (good, all) (ap left (mod-eq_of_lt small))

filled-start :
    (out : ℕ → ℕ) (content : ℕ → ℕ → ℕ) (size p offset n j : ℕ)
    → p ≡ offset
    → filled out content size p 0 n j
      ≡ (if ltb j n then byte_of content size (offset + j) else out j)
filled-start out content size p offset n j at = elim (Bool-cases (ltb j n)) [
  | inl there ↦
      let from : leb 0 j ≡ true = ground arith in
      rw (there, from) (ap (byte_of content size) (omega (arith, at)))
  | inr behind ↦ ground (arith, behind)
]

read-loops :
    (f : File) (wanted : ℕ) (out : ℕ → ℕ) (cluster : ℕ)
    → f.in_use ≡ true
    → f.offset < f.size
    → skip_clusters (f.offset / f.volume.bytes_per_cluster) f.volume f.first_cluster ≡ some cluster
    → fat_read (some f) out wanted
      ≡ finish_read f (
          read_loop f.volume.cluster_count f.volume cluster
            (f.offset % f.volume.bytes_per_cluster)
            0
            (if ltb (f.size - f.offset) wanted then f.size - f.offset else wanted)
            out)
unfolding fat_read
read-loops f wanted out cluster in_use before skipped =
    let early : leb f.size f.offset ≡ false = ground (arith, before) in
    ground (arith, in_use, early, skipped)

-- The clusters of a file, each with the bytes that the device has for it, linked by the table of the volume.
pub record IsChain (v : Volume) (clusters : ℕ → ℕ) (content : ℕ → ℕ → ℕ) (count : ℕ) : Type 0 where
  pub goes_on : (k : ℕ) → k < count → ends_chain (clusters k) ≡ false
  pub in_range : (k : ℕ) → k < count → clusters k < (v.cluster_count + 2) % 2 ^ 32
  pub reads :
      (k : ℕ)
      → k < count
      → block_read v.dev (cluster_to_lba v (clusters k)) v.sectors_per_cluster ≡ loaded (content k)
  pub links : (k : ℕ) → k + 1 < count → clusters (k + 1) ≡ fat_next_cluster v (clusters k)

chain-IsLinked :
    (v : Volume) (clusters : ℕ → ℕ) (content : ℕ → ℕ → ℕ) (count : ℕ)
    → IsChain v clusters content count
    → IsLinked v clusters (λ k. buffered v (v.sectors_per_cluster * 512) (content k)) count
unfolding read_cluster
chain-IsLinked v clusters content count chain = record {
  goes_on = chain.goes_on;
  reads = λ k lt.
      let passes : (ltb (clusters k) 2 || leb ((v.cluster_count + 2) % 2 ^ 32) (clusters k))
          ≡ false =
        ground (arith, chain.goes_on k lt, chain.in_range k lt) in
      rw passes (ap (buffered_read v (v.sectors_per_cluster * 512)) (chain.reads k lt));
  links = chain.links;
}

-- Of a file in clusters of whole sectors of 512 bytes no byte lies behind what has been read.
byte_of-buffered :
    (v : Volume) (content : ℕ → ℕ → ℕ) (n p : ℕ)
    → 0 < v.bytes_per_cluster
    → v.bytes_per_cluster ≡ n
    → byte_of (λ k. buffered v n (content k)) v.bytes_per_cluster p
      ≡ byte_of content v.bytes_per_cluster p
byte_of-buffered v content n p pos size = ground (arith, mod-lt p pos, size)

-- On a volume with sectors of 512 bytes and clusters of at most 128 sectors, a read from an open file whose clusters hold
-- its size, at an offset before its end, reads as many bytes as are asked for and left: it succeeds, reports and skips their number, puts the bytes of the file from the
-- offset on into the buffer, and leaves the rest of the buffer.
pub read_lem :
    (f : File) (clusters : ℕ → ℕ) (content : ℕ → ℕ → ℕ) (count wanted j : ℕ) (out : ℕ → ℕ)
    → f.in_use ≡ true
    → IsChain f.volume clusters content count
    → f.first_cluster ≡ clusters 0
    → f.volume.bytes_per_sector ≡ 512
    → f.volume.bytes_per_cluster ≡ f.volume.bytes_per_sector * f.volume.sectors_per_cluster
    → 0 < f.volume.sectors_per_cluster
    → f.volume.sectors_per_cluster ≤ 128
    → count ≤ f.volume.cluster_count
    → f.size ≤ count * f.volume.bytes_per_cluster
    → f.size < 2 ^ 32
    → f.offset < f.size
    → let n = if ltb (f.size - f.offset) wanted then f.size - f.offset else wanted in
      let after = fat_read (some f) out wanted in
      (after.status ≡ ok)
      × (after.file ≡ some (record f { offset = f.offset + n }))
      × (after.bytes_read ≡ some n)
      × (after.buffer j
          ≡ (if ltb j n then byte_of content f.volume.bytes_per_cluster (f.offset + j) else out j))
read_lem f clusters content count wanted j out in_use chain first sectors size_is some_sectors few
      many holds word before =
    let size = f.volume.bytes_per_cluster in
    let whole_sectors : size ≡ f.volume.sectors_per_cluster * 512 =
      size_is ∙ ap (λ x. x * f.volume.sectors_per_cluster) sectors ∙ omega arith in
    let pos : 0 < size = omega (arith, whole_sectors, some_sectors) in
    let kept = λ (k : ℕ). buffered f.volume (f.volume.sectors_per_cluster * 512) (content k) in
    let linked = chain-IsLinked f.volume clusters content count chain in
    let k = f.offset / size in
    let n : ℕ = if ltb (f.size - f.offset) wanted then f.size - f.offset else wanted in
    let choose : ℕ → ℕ = λ x. if ltb j n then x else out j in
    let at : k * size + f.offset % size ≡ f.offset = div-add-mod' f.offset size in
    let small : n ≤ f.size - f.offset = ground arith in
    let below : k < count =
      inside size k (f.offset % size) 1 count (omega arith) (omega (arith, at, before, holds)) in
    let same : clusters (0 + k) ≡ clusters k = ap clusters (omega arith) in
    let skipped : skip_clusters k f.volume f.first_cluster ≡ some (clusters k) =
      ap (skip_clusters k f.volume) first
      ∙ skip_clusters-ok k f.volume clusters kept count 0 linked (omega (arith, below))
      ∙ ap (λ i. some i) same in
    let loop =
      read_loop-ok f.volume.cluster_count f.volume clusters kept count k (clusters k)
        (f.offset % size) 0 n out j linked (mod-lt f.offset pos) (omega arith) (omega (arith, many))
        (λ more. (refl, omega (arith, at, small, before, holds))) in
    let loop_out =
      read_loop f.volume.cluster_count f.volume (clusters k) (f.offset % size) 0 n out in
    let whole : fat_read (some f) out wanted ≡ finish_read f loop_out =
      read-loops f wanted out (clusters k) in_use before skipped in
    let e =
      whole
      ∙ finish_read-ok f loop_out.0 loop_out.1 n loop_out.2 loop.0 loop.1
          (omega (arith, small, before, word)) in
    (
      ap (λ (o : ReadResult). o.status) e,
      ap (λ (o : ReadResult). o.file) e,
      ap (λ (o : ReadResult). o.bytes_read) e,
      ap (λ (o : ReadResult). o.buffer j) e
          ∙ loop.2
          ∙ filled-start out kept size (k * size + f.offset % size) f.offset n j at
          ∙ ap choose (
              byte_of-buffered f.volume content (f.volume.sectors_per_cluster * 512) (f.offset + j)
                pos whole_sectors),
    )
