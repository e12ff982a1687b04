-- ===== src/Pmm/Ops.antt =====
-- Allocation, freeing and reference counting of kernel/core/pmm.c.
use afriyie_os.Common.{
  ℕ, zero, suc, ◌+◌, ◌-◌, ◌*◌, ◌%◌, ◌^◌, Bool, false, not, ◌&&◌, ◌||◌, Option, none, some, ltb,
  ◌==◌, if◌then◌else◌, update,
}
use afriyie_os.Pmm.State.{
  Pmm, frame_invalid, refcount_max, frame_is_used, frame_mark_used, frame_mark_free, addr_to_frame,
  frame_to_addr,
}

-- The scan for one frame, which starts at the hint and goes round. `left` counts down from
-- `s_frame_count`.
unfoldable pub find_frame : Pmm → ℕ → ℕ → Option ℕ
find_frame p zero i = none
find_frame p (suc left) i =
    let f = (p.search_hint + i) % 2 ^ 32 % p.frame_count in
    let rest = find_frame p left (i + 1) in if frame_is_used p f then rest else some f

-- The scan for a run of `n` frames from frame `f` on, with the run so far.
unfoldable pub find_run : Pmm → ℕ → ℕ → ℕ → ℕ → ℕ → Option ℕ
find_run p n zero f start len = none
find_run p n (suc left) f start len =
    let used = frame_is_used p f in
    let start' = if used then start else if len == 0 then f else start in
    let len' = if used then 0 else len + 1 in
    let rest = find_run p n left (f + 1) start' len' in
    if not used && (len' == n) then some start' else rest

-- `frame_mark_used(k); s_refcount[k] = 1`
unfoldable pub claim : Pmm → ℕ → Pmm
claim p k = record (frame_mark_used p k) { refcount = update p.refcount k 1 }

unfoldable pub claim_run : Pmm → ℕ → ℕ → Pmm
claim_run p zero k = p
claim_run p (suc left) k = claim_run (claim p k) left (k + 1)

unfoldable pub alloc_one : Pmm → Pmm × ℕ
alloc_one p = elim (find_frame p p.frame_count 0) [
  | none ↦ (p, frame_invalid)
  | some f ↦ (
    record (claim p f) { free_frames = p.free_frames - 1; search_hint = (f + 1) % p.frame_count },
    frame_to_addr f,
  )
]

unfoldable pub alloc_run : Pmm → ℕ → Pmm × ℕ
alloc_run p n = elim (find_run p n p.frame_count 0 0 0) [
  | none ↦ (p, frame_invalid)
  | some start ↦
      (record (claim_run p n start) { free_frames = p.free_frames - n }, frame_to_addr start)
]

unfoldable pub alloc_frames : Pmm → ℕ → Pmm × ℕ
alloc_frames p n =
    if not p.mapped || (n == 0)
    then (p, frame_invalid)
    else if ltb p.free_frames n
    then (p, frame_invalid)
    else if n == 1
    then alloc_one p
    else alloc_run p n

unfoldable pub alloc_frame : Pmm → Pmm × ℕ
alloc_frame p = alloc_frames p 1

unfoldable pub frame_valid : Pmm → ℕ → Bool
frame_valid p a =
    if not p.mapped || (a == frame_invalid)
    then false
    else if not (a % 4096 == 0)
    then false
    else ltb (addr_to_frame a) p.frame_count

-- How `pmm_free_frame` ends: where an assertion fails, a debug build halts, and a release build
-- returns.
pub data Freeing : Type 0 where
  freed : Freeing
  ignored : Freeing
  asserts : Freeing

unfoldable pub free_frame : Pmm → ℕ → Pmm × Freeing
free_frame p a =
    let f = addr_to_frame a in
    if not (frame_valid p a)
    then (p, ignored)
    else if not (frame_is_used p f)
    then (p, asserts)
    else if ltb 1 (p.refcount f)
    then (p, asserts)
    else (
      record (frame_mark_free p f) {
        refcount = update p.refcount f 0;
        free_frames = (p.free_frames + 1) % 2 ^ 32;
        search_hint = if ltb f p.search_hint then f else p.search_hint;
      },
      freed,
    )

-- The loop of `pmm_free_frames` at its `i`-th frame, where assertions do not halt.
unfoldable pub free_from : Pmm → ℕ → ℕ → ℕ → Pmm
free_from p base zero i = p
free_from p base (suc left) i =
    free_from (free_frame p ((base + i * 4096) % 2 ^ 64)).0 base left (i + 1)

unfoldable pub free_frames_at : Pmm → ℕ → ℕ → Pmm
free_frames_at p base n = free_from p base n 0

unfoldable pub frame_ref : Pmm → ℕ → Pmm
frame_ref p a =
    let f = addr_to_frame a in
    if not (frame_valid p a)
    then p
    else if p.refcount f == refcount_max
    then p
    else record p { refcount = update p.refcount f ((p.refcount f + 1) % 2 ^ 8) }

unfoldable pub frame_unref : Pmm → ℕ → Pmm
frame_unref p a =
    let f = addr_to_frame a in
    let left = p.refcount f - 1 in
    let counted = record p { refcount = update p.refcount f left } in
    if not (frame_valid p a)
    then p
    else if p.refcount f == 0
    then p
    else if left == 0
    then record (frame_mark_free counted f) { free_frames = (p.free_frames + 1) % 2 ^ 32 }
    else counted

unfoldable pub frame_refcount : Pmm → ℕ → ℕ
frame_refcount p a = if frame_valid p a then p.refcount (addr_to_frame a) else 0
