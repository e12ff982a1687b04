-- ===== src/Pmm/Range.antt =====
-- Marking of address ranges in kernel/core/pmm.c. Each loop runs from the first frame of the range
-- to the last, clamped to the frames that are managed.
use afriyie_os.Common.{
  ℕ, zero, suc, ◌+◌, ◌-◌, ◌%◌, ◌^◌, not, ◌&&◌, ◌||◌, ltb, ◌==◌, if◌then◌else◌, update,
}
use afriyie_os.Pmm.State.{
  Pmm, frame_is_used, frame_mark_used, frame_mark_free, addr_to_frame, align_down, align_up,
}

-- `if (last > s_frame_count) last = s_frame_count;`
abbrev pub clamp : Pmm → ℕ → ℕ
clamp p last = if ltb p.frame_count last then p.frame_count else last

-- Frames that the range touches: from the first one to the end.
abbrev pub first_touched : ℕ → ℕ
first_touched base = addr_to_frame (align_down base)

abbrev pub end_touched : ℕ → ℕ → ℕ
end_touched base size = addr_to_frame (align_up ((base + size) % 2 ^ 64))

-- Frames that the range holds whole.
abbrev pub first_whole : ℕ → ℕ
first_whole base = addr_to_frame (align_up base)

abbrev pub end_whole : ℕ → ℕ → ℕ
end_whole base size = addr_to_frame (align_down ((base + size) % 2 ^ 64))

unfoldable pub mark_free_from : Pmm → ℕ → ℕ → Pmm
mark_free_from p zero f = p
mark_free_from p (suc left) f =
    mark_free_from (if frame_is_used p f then frame_mark_free p f else p) left (f + 1)

unfoldable pub mark_range_free : Pmm → ℕ → ℕ → Pmm
mark_range_free p base size =
    let first = first_whole base in
    if size == 0 then p else mark_free_from p (clamp p (end_whole base size) - first) first

-- One frame of the loop of `pmm_reserve_range`, and the frames reserved so far.
unfoldable pub reserve_one : Pmm → ℕ → Pmm
reserve_one p f =
    if frame_is_used p f
    then p
    else record (frame_mark_used p f) { refcount = update p.refcount f 0 }

unfoldable pub reserve_from : Pmm → ℕ → ℕ → ℕ → Pmm × ℕ
reserve_from p before zero f = (p, before)
reserve_from p before (suc left) f =
    reserve_from (reserve_one p f) (if frame_is_used p f then before else before + 1) left (f + 1)

unfoldable pub reserve_range : Pmm → ℕ → ℕ → Pmm
reserve_range p base size =
    let first = first_touched base in
    let (p', before) = reserve_from p 0 (clamp p (end_touched base size) - first) first in
    if not p.mapped || (size == 0)
    then p
    else if ltb 0 before
    then record p' { free_frames = (p'.free_frames + 2 ^ 32 - before) % 2 ^ 32 }
    else p'

unfoldable pub release_one : Pmm → ℕ → Pmm
release_one p f =
    if frame_is_used p f && (p.refcount f == 0)
    then record (frame_mark_free p f) { free_frames = (p.free_frames + 1) % 2 ^ 32 }
    else p

unfoldable pub release_from : Pmm → ℕ → ℕ → Pmm
release_from p zero f = p
release_from p (suc left) f = release_from (release_one p f) left (f + 1)

unfoldable pub release_range : Pmm → ℕ → ℕ → Pmm
release_range p base size =
    let first = first_whole base in
    if not p.mapped || (size == 0)
    then p
    else release_from p (clamp p (end_whole base size) - first) first
