-- ===== src/Pmm/Invariant.antt =====
-- What the state of kernel/core/pmm.c keeps between calls.
use afriyie_os.Common.{ℕ, ◌^◌, ◌≤◌, ◌≡◌, Bool, true, false, not}
use afriyie_os.Common.Count.{count}
use afriyie_os.Pmm.State.{Pmm, frame_is_used}

abbrev pub is_free : Pmm → ℕ → Bool
is_free p f = not (frame_is_used p f)

-- The free count counts the frames that the bitmap calls free, none of which is referenced; frame 0
-- is never free. The frames are those of 8 TiB at most.
pub record IsValid (p : Pmm) : Type 0 where
  pub mapped : p.mapped ≡ true
  pub bounded : p.frame_count ≤ 2 ^ 31
  pub counted : p.free_frames ≡ count (is_free p) p.frame_count
  pub unreferenced : (f : ℕ) → frame_is_used p f ≡ false → p.refcount f ≡ 0
  pub null_used : frame_is_used p 0 ≡ true
  pub hinted : p.search_hint ≤ p.frame_count

-- The same without a word on frame 0, while the manager is being set up.
pub record IsOpen (p : Pmm) : Type 0 where
  pub mapped : p.mapped ≡ true
  pub bounded : p.frame_count ≤ 2 ^ 31
  pub counted : p.free_frames ≡ count (is_free p) p.frame_count
  pub unreferenced : (f : ℕ) → frame_is_used p f ≡ false → p.refcount f ≡ 0
  pub hinted : p.search_hint ≤ p.frame_count

pub IsValid-IsOpen : (p : Pmm) → IsValid p → IsOpen p
IsValid-IsOpen p v = record {
  mapped = v.mapped;
  bounded = v.bounded;
  counted = v.counted;
  unreferenced = v.unreferenced;
  hinted = v.hinted;
}

pub IsOpen-IsValid : (p : Pmm) → IsOpen p → frame_is_used p 0 ≡ true → IsValid p
IsOpen-IsValid p v null_used = record {
  mapped = v.mapped;
  bounded = v.bounded;
  counted = v.counted;
  unreferenced = v.unreferenced;
  null_used = null_used;
  hinted = v.hinted;
}
