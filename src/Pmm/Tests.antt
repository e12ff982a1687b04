-- ===== src/Pmm/Tests.antt =====
-- The memory manager of kernel/core/pmm.c on a machine of sixteen frames.
use afriyie_os.Common.{
  ℕ, ◌+◌, ◌-◌, ◌≤◌, ◌<◌, ◌≡◌, refl, ◌∙◌, ◌⊎◌, true, ◌||◌, arith, ◌==◌, if◌then◌else◌, some, ok,
  false,
}
use afriyie_os.Common.Count.{count}
use afriyie_os.Pmm.State.{Pmm, frame_is_used, frame_mark_used, frame_invalid}
use afriyie_os.Pmm.Ops.{
  find_frame, find_run, claim, claim_run, alloc_one, alloc_run, alloc_frames, free_frames_at,
}
use afriyie_os.Pmm.Range.{reserve_range}
use afriyie_os.Pmm.Invariant.{IsValid}
use afriyie_os.Pmm.Alloc.{Given, IsFreeRun, alloc_frames_lem}
use afriyie_os.Pmm.Free.{Released, alloc-free}
use afriyie_os.Pmm.Refs.{refs, unrefs, Counted, refs_held, saturated_freed}
use afriyie_os.Boot.Info.{max_usable_address, max_allocatable_end}
use afriyie_os.Boot.Sample.{handoff}
use afriyie_os.Pmm.Init.{init, set_up, pick_region}
use afriyie_os.Pmm.Clear.{InMap}
use afriyie_os.Pmm.Start.{IsSpare, init_lem}
use afriyie_os.Pmm.Reserve.{touches, reserve_range_lem}

-- Only the null page is used.
abbrev small : Pmm
small = record {
  mapped = true;
  bitmap = λ i. if i == 0 then 1 else 0;
  refcount = λ f. 0;
  frame_count = 16;
  usable_frames = 15;
  free_frames = 15;
  search_hint = 0;
}

small-IsValid : IsValid small
unfolding count frame_is_used
small-IsValid = record {
  mapped = refl;
  bounded = omega arith;
  counted = refl;
  unreferenced = λ f free. refl;
  null_used = refl;
  hinted = omega arith;
}

-- Frame 1 is handed out.
abbrev one_owned : Pmm
one_owned = (alloc_frames small 1).0

first_frame : alloc_frames small 1 ≡ (one_owned, 4096)
unfolding alloc_frames alloc_one find_frame claim frame_is_used frame_mark_used
first_frame = refl

run_of_three : (alloc_frames one_owned 3).1 ≡ 8192
unfolding alloc_frames alloc_one alloc_run find_frame find_run claim claim_run frame_is_used
    frame_mark_used
run_of_three = refl

alloc_frames_lem_example :
    IsValid (alloc_frames small 3).0
    × ((((alloc_frames small 3).1 ≡ frame_invalid)
          × ((alloc_frames small 3).0 ≡ small)
          × ((s : ℕ) → s + 3 ≤ 16 → ¬ IsFreeRun small s 3))
        ⊎ ((s : ℕ) × Given small 3 s (alloc_frames small 3).0 (alloc_frames small 3).1))
alloc_frames_lem_example = alloc_frames_lem small 3 small-IsValid (omega arith)

alloc-free_example :
    IsValid (free_frames_at one_owned 4096 1)
    × ((g : ℕ) → frame_is_used (free_frames_at one_owned 4096 1) g ≡ frame_is_used small g)
    × ((g : ℕ) → (free_frames_at one_owned 4096 1).refcount g ≡ 0)
    × ((free_frames_at one_owned 4096 1).free_frames ≡ 15)
alloc-free_example =
    alloc-free small one_owned 1 4096 small-IsValid (omega arith) first_frame (λ e. omega arith)

one_owned-IsValid : IsValid one_owned
one_owned-IsValid = (alloc_frames_lem small 1 small-IsValid (omega arith)).0

one_owned_used :
    (frame_is_used one_owned 1 ≡ true) × (one_owned.refcount 1 ≡ 1) × (one_owned.frame_count ≡ 16)
unfolding alloc_frames alloc_one find_frame claim frame_is_used frame_mark_used
one_owned_used = (refl, refl, refl)

refs_held_example :
    ((m : ℕ)
      → m < one_owned.refcount 1 + 2
      → Counted one_owned 1 (one_owned.refcount 1 + 2 - m) (unrefs m (refs 2 one_owned 1) 1))
    × (let q = unrefs (one_owned.refcount 1 + 2) (refs 2 one_owned 1) 1 in
        IsValid q × Released one_owned 1 q)
refs_held_example =
    refs_held 2 one_owned 1 one_owned-IsValid (omega arith) (omega (arith, one_owned_used))
      one_owned_used.0 (omega (arith, one_owned_used)) (omega (arith, one_owned_used))

-- Frame 1 with 255 references.
abbrev crowded : Pmm
crowded = unrefs 0 (refs 254 one_owned 1) 1

crowded-Counted : Counted one_owned 1 (one_owned.refcount 1 + 254 - 0) crowded
crowded-Counted =
    (refs_held 254 one_owned 1 one_owned-IsValid (omega arith) (omega (arith, one_owned_used))
        one_owned_used.0 (omega (arith, one_owned_used)) (omega (arith, one_owned_used))).0
      0 (omega arith)

saturated_freed_example :
    let q = unrefs 255 (refs 40 crowded 1) 1 in IsValid q × Released crowded 1 q
saturated_freed_example =
    saturated_freed 40 crowded 1 crowded-Counted.valid (omega arith)
      (omega (arith, crowded-Counted.size, one_owned_used))
      (crowded-Counted.used 1 ∙ one_owned_used.0)
      (omega (arith, crowded-Counted.here, one_owned_used))

-- Half of frame 2 and half of frame 3.
reserve_range_lem_example :
    let p' = reserve_range small 10240 4096 in
    IsValid p'
    × ((g : ℕ) → g < 16 → frame_is_used p' g ≡ (touches 10240 4096 g || frame_is_used small g))
    × ((g : ℕ) → p'.refcount g ≡ 0)
    × (p'.frame_count ≡ 16)
reserve_range_lem_example =
    reserve_range_lem small 10240 4096 small-IsValid (omega arith) (omega arith)

-- The kernel's image ends after what the loader reported.
abbrev machine : Pmm
machine = set_up handoff 0x100000 0x190000 0x200000 16896

machine_set_up : init small (some handoff) 0x100000 0x190000 ≡ (machine, ok)
unfolding init pick_region max_usable_address max_allocatable_end
machine_set_up = refl

init_lem_example :
    IsValid machine
    × ((g : ℕ)
        → g < machine.frame_count
        → frame_is_used machine g ≡ false
        → InMap handoff.memory_regions g
          × IsSpare handoff 0x100000 0x190000
              (pick_region handoff (0, 0) handoff.memory_regions).0
              machine.frame_count
              g)
init_lem_example =
    init_lem small machine handoff 0x100000 0x190000
      (record {
        regions = (omega arith, (omega arith, (omega arith, (omega arith, tt))));
        image = (omega arith, omega arith);
        screen = omega arith;
        ramdisk = omega arith;
      })
      machine_set_up
