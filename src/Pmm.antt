-- ===== src/Pmm.antt =====
-- kernel/core/pmm.c and kernel/include/afriyie/pmm.h: the physical memory manager.
pub mod State
pub mod Ops
pub mod Range
pub mod Frames
pub mod Runs
pub mod Invariant
pub mod Reserve
pub mod Alloc
pub mod Free
pub mod Refs
pub mod Init
pub mod Boundaries
pub mod Clear
pub mod Keep
pub mod Start
mod Tests
