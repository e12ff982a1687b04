-- ===== src/Heap.antt =====
-- The kernel heap: kernel/core/heap.c.
pub mod State
pub mod Large
pub mod Ops
pub mod Layout
pub mod Objects
pub mod Invariant
pub mod Allocate
pub mod Release
pub mod Histories
mod Tests
