-- ===== src/Cap.antt =====
-- kernel/core/cap.c and kernel/include/afriyie/cap.h: capability tables.
pub mod Object
pub mod Table
pub mod Ops
pub mod Cases
pub mod Handle
pub mod Insert
pub mod History
pub mod Invariant
pub mod Tree
pub mod Revoke
pub mod Derive
pub mod Authority
pub mod Issue
pub mod Api
mod Tests
