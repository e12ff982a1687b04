-- ===== src/Cap/Revoke.antt =====
-- `revoke_children` and `cap_revoke` of kernel/core/cap.c: what is removed on a table whose
-- derivations have no cycle, and what happens where they have one.
mod Step
pub mod Loop
pub mod Exact
pub mod Cycle
pub mod Growth
pub mod Histories
