-- ===== src/Task.antt =====
-- Threads, the scheduler and processes: kernel/core/thread.c, sched.c and process.c.
pub mod State
pub mod Queue
pub mod Threads
pub mod Process
pub mod Switch
pub mod Calls
pub mod Invariant
pub mod Alike
pub mod Leave
pub mod Moves
pub mod Steps
pub mod Teardown
pub mod Collect
pub mod Members
pub mod Histories
pub mod Priority
pub mod Woken
pub mod Rotation
pub mod Sleepers
pub mod Spaces
pub mod Hazards
pub mod Table
pub mod Pids
mod Tests
pub mod Wakes
