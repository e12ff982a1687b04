-- ===== src/Ipc.antt =====
-- kernel/core/ipc.c and kernel/include/afriyie/ipc.h: endpoints and messages.
pub mod State
pub mod Ops
pub mod Call
pub mod Checked
pub mod WaitList
pub mod Spelling
pub mod Mailbox
pub mod Table
pub mod Lifetime
pub mod Cases
pub mod Ring
pub mod Refine
pub mod Receive
pub mod Serve
pub mod Hazards
pub mod Authority
mod Tests
