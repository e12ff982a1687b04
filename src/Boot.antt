-- ===== src/Boot.antt =====
-- kernel/core/boot_info.c and kernel/include/afriyie/boot_info.h: what the boot bridge hands over.
pub mod Info
pub mod Validate
pub mod Accepted
pub mod Sample
mod Tests
