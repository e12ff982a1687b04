-- ===== src/Disk.antt =====
-- kernel/core/block.c, kernel/fs/gpt.c and the partition table of kernel/include/afriyie/fs.h.
pub mod Block
pub mod Gpt
pub mod Range
pub mod Entries
pub mod Table
mod Tests
