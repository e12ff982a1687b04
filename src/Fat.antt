-- ===== src/Fat.antt =====
-- The FAT32 reader: kernel/fs/fat32.c.
pub mod Volume
pub mod File
pub mod Names
pub mod Directory
pub mod Search
pub mod Open
pub mod Handles
pub mod Place
pub mod Chain
mod Tests
