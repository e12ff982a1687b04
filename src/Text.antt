-- ===== src/Text.antt =====
-- The string, memory and number routines of kernel/core/kstring.c.
pub mod Memory
pub mod Strings
pub mod Numbers
pub mod Fill
pub mod Move
pub mod Copy
pub mod Parse
mod Tests
