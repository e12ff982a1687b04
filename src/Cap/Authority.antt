-- ===== src/Cap/Authority.antt =====
-- What the handles of kernel/core/cap.c give access to, and how it changes over histories.
pub mod Lookup
pub mod Stale
pub mod Narrow
