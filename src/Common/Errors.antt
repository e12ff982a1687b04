-- ===== src/Common/Errors.antt =====
-- `af_status_t` of kernel/include/afriyie/status.h: the codes that the modelled parts return.
pub data Status : Type 0 where
  ok generic inval nomem noent again notsup overflow : Status
  perm cap_invalid noobj toomany : Status
  boot_magic boot_memmap boot_nofb boot_version : Status
  io nodev fs_corrupt notdir isdir nospc rofs : Status
