-- ===== src/Boot/Sample.antt =====
-- A handoff, for the tests of what reads kernel/include/afriyie/boot_info.h.
use afriyie_os.Common.{[], ◌∷◌}
use afriyie_os.Boot.Info.{MemoryType, Framebuffer, BootInfo}
use afriyie_os.Boot.Validate.{info_magic, info_version, info_size}

abbrev pub screen : Framebuffer
screen = record {
  address = 0x80000000;
  size = 0x400000;
  width = 1024;
  height = 768;
  pitch = 4096;
  bpp = 32;
}

-- Low memory, a device window, 64 MiB of RAM and the loader.
abbrev pub handoff : BootInfo
handoff = record {
  magic = info_magic;
  version = info_version;
  size = info_size;
  boot_flags = 1;
  kernel_phys_base = 0x100000;
  kernel_phys_size = 0x80000;
  ramdisk_phys_base = 0;
  ramdisk_size = 0;
  framebuffer = screen;
  memory_region_count = 4;
  memory_regions =
      record { base = 0; length = 0x9f000; type = MemoryType.usable }
      ∷ record { base = 0xe0000; length = 0x20000; type = MemoryType.reserved }
      ∷ record { base = 0x100000; length = 0x100000; type = MemoryType.bootloader }
      ∷ record { base = 0x200000; length = 0x4000000; type = MemoryType.usable }
      ∷ [];
}
