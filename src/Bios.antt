-- ===== src/Bios.antt =====
-- The BIOS loader, src/bios: disk reads through the firmware, the choice of the partition, the
-- multiboot structure, and the steps of bios_loader_main.
pub mod Disk
pub mod Partition
pub mod Multiboot
pub mod Boot
mod Examples
