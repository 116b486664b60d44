-- ===== src/Fat.antt =====
-- The FAT driver, src/common/fat.c: the volume, its allocation table, looking a file up in the
-- root directory and reading it. The shared types are in `Fat.Volume`.
pub mod Volume
pub mod Name
pub mod Find
pub mod Read
pub mod Disk
mod Examples
