-- ===== src/Mkdisk/Boot.antt =====
-- The boot loader's view of the image that tools/mkdisk.c builds.
mod Examples
pub mod Files
pub mod Find
pub mod Records
pub mod Kernel
pub mod Loader
