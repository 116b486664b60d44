-- ===== src/Efi.antt =====
-- The UEFI loaders, src/efi32/efi32.c and src/efi64/efi64.c. The functions that both files hold are
-- modelled once, with the width of uintptr_t as an argument where it matters.
pub mod Screen
pub mod Print
pub mod MemoryMap
pub mod Firmware
pub mod Gop
pub mod Files
pub mod Acpi
pub mod Pci
pub mod Loader
pub mod Ia32
pub mod Main64
pub mod Main32
mod Examples
