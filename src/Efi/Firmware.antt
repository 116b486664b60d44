-- ===== src/Efi/Firmware.antt =====
-- The services of the firmware (src/include/efi.h) that the UEFI loaders call, over a state of the
-- firmware. A status of 0 is EFI_SUCCESS. A handle or a pointer is a number, and 0 is NULL.
use gemiboot.Base.{ℕ, Bool, Option, List, Mem}

-- The fields of EFI_GRAPHICS_OUTPUT_MODE_INFORMATION that the code reads.
pub record ModeInfo : Type 0 where
  pub horizontal_resolution : ℕ
  pub vertical_resolution : ℕ
  pub pixel_format : ℕ
  pub pixels_per_scan_line : ℕ

-- *gop->Mode; `info` is none where its pointer is null.
pub record GopMode : Type 0 where
  pub max_mode : ℕ
  pub mode : ℕ
  pub info : Option ModeInfo
  pub frame_buffer_base : ℕ

-- What GetMemoryMap returns beside its status: the descriptors, their size in bytes, the key and
-- the size of one descriptor.
pub record MemoryMap : Type 0 where
  pub mmap : Mem
  pub mmap_size : ℕ
  pub map_key : ℕ
  pub desc_size : ℕ

pub record Firmware (S : Type 0) : Type 0 where
  -- LocateProtocol for the graphics output; the Boolean says that the pointer is not null.
  pub locate_gop : S → ℕ × Bool × S
  pub gop_mode : S → GopMode
  pub query_mode : ℕ → S → ℕ × Option ModeInfo × S
  pub set_mode : ℕ → S → S
  -- HandleProtocol for the loaded image: its status and the device's handle.
  pub loaded_image : ℕ → S → ℕ × ℕ × S
  -- HandleProtocol and LocateProtocol for a file system, and LocateHandleBuffer for all of them.
  pub handle_file_system : ℕ → S → ℕ × ℕ × S
  pub locate_file_system : S → ℕ × ℕ × S
  pub locate_handles : S → ℕ × List ℕ × S
  pub free_pool : S → S
  -- OpenVolume, Open, Read, SetPosition and Close. Open and OpenVolume return their status and the
  -- new handle; Read its status, the size and the bytes.
  pub open_volume : ℕ → S → ℕ × ℕ × S
  pub open_file : ℕ → List ℕ → S → ℕ × ℕ × S
  pub read_file : ℕ → ℕ → S → ℕ × ℕ × Mem × S
  pub set_position : ℕ → ℕ → S → S
  pub close_file : ℕ → S → S
  -- AllocatePages at an address, or below one: its status and the address.
  pub allocate_address : ℕ → ℕ → S → ℕ × ℕ × S
  pub allocate_max_address : ℕ → ℕ → S → ℕ × ℕ × S
  -- GetMemoryMap is given the variables that it writes.
  pub get_memory_map : MemoryMap → S → ℕ × MemoryMap × S
  pub exit_boot_services : ℕ → ℕ → S → ℕ × S
  pub stall : ℕ → S → S
