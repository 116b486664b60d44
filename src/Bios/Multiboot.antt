-- ===== src/Bios/Multiboot.antt =====
-- The multiboot information that bios_loader_main of src/bios/bios_loader.c prepares.
pub mod Complete
use Prim.Native.Nat.{bit_or}
use gemiboot.Multiboot.{MultibootInfo, no_info}
use gemiboot.Base.{
  put32, ℕ, ◌+◌, ◌*◌, ◌%◌, ◌/◌, Bool, true, false, ◌&&◌, not, ltb, leb, ◌==◌, if◌then◌else◌, Mem,
  byte, le32, put8, u8,
}

abbrev pub mmap_buffer_addr : ℕ
mmap_buffer_addr = 0x8000

abbrev pub gfx_info_buffer_addr : ℕ
gfx_info_buffer_addr = 0x9000

-- struct multiboot_mmap_entry, whose high halves are 0.
unfoldable pub put_entry : ℕ → ℕ → ℕ → ℕ → Mem → Mem
put_entry at addr_low len_low type m =
    let m1 = put32 (put32 m at 20) (at + 4) addr_low in
    let m2 = put32 (put32 m1 (at + 8) 0) (at + 12) len_low in
    put32 (put32 m2 (at + 16) 0) (at + 20) type

-- The three entries of the fallback memory map.
unfoldable pub fallback_map : Mem → Mem
fallback_map m =
    let base = mmap_buffer_addr + 4 in
    let m1 = put_entry base 0 (639 * 1024) 1 m in
    let m2 = put_entry (base + 24) 0x9fc00 (385 * 1024) 2 m1 in
    put_entry (base + 48) 0x100000 (127 * 1024 * 1024) 1 m2

unfoldable pub memory_map_count : Mem → ℕ
memory_map_count m =
    let e820_count = le32 m mmap_buffer_addr in
    if ltb 0 e820_count && leb e820_count 128 then e820_count else 3

unfoldable pub memory_map_mem : Mem → Mem
memory_map_mem m =
    let e820_count = le32 m mmap_buffer_addr in
    if ltb 0 e820_count && leb e820_count 128 then m else fallback_map m

-- The two branches set the same address and flag; the count and the memory differ.
unfoldable pub set_memory_map : Mem → MultibootInfo → MultibootInfo
set_memory_map m mbi = record mbi {
  mmap_addr = mmap_buffer_addr + 4;
  mmap_length = memory_map_count m * 24;
  flags = bit_or mbi.flags 64;
}

-- `name` is the address of the string "gemiboot 1.0 (BIOS)".
unfoldable pub set_constants : ℕ → MultibootInfo → MultibootInfo
set_constants name mbi = record mbi {
  mem_lower = 640;
  mem_upper = 127 * 1024;
  boot_device = 0x8000ffff;
  boot_loader_name = name;
  flags = bit_or (bit_or (bit_or mbi.flags 1) 2) 512;
}

-- The framebuffer that the video setup left in memory, else the text mode.
unfoldable pub set_framebuffer : Mem → MultibootInfo → MultibootInfo
set_framebuffer m mbi =
    let g = gfx_info_buffer_addr in
    let gfx_bpp = le32 m g in
    let gfx_width = le32 m (g + 4) in
    let gfx_height = le32 m (g + 8) in
    let gfx_pitch = le32 m (g + 12) in
    let gfx_fb = le32 m (g + 16) in
    let rgb = g + 0x14 in
    let base : MultibootInfo = record mbi {
      framebuffer_addr_low = gfx_fb;
      framebuffer_addr_hi = 0;
      framebuffer_width = gfx_width;
      framebuffer_height = gfx_height;
      framebuffer_pitch = gfx_pitch;
      framebuffer_bpp = u8 gfx_bpp;
      framebuffer_type = if leb 15 gfx_bpp then 1 else 0;
      flags = bit_or mbi.flags 4096;
    } in
    let coloured : MultibootInfo = record base {
      red_field_position = byte m rgb;
      red_mask_size = byte m (rgb + 1);
      green_field_position = byte m (rgb + 2);
      green_mask_size = byte m (rgb + 3);
      blue_field_position = byte m (rgb + 4);
      blue_mask_size = byte m (rgb + 5);
    } in
    if not (gfx_fb == 0) && ltb 0 gfx_width && ltb 0 gfx_height && ltb 0 gfx_bpp
    then (if leb 15 gfx_bpp then coloured else base)
    else record mbi {
      framebuffer_addr_low = 0xb8000;
      framebuffer_addr_hi = 0;
      framebuffer_width = 80;
      framebuffer_height = 25;
      framebuffer_pitch = 160;
      framebuffer_bpp = 16;
      framebuffer_type = 2;
      flags = bit_or mbi.flags 4096;
    }

-- The structure, and the memory with the fallback map where it is used.
unfoldable pub prepare_info : ℕ → Mem → MultibootInfo × Mem
prepare_info name m =
    let mapped = memory_map_mem m in
    (set_framebuffer mapped (set_constants name (set_memory_map m no_info)), mapped)
