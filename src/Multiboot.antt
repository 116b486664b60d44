-- ===== src/Multiboot.antt =====
-- struct multiboot_info of src/include/multiboot.h, which the loaders fill for the kernel.
use gemiboot.Base.{ℕ}

-- struct multiboot_info, without the fields that stay 0.
pub record MultibootInfo : Type 0 where
  pub flags : ℕ
  pub mem_lower : ℕ
  pub mem_upper : ℕ
  pub boot_device : ℕ
  pub mmap_length : ℕ
  pub mmap_addr : ℕ
  pub config_table : ℕ
  pub boot_loader_name : ℕ
  pub framebuffer_addr_low : ℕ
  pub framebuffer_addr_hi : ℕ
  pub framebuffer_pitch : ℕ
  pub framebuffer_width : ℕ
  pub framebuffer_height : ℕ
  pub framebuffer_bpp : ℕ
  pub framebuffer_type : ℕ
  pub red_field_position : ℕ
  pub red_mask_size : ℕ
  pub green_field_position : ℕ
  pub green_mask_size : ℕ
  pub blue_field_position : ℕ
  pub blue_mask_size : ℕ

-- memset(mbi, 0, …)
abbrev pub no_info : MultibootInfo
no_info = record {
  flags = 0;
  mem_lower = 0;
  mem_upper = 0;
  boot_device = 0;
  mmap_length = 0;
  mmap_addr = 0;
  config_table = 0;
  boot_loader_name = 0;
  framebuffer_addr_low = 0;
  framebuffer_addr_hi = 0;
  framebuffer_pitch = 0;
  framebuffer_width = 0;
  framebuffer_height = 0;
  framebuffer_bpp = 0;
  framebuffer_type = 0;
  red_field_position = 0;
  red_mask_size = 0;
  green_field_position = 0;
  green_mask_size = 0;
  blue_field_position = 0;
  blue_mask_size = 0;
}
