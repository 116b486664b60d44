-- ===== src/Mkdisk/Make/Fresh.antt =====
-- The image in front of the first file, as main of tools/mkdisk.c lays it out.
use gemiboot.Base.{
  ℕ, ◌+◌, ◌≡◌, ◌≤◌, ◌<◌, refl, arith, Mem, byte, blit, Bool, true, false, put8, put16, put32,
}
use gemiboot.Mkdisk.{Image, fat32_set_fat_entry}
use gemiboot.Mkdisk.Layout.{
  layout_image, start_table, copy_io_sys, io_sys_fits, write_records, write_mbr, write_bpb,
  write_fsinfo, write_backups,
}
use gemiboot.Mkdisk.Frame.{data_at, HasLayout, link_of}

-- What the image before the first file has.
pub record IsFresh (img : Image) : Type 0 where
  pub layout : HasLayout img
  pub next_free : img.g_next_free_clus ≡ 3
  pub root_end : link_of img.g_disk 2 ≡ 0x0fffffff
  pub first_free : byte img.g_disk data_at ≡ 0
  pub second_free : byte img.g_disk (data_at + 32) ≡ 0

start-IsFresh :
    (fits : Bool) (mbr vbr io : Mem) (mbr_sz vbr_sz io_sz : ℕ)
    → (fits ≡ true → io_sz ≤ 14848)
    → IsFresh (start_table (copy_io_sys fits io io_sz (write_records mbr mbr_sz vbr vbr_sz)))
unfolding start_table write_records write_mbr write_bpb write_fsinfo write_backups put8 put16 put32
    blit fat32_set_fat_entry
start-IsFresh true mbr vbr io mbr_sz vbr_sz io_sz few =
    let small = few refl in
    record {
      layout = record { fat_start = refl; fat_size = refl; data_start = refl };
      next_free = refl;
      root_end = refl;
      first_free = ground (arith, small);
      second_free = ground (arith, small);
    }
start-IsFresh false mbr vbr io mbr_sz vbr_sz io_sz few = record {
  layout = record { fat_start = refl; fat_size = refl; data_start = refl };
  next_free = refl;
  root_end = refl;
  first_free = ground arith;
  second_free = ground arith;
}

pub layout_image-IsFresh :
    (mbr vbr io : Mem) (mbr_sz vbr_sz io_sz : ℕ)
    → io_sz < 0x80000000
    → IsFresh (layout_image mbr mbr_sz vbr vbr_sz io io_sz)
unfolding layout_image
layout_image-IsFresh mbr vbr io mbr_sz vbr_sz io_sz small =
    start-IsFresh (io_sys_fits io_sz) mbr vbr io mbr_sz vbr_sz io_sz (λ fits. ground arith)
