-- ===== src/Mkdisk/Layout/Boots.antt =====
-- The boot loader finds and mounts the volume that tools/mkdisk.c lays out.
use gemiboot.Base.{put16, put32, true, false, Bool, ℕ, ◌≡◌, refl, some, Mem, put8, blit}
use gemiboot.Fat.Volume.{FatFs, ready, mount, bpb_at, geometry, classify}
use gemiboot.Bios.Partition.{find_active_partition_lba, scan_parts, after_loop}
use gemiboot.Mkdisk.{fat32_set_fat_entry}
use gemiboot.Mkdisk.Table.{image_disk}
use gemiboot.Mkdisk.Layout.{
  write_mbr, write_bpb, write_fsinfo, write_backups, copy_io_sys, io_sys_fits, start_table,
  write_records, layout_image,
}

-- The volume of 256 MB without the first 2048 sectors: two tables of 1020 sectors and 130042
-- clusters.
abbrev pub mkdisk_volume : FatFs
mkdisk_volume = record {
  part_lba = 2048;
  bytes_per_sec = 512;
  sec_per_clus = 4;
  rsvd_sec_cnt = 32;
  num_fats = 2;
  fat_size = 1020;
  root_dir_sec = 4120;
  root_ent_cnt = 0;
  data_sec = 4120;
  total_sectors = 522240;
  total_clusters = 130042;
  root_clus = 2;
  fat_type = 32;
}

finds_partition :
    (fits : Bool) (mbr vbr io : Mem) (mbr_sz vbr_sz io_sz : ℕ)
    → find_active_partition_lba (
        some (
          image_disk
            (start_table (copy_io_sys fits io io_sz (write_records mbr mbr_sz vbr vbr_sz)))
            0))
      ≡ 2048
unfolding find_active_partition_lba scan_parts after_loop start_table write_records write_mbr
    write_bpb write_fsinfo write_backups put8 put16 put32 blit fat32_set_fat_entry
finds_partition true mbr vbr io mbr_sz vbr_sz io_sz = refl
finds_partition false mbr vbr io mbr_sz vbr_sz io_sz = refl

mounts :
    (fits : Bool) (mbr vbr io : Mem) (mbr_sz vbr_sz io_sz : ℕ)
    → mount 2048 (
        bpb_at (
          image_disk
            (start_table (copy_io_sys fits io io_sz (write_records mbr mbr_sz vbr vbr_sz)))
            2048))
      ≡ ready mkdisk_volume
unfolding mount bpb_at geometry classify start_table write_records write_mbr write_bpb write_fsinfo
    write_backups put8 put16 put32 blit fat32_set_fat_entry
mounts true mbr vbr io mbr_sz vbr_sz io_sz = refl
mounts false mbr vbr io mbr_sz vbr_sz io_sz = refl

-- Whatever the boot records' code and IO.SYS are, the BIOS loader finds the partition of the image
-- that mkdisk lays out at sector 2048, and mounting it gives the FAT32 volume that mkdisk means.
pub layout_image-mounts :
    (mbr vbr io : Mem) (mbr_sz vbr_sz io_sz : ℕ)
    → (find_active_partition_lba (some (image_disk (layout_image mbr mbr_sz vbr vbr_sz io io_sz) 0))
        ≡ 2048)
      × (mount 2048 (bpb_at (image_disk (layout_image mbr mbr_sz vbr vbr_sz io io_sz) 2048))
          ≡ ready mkdisk_volume)
unfolding layout_image
layout_image-mounts mbr vbr io mbr_sz vbr_sz io_sz = (
  finds_partition (io_sys_fits io_sz) mbr vbr io mbr_sz vbr_sz io_sz,
  mounts (io_sys_fits io_sz) mbr vbr io mbr_sz vbr_sz io_sz,
)
