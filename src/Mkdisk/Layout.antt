-- ===== src/Mkdisk/Layout.antt =====
-- The part of main of tools/mkdisk.c that lays out the disk: the boot records, the file system's
-- parameters and the first entries of its table. The host's files are memories with sizes.
pub mod Boots
use gemiboot.Base.{
  u32, put16, put32, Bool, true, false, ℕ, ◌+◌, ◌-◌, ◌*◌, ◌/◌, ltb, if◌then◌else◌, Mem, put8, blit,
  List, [], ◌∷◌, get_or,
}
use gemiboot.Mkdisk.{Image, get_sector, fat32_set_fat_entry, root_clus, sec_per_clus}

abbrev pub partition_start_lba : ℕ
partition_start_lba = 2048

abbrev pub partition_sectors : ℕ
partition_sectors = 256 * 1024 * 1024 / 512 - partition_start_lba

-- The address of the volume's first sector in the image.
abbrev vbr_at : ℕ
vbr_at = get_sector partition_start_lba

-- `n < most ? n : most`
abbrev at_most : ℕ → ℕ → ℕ
at_most n most = if ltb n most then n else most

unfoldable pub write_mbr : Mem → ℕ → Mem → Mem
write_mbr mbr_data mbr_sz m =
    let m1 = blit m 0 mbr_data (at_most mbr_sz 440) in
    let m2 = put16 (put16 (put32 m1 440 0x544f4f42) 444 0) 510 0xaa55 in
    let m3 = put8 (put8 (put8 (put8 m2 446 0x80) 447 32) 448 33) 449 0 in
    let m4 = put8 (put8 (put8 (put8 m3 450 0x0c) 451 254) 452 0xff) 453 0xff in
    put32 (put32 m4 454 partition_start_lba) 458 partition_sectors

-- A string literal.
abbrev text : List ℕ → Mem
text s k = get_or s k 0

-- The boot sector of the volume, with the table's size.
unfoldable pub write_bpb : Mem → ℕ → ℕ → Mem → Mem
write_bpb vbr_data vbr_sz fat_size m =
    let b = vbr_at in
    let m1 = blit m b vbr_data (at_most vbr_sz 512) in
    let m2 =
      blit m1 (b + 3) (text (b'G' ∷ b'E' ∷ b'M' ∷ b'I' ∷ b'B' ∷ b'O' ∷ b'O' ∷ b'T' ∷ [])) 8 in
    let m3 =
      put8 (put16 (put8 (put16 m2 (b + 11) 512) (b + 13) sec_per_clus) (b + 14) 32) (b + 16) 2 in
    let m4 = put16 (put8 (put16 (put16 m3 (b + 17) 0) (b + 19) 0) (b + 21) 0xf8) (b + 22) 0 in
    let m5 = put32 (put16 (put16 m4 (b + 24) 63) (b + 26) 255) (b + 28) partition_start_lba in
    let m6 = put32 (put32 m5 (b + 32) partition_sectors) (b + 36) fat_size in
    let m7 = put16 (put16 (put32 m6 (b + 44) root_clus) (b + 48) 1) (b + 50) 6 in
    let m8 = put32 (put8 (put8 m7 (b + 64) 0x80) (b + 66) 0x29) (b + 67) 0x12345678 in
    let m9 =
      blit m8 (b + 71)
        (text (b'G' ∷ b'E' ∷ b'M' ∷ b'I' ∷ b'B' ∷ b'O' ∷ b'O' ∷ b'T' ∷ b' ' ∷ b' ' ∷ b' ' ∷ []))
        11 in
    let m10 =
      blit m9 (b + 82) (text (b'F' ∷ b'A' ∷ b'T' ∷ b'3' ∷ b'2' ∷ b' ' ∷ b' ' ∷ b' ' ∷ [])) 8 in
    put16 m10 (b + 510) 0xaa55

unfoldable pub write_fsinfo : Mem → Mem
write_fsinfo m =
    let f = get_sector (partition_start_lba + 1) in
    let m1 = put32 (put32 m f 0x41615252) (f + 484) 0x61417272 in
    put32 (put32 (put32 m1 (f + 488) 0xffffffff) (f + 492) 0xffffffff) (f + 508) 0xaa550000

-- The copies of the boot sector and of FSInfo.
unfoldable pub write_backups : Mem → Mem
write_backups m =
    let m1 = blit m (get_sector (partition_start_lba + 6)) (λ k. m (vbr_at + k)) 512 in
    blit m1 (get_sector (partition_start_lba + 7))
      (λ k. m1 (get_sector (partition_start_lba + 1) + k)) 512

-- IO.SYS in the reserved sectors, where `fits` says that there is room.
abbrev pub copy_io_sys : Bool → Mem → ℕ → Mem → Mem
copy_io_sys true io_sys_data io_sys_sz m =
    blit m (get_sector (partition_start_lba + 2)) io_sys_data io_sys_sz
copy_io_sys false io_sys_data io_sys_sz m = m

-- 2 + io_sec_count < RSVD_SEC_CNT
abbrev pub io_sys_fits : ℕ → Bool
io_sys_fits io_sys_sz = ltb (2 + u32 (io_sys_sz + 512 - 1) / 512) 32

abbrev pub table_size : ℕ
table_size = ((partition_sectors - 32) / sec_per_clus * 4 + 512 - 1) / 512

-- The variables of the file, and the first three entries of the table.
unfoldable pub start_table : Mem → Image
start_table m =
    let img : Image = record {
      g_disk = m;
      g_fat_start = partition_start_lba + 32;
      g_fat_size = table_size;
      g_data_start = partition_start_lba + 32 + 2 * table_size;
      g_next_free_clus = 3;
    } in
    fat32_set_fat_entry root_clus 0x0fffffff
      (fat32_set_fat_entry 1 0x0fffffff (fat32_set_fat_entry 0 0x0ffffff8 img))

-- The boot records; calloc has filled the disk with zeros.
unfoldable pub write_records : Mem → ℕ → Mem → ℕ → Mem
write_records mbr_data mbr_sz vbr_data vbr_sz =
    write_backups
      (write_fsinfo (write_bpb vbr_data vbr_sz table_size (write_mbr mbr_data mbr_sz (λ k. 0))))

-- The image before the first file is written.
unfoldable pub layout_image : Mem → ℕ → Mem → ℕ → Mem → ℕ → Image
layout_image mbr_data mbr_sz vbr_data vbr_sz io_sys_data io_sys_sz = start_table (
    copy_io_sys (io_sys_fits io_sys_sz) io_sys_data io_sys_sz
      (write_records mbr_data mbr_sz vbr_data vbr_sz))
