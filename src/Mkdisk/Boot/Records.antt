-- ===== src/Mkdisk/Boot/Records.antt =====
-- The boot records of the image as the boot loader reads them from the disk.
use gemiboot.Base.{
  sym, ◌∙◌, ap, ℕ, ◌+◌, ◌*◌, ◌≡◌, ◌<◌, inl, refl, arith, Mem, byte, Option, some, none, le32,
}
use gemiboot.Fat.Volume.{DiskReadFn, ready, mount, bpb_at, fat_init}
use gemiboot.Fat.Disk.{Serves}
use gemiboot.Bios.Partition.{find_active_partition_lba, scan_parts, after_loop}
use gemiboot.Mkdisk.{Image}
use gemiboot.Mkdisk.Entries.Fields.{le16_same}
use gemiboot.Mkdisk.Frame.{le32_same, Kept}
use gemiboot.Mkdisk.Table.{image_disk}
use gemiboot.Mkdisk.Layout.{layout_image}
use gemiboot.Mkdisk.Layout.Boots.{mkdisk_volume, layout_image-mounts}
use gemiboot.Mkdisk.Boot.Files.{disk_sectors, disk_flat}

-- Two sectors with the same bytes.
abbrev SameSector : Mem → Mem → Type 0
SameSector b b' = (k : ℕ) → k < 512 → byte b' k ≡ byte b k

-- The parameters of a volume depend on the sector's bytes only.
bpb_at-same : (b b' : Mem) → SameSector b b' → bpb_at b' ≡ bpb_at b
unfolding bpb_at
bpb_at-same b b' h =
    let w = λ (a : ℕ) (below : a < 510). le16_same a b b' (λ x above lt. h x (omega arith)) in
    let d = λ (a : ℕ) (below : a < 508). le32_same a b b' (λ x above lt. h x (omega arith)) in
    rw
      (
        w 11 (omega arith),
        h 13 (omega arith),
        w 14 (omega arith),
        h 16 (omega arith),
        w 17 (omega arith),
        w 19 (omega arith),
        w 22 (omega arith),
        d 32 (omega arith),
        d 36 (omega arith),
        d 44 (omega arith),
      )
      refl

after_loop-same :
    (b b' : Mem) (result : Option ℕ)
    → le32 b' 454 ≡ le32 b 454
    → after_loop b' result ≡ after_loop b result
unfolding after_loop
after_loop-same b b' (some lba) e = refl
after_loop-same b b' none e = rw e refl

find_active_partition_lba-same :
    (b b' : Mem)
    → SameSector b b'
    → find_active_partition_lba (some b') ≡ find_active_partition_lba (some b)
unfolding find_active_partition_lba scan_parts
find_active_partition_lba-same b b' h =
    let d = λ (a : ℕ) (below : a < 508). le32_same a b b' (λ x above lt. h x (omega arith)) in
    rw
      (
        h 446 (omega arith),
        h 462 (omega arith),
        h 478 (omega arith),
        h 494 (omega arith),
        d 454 (omega arith),
        d 470 (omega arith),
        d 486 (omega arith),
        d 502 (omega arith),
      )
      (after_loop-same b b' _ (d 454 (omega arith)))

module _ {S : Type 0} (read_fn : DiskReadFn S) (mbr vbr io : Mem) (mbr_sz vbr_sz io_sz : ℕ)
    (img : Image) (serves : Serves read_fn (image_disk img) disk_sectors)
    (kept : Kept 3 0 (layout_image mbr mbr_sz vbr vbr_sz io io_sz).g_disk img.g_disk) where
  -- A sector in front of the tables.
  abbrev start : Image
  start = layout_image mbr mbr_sz vbr vbr_sz io io_sz

  sector-same :
      (lba : ℕ) (b : Mem)
      → lba < 2080
      → ((k : ℕ) → k < 512 → byte b k ≡ byte (image_disk img lba) k)
      → SameSector (image_disk start lba) b
  sector-same lba b small same k below =
      let x = lba * 512 + k in
      same k below
      ∙ disk_flat img lba k x (omega arith) refl
      ∙ kept x (inl (omega arith))
      ∙ sym (disk_flat start lba k x (omega arith) refl)

  -- The loader finds the partition and mounts the volume.
  pub image-mounts :
      (st : S)
      → (find_active_partition_lba (read_fn 0 1 st).0 ≡ 2048)
        × ((fat_init 2048 (some read_fn) st).0 ≡ ready mkdisk_volume)
  unfolding fat_init
  image-mounts st =
      let (b, reads, same) = serves.reads 0 st (omega arith) in
      let (v, reads', same') = serves.reads 2048 st (omega arith) in
      let (found, mounted) = layout_image-mounts mbr vbr io mbr_sz vbr_sz io_sz in
      (
        rw reads (
            find_active_partition_lba-same (image_disk start 0) b
              (sector-same 0 b (omega arith) same)
            ∙ found),
        rw reads' (
            ap (mount 2048)
              (bpb_at-same (image_disk start 2048) v (sector-same 2048 v (omega arith) same'))
            ∙ mounted),
      )
