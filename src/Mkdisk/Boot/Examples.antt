-- ===== src/Mkdisk/Boot/Examples.antt =====
-- Six host files and the callback that reads the image of them, and the theorems about it.
use gemiboot.Base.{true, ◌+◌, ◌<◌, success, [], chars, refl, ℕ, some, ◌≡◌, byte, arith}
use gemiboot.Fat.Volume.{DiskReadFn, ready, fat_init}
use gemiboot.Fat.Disk.{Serves}
use gemiboot.Fat.Find.{found, fat_find_file}
use gemiboot.Fat.Read.{Progress, fat_read_file}
use gemiboot.Bios.Partition.{find_active_partition_lba}
use gemiboot.Bios.Boot.{Ports, Boot}
use gemiboot.Mkdisk.{Image}
use gemiboot.Mkdisk.Table.{image_disk}
use gemiboot.Mkdisk.Layout.Boots.{mkdisk_volume}
use gemiboot.Mkdisk.Make.{HostFile, make_image}
use gemiboot.Mkdisk.Boot.Files.{disk_sectors}
use gemiboot.Mkdisk.Boot.Kernel.{make_image-fat_read_file}

-- A file of `n` bytes.
abbrev counting : ℕ → HostFile
counting n = record { contents = λ k. k; size = n }

abbrev built : Image
built =
    make_image (counting 440) (counting 512) (counting 9000) (counting 30000) (counting 40000)
      (counting 5000)

abbrev read : DiskReadFn ℕ
read lba count st = (some (image_disk built lba), st + 1)

read-Serves : Serves read (image_disk built) disk_sectors
read-Serves = record { reads = λ lba st small. (image_disk built lba, refl, λ k below. refl) }

make_image-fat_read_file_example :
    (find_active_partition_lba (read 0 1 0).0 ≡ 2048)
    × ((fat_init 2048 (some read) 0).0 ≡ ready mkdisk_volume)
    × ((fat_find_file 5001 mkdisk_volume read (chars "gemios.elf") (λ k. 0) 0).0 ≡ found 8 5000)
    × ((p : Progress ℕ) × (fat_read_file 5001 mkdisk_volume read 8 5000 0x200000 (λ k. 0) 0
          ≡ some (success, p))
        × ((k : ℕ) → k < 5000 → byte p.mem (0x200000 + k) ≡ byte (counting 5000).contents k))
make_image-fat_read_file_example =
    make_image-fat_read_file 5001 0x200000 read (counting 440) (counting 512) (counting 9000)
      (counting 30000) (counting 40000) (counting 5000) (λ k. 0) (λ k. 0) 0 (omega arith)
      (omega arith) read-Serves (omega arith)

-- A clock that stands still.
abbrev ports : Ports ℕ
ports = record {
  com1_ready = λ n. true;
  outb = λ port v st. st;
  inb = λ port st. (0, st);
  io_wait = λ st. st;
}

abbrev start : Boot ℕ
start = record { mem = λ x. 0; out = []; machine = 0 }
