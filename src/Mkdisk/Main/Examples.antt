-- ===== src/Mkdisk/Main/Examples.antt =====
-- A host with one file, and the theorems about mkdisk's main on it.
use gemiboot.Base.{
  true, success, ◌<◌, ia32, if◌then◌else◌, ◌==◌, ℕ, ◌+◌, ◌≡◌, refl, List, [], Mem, some, arith,
  byte, chars, pos,
}
use gemiboot.Elf.{elf32_load}
use gemiboot.Fat.Volume.{DiskReadFn}
use gemiboot.Fat.Disk.{Serves}
use gemiboot.Fat.Read.{Progress, fat_read_file}
use gemiboot.Bios.Multiboot.{prepare_info}
use gemiboot.Mkdisk.Layout.Boots.{mkdisk_volume}
use gemiboot.Mkdisk.Files.Steps.{clusters_of}
use gemiboot.Bios.Boot.{Ports, Boot, End, bios_loader_main}
use gemiboot.Mkdisk.Table.{image_disk}
use gemiboot.Mkdisk.Boot.Files.{disk_sectors}
use gemiboot.Mkdisk.Main.Boots.{HasBuilt-bios_loader_main}
use gemiboot.Mkdisk.Make.{HostFile}
use gemiboot.Mkdisk.Host.{Host}
use gemiboot.Mkdisk.Main.{Paths, image_of}
use gemiboot.Mkdisk.Main.Built.{HasBuilt}
use gemiboot.Mkdisk.Main.Files.{Provides}
use gemiboot.Mkdisk.Main.Succeeds.{Contents, ProvidesAll, AreCopies, Accepts, main-AreCopies}

-- Every path opens the same file of 600 bytes, and the state counts the calls of fopen.
abbrev host : Host ℕ
host = record {
  fopen = λ path for_writing h. (some 1, h + 1);
  fseek = λ f offset whence h. h;
  ftell = λ f h. (pos 600, h);
  fread = λ f n b h. ((λ k. k, n), h);
  fwrite = λ f m size n h. (n, h);
  fclose = λ f h. h;
  malloc = λ n h. (some (record { address = h; contents = λ k. 0 }), h);
  calloc = λ n size h. (some 7, h);
  free = λ a h. h;
}

abbrev content : HostFile
content = record { contents = λ k. k; size = 600 }

abbrev path : List ℕ
path = chars "file"

abbrev paths : Paths
paths = record {
  mbr_path = path;
  vbr_path = path;
  io_sys_path = path;
  ia32_path = path;
  x64_path = path;
  kernel_path = path;
}

abbrev six : Contents
six = record {
  mbr_file = content;
  vbr_file = content;
  io_sys_file = content;
  ia32_file = content;
  x64_file = content;
  kernel_file = content;
}

path-Provides : Provides host path content
path-Provides = record {
  handle = 1;
  short = omega arith;
  opens = λ h. refl;
  tells = λ h. refl;
  has_memory = λ k h. (_, refl);
  reads = λ k b h. (refl, λ j lt. refl);
}

paths-ProvidesAll : ProvidesAll host paths six
paths-ProvidesAll = record {
  mbr = path-Provides;
  vbr = path-Provides;
  io_sys = path-Provides;
  ia32 = path-Provides;
  x64 = path-Provides;
  kernel = path-Provides;
}

host-Accepts : Accepts host (chars "out")
host-Accepts = record {
  handle = 1;
  has_disk = λ h. (_, refl);
  opens = λ h. refl;
  writes = λ m h. refl;
}

abbrev built : (b : HasBuilt host (chars "out") paths 0) × AreCopies six b.inputs
built =
    let (_, _, b, copies) =
      main-AreCopies host path (chars "out") paths [] six 0 paths-ProvidesAll host-Accepts
        (omega arith) in
    (b, copies)

abbrev read : DiskReadFn ℕ
read lba count st = (some (image_disk (image_of built.0.inputs) lba), st)

read-Serves : Serves read (image_disk (image_of built.0.inputs)) disk_sectors
read-Serves = record {
  reads = λ lba st small. (image_disk (image_of built.0.inputs) lba, refl, λ k below. refl);
}

-- A clock that stands still.
abbrev ports : Ports ℕ
ports = record {
  com1_ready = λ n. true;
  outb = λ port v st. st;
  inb = λ port st. (0, st);
  io_wait = λ st. st;
}

abbrev start : Boot ℕ
start = record { mem = λ x. 0; out = []; machine = 0 }

HasBuilt-bios_loader_main_example :
    (st : ℕ) × (progress : Progress ℕ) × (entry : ℕ) × (m : Mem) × (b' : Boot ℕ) × (fat_read_file
        601 mkdisk_volume read
        (3 + clusters_of 600)
        600
        0x200000
        (λ x. 0)
        st
      ≡ some (success, progress))
    × ((k : ℕ) → k < 600 → byte progress.mem (0x200000 + k) ≡ byte content.contents k)
    × (elf32_load ia32 65536 0x200000 600 progress.mem ≡ some (entry, m))
    × (bios_loader_main ports read 2 0x8000 start
        ≡ some
            (if entry == 0 then End.halted b' else End.jumped entry (prepare_info 0x8000 m).0 b'))
    × (b'.mem ≡ (if entry == 0 then m else (prepare_info 0x8000 m).1))
HasBuilt-bios_loader_main_example =
    HasBuilt-bios_loader_main host (chars "out") paths 0 six built.0 ports read 2 0x8000 start
      built.1 (omega arith) (omega arith) read-Serves (λ st. omega arith) (λ n. refl) (omega arith)
