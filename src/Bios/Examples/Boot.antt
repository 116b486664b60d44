-- ===== src/Bios/Examples/Boot.antt =====
-- A disk with a kernel on a small volume, and the theorems about bios_loader_main at it.
use gemiboot.Base.{
  ◌∙◌, true, ap, ℕ, ◌+◌, ◌/◌, ◌%◌, ◌≡◌, ◌<◌, refl, arith, Option, none, some, List, [], ◌∷◌, ◌++◌,
  replicate, get_or, ◌==◌, if◌then◌else◌, chars, put8, blit, Mem,
}
use gemiboot.Samples.{image_bytes}
use gemiboot.Multiboot.{MultibootInfo}
use gemiboot.Fat.Volume.{FatFs, DiskReadFn}
use gemiboot.Elf
use gemiboot.Str.{memcmp, memset, memcpy}
use gemiboot.Fat.Name
use gemiboot.Fat.Find
use gemiboot.Fat.Read
use gemiboot.Fat.Volume
use gemiboot.Bios.Partition
use gemiboot.Serial.Port.{serial_init}
use gemiboot.Bios.Boot
use gemiboot.Bios.Boot.{Ports, Boot, End, bios_loader_main, read_and_start}
use gemiboot.Bios.Boot.Jump.{HasBooted, bios_loader_main-HasBooted}
use gemiboot.Bios.Boot.Ends.{at_port-ready}

-- Sector 0 has the table of partitions, with an active one at sector 1.
abbrev mbr : Mem
mbr k = if k == 446 then 0x80 else (if k == 454 then 1 else 0)

-- One sector for each cluster, one for the boot record, one for the table and one for the root.
abbrev bpb : List ℕ
bpb = replicate 12 0 ++ 2 ∷ 1 ∷ 1 ∷ 0 ∷ 1 ∷ 16 ∷ 0 ∷ 100 ∷ 0 ∷ 0xf8 ∷ 1 ∷ []

abbrev root : List ℕ
root = chars "GEMIOS  ELF" ++ 0x20 ∷ replicate 14 0 ++ 2 ∷ 0 ∷ 88 ∷ []

abbrev disk : ℕ → Mem
disk lba =
    if lba == 0
    then mbr
    else (if lba == 1
        then (λ k. get_or bpb k 0)
        else (if lba == 3
            then (λ k. get_or root k 0)
            else (if lba == 4 then (λ k. get_or image_bytes k 0) else (λ k. 0))))

abbrev read : DiskReadFn ℕ
read lba count st = (some (disk lba), st)

-- The state counts the reads of the clock, and two of them are a second.
abbrev ports : Ports ℕ
ports = record {
  com1_ready = λ n. true;
  outb = λ port v st. st;
  inb = λ port st. (st / 2 % 60, st + 1);
  io_wait = λ st. st;
}

abbrev start : Boot ℕ
start = record { mem = λ x. 0; out = []; machine = 0 }

-- The entry point that is jumped to, or 0.
abbrev entry_of : Option (End ℕ) → ℕ
entry_of none = 0
entry_of (some (End.halted b)) = 0
entry_of (some (End.divide_error b)) = 0
entry_of (some (End.jumped entry mbi b)) = entry

entry_of-jumped :
    (o : Option (End ℕ)) (entry : ℕ)
    → 0 < entry
    → entry_of o ≡ entry
    → (mbi : MultibootInfo) × (b : Boot ℕ) × (o ≡ some (End.jumped entry mbi b))
entry_of-jumped none entry some_entry h = absurd (omega arith)
entry_of-jumped (some (End.halted b)) entry some_entry h = absurd (omega arith)
entry_of-jumped (some (End.divide_error b)) entry some_entry h = absurd (omega arith)
entry_of-jumped (some (End.jumped at mbi b)) entry some_entry h =
    (mbi, b, ap (λ a. some (End.jumped a mbi b)) h)

boots : entry_of (Boot.load_from_disk ports read 9 0x8000 start) ≡ 0x100000
unfolding Boot.load_from_disk read_and_start Boot.find_and_start Boot.search Boot.load_and_start
    Boot.start_kernel Boot.pause_seconds Boot.countdown Boot.wait_second Boot.cmos_get_sec
    Boot.wait_update Boot.say Boot.say_dec Boot.say_hex Elf.elf32_load Elf.elf32_validate
    Elf.ehdr_at Elf.load_loop Elf.load_segment Elf.copy_file_bytes Elf.clear_bss Elf.phdr_at
    Volume.fat_init Volume.mount Volume.bpb_at Partition.find_active_partition_lba
    Partition.after_loop Partition.scan_parts Find.fat_find_file Volume.classify Volume.geometry
    Find.scan_sectors Find.scan_entries chars memcmp Name.format_83_name put8 memset
    Read.fat_read_file Read.copy_chain Read.copy_cluster Read.copy_sector Volume.cluster_to_lba
    Volume.fat_get_next_cluster Volume.is_end_of_cluster_chain Name.format_char Name.format_loop
    Name.to_upper blit memcpy
boots = refl

abbrev booted :
    (mbi : MultibootInfo) × (b : Boot ℕ) × (Boot.load_from_disk ports read 9 0x8000 start
      ≡ some (End.jumped 0x100000 mbi b))
booted =
    entry_of-jumped (Boot.load_from_disk ports read 9 0x8000 start) 0x100000 (omega arith) boots

at_port_booted :
    bios_loader_main ports read 9 0x8000 start ≡ some (End.jumped 0x100000 booted.0 booted.1)
unfolding bios_loader_main serial_init
at_port_booted =
    at_port-ready ports (λ st. omega arith) (λ n. refl) []
      (Boot.load_from_disk ports read 9 0x8000 start)
    ∙ booted.2

bios_loader_main-HasBooted_example :
    HasBooted ports read 9 0x8000 (Boot.serial_ready ports start) 0x100000 booted.0 booted.1.mem
bios_loader_main-HasBooted_example =
    bios_loader_main-HasBooted ports read 9 0x8000 0x100000 start booted.1 booted.0 at_port_booted

abbrev fs : FatFs
fs = record {
  part_lba = 1;
  bytes_per_sec = 512;
  sec_per_clus = 1;
  rsvd_sec_cnt = 1;
  num_fats = 1;
  root_ent_cnt = 16;
  fat_size = 1;
  root_dir_sec = 3;
  data_sec = 4;
  total_sectors = 100;
  total_clusters = 96;
  root_clus = 0;
  fat_type = 12;
}
