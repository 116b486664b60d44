-- ===== src/Mkdisk/Main/Boots.antt =====
-- The disk that main of tools/mkdisk.c has written, and the BIOS loader on it.
use gemiboot.Base.{
  suc, true, success, sym, ◌∙◌, ap, ℕ, ◌+◌, ◌≡◌, ◌≤◌, ◌<◌, arith, Mem, byte, ◌==◌, if◌then◌else◌,
  List, some, ia32,
}
use gemiboot.Elf.{elf32_load}
use gemiboot.Fat.Volume.{DiskReadFn}
use gemiboot.Fat.Disk.{Serves}
use gemiboot.Fat.Read.{Progress, fat_read_file}
use gemiboot.Bios.Multiboot.{prepare_info}
use gemiboot.Mkdisk.Layout.Boots.{mkdisk_volume}
use gemiboot.Mkdisk.Files.Steps.{clusters_of}
use gemiboot.Bios.Boot.{Ports, Boot, End, kernel_load_temp_addr, bios_loader_main}
use gemiboot.Mkdisk.Table.{image_disk}
use gemiboot.Mkdisk.Make.Kernel.{clusters_needed}
use gemiboot.Mkdisk.Boot.Files.{disk_sectors}
use gemiboot.Mkdisk.Boot.Loader.{bios_loader_main-make_image}
use gemiboot.Mkdisk.Host.{Host}
use gemiboot.Mkdisk.Main.{Paths, image_of}
use gemiboot.Mkdisk.Main.Built.{HasBuilt}
use gemiboot.Mkdisk.Main.Succeeds.{Contents, AreCopies}

-- Where main of mkdisk has built a disk from copies of six files whose clusters fit on it, and the
-- BIOS reads the sectors of what main gave to fwrite, bios_loader_main reads the kernel's clusters
-- into its memory, which then has the bytes of the host's kernel file at 0x200000; elf32_load on that
-- memory returns an entry point and a memory; and bios_loader_main ends in a jump to that entry
-- point, with the structure and the memory that prepare_info makes of what elf32_load left, or in a
-- halt with what elf32_load left where the entry point is 0. The kernel is not empty, the clock's
-- register A never shows an update, the serial port gets ready for every byte, and the fuel is 2 or
-- more.
pub HasBuilt-bios_loader_main :
    {H S : Type 0} (host : Host H) (out_path : List ℕ) (p : Paths) (h : H) (c : Contents)
    (built : HasBuilt host out_path p h) (ports : Ports S) (read_fn : DiskReadFn S) (fuel name : ℕ)
    (b : Boot S)
    → AreCopies c built.inputs
    → 3 + clusters_needed c.io_sys_file c.ia32_file c.x64_file c.kernel_file ≤ 130044
    → 0 < c.kernel_file.size
    → Serves read_fn (image_disk (image_of built.inputs)) disk_sectors
    → ((st : S) → (ports.inb 0x71 st).0 < 128)
    → ((n : ℕ) → ports.com1_ready n ≡ true)
    → 1 < fuel
    → let size = c.kernel_file.size in
      (st : S) × (progress : Progress S) × (entry : ℕ) × (m : Mem) × (b' : Boot S) × (fat_read_file
          (suc size)
          mkdisk_volume
          read_fn
          (3 + clusters_of c.io_sys_file.size)
          size
          kernel_load_temp_addr
          b.mem
          st
        ≡ some (success, progress))
      × ((k : ℕ)
          → k < size
          → byte progress.mem (kernel_load_temp_addr + k) ≡ byte c.kernel_file.contents k)
      × (elf32_load ia32 65536 kernel_load_temp_addr size progress.mem ≡ some (entry, m))
      × (bios_loader_main ports read_fn fuel name b
          ≡ some
              (if entry == 0 then End.halted b' else End.jumped entry (prepare_info name m).0 b'))
      × (b'.mem ≡ (if entry == 0 then m else (prepare_info name m).1))
HasBuilt-bios_loader_main host out_path p h c built ports read_fn fuel name b copies fits pos serves
      settled com1 enough =
    let i = built.inputs in
    let same = copies.kernel.same_size in
    let same_io = copies.io_sys.same_size in
    let needed : 3 + clusters_needed i.io_sys.file i.ia32.file i.x64.file i.kernel.file ≤ 130044 =
      rw (same_io, copies.ia32.same_size, copies.x64.same_size, same) fits in
    let (st, progress, entry, m, b', reads, holds, loaded, ends, kept) =
      bios_loader_main-make_image ports read_fn i.mbr.file i.vbr.file i.io_sys.file i.ia32.file
        i.x64.file i.kernel.file needed (omega (arith, same)) serves fuel name b settled com1
        enough in
    (
      st,
      progress,
      entry,
      m,
      b',
      ap
            (λ (n : ℕ).
              fat_read_file (suc n) mkdisk_volume read_fn (3 + clusters_of c.io_sys_file.size) n
                kernel_load_temp_addr b.mem st)
            (sym same)
          ∙ ap
              (λ (n : ℕ).
                fat_read_file (suc i.kernel.file.size) mkdisk_volume read_fn (3 + clusters_of n)
                  i.kernel.file.size kernel_load_temp_addr b.mem st)
              (sym same_io)
          ∙ reads,
      λ k lt. holds k (omega (arith, same)) ∙ copies.kernel.same_bytes k lt,
      ap (λ (n : ℕ). elf32_load ia32 65536 kernel_load_temp_addr n progress.mem) (sym same)
          ∙ loaded,
      ends,
      kept,
    )
