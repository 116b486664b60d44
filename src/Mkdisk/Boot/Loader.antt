-- ===== src/Mkdisk/Boot/Loader.antt =====
-- bios_loader_main on a disk that tools/mkdisk.c has built.
use gemiboot.Base.{
  ◌∙◌, ap, sym, true, success, Option, ℕ, zero, suc, ◌+◌, ◌≡◌, ◌≤◌, ◌<◌, refl, arith, Mem, byte,
  ◌==◌, if◌then◌else◌, some, chars, line, ia32,
}
use gemiboot.Elf.{elf32_load}
use gemiboot.Fat.Volume.{DiskReadFn}
use gemiboot.Fat.Disk.{Serves}
use gemiboot.Fat.Read.{Progress, fat_read_file}
use gemiboot.Bios.Multiboot.{prepare_info}
use gemiboot.Bios.Boot.{
  Ports, Boot, End, kernel_load_temp_addr, say, say_dec, load_and_start, read_and_start, search,
  find_and_start, load_from_disk, serial_ready, bios_loader_main,
}
use gemiboot.Bios.Boot.Ends.{load_and_start_outcome, at_port-ready}
use gemiboot.Mkdisk.Table.{image_disk}
use gemiboot.Mkdisk.Layout.Boots.{mkdisk_volume}
use gemiboot.Mkdisk.Files.Steps.{clusters_of}
use gemiboot.Mkdisk.Make.{HostFile, make_image}
use gemiboot.Mkdisk.Make.Kernel.{clusters_needed, make_image-HasKernel}
use gemiboot.Mkdisk.Boot.Files.{disk_sectors}
use gemiboot.Mkdisk.Boot.Find.{fat_find_file-kernel}
use gemiboot.Mkdisk.Boot.Records.{image-mounts}
use gemiboot.Mkdisk.Boot.Kernel.{HasFile-fat_read_file}

module _ {S : Type 0} (ports : Ports S) (read_fn : DiskReadFn S)
    (mbr vbr io_sys ia32_file x64_file kernel : HostFile)
    (fits : 3 + clusters_needed io_sys ia32_file x64_file kernel ≤ 130044) (pos : 0 < kernel.size)
    (serves : Serves read_fn
      (image_disk (make_image mbr vbr io_sys ia32_file x64_file kernel))
      disk_sectors) where
  -- The kernel is in memory.
  abbrev pub HoldsKernel : Mem → Type 0
  HoldsKernel m =
      (k : ℕ) → k < kernel.size → byte m (kernel_load_temp_addr + k) ≡ byte kernel.contents k

  -- The kernel's bytes are read from the image to 0x200000, and what follows is load_and_start on the
  -- memory with them.
  abbrev pub Loads : ℕ → ℕ → Mem → Option (End S) → Type 0
  Loads fuel name m run =
      (st : S) × (p : Progress S) × (b' : Boot S) × (fat_read_file (suc kernel.size) mkdisk_volume
          read_fn (3 + clusters_of io_sys.size) kernel.size kernel_load_temp_addr m st
        ≡ some (success, p))
      × HoldsKernel p.mem
      × (b'.mem ≡ p.mem)
      × (run ≡ load_and_start ports fuel name kernel.size b')

  read_and_start-Loads :
      (fuel name : ℕ) (b : Boot S)
      → Loads fuel name b.mem (
          read_and_start ports read_fn fuel name mkdisk_volume
            (3 + clusters_of io_sys.size)
            kernel.size
            b)
  unfolding read_and_start say say_dec
  read_and_start-Loads fuel name b =
      let h = make_image-HasKernel mbr vbr io_sys ia32_file x64_file kernel fits in
      let (p, reads, bytes) =
        HasFile-fat_read_file (suc kernel.size) (3 + clusters_of io_sys.size)
          (clusters_of kernel.size) kernel.size kernel_load_temp_addr read_fn
          (make_image mbr vbr io_sys ia32_file x64_file kernel) kernel.contents b.mem b.machine
          serves (omega arith) (omega arith) (ground arith) (ground arith) h.kernel_file pos in
      let number = say_dec kernel.size (say (chars "[GEMIBOOT] Found gemios.elf, size: ") b) in
      let said = say (line " bytes. Loading into memory...") number in
      (
        b.machine,
        p,
        record said { mem = p.mem; machine = p.disk },
        reads,
        bytes,
        refl,
        rw (read_and_start, reads) refl,
      )

  find_and_start-Loads :
      (fuel name : ℕ) (b : Boot S)
      → 1 < fuel
      → Loads fuel name b.mem (find_and_start ports read_fn fuel name mkdisk_volume b)
  unfolding find_and_start search say
  find_and_start-Loads fuel name b enough =
      let h = make_image-HasKernel mbr vbr io_sys ia32_file x64_file kernel fits in
      let found =
        fat_find_file-kernel fuel read_fn _ (make_image mbr vbr io_sys ia32_file x64_file kernel)
          io_sys kernel (λ k. 0) b.machine enough serves h in
      rw (find_and_start, found) (read_and_start-Loads fuel name _)

  main-Loads :
      (fuel name : ℕ) (b : Boot S)
      → 1 < fuel
      → Loads fuel name b.mem (load_from_disk ports read_fn fuel name b)
  unfolding load_from_disk say say_dec
  main-Loads fuel name b enough =
      let h = make_image-HasKernel mbr vbr io_sys ia32_file x64_file kernel fits in
      let img = make_image mbr vbr io_sys ia32_file x64_file kernel in
      let mounts =
        image-mounts read_fn mbr.contents vbr.contents io_sys.contents mbr.size vbr.size io_sys.size
          img serves h.records in
      let (partition, _) = mounts b.machine in
      let (_, mounted) = mounts (read_fn 0 1 b.machine).1 in
      rw (load_from_disk, partition, mounted) (find_and_start-Loads fuel name _ enough)

  -- What bios_loader_main comes to with the memory `m` at its start: the kernel's clusters are read
  -- with success, the memory after that has the kernel's bytes at 0x200000, elf32_load on that memory
  -- returns an entry point and the memory `m'`, and the end is a jump to that entry point with what
  -- prepare_info makes of `m'`, or a halt with `m'` where the entry point is 0.
  abbrev pub Starts : ℕ → Mem → Option (End S) → Type 0
  Starts name m run =
      (st : S) × (p : Progress S) × (entry : ℕ) × (m' : Mem) × (b' : Boot S) × (fat_read_file
          (suc kernel.size) mkdisk_volume read_fn (3 + clusters_of io_sys.size) kernel.size
          kernel_load_temp_addr m st
        ≡ some (success, p))
      × HoldsKernel p.mem
      × (elf32_load ia32 65536 kernel_load_temp_addr kernel.size p.mem ≡ some (entry, m'))
      × (run
          ≡ some
              (if entry == 0 then End.halted b' else End.jumped entry (prepare_info name m').0 b'))
      × (b'.mem ≡ (if entry == 0 then m' else (prepare_info name m').1))

  -- The boot disk that main of mkdisk builds starts its kernel, for six files whose clusters fit on
  -- the disk and a kernel that is not empty, with a callback that reads the sectors of the image, a
  -- clock whose register A never shows an update, a serial port that gets ready for every byte, and
  -- fuel 2 or more.
  pub bios_loader_main-make_image :
      (fuel name : ℕ) (b : Boot S)
      → ((st : S) → (ports.inb 0x71 st).0 < 128)
      → ((n : ℕ) → ports.com1_ready n ≡ true)
      → 1 < fuel
      → Starts name b.mem (bios_loader_main ports read_fn fuel name b)
  unfolding bios_loader_main
  bios_loader_main-make_image zero name b settled com1 enough = absurd (omega arith)
  bios_loader_main-make_image (suc fuel) name b settled com1 enough =
      let (st, p, begun, reads, holds, same, leads) =
        main-Loads (suc fuel) name (serial_ready ports b) enough in
      let (entry, m', b', loaded, ends, kept) =
        load_and_start_outcome ports settled fuel name kernel.size begun in
      let waited =
        at_port-ready ports settled com1 b.out
          (load_from_disk ports read_fn (suc fuel) name (serial_ready ports b)) in
      (
        st,
        p,
        entry,
        m',
        b',
        reads,
        holds,
        ap (λ (m : Mem). elf32_load ia32 65536 kernel_load_temp_addr kernel.size m) (sym same)
            ∙ loaded,
        waited ∙ leads ∙ ends,
        kept,
      )
