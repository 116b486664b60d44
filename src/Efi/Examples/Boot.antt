-- ===== src/Efi/Examples/Boot.antt =====
-- The loaders at the small firmware: the search for the kernel, the memory map and the jump.
use gemiboot.Base.{
  suc, x64, line, chars, put8, blit, ap, ◌==◌, ℕ, ◌+◌, ◌-◌, ◌*◌, ◌/◌, ◌≡◌, ◌<◌, ◌≤◌, ◌⊎◌, inr, refl,
  arith, min, Bool, true, false, Option, none, some, [], ltb, if◌then◌else◌, Mem, byte, u32, ia32,
}
use gemiboot.Multiboot.{MultibootInfo, no_info}
use gemiboot.Efi.Firmware.{Firmware, MemoryMap}
use gemiboot.Efi.Files.{
  Files, Call, Found, read_kernel_file, try_boot_device, try_file_system, try_open_file_on_fs,
  with_root, try_paths, open_file, read_contents, close_file,
}
use gemiboot.Efi.Files.Closed.{IsTidy, read_kernel_file-IsTidy}
use gemiboot.Efi.Files.Ends.{IsFinite, read_kernel_file-some}
use gemiboot.Efi.MemoryMap.{convert_memory_map, descriptor_at}
use gemiboot.Efi.MemoryMap.Entries.{IsEntry}
use gemiboot.Efi.MemoryMap.Convert.{ram_bytes, convert_memory_map-IsEntry}
use gemiboot.Efi.Loader.{Loader}
use gemiboot.Efi.Loader
use gemiboot.Efi.Gop
use gemiboot.Efi.Files
use gemiboot.Efi.Print
use gemiboot.Efi.Acpi
use gemiboot.Efi.MemoryMap
use gemiboot.Elf
use gemiboot.Serial.{digit_loop}
use gemiboot.Str.{memcpy, memset}
use gemiboot.Efi.Main32
use gemiboot.Efi.Main32.Exit
use gemiboot.Efi.Pci.{Ports}
use gemiboot.Efi.Main64
use gemiboot.Efi.Main64.{Symbols}
use gemiboot.Efi.Main64.Steps
use gemiboot.Efi.Examples.{screen, font, firmware}

abbrev files : Files ℕ
files = record { mem = λ x. 0; log = []; firmware = 0 }

abbrev files_of : Option (Bool × Option ℕ × Files ℕ) → Files ℕ
files_of none = files
files_of (some (ok, size, f)) = f

abbrev found : Files ℕ
found = files_of (read_kernel_file firmware ia32 1 7 0x200000 0x400000 files)

search_succeeds :
    read_kernel_file firmware ia32 1 7 0x200000 0x400000 files ≡ some (true, some 88, found)
unfolding read_kernel_file try_boot_device try_file_system try_open_file_on_fs with_root try_paths
    open_file read_contents close_file
search_succeeds = refl

read_kernel_file-IsTidy_example : IsTidy [] found.log
read_kernel_file-IsTidy_example =
    read_kernel_file-IsTidy firmware ia32 1 7 0x200000 0x400000 files found true (some 88)
      search_succeeds

-- Two descriptors of 48 bytes at 0x500000.
abbrev descriptors : Mem
descriptors x = if x == 0x500000 then 7 else (if x == 0x500019 then 1 else 0)

convert_memory_map-IsEntry_example :
    let n = min (96 / 48) 120 in
    (r : MultibootInfo × Mem) × (convert_memory_map 0x500000 96 48 no_info descriptors ≡ some r)
    × (r.0.mmap_addr ≡ 0x8004)
    × (r.0.mmap_length ≡ n * 24)
    × (r.0.mem_upper
        ≡ u32 (
            if ltb 1048576 (ram_bytes n 0x500000 48 descriptors)
            then (ram_bytes n 0x500000 48 descriptors - 1048576) / 1024
            else 130048))
    × ((k : ℕ) → k < n → IsEntry r.1 k (descriptor_at descriptors (0x500000 + k * 48)))
    × ((x : ℕ) → (x < 0x8000) ⊎ (0x8b44 ≤ x) → byte r.1 x ≡ byte descriptors x)
convert_memory_map-IsEntry_example =
    convert_memory_map-IsEntry 0x500000 96 48 no_info descriptors (omega arith) (inr (omega arith))

abbrev loader : Loader ℕ
loader = record {
  console = record { screen = record screen { g_fb_base = 0 }; has_con_out = false; sent = [] };
  mbi = no_info;
  log = [];
  firmware = 0;
}

-- The entry point that is jumped to, or 0.
abbrev entry_of : Option (Main32.End ℕ) → ℕ
entry_of none = 0
entry_of (some (Main32.End.hung l)) = 0
entry_of (some (Main32.End.divide_error l)) = 0
entry_of (some (Main32.End.jumped entry l)) = entry

entry_of-jumped :
    (o : Option (Main32.End ℕ)) (entry : ℕ)
    → 0 < entry
    → entry_of o ≡ entry
    → (l : Loader ℕ) × (o ≡ some (Main32.End.jumped entry l))
entry_of-jumped none entry some_entry h = absurd (omega arith)
entry_of-jumped (some (Main32.End.hung l)) entry some_entry h = absurd (omega arith)
entry_of-jumped (some (Main32.End.divide_error l)) entry some_entry h = absurd (omega arith)
entry_of-jumped (some (Main32.End.jumped at l)) entry some_entry h =
    (l, ap (λ a. some (Main32.End.jumped a l)) h)

boots : entry_of (Main32.efi_main firmware font 0x500000 7 3 none loader) ≡ 0x100000
unfolding Main32.efi_main Main32.load_and_start Main32.start_kernel Main32.exit_loop Main32.banner
    Main32.countdown Main32.with_map Loader.start_graphics Loader.read_kernel Loader.load_kernel
    Loader.say Loader.say_dec Loader.begin_info Loader.say_all Loader.say_hex Gop.init_gop
    Gop.describe_screen Gop.look_at Gop.map_screen Gop.mode_after Gop.record_mode Gop.scan_modes
    Gop.use_mode Files.read_kernel_file Files.try_boot_device Files.try_file_system
    Files.try_open_file_on_fs Files.with_root Files.try_paths Files.open_file Files.read_contents
    Files.close_file Elf.elf32_load Elf.elf32_validate Elf.ehdr_at Elf.load_loop Elf.load_segment
    Elf.copy_file_bytes Elf.clear_bss Elf.phdr_at Print.uefi_puts Acpi.find_acpi_rsdp
    MemoryMap.convert_memory_map MemoryMap.convert_loop MemoryMap.finish_map Print.uefi_put_dec
    Print.uefi_put_hex Print.draw_loop line chars Print.draw_if_mapped Print.dec_text
    Print.string_at Print.reverse_loop digit_loop put8 blit memcpy memset
boots = refl

abbrev booted :
    (l : Loader ℕ) × (Main32.efi_main firmware font 0x500000 7 3 none loader
      ≡ some (Main32.End.jumped 0x100000 l))
booted =
    entry_of-jumped (Main32.efi_main firmware font 0x500000 7 3 none loader) 0x100000 (omega arith)
      boots

efi_main-HasLeft_example :
    Main32.Exit.HasLoaded firmware font 0x500000 7 3 none loader 0x100000
    × Main32.Exit.HasLeft firmware font 0x500000 7 booted.0
efi_main-HasLeft_example =
    Main32.Exit.efi_main-HasLeft firmware font 0x500000 7 3 0x100000 none loader booted.0 booted.1

abbrev ports : Ports ℕ
ports = record { pci_outl = λ port v st. st; pci_inl = λ port st. (0, st) }

abbrev symbols : Symbols
symbols = record {
  trampoline_32_start = 0x700000;
  tramp_size = 64;
  gdt_table = 0x700100;
  gdt_size = 24;
  uefi_mmap_buf = 0x500000;
}

abbrev no_map : MemoryMap
no_map = record { mmap = λ k. 0; mmap_size = 0x10000; map_key = 0; desc_size = 0 }

abbrev retried : Main64.Exit ℕ
retried = Main64.exit_loop firmware ports font symbols 7 10 no_map loader

retries_succeed : retried.exited ≡ true
unfolding Main64.exit_loop
retries_succeed = refl

-- EFI_INVALID_PARAMETER each time.
abbrev refusing : Firmware ℕ
refusing = record firmware { get_memory_map = λ map st. (2, record map { desc_size = 48 }, st) }

-- No memory service changes the state of this firmware, which is the number of times that
-- ExitBootServices was called.
abbrev staying : Firmware ℕ
staying = record refusing {
  exit_boot_services = λ h key st. (0, suc st);
  allocate_address = λ address pages st. (0, address, st);
  allocate_max_address = λ address pages st. (0, address, st);
}

-- Directories of three entries that are not the kernel; no path opens.
abbrev listing : Firmware ℕ
listing = record firmware {
  open_file = λ root path st. (14, 0, st);
  read_file = λ file size st. (0, (if ltb st 3 then 88 else 0), (λ k. 0), st + 1);
}

listing-IsFinite : IsFinite listing (λ st. 3 - st) 4
listing-IsFinite = record {
  read_one = λ root st h. ground arith;
  open_keeps = λ root path st. omega arith;
  few = λ st. omega arith;
}

read_kernel_file-some_example :
    (r : Bool × Option ℕ × Files ℕ) × (read_kernel_file listing x64 4 7 0x200000 0x400000 files
      ≡ some r)
read_kernel_file-some_example =
    read_kernel_file-some listing (λ st. 3 - st) 4 listing-IsFinite x64 7 0x200000 0x400000 files
