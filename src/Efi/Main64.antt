-- ===== src/Efi/Main64.antt =====
-- efi_main of src/efi64/efi64.c, step by step.
pub mod Steps
use gemiboot.Base.{
  ◌++◌, ◌&&◌, ℕ, zero, suc, ◌+◌, ◌*◌, ◌/◌, ◌%◌, Bool, true, false, not, ◌||◌, Option, none, some,
  List, [], ◌∷◌, ◌==◌, if◌then◌else◌, chars, line, Mem, blit, u32, u64, Arch, x64,
}
use gemiboot.Str.{memcpy}
use gemiboot.Multiboot.{MultibootInfo}
use gemiboot.Efi.Screen.{Screen}
use gemiboot.Efi.Print.{Console, uefi_puts, uefi_put_dec, uefi_put_hex}
use gemiboot.Efi.Gop.{init_gop}
use gemiboot.Efi.Files.{read_kernel_file}
use gemiboot.Efi.Firmware.{Firmware, MemoryMap}
use gemiboot.Efi.Acpi.{ConfigTables, find_acpi_rsdp}
use gemiboot.Efi.MemoryMap.{convert_memory_map}
use gemiboot.Efi.Pci.{Ports, pci_remap_above_4g_bars}
use gemiboot.Efi.Loader.{
  Loader, Code, mem_of, set_mem, begin_info, say, say_all, say_dec, say_hex, start_graphics,
  read_kernel, load_kernel,
}

-- The end of efi_main: an endless loop after an error message, the processor's divide error, or the
-- jump to the kernel with its entry point and the trampoline's address.
pub data End (S : Type 0) : Type 0 where
  hung : Loader S → End S
  divide_error : Loader S → End S
  jumped : ℕ → ℕ → Loader S → End S

-- The addresses that the linker gives to the trampoline, the GDT and the buffer for the memory map.
pub record Symbols : Type 0 where
  pub trampoline_32_start : ℕ
  pub tramp_size : ℕ
  pub gdt_table : ℕ
  pub gdt_size : ℕ
  pub uefi_mmap_buf : ℕ

-- What the retries leave: the map's variables, and whether boot services were left.
pub record Exit (S : Type 0) : Type 0 where
  pub exited : Bool
  pub map : MemoryMap
  pub loader : Loader S

-- The functions of efi64.c that efi32.c has too.
abbrev pub code64 : {S : Type 0} → Firmware S → Mem → Code S
code64 fw g_font_data = record {
  arch = x64;
  uefi_puts = uefi_puts x64 g_font_data;
  uefi_put_dec = uefi_put_dec x64 g_font_data;
  uefi_put_hex = uefi_put_hex x64 g_font_data;
  find_acpi_rsdp = find_acpi_rsdp x64;
  init_gop = init_gop x64 fw;
  read_kernel_file = read_kernel_file fw x64;
}

abbrev pub banner_line : List ℕ
banner_line = chars "======================================================="

module _ {S : Type 0} (fw : Firmware S) (ports : Ports S) (g_font_data : Mem) (sym : Symbols)
    (image_handle : ℕ) where
  unfoldable pub banner : Loader S → Loader S
  banner l =
      say_all (code64 fw g_font_data)
        ((10 ∷ banner_line ++ 10 ∷ [])
          ∷ line " GEMIBOOT - Multiboot x86 Boot Loader (UEFI 64-bit)"
          ∷ (banner_line ++ 10 ∷ [])
          ∷ line "[GEMIBOOT] Graphics Output Protocol (GOP) initialized."
          ∷ line "[GEMIBOOT] Reading gemios.elf from EFI volume..."
          ∷ [])
        l

  -- The pages at 0x100000 for the kernel; the status is not looked at.
  unfoldable pub reserve_kernel : Loader S → Loader S
  reserve_kernel l =
      let (_, _, st) = fw.allocate_address 768 0x100000 l.firmware in record l { firmware = st }

  -- The code that switches to 32 bits, in two pages below 4 GB: at 0x20000, or where there is room.
  -- The result is g_tramp_phys.
  unfoldable pub place_trampoline : Loader S → ℕ × Loader S
  place_trampoline l =
      let (status, at, st) = fw.allocate_address 2 0x20000 l.firmware in
      let (status', at', st') = fw.allocate_max_address 2 0xffffffff st in
      let ok = status == 0 || status' == 0 in
      let tramp_phys = if status == 0 then at else at' in
      let after : Loader S = record l { firmware = if status == 0 then st else st' } in
      let m1 = memcpy tramp_phys sym.trampoline_32_start sym.tramp_size (mem_of after) in
      let m2 = memcpy (u64 (tramp_phys + 0x800)) sym.gdt_table sym.gdt_size m1 in
      if ok then (tramp_phys, set_mem m2 after) else (0x20000, after)

  -- The ten tries to leave boot services. GetMemoryMap writes the buffer where it succeeds.
  unfoldable pub exit_loop : ℕ → MemoryMap → Loader S → Exit S
  exit_loop zero map l = record { exited = false; map = map; loader = l }
  exit_loop (suc left) map l =
      let (status, map', st) = fw.get_memory_map (record map { mmap_size = 0x10000 }) l.firmware in
      let got : Loader S =
        record (set_mem (blit (mem_of l) sym.uefi_mmap_buf map'.mmap map'.mmap_size) l) {
          firmware = st;
        } in
      let (status', st') = fw.exit_boot_services image_handle map'.map_key st in
      let left_services : Loader S = record got { firmware = st' } in
      let missed : Loader S = record l { firmware = st } in
      let next = if status == 0 then left_services else missed in
      let more = exit_loop left map' next in
      if status == 0 && status' == 0
      then record { exited = true; map = map'; loader = next }
      else more

  -- The framebuffer, where its BAR was moved.
  unfoldable pub remap_screen : Loader S → Loader S
  remap_screen l =
      let fb = l.console.screen.g_fb_base in
      let (new_fb, st) = pci_remap_above_4g_bars ports fb l.firmware in
      let screen : Screen = record l.console.screen { g_fb_base = new_fb } in
      let console : Console = record l.console { screen = screen } in
      let mbi : MultibootInfo = record l.mbi {
        framebuffer_addr_low = new_fb % 4294967296;
        framebuffer_addr_hi = u32 (new_fb / 4294967296);
      } in
      if new_fb == fb
      then record l { firmware = st }
      else record l { console = console; mbi = mbi; firmware = st }

  -- What follows the retries, whether they succeeded or not.
  unfoldable pub finish_boot : ℕ → ℕ → Exit S → End S
  finish_boot entry tramp_phys e =
      let l = e.loader in
      elim (convert_memory_map sym.uefi_mmap_buf e.map.mmap_size e.map.desc_size l.mbi (mem_of l)) [
        | none ↦ divide_error l
        | some (mbi, m) ↦
            jumped entry tramp_phys (remap_screen (record (set_mem m l) { mbi = mbi }))
      ]

  -- From the entry point on.
  unfoldable pub start_kernel : ℕ → Loader S → End S
  start_kernel entry l =
      let text = say (code64 fw g_font_data) (chars "[GEMIBOOT] Kernel entry point: ") l in
      let number =
        say (code64 fw g_font_data) (line "") (say_hex (code64 fw g_font_data) entry text) in
      let (tramp_phys, placed) = place_trampoline number in
      let leaving =
        say (code64 fw g_font_data)
          (line "[GEMIBOOT] Exiting UEFI Boot Services and jumping to GEMIOS...") placed in
      let no_map : MemoryMap = record {
        mmap = λ k. 0;
        mmap_size = 0x10000;
        map_key = 0;
        desc_size = 0;
      } in
      finish_boot entry tramp_phys (exit_loop 10 no_map leaving)

  -- From the kernel's size on.
  unfoldable pub load_and_start : ℕ → Loader S → Option (End S)
  load_and_start kernel_size l =
      let text = say (code64 fw g_font_data) (chars "[GEMIBOOT] Read gemios.elf: ") l in
      let number = say_dec (code64 fw g_font_data) (u32 kernel_size) text in
      let loading = say (code64 fw g_font_data) (line " bytes. Loading ELF segments...") number in
      elim (load_kernel (code64 fw g_font_data) kernel_size (reserve_kernel loading)) [
        | none ↦ none
        | some (entry, loaded) ↦
            let failed =
              say (code64 fw g_font_data)
                (line "[GEMIBOOT] ERROR: Failed to parse and load ELF32 kernel!") loaded in
            some (if entry == 0 then hung failed else start_kernel entry loaded)
      ]

  -- `none` means that the fuel ran out: for the modes of the screen or a directory.
  unfoldable pub efi_main : ℕ → Option ConfigTables → Loader S → Option (End S)
  efi_main fuel tables l =
      let begun =
        begin_info (code64 fw g_font_data) (chars "gemiboot 1.0 (UEFI 64-bit)") tables l in
      elim (start_graphics (code64 fw g_font_data) fuel begun) [
        | none ↦ none
        | some drawn ↦ elim (read_kernel (code64 fw g_font_data) fuel image_handle (banner drawn)) [
          | none ↦ none
          | some (ok, kernel_size, read) ↦
              let failed =
                say (code64 fw g_font_data)
                  (line "[GEMIBOOT] ERROR: Failed to find or read gemios.elf!") read in
              if not ok || kernel_size == 0
              then some (hung failed)
              else load_and_start kernel_size read
        ]
      ]
