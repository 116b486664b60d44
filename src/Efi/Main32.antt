-- ===== src/Efi/Main32.antt =====
-- efi_main of src/efi32/efi32.c, step by step.
pub mod Exit
use gemiboot.Base.{
  ℕ, zero, suc, ◌*◌, Bool, true, false, not, ◌||◌, ◌&&◌, Option, none, some, List, [], ◌∷◌, ◌++◌,
  ◌==◌, if◌then◌else◌, chars, line, Mem, blit, u32,
}
use gemiboot.Efi.Firmware.{Firmware, MemoryMap}
use gemiboot.Efi.Acpi.{ConfigTables}
use gemiboot.Efi.Ia32.{convert_memory_map, code32}
use gemiboot.Efi.Loader.{
  Loader, mem_of, set_mem, begin_info, say, say_all, say_dec, say_hex, start_graphics, read_kernel,
  load_kernel,
}

-- The end of efi_main: an endless loop after an error message, the processor's divide error, or
-- load_gdt_and_jump with the kernel's entry point.
pub data End (S : Type 0) : Type 0 where
  hung : Loader S → End S
  divide_error : Loader S → End S
  jumped : ℕ → Loader S → End S

abbrev banner_line : List ℕ
banner_line = chars "======================================================="

module _ {S : Type 0} (fw : Firmware S) (g_font_data : Mem) (uefi_mmap_buf image_handle : ℕ) where
  unfoldable pub banner : Loader S → Loader S
  banner l =
      say_all (code32 fw g_font_data)
        ((10 ∷ banner_line ++ 10 ∷ [])
          ∷ line " GEMIBOOT - Multiboot x86 Boot Loader (UEFI 32-bit)"
          ∷ (banner_line ++ 10 ∷ [])
          ∷ line "[GEMIBOOT] Graphics Output Protocol (GOP) initialized."
          ∷ line "[GEMIBOOT] Reading gemios.elf from EFI volume..."
          ∷ [])
        l

  -- The countdown from `s` seconds.
  unfoldable pub countdown : ℕ → Loader S → Loader S
  countdown zero l = l
  countdown (suc s) l =
      let text = say (code32 fw g_font_data) (chars "[GEMIBOOT] Booting in ") l in
      let number = say_dec (code32 fw g_font_data) (suc s) text in
      let waiting = say (code32 fw g_font_data) (line " second(s)...") number in
      countdown s (record waiting { firmware = fw.stall 1000000 waiting.firmware })

  -- The loader after GetMemoryMap has filled the buffer.
  unfoldable pub with_map : MemoryMap → S → Loader S → Loader S
  with_map map st l = record (set_mem (blit (mem_of l) uefi_mmap_buf map.mmap map.mmap_size) l) {
    firmware = st;
  }

  -- The endless loop that leaves boot services, on fuel: `none` means that the fuel ran out.
  unfoldable pub exit_loop : ℕ → ℕ → MemoryMap → Loader S → Option (End S)
  exit_loop zero entry map l = none
  exit_loop (suc fuel) entry map l =
      let (status, map', st) = fw.get_memory_map (record map { mmap_size = 0x4000 }) l.firmware in
      let got = with_map map' st l in
      let (status', st') = fw.exit_boot_services image_handle map'.map_key st in
      elim (convert_memory_map uefi_mmap_buf map'.mmap_size map'.desc_size got.mbi (mem_of got)) [
        | none ↦
            let more = exit_loop fuel entry map' (record l { firmware = st }) in
            if status == 0 then some (divide_error got) else more
        | some (mbi, m) ↦
            let left : Loader S = record (set_mem m got) { mbi = mbi; firmware = st' } in
            let next : Loader S = if status == 0 then left else record l { firmware = st } in
            let more = exit_loop fuel entry map' next in
            if status == 0 && status' == 0 then some (jumped entry left) else more
      ]

  -- From the entry point on.
  unfoldable pub start_kernel : ℕ → ℕ → Loader S → Option (End S)
  start_kernel fuel entry l =
      let text = say (code32 fw g_font_data) (chars "[GEMIBOOT] Kernel entry point: ") l in
      let number =
        say (code32 fw g_font_data) (line "") (say_hex (code32 fw g_font_data) entry text) in
      let pausing =
        say (code32 fw g_font_data)
          (line "[GEMIBOOT] Pausing for 5 seconds before booting kernel...") number in
      let leaving =
        say (code32 fw g_font_data)
          (line "[GEMIBOOT] Exiting UEFI Boot Services and jumping to GEMIOS...")
          (countdown 5 pausing) in
      let no_map : MemoryMap = record {
        mmap = λ k. 0;
        mmap_size = 0x4000;
        map_key = 0;
        desc_size = 0;
      } in
      exit_loop fuel entry no_map leaving

  -- From the kernel's size on.
  unfoldable pub load_and_start : ℕ → ℕ → Loader S → Option (End S)
  load_and_start fuel kernel_size l =
      let text = say (code32 fw g_font_data) (chars "[GEMIBOOT] Read gemios.elf: ") l in
      let number = say_dec (code32 fw g_font_data) (u32 kernel_size) text in
      let loading = say (code32 fw g_font_data) (line " bytes. Loading ELF segments...") number in
      elim (load_kernel (code32 fw g_font_data) kernel_size loading) [
        | none ↦ none
        | some (entry, loaded) ↦
            let failed =
              say (code32 fw g_font_data)
                (line "[GEMIBOOT] ERROR: Failed to parse and load ELF32 kernel!") loaded in
            let started = start_kernel fuel entry loaded in
            if entry == 0 then some (hung failed) else started
      ]

  -- `none` means that the fuel ran out: for the modes of the screen, a directory, or the loop that
  -- leaves boot services.
  unfoldable pub efi_main : ℕ → Option ConfigTables → Loader S → Option (End S)
  efi_main fuel tables l =
      let code = code32 fw g_font_data in
      let begun = begin_info code (chars "gemiboot 1.0 (UEFI 32-bit)") tables l in
      elim (start_graphics code fuel begun) [
        | none ↦ none
        | some drawn ↦ elim (read_kernel code fuel image_handle (banner drawn)) [
          | none ↦ none
          | some (ok, kernel_size, read) ↦
              let failed =
                say code (line "[GEMIBOOT] ERROR: Failed to find or read gemios.elf!") read in
              let started = load_and_start fuel kernel_size read in
              if not ok || kernel_size == 0 then some (hung failed) else started
        ]
      ]
