-- ===== src/Efi/Ia32.antt =====
-- The functions of src/efi32/efi32.c that have the text of the ones of src/efi64/efi64.c, with the
-- pointers and the sizes of 32 bits.
use gemiboot.Base.{ℕ, Bool, Option, List, Mem, ia32}
use gemiboot.Multiboot.{MultibootInfo}
use gemiboot.Efi.Screen
use gemiboot.Efi.Screen.{Screen}
use gemiboot.Efi.Print
use gemiboot.Efi.Print.{Console}
use gemiboot.Efi.MemoryMap
use gemiboot.Efi.Firmware.{Firmware}
use gemiboot.Efi.Gop
use gemiboot.Efi.Gop.{Graphics}
use gemiboot.Efi.Files
use gemiboot.Efi.Files.{Files, Found}
use gemiboot.Efi.Acpi
use gemiboot.Efi.Acpi.{ConfigTables}
use gemiboot.Efi.Loader.{Code}

abbrev pub gop_clear_screen : Screen → Screen
gop_clear_screen = Screen.gop_clear_screen

abbrev pub gop_scroll : Screen → Screen
gop_scroll = Screen.gop_scroll ia32

abbrev pub gop_draw_char : Mem → ℕ → Screen → Screen
gop_draw_char = Screen.gop_draw_char ia32

abbrev pub uefi_puts : Mem → List ℕ → Console → Console
uefi_puts = Print.uefi_puts ia32

abbrev pub uefi_put_dec : Mem → ℕ → Mem → Console → Console
uefi_put_dec = Print.uefi_put_dec ia32

abbrev pub uefi_put_hex : Mem → ℕ → Mem → Console → Console
uefi_put_hex = Print.uefi_put_hex ia32

abbrev pub utf16_case_equals : ℕ → Mem → List ℕ → Bool
utf16_case_equals = Files.utf16_case_equals

abbrev pub convert_memory_map : ℕ → ℕ → ℕ → MultibootInfo → Mem → Option (MultibootInfo × Mem)
convert_memory_map = MemoryMap.convert_memory_map

abbrev pub find_acpi_rsdp : Option ConfigTables → Mem → ℕ
find_acpi_rsdp = Acpi.find_acpi_rsdp ia32

module _ {S : Type 0} (fw : Firmware S) where
  abbrev pub init_gop : ℕ → Screen → MultibootInfo → S → Option (Graphics S)
  init_gop = Gop.init_gop ia32 fw

  abbrev pub try_open_file_on_fs : ℕ → ℕ → ℕ → ℕ → Files S → Option (Found S)
  try_open_file_on_fs = Files.try_open_file_on_fs fw ia32

  abbrev pub read_kernel_file : ℕ → ℕ → ℕ → ℕ → Files S → Option (Bool × Option ℕ × Files S)
  read_kernel_file = Files.read_kernel_file fw ia32

  abbrev pub code32 : Mem → Code S
  code32 g_font_data = record {
    arch = ia32;
    uefi_puts = uefi_puts g_font_data;
    uefi_put_dec = uefi_put_dec g_font_data;
    uefi_put_hex = uefi_put_hex g_font_data;
    find_acpi_rsdp = find_acpi_rsdp;
    init_gop = init_gop;
    read_kernel_file = read_kernel_file;
  }
