-- ===== src/Efi/Examples.antt =====
-- A small firmware and screen, and the theorems about the loaders at them.
mod Boot
use gemiboot.Base.{
  ◌↔◌, ℕ, zero, suc, ◌+◌, ◌-◌, ◌*◌, ◌≡◌, ◌<◌, ◌≤◌, ◌≢◌, ◌⊎◌, inl, inr, refl, arith, Bool, true,
  false, Option, none, some, List, [], ◌∷◌, ◌++◌, replicate, get_or, length, leb, ltb, ◌%◌, u8,
  if◌then◌else◌, chars, Mem, byte, ia32, x64, ◌^◌,
}
use gemiboot.Samples.{image_bytes}
use gemiboot.Multiboot.{MultibootInfo, no_info}
use gemiboot.Serial.{Output, serial_put_dec}
use Prim.Native.Nat.{bit_or}
use gemiboot.Efi.Pci.{Ports, Remap, pci_read32, pci_write32, move_bar}
use gemiboot.Efi.Pci.Windows.{probe, IsWindow, move_bar-IsWindow}
use gemiboot.Efi.Screen.{Screen, gop_draw_char}
use gemiboot.Efi.Screen.Bounds.{IsFrame, IsOnScreen, Draws}
use gemiboot.Efi.Screen.Draw.{gop_draw_char-Draws}
use gemiboot.Efi.Print.{Console, uefi_puts, draw_loop, dec_text}
use gemiboot.Efi.Print.Text.{with_returns, uefi_puts-text}
use gemiboot.Efi.Print.Decimal.{dec_text-serial_put_dec}
use gemiboot.Efi.Firmware.{Firmware, ModeInfo, GopMode, MemoryMap}
use gemiboot.Efi.Files.{Files, read_kernel_file, utf16_case_equals}
use gemiboot.Efi.Files.Closed.{IsTidy, read_kernel_file-IsTidy}
use gemiboot.Efi.Files.Names.{IsName, utf16_case_equals_iff}
use gemiboot.Efi.Acpi.{ConfigTables, find_acpi_rsdp}
use gemiboot.Efi.Acpi.First.{IsRsdp, find_acpi_rsdp-IsRsdp}
use gemiboot.Efi.Gop.{no_mode, Modes, scan_modes, mode_after}
use gemiboot.Efi.Gop.Choice.{Answers, IsPreferred, scan_modes-IsPreferred}

-- One line of one character.
abbrev pub screen : Screen
screen = record {
  mem = λ x. 0;
  g_fb_base = 0xe0000000;
  g_fb_width = 8;
  g_fb_height = 16;
  g_fb_pitch = 32;
  g_cursor_x = 0;
  g_cursor_y = 0;
  g_fg_color = 0xffffff;
  g_bg_color = 0;
}

abbrev pub console : Console
console = record { screen = screen; has_con_out = true; sent = [] }

abbrev pub font : Mem
font i = 0x3c

frame : IsFrame ia32 screen
frame = record {
  base = omega arith;
  rows = omega arith;
  column = omega arith;
  line = omega arith;
  small = omega arith;
  addressable = omega arith;
}

at_top : IsOnScreen screen
at_top = record { row = omega arith; column = omega arith }

gop_draw_char-Draws_example : Draws screen (gop_draw_char ia32 font b'A' screen)
gop_draw_char-Draws_example = gop_draw_char-Draws ia32 font b'A' screen frame at_top

uefi_puts-text_example :
    (done rest : List ℕ) × (chars "ok" ≡ done ++ rest)
    × ((uefi_puts ia32 font (chars "ok") console).sent ≡ [] ++ with_returns done ∷ [])
    × (length (with_returns done) + 1 ≤ 256)
    × ((rest ≡ []) ⊎ (254 ≤ length (with_returns done)))
    × ((uefi_puts ia32 font (chars "ok") console).screen ≡ draw_loop ia32 font (chars "ok") screen)
    × Draws screen (uefi_puts ia32 font (chars "ok") console).screen
uefi_puts-text_example = uefi_puts-text ia32 font (chars "ok") console refl frame at_top

dec_text-serial_put_dec_example : serial_put_dec 4096 (λ k. 0) [] ≡ [] ++ dec_text 4096 (λ k. 7)
dec_text-serial_put_dec_example = dec_text-serial_put_dec 4096 (λ k. 7) (λ k. 0) [] (omega arith)

-- A firmware with one file system, whose root holds the kernel under its first path, and with one
-- usable mode; its state counts the calls of the memory services.
abbrev pixels : ModeInfo
pixels = record {
  horizontal_resolution = 800;
  vertical_resolution = 600;
  pixel_format = 1;
  pixels_per_scan_line = 800;
}

abbrev pub firmware : Firmware ℕ
firmware = record {
  locate_gop = λ st. (1, false, st);
  gop_mode = λ st. record { max_mode = 1; mode = 0; info = none; frame_buffer_base = 0 };
  query_mode = λ k st. (0, some pixels, st);
  set_mode = λ k st. st;
  loaded_image = λ h st. (0, 3, st);
  handle_file_system = λ h st. (0, 4, st);
  locate_file_system = λ st. (0, 4, st);
  locate_handles = λ st. (0, 3 ∷ [], st);
  free_pool = λ st. st;
  open_volume = λ fs st. (0, 5, st);
  open_file = λ root path st. (0, 6, st);
  read_file = λ file size st. (0, 88, (λ k. get_or image_bytes k 0), st);
  set_position = λ h k st. st;
  close_file = λ h st. st;
  allocate_address = λ n at st. (0, at, st);
  allocate_max_address = λ n at st. (0, at, st);
  get_memory_map =
      λ map st. (0, record map { mmap_size = 48; map_key = st; desc_size = 48 }, st + 1);
  exit_boot_services = λ h key st. (0, st);
  stall = λ us st. st;
}

abbrev answers : Answers
answers k = (0, some pixels)

scan_modes-IsPreferred_example :
    (found : Modes ℕ) × (scan_modes firmware 2 0 no_mode 0 ≡ some found)
    × IsPreferred answers 1 0 (mode_after firmware found)
scan_modes-IsPreferred_example =
    scan_modes-IsPreferred firmware answers (λ k st. refl) (λ k st. refl) (λ k st. refl) 2 0
      (omega arith) (omega arith)

utf16_case_equals_iff_example :
    (utf16_case_equals 0 (λ k. get_or (chars "Gemios.elf") k 0) (chars "gemios.elf") ≡ true)
    ↔ IsName 0 (λ k. get_or (chars "Gemios.elf") k 0) (chars "gemios.elf")
utf16_case_equals_iff_example =
    utf16_case_equals_iff 0 (λ k. get_or (chars "Gemios.elf") k 0) (chars "gemios.elf")

abbrev tables : ConfigTables
tables = record { number_of_table_entries = 1; configuration_table = 0x1000 }

find_acpi_rsdp-IsRsdp_example :
    IsRsdp x64 tables (λ x. 0) (find_acpi_rsdp x64 (some tables) (λ x. 0))
find_acpi_rsdp-IsRsdp_example = find_acpi_rsdp-IsRsdp x64 tables (λ x. 0) (omega arith)

-- Devices that answer every read with 0xfff00000: the BAR has 1 MB.
abbrev pci_ports : Ports ℕ
pci_ports = record { pci_outl = λ port v st. st + 1; pci_inl = λ port st. (0xfff00000, st) }

abbrev last_window : Remap ℕ
last_window = record { next_32bit_base = 0xe0000000; new_fb_base = 0; devices = 0 }

move_bar-IsWindow_example :
    let r = move_bar pci_ports 0 1 0 0x10 0x4 0x800000000 0x800000000 last_window in
    IsWindow pci_ports 0 1 0 0x10 0xfff00000 r.next_32bit_base 0xe0000000
    × (r.devices
        ≡ pci_write32 pci_ports 0 1 0 4 (bit_or (pci_read32 pci_ports 0 1 0 4 0).0 6) (
            pci_write32 pci_ports 0 1 0 (u8 (0x10 + 4)) 0 (
              pci_write32 pci_ports 0 1 0 0x10
                (bit_or r.next_32bit_base (0x4 % 16))
                (probe pci_ports 0 1 0 0x10 0).1)))
unfolding pci_read32
move_bar-IsWindow_example =
    move_bar-IsWindow pci_ports 0 1 0 0x10 0x4 0x800000000 0x800000000 last_window (omega arith)
      (omega arith)
