-- ===== src/Efi/Loader.antt =====
-- The parts of efi_main that the two loaders share, src/efi64/efi64.c and src/efi32/efi32.c: the
-- multiboot structure, the graphics, reading the kernel and loading its segments.
use Prim.Native.Nat.{bit_or}
use gemiboot.Base.{
  ℕ, ◌+◌, ◌*◌, Bool, Option, none, some, List, [], ◌∷◌, length, get_or, ◌==◌, if◌then◌else◌, Mem,
  blit, u32, Arch,
}
use gemiboot.Elf.{elf32_load}
use gemiboot.Multiboot.{MultibootInfo, no_info}
use gemiboot.Efi.Screen.{Screen}
use gemiboot.Efi.Print.{Console}
use gemiboot.Efi.Gop.{Graphics}
use gemiboot.Efi.Files.{Call, Files}
use gemiboot.Efi.Acpi.{ConfigTables}

-- The functions that each of the two files has a copy of.
pub record Code (S : Type 0) : Type 0 where
  pub arch : Arch
  pub uefi_puts : List ℕ → Console → Console
  pub uefi_put_dec : ℕ → Mem → Console → Console
  pub uefi_put_hex : ℕ → Mem → Console → Console
  pub find_acpi_rsdp : Option ConfigTables → Mem → ℕ
  pub init_gop : ℕ → Screen → MultibootInfo → S → Option (Graphics S)
  pub read_kernel_file : ℕ → ℕ → ℕ → ℕ → Files S → Option (Bool × Option ℕ × Files S)

-- The console, whose screen has the memory, the multiboot structure, the log of opened files and the
-- firmware.
pub record Loader (S : Type 0) : Type 0 where
  pub console : Console
  pub mbi : MultibootInfo
  pub log : List Call
  pub firmware : S

module _ {S : Type 0} where
  abbrev pub mem_of : Loader S → Mem
  mem_of l = l.console.screen.mem

  abbrev pub set_mem : Mem → Loader S → Loader S
  set_mem m l =
      let screen : Screen = record l.console.screen { mem = m } in
      let console : Console = record l.console { screen = screen } in record l { console = console }

  -- The structure at its start: the boot device and the loader's name, a string at 0x95100, and
  -- the ACPI tables where they are found.
  unfoldable pub begin_info : Code S → List ℕ → Option ConfigTables → Loader S → Loader S
  begin_info code name tables l =
      let m = blit (mem_of l) 0x95100 (λ k. get_or name k 0) (length name + 1) in
      let rsdp = code.find_acpi_rsdp tables m in
      let named : MultibootInfo = record no_info {
        boot_device = 0x8000ffff;
        boot_loader_name = 0x95100;
        flags = bit_or (bit_or 0 2) 512;
      } in
      let mbi : MultibootInfo =
        if rsdp == 0
        then named
        else record named { config_table = u32 rsdp; flags = bit_or named.flags 1024 } in
      record (set_mem m l) { mbi = mbi }

  module _ (code : Code S) where
    unfoldable pub say : List ℕ → Loader S → Loader S
    say text l = record l { console = code.uefi_puts text l.console }

    unfoldable pub say_all : List (List ℕ) → Loader S → Loader S
    say_all [] l = l
    say_all (text ∷ texts) l = say_all texts (say text l)

    -- The arrays for digits hold unknown bytes; they are taken to be 0.
    unfoldable pub say_dec : ℕ → Loader S → Loader S
    say_dec val l = record l { console = code.uefi_put_dec val (λ k. 0) l.console }

    unfoldable pub say_hex : ℕ → Loader S → Loader S
    say_hex val l = record l { console = code.uefi_put_hex val (λ k. 0) l.console }

    -- The graphics; `none` means that the fuel ran out.
    unfoldable pub start_graphics : ℕ → Loader S → Option (Loader S)
    start_graphics fuel l = elim (code.init_gop fuel l.console.screen l.mbi l.firmware) [
      | none ↦ none
      | some g ↦ some (record l {
        console = record l.console { screen = g.screen };
        mbi = g.mbi;
        firmware = g.firmware;
      })
    ]

    -- The kernel's file in memory at 0x200000, up to 4 MB: whether it was read, and its size.
    unfoldable pub read_kernel : ℕ → ℕ → Loader S → Option (Bool × ℕ × Loader S)
    read_kernel fuel image_handle l =
        let files : Files S = record { mem = mem_of l; log = l.log; firmware = l.firmware } in
        elim (code.read_kernel_file fuel image_handle 0x200000 (4 * 1024 * 1024) files) [
          | none ↦ none
          | some (ok, size, f) ↦
              let kernel_size : ℕ = elim size [ none ↦ 0 | some n ↦ n ] in
              let after : Loader S = record (set_mem f.mem l) {
                log = f.log;
                firmware = f.firmware;
              } in
              some (ok, kernel_size, after)
        ]

    -- The segments, with the fuel that a program header table needs; 0 is the failure.
    unfoldable pub load_kernel : ℕ → Loader S → Option (ℕ × Loader S)
    load_kernel size l = elim (elf32_load code.arch 65536 0x200000 size (mem_of l)) [
      | none ↦ none
      | some (entry, m) ↦ some (entry, set_mem m l)
    ]
