-- ===== src/Bios/Boot.antt =====
-- bios_loader_main of src/bios/bios_loader.c, step by step, with cmos_get_sec and pause_seconds. The
-- disk reads are a parameter: they are bios_read_sectors. The port instructions of src/include/io.h
-- are another one. The functions for messages add their bytes to the output; at_port puts a run under
-- the waits of serial_putc for the serial port.
pub mod Jump
pub mod Ends
use gemiboot.Base.{
  ◌-◌, length, ℕ, zero, suc, ◌+◌, ◌*◌, ◌/◌, ◌%◌, Bool, true, false, not, ◌||◌, ◌&&◌, Option, none,
  some, List, [], ◌∷◌, ◌++◌, ltb, ◌==◌, if◌then◌else◌, chars, line, Mem, ia32, Status, success,
  failure,
}
use gemiboot.Multiboot.{MultibootInfo}
use gemiboot.Serial.Port.{serial_init}
use gemiboot.Serial.{Output, serial_puts, serial_put_dec, serial_put_hex}
use gemiboot.Elf.{elf32_load}
use gemiboot.Fat.Volume.{FatFs, DiskReadFn, Init, fat_init}
use gemiboot.Fat.Find.{Search, fat_find_file}
use gemiboot.Fat.Read.{Progress, fat_read_file}
use gemiboot.Bios.Partition.{find_active_partition_lba}
use gemiboot.Bios.Multiboot.{prepare_info}

-- outb, inb and io_wait, over a state of the machine, and for each number of a byte that is sent to
-- the serial port, whether the status register ever shows the port ready for it: whether serial_putc
-- gets out of its loop.
pub record Ports (S : Type 0) : Type 0 where
  pub com1_ready : ℕ → Bool
  pub outb : ℕ → ℕ → S → S
  pub inb : ℕ → S → ℕ × S
  pub io_wait : S → S

-- The memory, the serial output and the machine.
pub record Boot (S : Type 0) : Type 0 where
  pub mem : Mem
  pub out : Output
  pub machine : S

-- The end of bios_loader_main: a halt after an error message, the processor's divide error, or
-- multiboot_jump with the kernel's entry point.
pub data End (S : Type 0) : Type 0 where
  halted : Boot S → End S
  divide_error : Boot S → End S
  jumped : ℕ → MultibootInfo → Boot S → End S

abbrev pub kernel_load_temp_addr : ℕ
kernel_load_temp_addr = 0x200000

abbrev banner_line : List ℕ
banner_line = chars "======================================================="

module _ {S : Type 0} where
  abbrev pub output_of : End S → Output
  output_of (halted b) = b.out
  output_of (divide_error b) = b.out
  output_of (jumped entry mbi b) = b.out

  unfoldable pub say : List ℕ → Boot S → Boot S
  say text b = record b { out = serial_puts text b.out }

  -- The arrays for digits hold unknown bytes; they are taken to be 0.
  unfoldable pub say_dec : ℕ → Boot S → Boot S
  say_dec val b = record b { out = serial_put_dec val (λ k. 0) b.out }

  unfoldable pub say_hex : ℕ → Boot S → Boot S
  say_hex val b = record b { out = serial_put_hex val b.out }

  module _ (ports : Ports S) where
    -- The waits of serial_putc for `count` bytes from number `first` on.
    unfoldable pub waits_end : ℕ → ℕ → Bool
    waits_end zero first = true
    waits_end (suc count) first = ports.com1_ready first && waits_end count (suc first)

    -- A run that starts with the output `out`, at the port: it goes on to its end where each wait for
    -- the port ends, for the bytes that it has added to the output. What a disk read prints belongs to
    -- the disk read.
    unfoldable pub at_port : Output → Option (End S) → Option (End S)
    at_port out run = elim run [
      | none ↦ none
      | some e ↦ if waits_end (length (output_of e) - length out) (length out) then some e else none
    ]

    -- The loop of cmos_get_sec; `none` means that the fuel ran out.
    unfoldable pub wait_update : ℕ → S → Option S
    wait_update zero st = none
    wait_update (suc fuel) st =
        let (status, st') = ports.inb 0x71 st in
        let rest = wait_update fuel (ports.io_wait st') in
        if status / 128 % 2 == 1 then rest else some st'

    unfoldable pub cmos_get_sec : ℕ → S → Option (ℕ × S)
    cmos_get_sec fuel st = elim (wait_update fuel (ports.outb 0x70 0x0a st)) [
      | none ↦ none
      | some st' ↦ some (ports.inb 0x71 (ports.outb 0x70 0 st'))
    ]

    -- The inner loop of pause_seconds, with `left` rounds left before the timeout.
    unfoldable pub wait_second : ℕ → ℕ → ℕ → S → Option S
    wait_second fuel zero start_sec st = elim (cmos_get_sec fuel st) [
      | none ↦ none
      | some (sec, st') ↦ some st'
    ]
    wait_second fuel (suc left) start_sec st = elim (cmos_get_sec fuel st) [
      | none ↦ none
      | some (sec, st') ↦
          let rest = wait_second fuel left start_sec (ports.io_wait st') in
          if sec == start_sec then rest else some st'
    ]

    -- The outer loop from second `s` down.
    unfoldable pub countdown : ℕ → ℕ → Boot S → Option (Boot S)
    countdown fuel zero b = some b
    countdown fuel (suc s) b = elim (cmos_get_sec fuel b.machine) [
      | none ↦ none
      | some (start_sec, st) ↦
          let text = say (chars "[GEMIBOOT] Booting in ") (record b { machine = st }) in
          let said = say (line " second(s)...") (say_dec (suc s) text) in
          elim (wait_second fuel 2000000 start_sec st) [
            | none ↦ none
            | some st' ↦ countdown fuel s (record said { machine = st' })
          ]
    ]

    unfoldable pub pause_seconds : ℕ → ℕ → Boot S → Option (Boot S)
    pause_seconds fuel seconds b =
        let number = say_dec seconds (say (chars "[GEMIBOOT] Pausing for ") b) in
        countdown fuel seconds (say (line " seconds before booting kernel...") number)

    -- From the entry point on. `name` is the address of the loader's name.
    unfoldable pub start_kernel : ℕ → ℕ → ℕ → Boot S → Option (End S)
    start_kernel fuel name entry_point b =
        let number = say_hex entry_point (say (chars "[GEMIBOOT] Kernel entry point: ") b) in
        let said = say (line "") number in
        let (mbi, m) = prepare_info name said.mem in
        elim (pause_seconds fuel 5 (record said { mem = m })) [
          | none ↦ none
          | some paused ↦
              let last =
                say
                  (line "[GEMIBOOT] Multiboot information prepared. Jumping to GEMIOS kernel..."
                    ++ 10 ∷ [])
                  paused in
              some (jumped entry_point mbi last)
        ]

    -- From the kernel's bytes in memory on.
    unfoldable pub load_and_start : ℕ → ℕ → ℕ → Boot S → Option (End S)
    load_and_start fuel name file_size b =
        let said = say (line "[GEMIBOOT] Parsing ELF32 and loading sections...") b in
        elim (elf32_load ia32 65536 kernel_load_temp_addr file_size said.mem) [
          | none ↦ none
          | some (entry_point, m) ↦
              let loaded : Boot S = record said { mem = m } in
              let failed =
                say (line "[GEMIBOOT] ERROR: Failed to parse and load ELF32 kernel!") loaded in
              let started = start_kernel fuel name entry_point loaded in
              if entry_point == 0 then some (halted failed) else started
        ]

    -- The port instructions of serial_init.
    abbrev pub serial_ready : Boot S → Boot S
    serial_ready b = record b {
      machine = serial_init (record { outb = ports.outb; inb = ports.inb }) b.machine;
    }

    module _ (read_fn : DiskReadFn S) where
      -- The file's bytes; the fuel is above the file's size.
      unfoldable pub read_and_start : ℕ → ℕ → FatFs → ℕ → ℕ → Boot S → Option (End S)
      read_and_start fuel name fs first_clus file_size b =
          let number = say_dec file_size (say (chars "[GEMIBOOT] Found gemios.elf, size: ") b) in
          let said = say (line " bytes. Loading into memory...") number in
          elim (fat_read_file (suc file_size) fs read_fn first_clus file_size kernel_load_temp_addr
            said.mem said.machine) [
              | none ↦ none
              | some (success, p) ↦
                  load_and_start fuel name file_size (record said { mem = p.mem; machine = p.disk })
              | some (failure, p) ↦ some (
                  halted (
                    say (line "[GEMIBOOT] ERROR: Failed to read gemios.elf into memory!")
                      (record said { mem = p.mem; machine = p.disk })))
            ]

      -- The two searches; the second is made where the first fails.
      unfoldable pub search : ℕ → FatFs → S → Search × S
      search fuel fs st =
          let (first, st') = fat_find_file fuel fs read_fn (chars "gemios.elf") (λ k. 0) st in
          let second = fat_find_file fuel fs read_fn (chars "GEMIOS.ELF") (λ k. 0) st' in
          elim first [
            | Search.found clus size ↦ (Search.found clus size, st')
            | Search.absent ↦ second
            | Search.searching ↦ second
            | Search.out_of_fuel ↦ (Search.out_of_fuel, st')
          ]

      -- From the mounted volume on.
      unfoldable pub find_and_start : ℕ → ℕ → FatFs → Boot S → Option (End S)
      find_and_start fuel name fs b =
          let said = say (line "[GEMIBOOT] Searching for gemios.elf...") b in
          let (result, st) = search fuel fs said.machine in
          let searched : Boot S = record said { machine = st } in
          let missing = say (line "[GEMIBOOT] ERROR: gemios.elf not found on disk!") searched in
          elim result [
            | Search.found clus size ↦ read_and_start fuel name fs clus size searched
            | Search.absent ↦ some (halted missing)
            | Search.searching ↦ some (halted missing)
            | Search.out_of_fuel ↦ none
          ]

      -- From the first message on. `none` means that the fuel ran out: for a directory, or for the
      -- clock's update.
      unfoldable pub load_from_disk : ℕ → ℕ → Boot S → Option (End S)
      load_from_disk fuel name b =
          let ruled = say (10 ∷ banner_line ++ 10 ∷ []) b in
          let titled = say (line " GEMIBOOT - Multiboot x86 Boot Loader for GEMIOS (BIOS)") ruled in
          let begun = say (banner_line ++ 10 ∷ []) titled in
          let (sector, st) = read_fn 0 1 begun.machine in
          let part_lba = find_active_partition_lba sector in
          let text =
            say (chars "[GEMIBOOT] Found active partition at LBA: ")
              (record begun { machine = st }) in
          let said = say (line "") (say_dec part_lba text) in
          let (init, st') = fat_init part_lba (some read_fn) said.machine in
          let tried : Boot S = record said { machine = st' } in
          elim init [
            | Init.ready fs ↦ find_and_start fuel name fs tried
            | Init.failed ↦
                some (
                  halted
                    (say (line "[GEMIBOOT] ERROR: Failed to initialize FAT filesystem!") tried))
            | Init.divide_error ↦ some (divide_error tried)
          ]

      -- `none` means that the fuel ran out, or that a wait for the serial port does not end.
      unfoldable pub bios_loader_main : ℕ → ℕ → Boot S → Option (End S)
      bios_loader_main fuel name b = at_port b.out (load_from_disk fuel name (serial_ready b))
