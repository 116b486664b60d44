-- ===== src/Lib.antt =====
-- GEMIBOOT is an x86 boot loader for BIOS and UEFI machines, written in C with some assembly code.
-- On a BIOS machine the loader finds the active partition, mounts the FAT volume on it, looks the
-- kernel gemios.elf up in the root directory, reads it to memory, loads its ELF32 segments and jumps
-- to it. tools/mkdisk.c builds the disk image that it boots from.
--
-- Parts and files:
-- - Base: what the parts share. Numbers are natural numbers, with the wrap-around of machine words
--   written out (u8, u16, u32, sub32); memory is a function from addresses to bytes (Mem), with
--   little-endian reads (le16, le32).
-- - Str: memcpy, memset, memmove, memcmp, strlen, strcmp, strncmp and strcpy of
--   src/common/string.c. Str/Copy is about the copies, Str/Search and Str/Strings about the rest.
-- - Serial: serial_puts, serial_put_hex and serial_put_dec of src/common/string.c, as the bytes that
--   go out. Serial/Decimal and Serial/Hex read the printed numbers back. Serial/Port has serial_init,
--   serial_putc with its wait and serial_puts over the port instructions, which are a parameter, and
--   Serial/Port/Sends the bytes that a device sends.
-- - Elf: elf32_validate and elf32_load of src/common/elf.c. The image and the destinations lie in one
--   memory, and headers are read anew where the code reads them anew. Elf/Spec is the layout that an
--   image describes, Elf/Load and Elf/Refine the refinement, Elf/Bounds single bytes and errors. Arch
--   is the width of size_t, 32 or 64 bits.
-- - Fat: src/common/fat.c. Fat/Volume has fat_init (split into geometry, classify and mount),
--   cluster_to_lba and fat_get_next_cluster; Fat/Name has format_83_name; Fat/Find has fat_find_file
--   (scan_entries, scan_sectors and scan_chain are its loops); Fat/Read has fat_read_file (copy_sector,
--   copy_cluster and copy_chain). Fat/Disk says what a volume means: the disk as sectors of bytes,
--   the allocation table as one array, a file as the bytes of its cluster chain. The callback that reads
--   a sector is a parameter with a state of its own; Serves states that it reads a disk right.
-- - Bios: bios_read_sectors of src/bios/bios_disk.c (Bios/Disk), which copies through a buffer in low
--   memory, find_active_partition_lba of src/bios/bios_loader.c (Bios/Partition) and the multiboot
--   structure that bios_loader_main fills (Bios/Multiboot). The call of the firmware,
--   bios_disk_read_raw, is a parameter; ServesRaw states that it reads a disk right. Bios/Boot is
--   bios_loader_main from serial_init to the jump, with its messages and pauses, over the disk reads
--   and the port instructions as parameters; its end is a halt, a divide error or a jump. Messages add
--   their bytes to the output, and the waits of serial_putc for the port are taken together: at_port
--   lets a run come to its end only where the port gets ready for each of those bytes (com1_ready). Its disk reads
--   have the type that the FAT driver takes (DiskReadFn), and are bios_read_sectors in the program:
--   Bios/Disk/Callback makes it a callback.
-- - Samples: an ELF32 image for examples.
-- - Multiboot: struct multiboot_info of src/include/multiboot.h.
-- - Efi: the UEFI loaders, src/efi64/efi64.c and src/efi32/efi32.c. They find the kernel on the
--   firmware's file systems, print to the console and to the framebuffer, hand over the memory map and
--   the ACPI table, leave boot services and jump. Efi/Firmware is the record of the firmware's services
--   (src/include/efi.h) over a state of the firmware: the loaders take it as a parameter. Efi/Screen is
--   the console on the framebuffer (gop_draw_char, gop_scroll), Efi/Print the text (uefi_puts,
--   uefi_put_dec, uefi_put_hex), Efi/Gop the video mode (init_gop), Efi/Files the search for the kernel
--   (read_kernel_file, with a log of opened and closed handles), Efi/MemoryMap the conversion of the
--   memory map, Efi/Acpi find_acpi_rsdp, Efi/Pci the relocation of addresses above 4 GB
--   (Efi/Pci/Windows is about the windows that it gives out). Efi/Loader has
--   the steps of efi_main that both loaders take, over a record of the functions that each file has
--   (Code); Efi/Main64 and Efi/Main32 are the two functions efi_main, whose end is a hang, a divide
--   error or a jump. Efi/Ia32 has the functions of efi32.c that repeat the text of efi64.c, at 32-bit
--   pointers.
-- - Mkdisk: tools/mkdisk.c. Mkdisk has the functions that write names, table entries and directory
--   entries, Mkdisk/Files those that write directories and files, Mkdisk/Layout the part of main that
--   writes the boot records and the start of the table, and Mkdisk/Make the whole image of main.
--   Mkdisk/Host has read_host_file over a record of the C library's functions, which are a parameter, and
--   Mkdisk/Main has main, whose end is an exit
--   status, or writes behind the block of 256 MB where the files do not fit on the disk. Mkdisk/Frame and Mkdisk/Entries say what the functions leave alone and which
--   bytes an entry has; Mkdisk/Files/Chain follows the loop of write_file_data, Mkdisk/Files/Root a file
--   in the root directory, Mkdisk/Make/Kernel all steps of main. Mkdisk/Name, Mkdisk/Table and
--   Mkdisk/Layout/Boots hold the parts of the image against what the boot loader reads, and Mkdisk/Boot
--   the whole of it: from the boot records over the root directory to the kernel's bytes and to
--   bios_loader_main. Mkdisk/Main/Boots joins it with the host's files.
--
-- Loops that the data bounds recur on the rounds left. Other loops take fuel:
-- - load_loop: more than e_phnum rounds are enough, and e_phnum is below 65536.
-- - copy_chain: the file size bounds its rounds, whatever the disk holds.
-- - scan_chain: the length of the root directory's chain bounds its rounds. On a chain that runs in a
--   circle without an end mark the code does not end; the model then runs out of fuel.
-- - read_loop: the count of sectors bounds its rounds; bios_read_sectors passes count + 1.
-- - strlen, strcmp, strcpy: any fuel above the length of the string.
-- - digit_loop: the number itself bounds its rounds.
-- - scan_modes: any fuel above the number of modes, where the firmware keeps that number.
-- - list_root, and so read_kernel_file: one more than the entries that the firmware returns before the
--   end of the root directory (Efi/Files/Ends); the fuel is an argument. On an endless directory the code
--   does not end.
-- - exit_loop of the 32-bit loader: the code repeats until the firmware lets it leave boot services;
--   the fuel is an argument, and a firmware that never does so uses it up.
-- - wait_update, the loop of cmos_get_sec: it ends when the clock's register A shows no update; the fuel
--   is an argument. pause_seconds bounds its other rounds by 2000000 as the code does.
-- - wait_empty, the loop of serial_putc: it ends when the port gets ready; the fuel is an argument. In
--   bios_loader_main a wait that does not end gives no result, as where the fuel runs out.
-- - fat_find_file in bios_loader_main has the fuel of the argument; fat_read_file there has one more
--   than the file's size.
-- - load_kernel passes 65536 to elf32_load, which is enough as above.
--
-- Not modelled: the assembly code of the boot sectors and mode switches, the scripts, the
-- font's data, and in tools/mkdisk.c the text that main prints. Port instructions and the host's C
-- library are parameters. What a failing disk read leaves in the destination buffer of fat_read_file
-- is not modelled. Addresses do not wrap around in the memory functions,
-- so a segment that reaches beyond 4 GB on ia32 is not modelled there; the pointers that elf32_load
-- passes to them do wrap. In the UEFI loaders the bytes of
-- the font are an argument, the multiboot structure and the variables are not in the memory, an Open that
-- fails is taken to leave no handle, and a buffer for digits starts with zeroes.
pub mod Base
pub mod Str
pub mod Serial
pub mod Multiboot
pub mod Samples
pub mod Elf
pub mod Fat
pub mod Bios
pub mod Mkdisk
pub mod Efi
