-- ===== src/Mkdisk/Make.antt =====
-- The image that main of tools/mkdisk.c builds from the six files that it has read.
pub mod Fresh
pub mod Kernel
use gemiboot.Base.{ℕ, Mem, List, chars}
use gemiboot.Mkdisk.{Image, root_clus}
use gemiboot.Mkdisk.Layout.{layout_image}
use gemiboot.Mkdisk.Files.{create_directory, write_file_data}

-- A file of the host in a buffer, with `*out_size`.
pub record HostFile : Type 0 where
  pub contents : Mem
  pub size : ℕ

-- The files and directories; the clusters of the files that write_file_data returns are not used.
unfoldable pub populate : HostFile → HostFile → HostFile → HostFile → Image → Image
populate io_sys ia32 x64 kernel img =
    let img1 = (write_file_data root_clus (chars "IO.SYS") io_sys.contents io_sys.size img).1 in
    let img2 =
      (write_file_data root_clus (chars "GEMIOS.ELF") kernel.contents kernel.size img1).1 in
    let (efi_clus, img3) = create_directory root_clus (chars "EFI") img2 in
    let (boot_clus, img4) = create_directory efi_clus (chars "BOOT") img3 in
    let img5 = (write_file_data boot_clus (chars "BOOTIA32.EFI") ia32.contents ia32.size img4).1 in
    (write_file_data boot_clus (chars "BOOTX64.EFI") x64.contents x64.size img5).1

unfoldable pub make_image : HostFile → HostFile → HostFile → HostFile → HostFile → HostFile → Image
make_image mbr vbr io_sys ia32 x64 kernel =
    populate io_sys ia32 x64 kernel
      (layout_image mbr.contents mbr.size vbr.contents vbr.size io_sys.contents io_sys.size)
