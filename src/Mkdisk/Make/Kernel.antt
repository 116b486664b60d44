-- ===== src/Mkdisk/Make/Kernel.antt =====
-- The kernel in the image that main of tools/mkdisk.c builds.
use gemiboot.Mkdisk.Files.Root.{
  HasEntry-Kept, InUse-HasEntry, HasEntry, name_byte, write_file_data-HasAdded,
}
use gemiboot.Base.{◌∙◌, ℕ, ◌+◌, ◌*◌, ◌≡◌, ◌≤◌, ◌<◌, refl, arith, put8, chars}
use gemiboot.Mkdisk.{Image, format_83, format_steps, format_step}
use mathlib.Core.Path.{subst}
use gemiboot.Str.{memset}
use gemiboot.Mkdisk.Frame.{data_at, HasLayout, Kept, link_of, link_of-Kept}
use gemiboot.Mkdisk.Layout.{layout_image}
use gemiboot.Mkdisk.Entries.{InUse}
use gemiboot.Mkdisk.Entries.Add.{InUse-Kept}
use gemiboot.Mkdisk.Files.{create_directory, write_file_data}
use gemiboot.Mkdisk.Files.Chain.{HasFile}
use gemiboot.Mkdisk.Files.Steps.{clusters_of, HasFile-Kept}
use gemiboot.Mkdisk.Files.Above.{
  write_file_data-Keeps_above, create_directory-Keeps_above, create_directory-Keeps_root,
}
use gemiboot.Mkdisk.Make.Fresh.{IsFresh, layout_image-IsFresh}
use gemiboot.Mkdisk.Make.{HostFile, populate, make_image}

-- What the finished image has: the boot records and the root directory of the image before the first
-- file, IO.SYS, and the kernel behind it; no cluster behind the volume's end is taken.
pub record HasKernel (start : Image) (io_sys kernel : HostFile) (img : Image) : Type 0 where
  pub layout : HasLayout img
  pub inside : img.g_next_free_clus ≤ 130044
  pub records : Kept 3 0 start.g_disk img.g_disk
  pub root_end : link_of img.g_disk 2 ≡ 0x0fffffff
  pub io_sys_entry : HasEntry img.g_disk data_at (chars "IO.SYS") 3 io_sys.size
  pub io_sys_file : HasFile img.g_disk 3 (clusters_of io_sys.size) io_sys.contents io_sys.size
  pub kernel_entry :
      HasEntry img.g_disk
        (data_at + 32)
        (chars "GEMIOS.ELF")
        (3 + clusters_of io_sys.size)
        kernel.size
  pub kernel_file :
      HasFile img.g_disk
        (3 + clusters_of io_sys.size)
        (clusters_of kernel.size)
        kernel.contents
        kernel.size

-- The clusters of all files and directories.
abbrev pub clusters_needed : HostFile → HostFile → HostFile → HostFile → ℕ
clusters_needed io_sys ia32 x64 kernel =
    clusters_of io_sys.size
    + clusters_of kernel.size
    + 2
    + clusters_of ia32.size
    + clusters_of x64.size

-- The directories and the EFI loaders come behind what is below cluster `f`, and inside the volume.
efi_files-Keeps :
    (f : ℕ) (ia32 x64 : HostFile) (img : Image)
    → HasLayout img
    → 3 ≤ f
    → f ≤ img.g_next_free_clus
    → img.g_next_free_clus + 2 + clusters_of ia32.size + clusters_of x64.size ≤ 130044
    → InUse img.g_disk data_at 2
    → let (efi_clus, img3) = create_directory 2 (chars "EFI") img in
      let (boot_clus, img4) = create_directory efi_clus (chars "BOOT") img3 in
      let img5 =
        (write_file_data boot_clus (chars "BOOTIA32.EFI") ia32.contents ia32.size img4).1 in
      let img6 = (write_file_data boot_clus (chars "BOOTX64.EFI") x64.contents x64.size img5).1 in
      Kept f 2 img.g_disk img6.g_disk × HasLayout img6 × (img6.g_next_free_clus ≤ 130044)
efi_files-Keeps f ia32 x64 img l three above fits used =
    let made = create_directory 2 (chars "EFI") img in
    let (efi, k3) =
      create_directory-Keeps_root f 2 (chars "EFI") img l three (omega arith) above (omega arith)
        used in
    let made' = create_directory made.0 (chars "BOOT") made.1 in
    let (boot, k4) =
      create_directory-Keeps_above made.0 f (chars "BOOT") made.1 k3.layout three
        (omega (arith, efi)) (omega (arith, efi)) (omega (arith, k3.next_free))
        (omega (arith, k3.next_free)) in
    let img5 = (write_file_data made'.0 (chars "BOOTIA32.EFI") ia32.contents ia32.size made'.1).1 in
    let below : made'.0 < 130044 = omega (arith, boot, k3.next_free) in
    let k5 =
      write_file_data-Keeps_above made'.0 f ia32.size (chars "BOOTIA32.EFI") ia32.contents made'.1
        k4.layout three (omega (arith, boot, k3.next_free)) below
        (omega (arith, k3.next_free, k4.next_free)) (omega (arith, k3.next_free, k4.next_free)) in
    let k6 =
      write_file_data-Keeps_above made'.0 f x64.size (chars "BOOTX64.EFI") x64.contents img5
        k5.layout three (omega (arith, boot, k3.next_free)) below
        (omega (arith, k3.next_free, k4.next_free, k5.next_free))
        (omega (arith, k3.next_free, k4.next_free, k5.next_free)) in
    (
      λ x below.
          k6.kept x (omega arith)
          ∙ k5.kept x (omega arith)
          ∙ k4.kept x (omega arith)
          ∙ k3.kept x below,
      k6.layout,
      omega (arith, k3.next_free, k4.next_free, k5.next_free, k6.next_free),
    )

-- The first characters of the two names.
pub first_characters :
    (name_byte (chars "IO.SYS") 0 ≡ b'I') × (name_byte (chars "GEMIOS.ELF") 0 ≡ b'G')
unfolding format_83 format_steps format_step memset put8 chars
first_characters = (refl, refl)

populate-HasKernel :
    (io_sys ia32 x64 kernel : HostFile) (img : Image)
    → IsFresh img
    → 3 + clusters_needed io_sys ia32 x64 kernel ≤ 130044
    → HasKernel img io_sys kernel (populate io_sys ia32 x64 kernel img)
unfolding populate
populate-HasKernel io_sys ia32 x64 kernel img fresh fits =
    let a = clusters_of io_sys.size in
    let b = clusters_of kernel.size in
    let next = fresh.next_free in
    let img1 = (write_file_data 2 (chars "IO.SYS") io_sys.contents io_sys.size img).1 in
    let h1 =
      write_file_data-HasAdded 0 io_sys.size (chars "IO.SYS") io_sys.contents img fresh.layout
        (omega (arith, next)) (omega (arith, next)) (omega arith) (λ j lt. absurd (omega arith))
        fresh.first_free in
    let next1 : img1.g_next_free_clus ≡ 3 + a = omega (arith, h1.keeps.next_free, next) in
    let used1 =
      InUse-HasEntry 0 _ _ (chars "IO.SYS") img1.g_disk (omega (arith, first_characters.0))
        (omega (arith, first_characters.0)) (λ j lt. absurd (omega arith)) h1.entry in
    let img2 = (write_file_data 2 (chars "GEMIOS.ELF") kernel.contents kernel.size img1).1 in
    let h2 =
      write_file_data-HasAdded 1 kernel.size (chars "GEMIOS.ELF") kernel.contents img1
        h1.keeps.layout (omega (arith, next1)) (omega (arith, next1)) (omega arith) used1
        (h1.rest (data_at + 1 * 32) (omega arith) (omega arith) ∙ fresh.second_free) in
    let next2 : img2.g_next_free_clus ≡ 3 + a + b = omega (arith, h2.keeps.next_free, next1) in
    let used1' =
      InUse-Kept img1.g_next_free_clus 1 img1.g_disk img2.g_disk (omega arith) h2.keeps.kept
        used1 in
    let used2 =
      InUse-HasEntry 1 _ _ (chars "GEMIOS.ELF") img2.g_disk (omega (arith, first_characters.1))
        (omega (arith, first_characters.1)) used1' h2.entry in
    let (last, last_layout, inside) =
      efi_files-Keeps (3 + a + b) ia32 x64 img2 h2.keeps.layout (omega arith) (omega (arith, next2))
        (omega (arith, next2)) used2 in
    let k2 = h2.keeps.kept in
    let io_clusters : (0 < a) × (io_sys.size ≤ a * 2048) = (ground arith, ground arith) in
    let kernel_clusters : (0 < b) × (kernel.size ≤ b * 2048) = (ground arith, ground arith) in
    record {
      layout = last_layout;
      inside = inside;
      records = λ x below.
          last x (omega arith)
          ∙ k2 x (omega (arith, next1))
          ∙ h1.keeps.kept x (omega (arith, next));
      root_end =
          link_of-Kept (3 + a + b) 2 2 img2.g_disk _ last (omega arith)
          ∙ link_of-Kept img1.g_next_free_clus 1 2 img1.g_disk img2.g_disk k2 (omega (arith, next1))
          ∙ link_of-Kept img.g_next_free_clus 0 2 img.g_disk img1.g_disk h1.keeps.kept
              (omega (arith, next))
          ∙ fresh.root_end;
      io_sys_entry =
          HasEntry-Kept (3 + a + b) 2 0 3 io_sys.size (chars "IO.SYS") img2.g_disk _ (omega arith)
            (omega arith) last
            (HasEntry-Kept img1.g_next_free_clus 1 0 3 io_sys.size (chars "IO.SYS") img1.g_disk
              img2.g_disk (omega arith) (omega arith) k2
              (subst (λ (c : ℕ). HasEntry img1.g_disk data_at (chars "IO.SYS") c io_sys.size) next
                h1.entry));
      io_sys_file =
          HasFile-Kept img2.g_disk _ io_sys.contents 3 a (3 + a + b) 2 io_sys.size (omega arith)
            io_clusters.0 (omega arith) io_clusters.1 last
            (HasFile-Kept img1.g_disk img2.g_disk io_sys.contents 3 a img1.g_next_free_clus 1
              io_sys.size (omega arith) io_clusters.0 (omega (arith, next1)) io_clusters.1 k2
              (subst (λ (c : ℕ). HasFile img1.g_disk c a io_sys.contents io_sys.size) next
                h1.file));
      kernel_entry =
          HasEntry-Kept (3 + a + b) 2 1 (3 + a) kernel.size (chars "GEMIOS.ELF") img2.g_disk _
            (omega arith) (omega arith) last
            (subst
              (λ (c : ℕ). HasEntry img2.g_disk (data_at + 32) (chars "GEMIOS.ELF") c kernel.size)
              next1 h2.entry);
      kernel_file =
          HasFile-Kept img2.g_disk _ kernel.contents (3 + a) b (3 + a + b) 2 kernel.size
            (omega arith) kernel_clusters.0 (omega arith) kernel_clusters.1 last
            (subst (λ (c : ℕ). HasFile img2.g_disk c b kernel.contents kernel.size) next1 h2.file);
    }

pub make_image-HasKernel :
    (mbr vbr io_sys ia32 x64 kernel : HostFile)
    → 3 + clusters_needed io_sys ia32 x64 kernel ≤ 130044
    → HasKernel
        (layout_image mbr.contents mbr.size vbr.contents vbr.size io_sys.contents io_sys.size)
        io_sys
        kernel
        (make_image mbr vbr io_sys ia32 x64 kernel)
unfolding make_image
make_image-HasKernel mbr vbr io_sys ia32 x64 kernel fits =
    let small : io_sys.size < 0x80000000 = ground (arith, fits) in
    populate-HasKernel io_sys ia32 x64 kernel _
      (layout_image-IsFresh mbr.contents vbr.contents io_sys.contents mbr.size vbr.size io_sys.size
        small)
      fits
