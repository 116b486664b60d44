-- ===== src/Mkdisk/Main/Succeeds.antt =====
-- main of tools/mkdisk.c on a host that has the six files and room for the image.
use gemiboot.Base.{
  ◌-◌, ◌*◌, ◌<◌, not, ◌||◌, leb, arith, ◌+◌, ◌≤◌, ℕ, ◌≡◌, refl, Mem, true, List, ◌∷◌, some,
}
use gemiboot.Mkdisk.{sec_per_clus}
use gemiboot.Mkdisk.Layout.{io_sys_fits}
use gemiboot.Mkdisk.Make.{HostFile}
use gemiboot.Mkdisk.Host.{Host, read_host_file}
use gemiboot.Mkdisk.Make.Kernel.{clusters_needed, make_image-HasKernel}
use gemiboot.Mkdisk.Main.{
  exits, lies_inside, image_of, total_sectors, Inputs, Paths, all_read, read_inputs, main,
}
use gemiboot.Mkdisk.Main.Built.{HasBuilt, main_zero}
use gemiboot.Mkdisk.Main.Files.{Provides, IsCopy, read_host_file-IsCopy}

-- The contents of the six files.
pub record Contents : Type 0 where
  pub mbr_file : HostFile
  pub vbr_file : HostFile
  pub io_sys_file : HostFile
  pub ia32_file : HostFile
  pub x64_file : HostFile
  pub kernel_file : HostFile

pub record ProvidesAll {H : Type 0} (host : Host H) (p : Paths) (c : Contents) : Type 0 where
  pub mbr : Provides host p.mbr_path c.mbr_file
  pub vbr : Provides host p.vbr_path c.vbr_file
  pub io_sys : Provides host p.io_sys_path c.io_sys_file
  pub ia32 : Provides host p.ia32_path c.ia32_file
  pub x64 : Provides host p.x64_path c.x64_file
  pub kernel : Provides host p.kernel_path c.kernel_file

pub record AreCopies (c : Contents) (i : Inputs) : Type 0 where
  pub mbr : IsCopy c.mbr_file i.mbr.file
  pub vbr : IsCopy c.vbr_file i.vbr.file
  pub io_sys : IsCopy c.io_sys_file i.io_sys.file
  pub ia32 : IsCopy c.ia32_file i.ia32.file
  pub x64 : IsCopy c.x64_file i.x64.file
  pub kernel : IsCopy c.kernel_file i.kernel.file

-- The host has memory for the disk, opens the output file, and writes all that it is given.
pub record Accepts {H : Type 0} (host : Host H) (out_path : List ℕ) : Type 0 where
  pub handle : ℕ
  pub has_disk : (h : H) → (a : ℕ) × ((host.calloc total_sectors 512 h).0 ≡ some a)
  pub opens : (h : H) → (host.fopen out_path true h).0 ≡ some handle
  pub writes : (m : Mem) (h : H) → (host.fwrite handle m 512 total_sectors h).0 ≡ total_sectors

module _ {H : Type 0} (host : Host H) where
  read_inputs-AreCopies :
      (p : Paths) (c : Contents) (h : H)
      → ProvidesAll host p c
      → (i : Inputs) × ((read_inputs host p h).0 ≡ some i) × AreCopies c i
  unfolding read_inputs all_read
  read_inputs-AreCopies p c h a =
      let h1 = (read_host_file host p.mbr_path h).1 in
      let h2 = (read_host_file host p.vbr_path h1).1 in
      let h3 = (read_host_file host p.io_sys_path h2).1 in
      let h4 = (read_host_file host p.ia32_path h3).1 in
      let h5 = (read_host_file host p.x64_path h4).1 in
      let (mbr, r1, mbr_copy) = read_host_file-IsCopy host p.mbr_path c.mbr_file h a.mbr in
      let (vbr, r2, vbr_copy) = read_host_file-IsCopy host p.vbr_path c.vbr_file h1 a.vbr in
      let (io_sys, r3, io_sys_copy) =
        read_host_file-IsCopy host p.io_sys_path c.io_sys_file h2 a.io_sys in
      let (ia32, r4, ia32_copy) = read_host_file-IsCopy host p.ia32_path c.ia32_file h3 a.ia32 in
      let (x64, r5, x64_copy) = read_host_file-IsCopy host p.x64_path c.x64_file h4 a.x64 in
      let (kernel, r6, kernel_copy) =
        read_host_file-IsCopy host p.kernel_path c.kernel_file h5 a.kernel in
      rw (r1, r2, r3, r4, r5, r6)
        (
          _,
          refl,
          record {
            mbr = mbr_copy;
            vbr = vbr_copy;
            io_sys = io_sys_copy;
            ia32 = ia32_copy;
            x64 = x64_copy;
            kernel = kernel_copy;
          },
        )

  -- Files whose clusters fit end inside the block of the disk.
  fits-lies_inside :
      (c : Contents) (i : Inputs)
      → 3 + clusters_needed c.io_sys_file c.ia32_file c.x64_file c.kernel_file ≤ 130044
      → AreCopies c i
      → lies_inside i.io_sys.file.size (image_of i) ≡ true
  fits-lies_inside c i fits copies =
      let needed : 3 + clusters_needed i.io_sys.file i.ia32.file i.x64.file i.kernel.file ≤ 130044 =
        rw
          (
            copies.io_sys.same_size, copies.ia32.same_size, copies.x64.same_size,
            copies.kernel.same_size,
          )
          fits in
      let made =
        make_image-HasKernel i.mbr.file i.vbr.file i.io_sys.file i.ia32.file i.x64.file
          i.kernel.file needed in
      let small : i.io_sys.file.size < 0x80000000 = ground (arith, needed) in
      let copied : (not (io_sys_fits i.io_sys.file.size)
            || leb (1049600 + i.io_sys.file.size) 268435456)
          ≡ true =
        ground (arith, small) in
      let clusters : leb
            ((image_of i).g_data_start + ((image_of i).g_next_free_clus - 2) * sec_per_clus)
            total_sectors
          ≡ true =
        ground (arith, made.inside, made.layout.data_start) in
      rw (clusters, copied) refl

  HasBuilt-Accepts :
      (out : List ℕ) (p : Paths) (c : Contents) (h : H)
      → ProvidesAll host p c
      → Accepts host out
      → 3 + clusters_needed c.io_sys_file c.ia32_file c.x64_file c.kernel_file ≤ 130044
      → (b : HasBuilt host out p h) × AreCopies c b.inputs
  HasBuilt-Accepts out p c h a o fits =
      let (disk, allocated) = o.has_disk h in
      let (i, loaded, copies) = read_inputs-AreCopies p c (host.calloc total_sectors 512 h).1 a in
      (
        record {
          disk = disk;
          inputs = i;
          out_file = o.handle;
          allocated = allocated;
          loaded = loaded;
          inside = fits-lies_inside c i fits copies;
          opened = o.opens _;
          written = o.writes _ _;
        },
        copies,
      )

  pub main-AreCopies :
      (name out_path : List ℕ) (p : Paths) (rest : List (List ℕ)) (c : Contents) (h : H)
      → ProvidesAll host p c
      → Accepts host out_path
      → 3 + clusters_needed c.io_sys_file c.ia32_file c.x64_file c.kernel_file ≤ 130044
      → (h' : H) × (main host
            (name ∷ out_path ∷ p.mbr_path ∷ p.vbr_path ∷ p.io_sys_path ∷ p.ia32_path ∷ p.x64_path
              ∷ p.kernel_path ∷ rest)
            h
          ≡ exits 0 h')
        × (b : HasBuilt host out_path p h) × AreCopies c b.inputs
  main-AreCopies name out_path p rest c h a o fits =
      let built = HasBuilt-Accepts out_path p c h a o fits in
      let (h', ends) = main_zero host name out_path p rest h built.0 in (h', ends, built.0, built.1)
