-- ===== src/Mkdisk/Main.antt =====
-- main of tools/mkdisk.c. The allocated disk is the image's memory, which calloc has filled with
-- zeros. What main prints is left out. The code has no test that the files fit on the disk: where
-- they do not, it writes behind the block, and what follows is not defined.
mod Examples
pub mod Built
pub mod Files
pub mod Succeeds
pub mod Boots
use gemiboot.Base.{
  ◌&&◌, ◌||◌, ◌+◌, ◌-◌, leb, ℕ, ◌*◌, ◌/◌, Bool, true, false, not, Option, none, some, List, [], ◌∷◌,
  ◌==◌, if◌then◌else◌,
}
use gemiboot.Mkdisk.{Image, sec_per_clus}
use gemiboot.Mkdisk.Layout.{partition_start_lba, io_sys_fits}
use gemiboot.Mkdisk.Make.{HostFile, make_image}
use gemiboot.Mkdisk.Host.{Host, Loaded, read_host_file}

abbrev pub total_sectors : ℕ
total_sectors = 256 * 1024 * 1024 / 512

-- The six files in the order in which they are read.
pub record Inputs : Type 0 where
  pub mbr : Loaded
  pub vbr : Loaded
  pub io_sys : Loaded
  pub ia32 : Loaded
  pub x64 : Loaded
  pub kernel : Loaded

-- The paths of the arguments in that order.
pub record Paths : Type 0 where
  pub mbr_path : List ℕ
  pub vbr_path : List ℕ
  pub io_sys_path : List ℕ
  pub ia32_path : List ℕ
  pub x64_path : List ℕ
  pub kernel_path : List ℕ

-- The end of main: an exit status and the host's state, or writes behind the block of the disk.
pub data Outcome (H : Type 0) : Type 0 where
  exits : ℕ → H → Outcome H
  overruns : Outcome H

-- Whether all writes end inside the block of the disk. What is written goes to fixed sectors and to
-- the clusters, which are given out one after the other; only the copy of IO.SYS at a fixed sector
-- has a size that the code does not bound, since its test can wrap around.
abbrev pub lies_inside : ℕ → Image → Bool
lies_inside io_sys_sz img =
    leb (img.g_data_start + (img.g_next_free_clus - 2) * sec_per_clus) total_sectors
    && (not (io_sys_fits io_sys_sz)
        || leb ((partition_start_lba + 2) * 512 + io_sys_sz) (total_sectors * 512))

-- The test that no pointer is null.
unfoldable pub all_read :
    Option Loaded
    → Option Loaded
    → Option Loaded
    → Option Loaded
    → Option Loaded
    → Option Loaded
    → Option Inputs
all_read (some mbr) (some vbr) (some io_sys) (some ia32) (some x64) (some kernel) =
    some (record { mbr = mbr; vbr = vbr; io_sys = io_sys; ia32 = ia32; x64 = x64; kernel = kernel })
all_read mbr vbr io_sys ia32 x64 kernel = none

abbrev pub image_of : Inputs → Image
image_of i = make_image i.mbr.file i.vbr.file i.io_sys.file i.ia32.file i.x64.file i.kernel.file

module _ {H : Type 0} (host : Host H) where
  -- Every file is read, also behind one that is missing.
  unfoldable pub read_inputs : Paths → H → Option Inputs × H
  read_inputs p h =
      let (mbr, h1) = read_host_file host p.mbr_path h in
      let (vbr, h2) = read_host_file host p.vbr_path h1 in
      let (io_sys, h3) = read_host_file host p.io_sys_path h2 in
      let (ia32, h4) = read_host_file host p.ia32_path h3 in
      let (x64, h5) = read_host_file host p.x64_path h4 in
      let (kernel, h6) = read_host_file host p.kernel_path h5 in
      (all_read mbr vbr io_sys ia32 x64 kernel, h6)

  -- The blocks that main frees at its end.
  unfoldable pub free_all : ℕ → Inputs → H → H
  free_all disk i h =
      let h1 = host.free i.vbr.address (host.free i.mbr.address (host.free disk h)) in
      let h2 = host.free i.x64.address (host.free i.ia32.address (host.free i.io_sys.address h1)) in
      host.free i.kernel.address h2

  -- The image's bytes go to the file in one call.
  unfoldable pub write_image : List ℕ → ℕ → Inputs → H → ℕ × H
  write_image out_path disk i h =
      let (out, h1) = host.fopen out_path true h in
      elim out [
        | none ↦ (1, h1)
        | some f ↦
            let (count, h2) = host.fwrite f (image_of i).g_disk 512 total_sectors h1 in
            if not (count == total_sectors)
            then (1, host.fclose f h2)
            else (0, free_all disk i (host.fclose f h2))
      ]

  -- From the arguments on.
  unfoldable pub build : List ℕ → Paths → H → Outcome H
  build out_path p h =
      let (disk, h1) = host.calloc total_sectors 512 h in
      elim disk [
        | none ↦ exits 1 h1
        | some address ↦
            let (inputs, h2) = read_inputs p h1 in
            elim inputs [
              | none ↦ exits 1 h2
              | some i ↦
                  let (status, h3) = write_image out_path address i h2 in
                  if lies_inside i.io_sys.file.size (image_of i) then exits status h3 else overruns
            ]
      ]

  -- `argv` has the program's name first.
  unfoldable pub main : List (List ℕ) → H → Outcome H
  main (name ∷ out ∷ mbr ∷ vbr ∷ io_sys ∷ ia32 ∷ x64 ∷ kernel ∷ rest) h =
      build out
        (record {
          mbr_path = mbr;
          vbr_path = vbr;
          io_sys_path = io_sys;
          ia32_path = ia32;
          x64_path = x64;
          kernel_path = kernel;
        })
        h
  main argv h = exits 1 h
