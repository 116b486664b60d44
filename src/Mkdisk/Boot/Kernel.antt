-- ===== src/Mkdisk/Boot/Kernel.antt =====
-- The kernel of the image, as the boot loader finds and reads it.
use gemiboot.Base.{
  sym, ◌∙◌, ap, ℕ, zero, suc, ◌+◌, ◌-◌, ◌*◌, ◌≡◌, ◌≤◌, ◌<◌, refl, arith, Mem, byte, leb, true, some,
  Status, success, chars, some_eq, length,
}
use gemiboot.Fat.Volume.{DiskReadFn, ready, fat_init}
use gemiboot.Fat.Disk.{Serves, IsChain}
use gemiboot.Fat.Find.{found, fat_find_file}
use gemiboot.Fat.Read.{Progress, fat_read_file}
use gemiboot.Fat.Read.Contents.{fat_read_file-file_byte}
use gemiboot.Bios.Partition.{find_active_partition_lba}
use gemiboot.Mkdisk.{Image}
use gemiboot.Mkdisk.Table.{image_disk}
use gemiboot.Mkdisk.Frame.{link_of}
use gemiboot.Mkdisk.Layout.Boots.{mkdisk_volume}
use gemiboot.Mkdisk.Files.Chain.{HasFile}
use gemiboot.Mkdisk.Files.Steps.{clusters_of}
use gemiboot.Mkdisk.Make.{HostFile, make_image}
use gemiboot.Mkdisk.Make.Kernel.{clusters_needed, make_image-HasKernel}
use gemiboot.Mkdisk.Boot.Files.{
  disk_sectors, clusters_from, length-clusters_from, links-IsChain, file_byte-clusters_from,
}
use gemiboot.Mkdisk.Boot.Find.{fat_find_file-kernel}
use gemiboot.Mkdisk.Boot.Records.{image-mounts}

-- The clusters of a file of the image are a chain of the volume.
HasFile-IsChain :
    (img : Image) (first n size : ℕ) (data_bytes : Mem)
    → 2 ≤ first
    → first + n ≤ 130044
    → 0 < n
    → HasFile img.g_disk first n data_bytes size
    → IsChain mkdisk_volume (image_disk img) disk_sectors first (clusters_from first n)
HasFile-IsChain img first zero size data_bytes two small pos file = absurd (omega arith)
HasFile-IsChain img first (suc n) size data_bytes two small pos file =
    let at : first + (suc n - 1) ≡ first + n = omega arith in
    links-IsChain n first img two (omega arith) (λ j lt. file.links j (omega arith))
      (ap (link_of img.g_disk) (sym at) ∙ file.last)

module _ {S : Type 0} (fuel first n size dest : ℕ) (read_fn : DiskReadFn S) (img : Image)
    (data_bytes m : Mem) (st : S) (serves : Serves read_fn (image_disk img) disk_sectors)
    (two : 2 ≤ first) (small : first + n ≤ 130044) (room : size ≤ n * 2048) (enough : n < fuel)
    (file : HasFile img.g_disk first n data_bytes size) where
  reads_byte :
      (k : ℕ)
      → k < size
      → (p : Progress S) × (fat_read_file fuel mkdisk_volume read_fn first size dest m st
          ≡ some (success, p))
        × (byte p.mem (dest + k) ≡ byte data_bytes k)
  reads_byte k lt =
      let cs = clusters_from first n in
      let count = length-clusters_from n first in
      let chain = HasFile-IsChain img first n size data_bytes two small (omega arith) file in
      let (r, ends, outcome, same) =
        fat_read_file-file_byte fuel disk_sectors mkdisk_volume read_fn (image_disk img) first size
          dest k cs m st (omega arith) serves chain refl (omega arith) (omega (arith, count)) lt
          (omega (arith, count)) in
      let holds : leb size (length cs * 2048) ≡ true = ground (arith, count) in
      let whole : r.0 ≡ success = outcome ∙ rw holds refl in
      (
        r.1,
        ends ∙ ap (λ (s : Status). some (s, r.1)) whole,
        same ∙ file_byte-clusters_from n first k img two small (omega arith) ∙ file.bytes k lt,
      )

  -- Reading a file of the image gives its bytes.
  pub HasFile-fat_read_file :
      0 < size
      → (p : Progress S) × (fat_read_file fuel mkdisk_volume read_fn first size dest m st
          ≡ some (success, p))
        × ((k : ℕ) → k < size → byte p.mem (dest + k) ≡ byte data_bytes k)
  HasFile-fat_read_file pos =
      let (p, ends, start) = reads_byte 0 pos in
      (
        p,
        ends,
        λ k lt.
            let (q, ends', same) = reads_byte k lt in
            let one : q ≡ p = ap (λ (r : Status × Progress S). r.1) (some_eq (sym ends' ∙ ends)) in
            ap (λ (p : Progress S). byte p.mem (dest + k)) (sym one) ∙ same,
      )

-- For six files whose clusters fit on the disk, a kernel that is not empty, and any callback that
-- reads the sectors of the image that main builds: the BIOS loader finds the partition at sector
-- 2048, fat_init mounts the volume, fat_find_file finds gemios.elf with its size and the cluster
-- behind those of IO.SYS, and fat_read_file returns 0 with the bytes of the kernel in memory.
pub make_image-fat_read_file :
    {S : Type 0} (fuel dest : ℕ) (read_fn : DiskReadFn S)
    (mbr vbr io_sys ia32 x64 kernel : HostFile) (buffer m : Mem) (st : S)
    → 3 + clusters_needed io_sys ia32 x64 kernel ≤ 130044
    → 0 < kernel.size
    → Serves read_fn (image_disk (make_image mbr vbr io_sys ia32 x64 kernel)) disk_sectors
    → kernel.size < fuel
    → (find_active_partition_lba (read_fn 0 1 st).0 ≡ 2048)
      × ((fat_init 2048 (some read_fn) st).0 ≡ ready mkdisk_volume)
      × ((fat_find_file fuel mkdisk_volume read_fn (chars "gemios.elf") buffer st).0
          ≡ found (3 + clusters_of io_sys.size) kernel.size)
      × ((p : Progress S) × (fat_read_file fuel mkdisk_volume read_fn
              (3 + clusters_of io_sys.size)
              kernel.size
              dest
              m
              st
            ≡ some (success, p))
          × ((k : ℕ) → k < kernel.size → byte p.mem (dest + k) ≡ byte kernel.contents k))
make_image-fat_read_file fuel dest read_fn mbr vbr io_sys ia32 x64 kernel buffer m st fits pos
      serves enough =
    let img = make_image mbr vbr io_sys ia32 x64 kernel in
    let h = make_image-HasKernel mbr vbr io_sys ia32 x64 kernel fits in
    let (partition, mounted) =
      image-mounts read_fn mbr.contents vbr.contents io_sys.contents mbr.size vbr.size io_sys.size
        img serves h.records st in
    (
      partition,
      mounted,
      fat_find_file-kernel fuel read_fn _ img io_sys kernel buffer st (omega arith) serves h,
      HasFile-fat_read_file fuel (3 + clusters_of io_sys.size) (clusters_of kernel.size) kernel.size
          dest read_fn img kernel.contents m st serves (omega arith) (omega arith) (ground arith)
          (ground arith) h.kernel_file pos,
    )
