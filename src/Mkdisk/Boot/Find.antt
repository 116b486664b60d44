-- ===== src/Mkdisk/Boot/Find.antt =====
-- The kernel in the root directory of the image that main of tools/mkdisk.c builds.
use gemiboot.Base.{
  sym, ◌∙◌, ap, ℕ, zero, suc, ◌+◌, ◌*◌, ◌≡◌, ◌≢◌, ◌≤◌, ◌<◌, inl, inr, refl, arith, Mem, byte,
  Bool-cases, true, false, List, [], ◌∷◌, length, chars, ℤ, pos, negsuc,
}
use gemiboot.Str.{memcmp}
use gemiboot.Str.Search.{memcmp_zero_iff}
use gemiboot.Fat.Volume.{DiskReadFn}
use gemiboot.Fat.Name.{format_83_name, format_loop, format_char, to_upper}
use gemiboot.Fat.Find.{found, fat_find_file, first_cluster_at, file_size_at, is_zero}
use gemiboot.Fat.Find.Correct.{PassedOver, slot, IsFirst, fat_find_file-IsFirst}
use gemiboot.Fat.Disk.{Serves, IsChain, file_byte}
use gemiboot.Mkdisk.{Image, is_dot, is_dot_dot}
use gemiboot.Mkdisk.Name.{format_83-format_83_name}
use gemiboot.Mkdisk.Frame.{data_at, link_of}
use gemiboot.Mkdisk.Table.{image_disk}
use gemiboot.Mkdisk.Layout.Boots.{mkdisk_volume}
use gemiboot.Mkdisk.Files.Root.{HasEntry, name_byte}
use gemiboot.Mkdisk.Files.Steps.{clusters_of}
use gemiboot.Mkdisk.Make.{HostFile}
use gemiboot.Mkdisk.Make.Kernel.{HasKernel, first_characters}
use gemiboot.Mkdisk.Boot.Files.{disk_sectors, clusters_from, links-IsChain, file_byte-clusters_from}

-- The root directory as one memory.
abbrev root_bytes : Image → Mem
root_bytes img = file_byte mkdisk_volume (image_disk img) (2 ∷ [])

root_byte :
    (img : Image) (k : ℕ) → k < 2048 → byte (root_bytes img) k ≡ byte img.g_disk (data_at + k)
unfolding clusters_from
root_byte img k below =
    let e = file_byte-clusters_from 1 2 k img (omega arith) (omega arith) (omega arith) in
    omega (arith, e)

root-IsChain :
    (img : Image)
    → link_of img.g_disk 2 ≡ 0x0fffffff
    → IsChain mkdisk_volume (image_disk img) disk_sectors 2 (2 ∷ [])
unfolding clusters_from
root-IsChain img e =
    links-IsChain 0 2 img (omega arith) (omega arith) (λ j lt. absurd (omega arith)) e

both_spellings :
    (buffer : Mem)
    → format_83_name (chars "gemios.elf") buffer ≡ format_83_name (chars "GEMIOS.ELF") buffer
unfolding format_83_name format_loop format_char to_upper chars
both_spellings buffer = refl

is_plain_name :
    (length (chars "GEMIOS.ELF") ≤ 64)
    × (is_dot (chars "GEMIOS.ELF") ≡ false)
    × (is_dot_dot (chars "GEMIOS.ELF") ≡ false)
unfolding chars
is_plain_name = (omega arith, refl, refl)

-- The eleven bytes that the search compares with.
kernel_name_byte :
    (buffer : Mem) (k : ℕ)
    → k < 11
    → byte (format_83_name (chars "gemios.elf") buffer) k ≡ name_byte (chars "GEMIOS.ELF") k
kernel_name_byte buffer k below =
    let (short, not_dot, not_dot_dot) = is_plain_name in
    ap (λ (m : Mem). byte m k) (both_spellings buffer)
    ∙ format_83-format_83_name (chars "GEMIOS.ELF") (λ k. 0) (λ k. 0) buffer k short not_dot
        not_dot_dot below

is_zero-pos : (z : ℤ) → is_zero z ≡ true → z ≡ pos 0
is_zero-pos (pos n) e = ap pos (ground arith)
is_zero-pos (negsuc n) e = cc

-- An entry with the name that is looked for.
same_name :
    (img : Image) (t : Mem) (j first size : ℕ) (name : List ℕ)
    → j < 64
    → HasEntry img.g_disk (data_at + j * 32) name first size
    → ((k : ℕ) → k < 11 → byte t k ≡ name_byte name k)
    → is_zero (memcmp (λ k. root_bytes img (j * 32 + k)) t 11) ≡ true
same_name img t j first size name few e h =
    let same : memcmp (λ k. root_bytes img (j * 32 + k)) t 11 ≡ pos 0 =
      (memcmp_zero_iff _ t 11).1 (λ k above below.
        let at : data_at + (j * 32 + k) ≡ data_at + j * 32 + k = omega arith in
        root_byte img (j * 32 + k) (omega arith)
        ∙ ap (byte img.g_disk) at
        ∙ e.name_bytes k below
        ∙ sym (h k below)) in
    rw same refl

-- An entry whose name starts with another character.
other_name :
    (img : Image) (t : Mem) (j first size : ℕ) (name : List ℕ)
    → j < 64
    → HasEntry img.g_disk (data_at + j * 32) name first size
    → byte t 0 ≢ name_byte name 0
    → is_zero (memcmp (λ k. root_bytes img (j * 32 + k)) t 11) ≡ false
other_name img t j first size name few e other =
    elim (Bool-cases (is_zero (memcmp (λ k. root_bytes img (j * 32 + k)) t 11))) [
      | inr differ ↦ differ
      | inl same ↦
          let at : data_at + (j * 32 + 0) ≡ data_at + j * 32 + 0 = omega arith in
          absurd (
            other (
              sym ((memcmp_zero_iff _ t 11).0 (is_zero-pos _ same) 0 (omega arith) (omega arith))
              ∙ root_byte img (j * 32 + 0) (omega arith)
              ∙ ap (byte img.g_disk) at
              ∙ e.name_bytes 0 (omega arith)))
    ]

-- The fields of an entry, as the search reads them.
entry_fields :
    (img : Image) (j first size : ℕ) (name : List ℕ)
    → j < 64
    → HasEntry img.g_disk (data_at + j * 32) name first size
    → (byte (root_bytes img) (j * 32) ≡ name_byte name 0)
      × (byte (root_bytes img) (j * 32 + 11) ≡ 0x20)
      × (first_cluster_at (root_bytes img) (j * 32) ≡ first)
      × (file_size_at (root_bytes img) (j * 32) ≡ size)
entry_fields img j first size name few e =
    let at = data_at + j * 32 in
    let o = j * 32 in
    let b = λ (k x : ℕ) (below : k < 2048) (here : data_at + k ≡ x).
      root_byte img k below ∙ ap (byte img.g_disk) here in
    let first_byte = b o (at + 0) (omega arith) (omega arith) ∙ e.name_bytes 0 (omega arith) in
    let attr = b (o + 11) (at + 11) (omega arith) (omega arith) ∙ e.attr in
    let high = b (o + 20) (at + 20) (omega arith) (omega arith) in
    let high' = b (o + 20 + 1) (at + 20 + 1) (omega arith) (omega arith) in
    let low = b (o + 26) (at + 26) (omega arith) (omega arith) in
    let low' = b (o + 26 + 1) (at + 26 + 1) (omega arith) (omega arith) in
    let size0 = b (o + 28) (at + 28) (omega arith) (omega arith) in
    let size1 = b (o + 28 + 1) (at + 28 + 1) (omega arith) (omega arith) in
    let size2 = b (o + 28 + 2) (at + 28 + 2) (omega arith) (omega arith) in
    let size3 = b (o + 28 + 2 + 1) (at + 28 + 2 + 1) (omega arith) (omega arith) in
    (
      first_byte,
      attr,
      omega (arith, high, high', low, low', e.cluster),
      omega (arith, size0, size1, size2, size3, e.file_size),
    )

-- The search goes past the entry of IO.SYS.
passes_io_sys :
    (start img : Image) (io_sys kernel : HostFile) (buffer : Mem) (j : ℕ)
    → HasKernel start io_sys kernel img
    → j < 1
    → PassedOver (root_bytes img) (format_83_name (chars "gemios.elf") buffer) (slot 0 j)
passes_io_sys start img io_sys kernel buffer zero h lt =
    let t = format_83_name (chars "gemios.elf") buffer in
    let (io_char, kernel_char) = first_characters in
    let (first, attr, cluster, size) =
      entry_fields img 0 _ _ (chars "IO.SYS") (omega arith) h.io_sys_entry in
    let name = kernel_name_byte buffer 0 (omega arith) in
    (
      omega (arith, first, io_char),
      inr (
          other_name img t 0 _ _ (chars "IO.SYS") (omega arith) h.io_sys_entry
            (omega (arith, name, io_char, kernel_char))),
    )
passes_io_sys start img io_sys kernel buffer (suc j) h lt = absurd (omega arith)

-- The kernel's entry is the second one, behind that of IO.SYS.
kernel-IsFirst :
    (start img : Image) (io_sys kernel : HostFile) (buffer : Mem)
    → HasKernel start io_sys kernel img
    → IsFirst
        (root_bytes img)
        (format_83_name (chars "gemios.elf") buffer)
        64
        0
        (3 + clusters_of io_sys.size)
        kernel.size
        1
kernel-IsFirst start img io_sys kernel buffer h =
    let t = format_83_name (chars "gemios.elf") buffer in
    let (io_char, kernel_char) = first_characters in
    let name = kernel_name_byte buffer in
    let (first, attr, cluster, size) =
      entry_fields img 1 _ _ (chars "GEMIOS.ELF") (omega arith) h.kernel_entry in
    let present : byte (root_bytes img) 32 ≢ 0 = omega (arith, first, kernel_char) in
    record {
      within = omega arith;
      named = (
        present,
        ground (arith, first, kernel_char, attr),
        same_name img t 1 _ _ (chars "GEMIOS.ELF") (omega arith) h.kernel_entry name,
      );
      cluster = sym cluster;
      size = sym size;
      before = λ j lt. passes_io_sys start img io_sys kernel buffer j h lt;
    }

-- fat_find_file finds the kernel, with its size and with the first of its clusters.
pub fat_find_file-kernel :
    {S : Type 0} (fuel : ℕ) (read_fn : DiskReadFn S) (start img : Image) (io_sys kernel : HostFile)
    (buffer : Mem) (st : S)
    → 1 < fuel
    → Serves read_fn (image_disk img) disk_sectors
    → HasKernel start io_sys kernel img
    → (fat_find_file fuel mkdisk_volume read_fn (chars "gemios.elf") buffer st).0
      ≡ found (3 + clusters_of io_sys.size) kernel.size
fat_find_file-kernel fuel read_fn start img io_sys kernel buffer st enough serves h =
    (fat_find_file-IsFirst fuel disk_sectors _ _ mkdisk_volume read_fn (image_disk img) (2 ∷ [])
        (chars "gemios.elf") buffer st (omega arith) serves refl (root-IsChain img h.root_end) refl
        (omega arith) (omega arith)).1
      (1, kernel-IsFirst start img io_sys kernel buffer h)
