-- ===== src/Mkdisk/Table.antt =====
-- fat32_set_fat_entry of tools/mkdisk.c against the allocation table that src/common/fat.c reads.
use gemiboot.Base.{
  put32, le32-put32, le32-put32_apart, ℕ, ◌+◌, ◌*◌, ◌/◌, ◌%◌, ◌≡◌, ◌<◌, inl, inr, refl, ap, sym,
  ◌∙◌, arith, true, ◌==◌, if◌then◌else◌, le32, Bool-cases,
}
use gemiboot.Fat.Volume.{FatFs}
use gemiboot.Fat.Disk.{Disk, fat_byte, fat_entry}
use gemiboot.Mkdisk.{Image, get_sector, fat32_set_fat_entry}

-- The sectors of the image.
abbrev pub image_disk : Image → Disk
image_disk img lba k = img.g_disk (get_sector lba + k)

-- The volume is FAT32, its first table starts where the image's does, and both copies of the table
-- lie below 4 GB.
pub record IsTableOf (fs : FatFs) (img : Image) : Type 0 where
  pub fat32 : fs.fat_type ≡ 32
  pub start : fs.part_lba + fs.rsvd_sec_cnt ≡ img.g_fat_start
  pub fits : (img.g_fat_start + img.g_fat_size * 2) * 512 < 4294967296

fat_byte_flat :
    (fs : FatFs) (img : Image) (k x : ℕ)
    → IsTableOf fs img
    → k < img.g_fat_size * 512
    → x ≡ img.g_fat_start * 512 + k
    → fat_byte fs (image_disk img) k ≡ img.g_disk x
fat_byte_flat fs img k x t below e =
    let at : (fs.part_lba + fs.rsvd_sec_cnt + k / 512) * 512 % 4294967296 + k % 512 ≡ x =
      omega (arith, t.start, t.fits) in
    ap img.g_disk at

-- An entry of the table in the image.
entry_flat :
    (fs : FatFs) (img : Image) (c x : ℕ)
    → IsTableOf fs img
    → c < img.g_fat_size * 128
    → x ≡ img.g_fat_start * 512 + c * 4
    → fat_entry fs (image_disk img) c ≡ le32 img.g_disk x % 0x10000000
unfolding fat_entry
entry_flat fs img c x t below e =
    let o = c * 4 in
    let is32 : (fs.fat_type == 32) ≡ true = ground (arith, t.fat32) in
    let b0 = fat_byte_flat fs img o x t (omega arith) e in
    let b1 = fat_byte_flat fs img (o + 1) (x + 1) t (omega arith) (omega arith) in
    let b2 = fat_byte_flat fs img (o + 2) (x + 2) t (omega arith) (omega arith) in
    let b3 = fat_byte_flat fs img (o + 2 + 1) (x + 2 + 1) t (omega arith) (omega arith) in
    let same : le32 (fat_byte fs (image_disk img)) o ≡ le32 img.g_disk x =
      omega (arith, b0, b1, b2, b3) in
    rw (is32, same) refl

-- No arithmetic of fat32_set_fat_entry wraps.
pub set_exact :
    (img : Image) (c v : ℕ)
    → (img.g_fat_start + img.g_fat_size * 2) * 512 < 4294967296
    → c < img.g_fat_size * 128
    → (fat32_set_fat_entry c v img).g_disk
      ≡ put32
          (put32 img.g_disk (img.g_fat_start * 512 + c * 4) (v % 0x10000000))
          ((img.g_fat_start + img.g_fat_size) * 512 + c * 4)
          (v % 0x10000000)
unfolding fat32_set_fat_entry
set_exact img c v fits below =
    let offset : c * 4 % 4294967296 ≡ c * 4 = omega arith in
    let first : (img.g_fat_start + c * 4 / 512) % 4294967296 * 512 % 4294967296 + c * 4 % 512
        ≡ img.g_fat_start * 512 + c * 4 =
      omega arith in
    let second : (img.g_fat_start + img.g_fat_size + c * 4 / 512) % 4294967296 * 512 % 4294967296
          + c * 4 % 512
        ≡ (img.g_fat_start + img.g_fat_size) * 512 + c * 4 =
      omega arith in
    rw (offset, first, second) refl

set-IsTableOf :
    (fs : FatFs) (img : Image) (c v : ℕ)
    → IsTableOf fs img
    → IsTableOf fs (fat32_set_fat_entry c v img)
unfolding fat32_set_fat_entry
set-IsTableOf fs img c v t = record { fat32 = t.fat32; start = t.start; fits = t.fits }

set_keeps :
    (img : Image) (c v : ℕ)
    → ((fat32_set_fat_entry c v img).g_fat_start ≡ img.g_fat_start)
      × ((fat32_set_fat_entry c v img).g_fat_size ≡ img.g_fat_size)
unfolding fat32_set_fat_entry
set_keeps img c v = (refl, refl)

-- After fat32_set_fat_entry the allocation table, as the boot loader reads it, has the low 28 bits
-- of the value at the cluster, and at each other cluster of the table the entry that it had.
pub fat32_set_fat_entry-fat_entry :
    (fs : FatFs) (img : Image) (c v c' : ℕ)
    → IsTableOf fs img
    → c < img.g_fat_size * 128
    → c' < img.g_fat_size * 128
    → fat_entry fs (image_disk (fat32_set_fat_entry c v img)) c'
      ≡ (if c' == c then v % 0x10000000 else fat_entry fs (image_disk img) c')
fat32_set_fat_entry-fat_entry fs img c v c' t below below' =
    let x = img.g_fat_start * 512 + c' * 4 in
    let a = img.g_fat_start * 512 + c * 4 in
    let b = (img.g_fat_start + img.g_fat_size) * 512 + c * 4 in
    let w = v % 0x10000000 in
    let (start, size) = set_keeps img c v in
    let after =
      entry_flat fs (fat32_set_fat_entry c v img) c' x (set-IsTableOf fs img c v t)
        (omega (arith, size)) (omega (arith, start)) in
    let exact = set_exact img c v t.fits below in
    let second : le32 (put32 (put32 img.g_disk a w) b w) x ≡ le32 (put32 img.g_disk a w) x =
      le32-put32_apart (put32 img.g_disk a w) b x w (inl (omega arith)) in
    after
    ∙ ap (λ m. le32 m x % 0x10000000) exact
    ∙ ap (λ (n : ℕ). n % 0x10000000) second
    ∙ elim (Bool-cases (c' == c)) [
      | inl same ↦
          let here : x ≡ a = ground arith in
          rw same (
            ap (λ (y : ℕ). le32 (put32 img.g_disk a w) y % 0x10000000) here
            ∙ ap (λ (n : ℕ). n % 0x10000000) (le32-put32 img.g_disk a w (omega arith))
            ∙ omega arith)
      | inr other ↦ rw other (
          ap (λ (n : ℕ). n % 0x10000000) (le32-put32_apart img.g_disk a x w (ground arith))
          ∙ sym (entry_flat fs img c' x t below' refl))
    ]
