-- ===== src/Mkdisk/Boot/Files.antt =====
-- The files of the image as src/common/fat.c follows them.
use gemiboot.Base.{
  length, sym, ◌∙◌, ap, ℕ, zero, suc, ◌+◌, ◌-◌, ◌*◌, ◌/◌, ◌%◌, ◌≡◌, ◌≤◌, ◌<◌, inl, inr, refl, arith,
  byte, lt_or_le, lt→ltb, le→not_ltb, true, false, List, [], ◌∷◌, le32,
}
use gemiboot.Fat.Volume.{is_end_of_cluster_chain}
use gemiboot.Fat.Disk.{
  IsChain, IsLink, chain_end, chain_link, is_data_cluster, fat_byte, fat_entry, file_byte,
}
use gemiboot.Mkdisk.{Image}
use gemiboot.Mkdisk.Frame.{table_at, cluster_at, link_of}
use gemiboot.Mkdisk.Table.{image_disk}
use gemiboot.Mkdisk.Layout.Boots.{mkdisk_volume}

-- The sectors of the image.
abbrev pub disk_sectors : ℕ
disk_sectors = 524288

-- `n` clusters one after the other.
unfoldable pub clusters_from : ℕ → ℕ → List ℕ
clusters_from first zero = []
clusters_from first (suc n) = first ∷ clusters_from (first + 1) n

pub length-clusters_from : (n first : ℕ) → length (clusters_from first n) ≡ n
unfolding clusters_from
length-clusters_from zero first = refl
length-clusters_from (suc n) first = ap suc (length-clusters_from n (first + 1))

-- A sector's bytes in the image.
pub disk_flat :
    (img : Image) (lba k x : ℕ)
    → lba < disk_sectors
    → x ≡ lba * 512 + k
    → byte (image_disk img lba) k ≡ byte img.g_disk x
disk_flat img lba k x small e =
    let at : lba * 512 % 4294967296 + k ≡ x = omega arith in ap (byte img.g_disk) at

-- An entry of the first table.
pub fat_entry-link_of :
    (img : Image) (c : ℕ)
    → c < 130044
    → fat_entry mkdisk_volume (image_disk img) c ≡ link_of img.g_disk c
unfolding fat_entry
fat_entry-link_of img c small =
    let o = c * 4 in
    let b = λ (k x : ℕ) (below : k < 522240) (e : x ≡ table_at + k).
      disk_flat img (2080 + k / 512) (k % 512) x (omega arith) (omega arith) in
    let b0 = b o (table_at + o) (omega arith) refl in
    let b1 = b (o + 1) (table_at + o + 1) (omega arith) (omega arith) in
    let b2 = b (o + 2) (table_at + o + 2) (omega arith) (omega arith) in
    let b3 = b (o + 2 + 1) (table_at + o + 2 + 1) (omega arith) (omega arith) in
    let same : le32 (fat_byte mkdisk_volume (image_disk img)) o ≡ le32 img.g_disk (table_at + o) =
      omega (arith, b0, b1, b2, b3) in
    ap (λ (n : ℕ). n % 0x10000000) same

is_data : (c : ℕ) → 2 ≤ c → c < 130044 → is_data_cluster mkdisk_volume c ≡ true
unfolding is_end_of_cluster_chain
is_data c two small = ground arith

end_not_data : is_data_cluster mkdisk_volume 0x0fffffff ≡ false
unfolding is_end_of_cluster_chain
end_not_data = refl

cluster-IsLink : (c : ℕ) → 2 ≤ c → c < 130044 → IsLink mkdisk_volume disk_sectors c
cluster-IsLink c two small = record {
  is_data = is_data c two small;
  entry_on_disk = omega arith;
  sectors_on_disk = omega arith;
}

-- Consecutive links are a chain.
pub links-IsChain :
    (n first : ℕ) (img : Image)
    → 2 ≤ first
    → first + n < 130044
    → ((j : ℕ) → j < n → link_of img.g_disk (first + j) ≡ first + j + 1)
    → link_of img.g_disk (first + n) ≡ 0x0fffffff
    → IsChain mkdisk_volume (image_disk img) disk_sectors first (clusters_from first (suc n))
unfolding clusters_from
links-IsChain zero first img two small links last =
    let e : first + 0 ≡ first = omega arith in
    let next : fat_entry mkdisk_volume (image_disk img) first ≡ 0x0fffffff =
      fat_entry-link_of img first (omega arith) ∙ ap (link_of img.g_disk) (sym e) ∙ last in
    chain_link (cluster-IsLink first two (omega arith)) (rw next (chain_end end_not_data))
links-IsChain (suc n) first img two small links last =
    let e : first + 0 ≡ first = omega arith in
    let start : link_of img.g_disk first ≡ first + 1 =
      ap (link_of img.g_disk) (sym e) ∙ links 0 (omega arith) ∙ omega arith in
    let next : fat_entry mkdisk_volume (image_disk img) first ≡ first + 1 =
      fat_entry-link_of img first (omega arith) ∙ start in
    let rest =
      links-IsChain n (first + 1) img (omega arith) (omega arith)
        (λ j lt.
          let at : first + 1 + j ≡ first + suc j = omega arith in
          ap (link_of img.g_disk) at ∙ links (suc j) (omega arith) ∙ omega arith)
        (let at : first + 1 + n ≡ first + suc n = omega arith in
          ap (link_of img.g_disk) at ∙ last) in
    chain_link (cluster-IsLink first two (omega arith)) (rw next rest)

-- The bytes of consecutive clusters.
pub file_byte-clusters_from :
    (n first k : ℕ) (img : Image)
    → 2 ≤ first
    → first + n ≤ 130044
    → k < n * 2048
    → file_byte mkdisk_volume (image_disk img) (clusters_from first n) k
      ≡ byte img.g_disk (cluster_at first + k)
unfolding clusters_from file_byte
file_byte-clusters_from zero first k img two small below = absurd (omega arith)
file_byte-clusters_from (suc n) first k img two small below = elim (lt_or_le k 2048) [
  | inl here ↦ rw (lt→ltb k 2048 here) (
      disk_flat img (4120 + (first - 2) * 4 + k / 512) (k % 512) (cluster_at first + k)
        (omega arith) (omega arith))
  | inr later ↦
      let at : cluster_at (first + 1) + (k - 2048) ≡ cluster_at first + k = omega arith in
      rw (le→not_ltb k 2048 later) (
        file_byte-clusters_from n (first + 1) (k - 2048) img (omega arith) (omega arith)
          (omega arith)
        ∙ ap (byte img.g_disk) at)
]
