-- ===== src/Fat/Disk.antt =====
-- What the FAT driver, src/common/fat.c, means on a disk: the disk as a function from sectors to
-- bytes, the allocation table as one flat array, a file as the bytes of its cluster chain.
pub mod Table
use gemiboot.Base.{
  ℕ, ◌+◌, ◌-◌, ◌*◌, ◌/◌, ◌%◌, ◌≡◌, ◌≤◌, ◌<◌, Bool, true, false, not, ◌&&◌, Option, some, List, [],
  ◌∷◌, ltb, leb, ◌==◌, if◌then◌else◌, Mem, byte, le16, le32,
}
use gemiboot.Fat.Volume.{FatFs, DiskReadFn, cluster_to_lba, is_end_of_cluster_chain}

-- The bytes of each sector.
abbrev pub Disk : Type 0
Disk = ℕ → Mem

-- The callback reads each of the first `n` sectors, in every state, and puts its 512 bytes into
-- the buffer.
pub record Serves {S : Type 0} (read_fn : DiskReadFn S) (disk : Disk) (n : ℕ) : Type 0 where
  pub reads :
      (lba : ℕ) (st : S)
      → lba < n
      → (b : Mem) × ((read_fn lba 1 st).0 ≡ some b)
        × ((k : ℕ) → k < 512 → byte b k ≡ byte (disk lba) k)

-- The bytes of the first allocation table, which starts behind the reserved sectors.
abbrev pub fat_byte : FatFs → Disk → Mem
fat_byte fs disk k = disk (fs.part_lba + fs.rsvd_sec_cnt + k / 512) (k % 512)

-- Offset of the table's entry for a cluster.
abbrev pub fat_offset : FatFs → ℕ → ℕ
fat_offset fs cluster = if fs.fat_type == 32 then cluster * 4 else cluster * 2

-- The entry of the allocation table. FAT12 has no table that the code reads.
unfoldable pub fat_entry : FatFs → Disk → ℕ → ℕ
fat_entry fs disk cluster =
    if fs.fat_type == 32
    then le32 (fat_byte fs disk) (cluster * 4) % 0x10000000
    else if fs.fat_type == 16
    then le16 (fat_byte fs disk) (cluster * 2)
    else 0x0fffffff

-- A cluster at which the loops go on.
abbrev pub is_data_cluster : FatFs → ℕ → Bool
is_data_cluster fs cluster = not (is_end_of_cluster_chain fs cluster) && leb 2 cluster

-- A data cluster whose table entry and whose sectors lie on a disk of `n` sectors.
pub record IsLink (fs : FatFs) (n cluster : ℕ) : Type 0 where
  pub is_data : is_data_cluster fs cluster ≡ true
  pub entry_on_disk : fs.part_lba + fs.rsvd_sec_cnt + fat_offset fs cluster / 512 < n
  pub sectors_on_disk : fs.data_sec + (cluster - 2) * fs.sec_per_clus + fs.sec_per_clus ≤ n

-- The clusters of a chain, from `cluster` on, up to an entry at which the loops stop.
pub data IsChain (fs : FatFs) (disk : Disk) (n : ℕ) : ℕ → List ℕ → Type 0 where
  chain_end : {cluster : ℕ} → is_data_cluster fs cluster ≡ false → IsChain fs disk n cluster []
  chain_link :
      {cluster : ℕ} {rest : List ℕ}
      → IsLink fs n cluster
      → IsChain fs disk n (fat_entry fs disk cluster) rest
      → IsChain fs disk n cluster (cluster ∷ rest)

abbrev pub cluster_bytes : FatFs → ℕ
cluster_bytes fs = fs.sec_per_clus * 512

-- Byte `k` of the clusters of a chain, laid end to end.
unfoldable pub file_byte : FatFs → Disk → List ℕ → ℕ → ℕ
file_byte fs disk [] k = 0
file_byte fs disk (cluster ∷ rest) k =
    if ltb k (cluster_bytes fs)
    then byte (disk (fs.data_sec + (cluster - 2) * fs.sec_per_clus + k / 512)) (k % 512)
    else file_byte fs disk rest (k - cluster_bytes fs)
