-- ===== src/Fat/Disk/Table.antt =====
-- fat_get_next_cluster and cluster_to_lba of src/common/fat.c against the flat allocation table.
use gemiboot.Base.{
  ℕ, ◌+◌, ◌-◌, ◌*◌, ◌/◌, ◌%◌, ◌≡◌, ◌≤◌, ◌<◌, refl, ap, true, inl, inr, arith, ◌==◌, Mem, byte, le16,
  le32, Bool-cases,
}
use gemiboot.Fat.Volume.{
  FatFs, DiskReadFn, cluster_to_lba, is_end_of_cluster_chain, fat_get_next_cluster,
}
use gemiboot.Fat.Disk.{Disk, Serves, fat_byte, fat_entry, is_data_cluster, IsLink}

-- On a link of a chain no arithmetic of cluster_to_lba wraps.
pub cluster_to_lba-exact :
    (fs : FatFs) (n cluster : ℕ)
    → n ≤ 4294967296
    → IsLink fs n cluster
    → 0 < fs.sec_per_clus
    → cluster_to_lba fs cluster ≡ fs.data_sec + (cluster - 2) * fs.sec_per_clus
unfolding cluster_to_lba is_end_of_cluster_chain
cluster_to_lba-exact fs n cluster small link pos =
    let in_range = data_cluster_lt fs cluster link.is_data in
    let e : (cluster + 4294967296 - 2) % 4294967296 ≡ cluster - 2 = omega arith in
    rw e (omega (arith, link.sectors_on_disk))
  where
    data_cluster_lt :
        (fs : FatFs) (c : ℕ) → is_data_cluster fs c ≡ true → (2 ≤ c) × (c < 0x0ffffff8)
    data_cluster_lt fs c h = ground arith

-- A byte of the sector that holds offset `o` of the table, `j` bytes on.
flat_byte :
    (fs : FatFs) (disk : Disk) (b : Mem) (o j a x : ℕ)
    → ((k : ℕ) → k < 512 → byte b k ≡ byte (disk (fs.part_lba + fs.rsvd_sec_cnt + o / 512)) k)
    → a ≡ o % 512 + j
    → x ≡ o + j
    → o % 512 + j < 512
    → byte b a ≡ byte (fat_byte fs disk) x
flat_byte fs disk b o j a x same ea ex fits =
    let sector : (o + j) / 512 ≡ o / 512 = omega arith in
    let offset : (o + j) % 512 ≡ o % 512 + j = omega arith in
    rw (ea, ex, sector, offset) (same (o % 512 + j) fits)

module _ (fs : FatFs) (disk : Disk) (b : Mem) (o : ℕ)
    (same : (k : ℕ)
      → k < 512
      → byte b k ≡ byte (disk (fs.part_lba + fs.rsvd_sec_cnt + o / 512)) k) where
  le16_flat : o % 2 ≡ 0 → le16 b (o % 512) ≡ le16 (fat_byte fs disk) o
  le16_flat even = omega (
    arith,
    flat_byte fs disk b o 0 (o % 512) o same (omega arith) (omega arith) (omega arith),
    flat_byte fs disk b o 1 (o % 512 + 1) (o + 1) same refl refl (omega arith),
  )

  le32_flat : o % 4 ≡ 0 → le32 b (o % 512) ≡ le32 (fat_byte fs disk) o
  le32_flat fourth = omega (
    arith,
    flat_byte fs disk b o 0 (o % 512) o same (omega arith) (omega arith) (omega arith),
    flat_byte fs disk b o 1 (o % 512 + 1) (o + 1) same refl refl (omega arith),
    flat_byte fs disk b o 2 (o % 512 + 2) (o + 2) same refl refl (omega arith),
    flat_byte fs disk b o 3 (o % 512 + 2 + 1) (o + 2 + 1) same (omega arith) (omega arith)
        (omega arith),
  )

-- On a link of a chain, with sectors of 512 bytes, fat_get_next_cluster returns the cluster's entry
-- in the flat allocation table: reading one sector is enough, and no arithmetic wraps.
pub fat_get_next_cluster-fat_entry :
    {S : Type 0} (fs : FatFs) (read_fn : DiskReadFn S) (disk : Disk) (n cluster : ℕ) (st : S)
    → fs.bytes_per_sec ≡ 512
    → n ≤ 4294967296
    → Serves read_fn disk n
    → IsLink fs n cluster
    → (fat_get_next_cluster fs read_fn cluster st).0 ≡ fat_entry fs disk cluster
unfolding fat_get_next_cluster fat_entry is_end_of_cluster_chain
fat_get_next_cluster-fat_entry fs read_fn disk n cluster st bps small serves link =
    elim (Bool-cases (fs.fat_type == 32)) [
      | inl fat32 ↦
          let below : cluster < 0x0ffffff8 = ground (arith, link.is_data) in
          let exact : (cluster * 4) % 4294967296 ≡ cluster * 4 = omega arith in
          let on_disk = rw fat32 at link.entry_on_disk in
          let lba : (fs.part_lba + fs.rsvd_sec_cnt + cluster * 4 / 512) % 4294967296
              ≡ fs.part_lba + fs.rsvd_sec_cnt + cluster * 4 / 512 =
            omega arith in
          let (b, reads, same) =
            serves.reads (fs.part_lba + fs.rsvd_sec_cnt + cluster * 4 / 512) st on_disk in
          rw (fat32, bps, exact, lba, reads, bps, exact)
            (ap (λ (v : ℕ). v % 0x10000000) (le32_flat fs disk b (cluster * 4) same (omega arith)))
      | inr not32 ↦ elim (Bool-cases (fs.fat_type == 16)) [
        | inl fat16 ↦
            let below : cluster < 0xfff8 = ground (arith, link.is_data) in
            let exact : (cluster * 2) % 4294967296 ≡ cluster * 2 = omega arith in
            let on_disk = rw not32 at link.entry_on_disk in
            let lba : (fs.part_lba + fs.rsvd_sec_cnt + cluster * 2 / 512) % 4294967296
                ≡ fs.part_lba + fs.rsvd_sec_cnt + cluster * 2 / 512 =
              omega arith in
            let (b, reads, same) =
              serves.reads (fs.part_lba + fs.rsvd_sec_cnt + cluster * 2 / 512) st on_disk in
            rw (not32, fat16, bps, exact, lba, reads, bps, exact)
              (le16_flat fs disk b (cluster * 2) same (omega arith))
        | inr other ↦ rw (not32, other) refl
      ]
    ]
