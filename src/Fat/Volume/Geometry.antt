-- ===== src/Fat/Volume/Geometry.antt =====
-- fat_init and cluster_to_lba of src/common/fat.c: where the parts of a mounted volume lie.
use gemiboot.Base.{
  some_eq, ◌∙◌, Option-cases, byte, le16, Mem, suc, ℕ, ◌+◌, ◌-◌, ◌*◌, ◌/◌, ◌%◌, ◌≡◌, ◌≤◌, ◌<◌, ◌↔◌,
  ◌⊎◌, inl, inr, refl, sym, arith, some, ◌==◌, if◌then◌else◌,
}
use native.Mathlib.Nat.{div-mul-le_self, div-le_self, mul-le-mul_right}
use gemiboot.Fat.Volume.{
  geometry, classify, FatFs, FatBpb, ready, divide_error, mount, cluster_to_lba, DiskReadFn,
  fat_init, bpb_at,
}

abbrev pub volume_sectors : FatBpb → ℕ
volume_sectors bpb = if bpb.tot_sec_16 == 0 then bpb.tot_sec_32 else bpb.tot_sec_16

abbrev pub table_sectors : FatBpb → ℕ
table_sectors bpb = if bpb.fat_sz_16 == 0 then bpb.fat_sz_32 else bpb.fat_sz_16

abbrev pub root_sectors : FatBpb → ℕ
root_sectors bpb = (bpb.root_ent_cnt * 32 + 511) / 512

-- Sectors before the data area, counted from the start of the partition.
abbrev pub overhead : FatBpb → ℕ
overhead bpb = bpb.rsvd_sec_cnt + bpb.num_fats * table_sectors bpb + root_sectors bpb

-- A boot sector whose areas fit into its volume, on a partition below sector 2 ^ 32.
pub record IsVolume (part_lba : ℕ) (bpb : FatBpb) : Type 0 where
  pub sectors_of_512 : bpb.bytes_per_sec ≡ 512
  pub has_clusters : 0 < bpb.sec_per_clus
  pub areas_fit : overhead bpb ≤ volume_sectors bpb
  pub addressable : part_lba + volume_sectors bpb < 4294967296

-- The mounted volume: its areas follow one another, its clusters fill the data area, and the FAT
-- type is the one that the number of clusters stands for.
pub record IsMounted (part_lba : ℕ) (bpb : FatBpb) (fs : FatFs) : Type 0 where
  pub bytes_per_sec : fs.bytes_per_sec ≡ 512
  pub sec_per_clus : fs.sec_per_clus ≡ bpb.sec_per_clus
  pub root_dir_sec :
      fs.root_dir_sec ≡ part_lba + bpb.rsvd_sec_cnt + bpb.num_fats * table_sectors bpb
  pub data_sec : fs.data_sec ≡ part_lba + overhead bpb
  pub clusters : fs.total_clusters ≡ (volume_sectors bpb - overhead bpb) / bpb.sec_per_clus
  pub fat_type :
      ((fs.fat_type ≡ 12) × (fs.total_clusters < 4085))
      ⊎ ((fs.fat_type ≡ 16) × (4085 ≤ fs.total_clusters) × (fs.total_clusters < 65525))
      ⊎ ((fs.fat_type ≡ 32) × (65525 ≤ fs.total_clusters) × (fs.root_clus ≡ bpb.root_clus))

geometry_exact :
    (part_lba : ℕ) (bpb : FatBpb)
    → IsVolume part_lba bpb
    → ((geometry part_lba bpb).root_dir_sec
        ≡ part_lba + bpb.rsvd_sec_cnt + bpb.num_fats * table_sectors bpb)
      × ((geometry part_lba bpb).data_sec ≡ part_lba + overhead bpb)
      × ((geometry part_lba bpb).total_clusters
          ≡ (volume_sectors bpb - overhead bpb) / bpb.sec_per_clus)
unfolding geometry
geometry_exact part_lba bpb v =
    let t = bpb.num_fats * table_sectors bpb in
    let total = volume_sectors bpb in
    let root : (part_lba + bpb.rsvd_sec_cnt + t) % 4294967296 ≡ part_lba + bpb.rsvd_sec_cnt + t =
      omega (arith, v.areas_fit, v.addressable) in
    let data_at : (part_lba + bpb.rsvd_sec_cnt + t + root_sectors bpb) % 4294967296
        ≡ part_lba + overhead bpb =
      omega (arith, v.areas_fit, v.addressable) in
    let sectors : (total + 4294967296 - overhead bpb % 4294967296) % 4294967296
        ≡ total - overhead bpb =
      omega (arith, v.areas_fit, v.addressable) in
    (root, rw (v.sectors_of_512, root) data_at, rw (v.sectors_of_512, sectors) refl)

-- On a volume whose areas fit, mounting succeeds, and no arithmetic of it wraps.
pub mount-IsMounted :
    (part_lba : ℕ) (bpb : FatBpb)
    → IsVolume part_lba bpb
    → (fs : FatFs) × (mount part_lba bpb ≡ ready fs) × IsMounted part_lba bpb fs
unfolding mount classify
mount-IsMounted part_lba bpb v =
    let (root, data_at, clusters) = geometry_exact part_lba bpb v in
    let g = geometry part_lba bpb in
    (
      classify bpb g,
      ground (arith, v.sectors_of_512, v.has_clusters),
      record {
        bytes_per_sec = unfold geometry in ground (arith, v.sectors_of_512);
        sec_per_clus = unfold geometry in ground arith;
        root_dir_sec = ground (arith, root);
        data_sec = ground (arith, data_at);
        clusters = ground (arith, clusters);
        fat_type = ground arith;
      },
    )

-- fat_init raises the divide error exactly where the callback returns a boot sector with sectors of
-- 512 bytes, in the two bytes at offset 11, and with clusters of no sector, in the byte at offset 13.
pub fat_init_divides_by_zero_iff :
    {S : Type 0} (part_lba : ℕ) (read_fn : DiskReadFn S) (st : S)
    → ((fat_init part_lba (some read_fn) st).0 ≡ divide_error)
      ↔ ((b : Mem) × ((read_fn part_lba 1 st).0 ≡ some b) × (le16 b 11 ≡ 512) × (byte b 13 ≡ 0))
unfolding fat_init mount bpb_at
fat_init_divides_by_zero_iff part_lba read_fn st = elim (Option-cases (read_fn part_lba 1 st).0) [
  | inl fails ↦ (λ e. cc (rw fails at e), λ (b, reads, bps, empty). cc (sym fails ∙ reads))
  | inr (b, reads) ↦ (
    λ e. let e' = rw reads at e in (b, reads, ground arith, ground arith),
    λ (b', reads', bps, none_in).
        let same : b' ≡ b = some_eq (sym reads' ∙ reads) in rw (reads, ← same) (ground arith),
  )
]

-- A mounted volume has sectors of 512 bytes and clusters of at least one sector.
pub ready-sectors :
    (part_lba : ℕ) (bpb : FatBpb) (fs : FatFs)
    → mount part_lba bpb ≡ ready fs
    → (fs.bytes_per_sec ≡ 512) × (0 < fs.sec_per_clus)
unfolding mount classify geometry
ready-sectors part_lba bpb fs h = ground arith

-- The first sector of a cluster of a mounted volume, with no wrap, and the end of the cluster.
cluster_exact :
    (part_lba cluster : ℕ) (bpb : FatBpb) (fs : FatFs)
    → IsVolume part_lba bpb
    → IsMounted part_lba bpb fs
    → 2 ≤ cluster
    → cluster < fs.total_clusters + 2
    → (cluster_to_lba fs cluster ≡ part_lba + overhead bpb + (cluster - 2) * bpb.sec_per_clus)
      × (cluster_to_lba fs cluster + bpb.sec_per_clus ≤ part_lba + volume_sectors bpb)
unfolding cluster_to_lba
cluster_exact part_lba cluster bpb fs v mounted two last =
    let p = bpb.sec_per_clus in
    let d = volume_sectors bpb - overhead bpb in
    let fill : d / p * p ≤ d = div-mul-le_self d p in
    let few : d / p ≤ d = div-le_self d p in
    let ends : suc (cluster - 2) * p ≤ d / p * p =
      mul-le-mul_right p (omega (arith, mounted.clusters)) in
    let number : (cluster + 4294967296 - 2) % 4294967296 ≡ cluster - 2 =
      omega (arith, mounted.clusters, v.addressable) in
    let exact : (part_lba + overhead bpb + (cluster - 2) * p) % 4294967296
        ≡ part_lba + overhead bpb + (cluster - 2) * p =
      omega (arith, v.addressable, v.areas_fit) in
    rw (mounted.data_sec, mounted.sec_per_clus, number, exact) (refl, omega (arith, v.areas_fit))

-- On a mounted volume each of its clusters, numbered from 2, lies in the data area and inside the
-- partition, and a cluster ends before the next one starts.
pub cluster_to_lba-in_volume :
    (part_lba cluster later : ℕ) (bpb : FatBpb) (fs : FatFs)
    → IsVolume part_lba bpb
    → IsMounted part_lba bpb fs
    → 2 ≤ cluster
    → cluster < later
    → later < fs.total_clusters + 2
    → (part_lba + overhead bpb ≤ cluster_to_lba fs cluster)
      × (cluster_to_lba fs cluster + bpb.sec_per_clus ≤ cluster_to_lba fs later)
      × (cluster_to_lba fs later + bpb.sec_per_clus ≤ part_lba + volume_sectors bpb)
cluster_to_lba-in_volume part_lba cluster later bpb fs v mounted two before last =
    let (at, _) = cluster_exact part_lba cluster bpb fs v mounted two (omega arith) in
    let (later_at, fits) = cluster_exact part_lba later bpb fs v mounted (omega arith) last in
    let step : suc (cluster - 2) * bpb.sec_per_clus ≤ (later - 2) * bpb.sec_per_clus =
      mul-le-mul_right bpb.sec_per_clus (omega arith) in
    (omega arith, omega arith, fits)
