-- ===== src/Fat/Volume.antt =====
-- fat_init, cluster_to_lba, fat_get_next_cluster and is_end_of_cluster_chain of
-- src/common/fat.c. A disk read goes through the callback, which may change a state of its own.
pub mod Geometry
use gemiboot.Base.{
  ℕ, ◌+◌, ◌-◌, ◌*◌, ◌/◌, ◌%◌, ◌≡◌, ◌≤◌, Bool, Option, none, some, ltb, leb, ◌==◌, if◌then◌else◌,
  Mem, byte, le16, le32, u32, sub32,
}

-- fat_fs_t
pub record FatFs : Type 0 where
  pub part_lba : ℕ
  pub bytes_per_sec : ℕ
  pub sec_per_clus : ℕ
  pub rsvd_sec_cnt : ℕ
  pub num_fats : ℕ
  pub fat_size : ℕ
  pub root_dir_sec : ℕ
  pub root_ent_cnt : ℕ
  pub data_sec : ℕ
  pub total_sectors : ℕ
  pub total_clusters : ℕ
  pub root_clus : ℕ
  pub fat_type : ℕ

-- disk_read_fn: a logical block address and a count of sectors, over the state of the callback.
-- `some b` is the return value 0 with the bytes `b` put into the buffer, `none` any other.
abbrev pub DiskReadFn : Type 0 → Type 0
DiskReadFn S = ℕ → ℕ → S → Option Mem × S

abbrev pub sector_size : ℕ
sector_size = 512

-- The fields of struct fat_bpb (src/include/fat.h) that the code reads, from a sector.
pub record FatBpb : Type 0 where
  pub bytes_per_sec : ℕ
  pub sec_per_clus : ℕ
  pub rsvd_sec_cnt : ℕ
  pub num_fats : ℕ
  pub root_ent_cnt : ℕ
  pub tot_sec_16 : ℕ
  pub fat_sz_16 : ℕ
  pub tot_sec_32 : ℕ
  pub fat_sz_32 : ℕ
  pub root_clus : ℕ

unfoldable pub bpb_at : Mem → FatBpb
bpb_at b = record {
  bytes_per_sec = le16 b 11;
  sec_per_clus = byte b 13;
  rsvd_sec_cnt = le16 b 14;
  num_fats = byte b 16;
  root_ent_cnt = le16 b 17;
  tot_sec_16 = le16 b 19;
  fat_sz_16 = le16 b 22;
  tot_sec_32 = le32 b 32;
  fat_sz_32 = le32 b 36;
  root_clus = le32 b 44;
}

-- What fat_init does: it returns 0 with the structure filled, or -1, or the processor raises the
-- divide error of `data_sectors / fs->sec_per_clus`.
pub data Init : Type 0 where
  ready : FatFs → Init
  failed : Init
  divide_error : Init

-- The fields that fat_init computes before it chooses the FAT type; the rest is 0 by the memset.
unfoldable pub geometry : ℕ → FatBpb → FatFs
geometry part_lba bpb =
    let total_sectors = if bpb.tot_sec_16 == 0 then bpb.tot_sec_32 else bpb.tot_sec_16 in
    let fat_size = if bpb.fat_sz_16 == 0 then bpb.fat_sz_32 else bpb.fat_sz_16 in
    let root_dir_sectors = (bpb.root_ent_cnt * 32 + (bpb.bytes_per_sec - 1)) / bpb.bytes_per_sec in
    let root_dir_sec = u32 (part_lba + bpb.rsvd_sec_cnt + bpb.num_fats * fat_size) in
    let data_sectors =
      sub32 total_sectors (u32 (bpb.rsvd_sec_cnt + bpb.num_fats * fat_size + root_dir_sectors)) in
    record {
      part_lba = part_lba;
      bytes_per_sec = bpb.bytes_per_sec;
      sec_per_clus = bpb.sec_per_clus;
      rsvd_sec_cnt = bpb.rsvd_sec_cnt;
      num_fats = bpb.num_fats;
      fat_size = fat_size;
      root_dir_sec = root_dir_sec;
      root_ent_cnt = bpb.root_ent_cnt;
      data_sec = u32 (root_dir_sec + root_dir_sectors);
      total_sectors = total_sectors;
      total_clusters = data_sectors / bpb.sec_per_clus;
      root_clus = 0;
      fat_type = 0;
    }

-- The choice of the FAT type.
unfoldable pub classify : FatBpb → FatFs → FatFs
classify bpb fs =
    if ltb fs.total_clusters 4085
    then record fs { fat_type = 12 }
    else if ltb fs.total_clusters 65525
    then record fs { fat_type = 16 }
    else record fs { fat_type = 32; root_clus = bpb.root_clus }

-- The part of fat_init after the sector is read. The division is by the sectors of a cluster.
unfoldable pub mount : ℕ → FatBpb → Init
mount part_lba bpb =
    if bpb.bytes_per_sec == sector_size
    then (if bpb.sec_per_clus == 0
        then divide_error
        else ready (classify bpb (geometry part_lba bpb)))
    else failed

-- `none` for the callback is a null pointer. The structure is the result, so it has no pointer.
unfoldable pub fat_init : {S : Type 0} → ℕ → Option (DiskReadFn S) → S → Init × S
fat_init part_lba none st = (failed, st)
fat_init part_lba (some read_fn) st =
    let (sector, st') = read_fn part_lba 1 st in
    (elim sector [ none ↦ failed | some b ↦ mount part_lba (bpb_at b) ], st')

unfoldable pub cluster_to_lba : FatFs → ℕ → ℕ
cluster_to_lba fs cluster = u32 (fs.data_sec + sub32 cluster 2 * fs.sec_per_clus)

unfoldable pub is_end_of_cluster_chain : FatFs → ℕ → Bool
is_end_of_cluster_chain fs cluster =
    if fs.fat_type == 32
    then leb 0x0ffffff8 cluster
    else if fs.fat_type == 16
    then leb 0xfff8 cluster
    else leb 0xff8 cluster

-- `& 0x0FFFFFFF` keeps the low 28 bits.
unfoldable pub fat_get_next_cluster : {S : Type 0} → FatFs → DiskReadFn S → ℕ → S → ℕ × S
fat_get_next_cluster fs read_fn cluster st =
    let offset32 = u32 (cluster * 4) in
    let offset16 = u32 (cluster * 2) in
    let sector = λ (offset : ℕ).
      read_fn (u32 (fs.part_lba + fs.rsvd_sec_cnt + offset / fs.bytes_per_sec)) 1 st in
    if fs.fat_type == 32
    then (
      elim (sector offset32).0 [
        | none ↦ 0x0fffffff
        | some b ↦ le32 b (offset32 % fs.bytes_per_sec) % 0x10000000
      ],
      (sector offset32).1,
    )
    else if fs.fat_type == 16
    then (
      elim (sector offset16).0 [ none ↦ 0xffff | some b ↦ le16 b (offset16 % fs.bytes_per_sec) ],
      (sector offset16).1,
    )
    else (0x0fffffff, st)
