-- ===== src/Fat/Read.antt =====
-- fat_read_file of src/common/fat.c: the bytes that it leaves at `dest` and its return value.
pub mod Frame
pub mod Contents
use gemiboot.Base.{
  ℕ, zero, suc, ◌+◌, ◌-◌, ◌*◌, Bool, true, false, not, ◌&&◌, Option, none, some, ltb, leb, ◌==◌,
  if◌then◌else◌, Mem, blit, u32, Status, success, failure,
}
use gemiboot.Fat.Volume.{
  FatFs, DiskReadFn, sector_size, cluster_to_lba, is_end_of_cluster_chain, fat_get_next_cluster,
}

-- The variables of the two loops, with the memory that holds the destination and the state of
-- the callback.
pub record Progress (S : Type 0) : Type 0 where
  pub bytes_remaining : ℕ
  pub dest : ℕ
  pub mem : Mem
  pub disk : S

-- `stopped` is a `return -1`, with the memory at that point. What a failing read leaves in the
-- destination is not modelled.
pub data Copied (S : Type 0) : Type 0 where
  going : Progress S → Copied S
  stopped : Progress S → Copied S

module _ {S : Type 0} (read_fn : DiskReadFn S) where
  -- One sector. A whole sector is read into the destination, a part of one through a buffer.
  unfoldable pub copy_sector : ℕ → Progress S → Copied S
  copy_sector lba p =
      let copy_len = if ltb sector_size p.bytes_remaining then sector_size else p.bytes_remaining in
      let (sector, disk) = read_fn lba 1 p.disk in
      elim sector [
        | none ↦ stopped (record p { disk = disk })
        | some b ↦ going (record {
          bytes_remaining = p.bytes_remaining - copy_len;
          dest = p.dest + copy_len;
          mem =
              if copy_len == sector_size
              then blit p.mem p.dest b sector_size
              else blit p.mem p.dest b copy_len;
          disk = disk;
        })
      ]

  -- The loop over the sectors of a cluster from index `s` on, with `left` sectors left.
  unfoldable pub copy_cluster : ℕ → ℕ → ℕ → Progress S → Copied S
  copy_cluster zero s clus_lba p = going p
  copy_cluster (suc left) s clus_lba p =
      let more : Copied S = elim (copy_sector (u32 (clus_lba + s)) p) [
        | stopped q ↦ stopped q
        | going q ↦ copy_cluster left (s + 1) clus_lba q
      ] in
      if ltb 0 p.bytes_remaining then more else going p

  -- The loop over the clusters; `none` means that the fuel ran out.
  unfoldable pub copy_chain : ℕ → FatFs → ℕ → Progress S → Option (Status × Progress S)
  copy_chain zero fs clus p = none
  copy_chain (suc fuel) fs clus p =
      let more : Option (Status × Progress S) =
        elim (copy_cluster fs.sec_per_clus 0 (cluster_to_lba fs clus) p) [
          | stopped q ↦ some (failure, q)
          | going q ↦
              let (next, disk) = fat_get_next_cluster fs read_fn clus q.disk in
              copy_chain fuel fs next (record q { disk = disk })
        ] in
      let result = if p.bytes_remaining == 0 then success else failure in
      if ltb 0 p.bytes_remaining && not (is_end_of_cluster_chain fs clus) && leb 2 clus
      then more
      else some (result, p)

unfoldable pub fat_read_file :
    {S : Type 0} → ℕ → FatFs → DiskReadFn S → ℕ → ℕ → ℕ → Mem → S → Option (Status × Progress S)
fat_read_file fuel fs read_fn first_cluster file_size dest_buffer m st =
    copy_chain read_fn fuel fs first_cluster
      (record { bytes_remaining = file_size; dest = dest_buffer; mem = m; disk = st })
