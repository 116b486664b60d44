-- ===== src/Fat/Find.antt =====
-- fat_find_file of src/common/fat.c.
pub mod Flat
pub mod Correct
use gemiboot.Base.{
  ℕ, zero, suc, ◌+◌, ◌-◌, ◌*◌, ◌/◌, ◌%◌, Bool, true, false, not, ◌&&◌, ◌||◌, Option, none, some,
  List, leb, ◌==◌, if◌then◌else◌, Mem, byte, le16, le32, u32, ℤ, pos, negsuc,
}
use gemiboot.Str.{memcmp}
use gemiboot.Fat.Volume.{
  FatFs, DiskReadFn, sector_size, cluster_to_lba, is_end_of_cluster_chain, fat_get_next_cluster,
}
use gemiboot.Fat.Name.{format_83_name}

-- struct fat_dir_entry, at offset `at` of a sector.
abbrev pub entry_size : ℕ
entry_size = 32

abbrev pub attr_at : Mem → ℕ → ℕ
attr_at b at = byte b (at + 11)

-- ((uint32_t)entry->fst_clus_hi << 16) | entry->fst_clus_lo
abbrev pub first_cluster_at : Mem → ℕ → ℕ
first_cluster_at b at = 65536 * le16 b (at + 20) + le16 b (at + 26)

abbrev pub file_size_at : Mem → ℕ → ℕ
file_size_at b at = le32 b (at + 28)

-- `found` is the return value 0 with the first cluster and the size of the file, `absent` the
-- return value -1, and `searching` no return yet. `out_of_fuel` is no outcome of the code.
pub data Search : Type 0 where
  found : ℕ → ℕ → Search
  absent searching out_of_fuel : Search

-- `memcmp(…) == 0`
abbrev pub is_zero : ℤ → Bool
is_zero (pos n) = n == 0
is_zero (negsuc n) = false

-- FAT_ATTR_VOLUME_ID is bit 3.
abbrev pub is_skipped : Mem → ℕ → Bool
is_skipped b at = byte b at == 0xe5 || (attr_at b at / 8) % 2 == 1

-- The loop over the entries of a sector from offset `at` on, with `left` entries left.
unfoldable pub scan_entries : ℕ → ℕ → Mem → Mem → Search
scan_entries zero at b target_83 = searching
scan_entries (suc left) at b target_83 =
    let rest = scan_entries left (at + entry_size) b target_83 in
    if byte b at == 0
    then absent
    else if is_skipped b at
    then rest
    else if is_zero (memcmp (λ k. b (at + k)) target_83 11)
    then found (first_cluster_at b at) (file_size_at b at)
    else rest

-- A result ends the function; without one it goes on.
abbrev pub proceed : {S : Type 0} → Search → S → Search × S → Search × S
proceed searching st rest = rest
proceed result st rest = (result, st)

module _ {S : Type 0} (read_fn : DiskReadFn S) (target_83 : Mem) where
  -- The loop over `left` sectors from index `s` of a run that starts at `lba`.
  unfoldable pub scan_sectors : ℕ → ℕ → ℕ → S → Search × S
  scan_sectors zero s lba st = (searching, st)
  scan_sectors (suc left) s lba st =
      let (sector, st') = read_fn (u32 (lba + s)) 1 st in
      elim sector [
        | none ↦ (absent, st')
        | some b ↦
            let rest = scan_sectors left (s + 1) lba st' in
            proceed (scan_entries (sector_size / entry_size) 0 b target_83) st' rest
      ]

  -- The walk along the cluster chain of the root directory on FAT32.
  unfoldable pub scan_chain : ℕ → FatFs → ℕ → S → Search × S
  scan_chain zero fs clus st = (out_of_fuel, st)
  scan_chain (suc fuel) fs clus st =
      let (result, st') = scan_sectors fs.sec_per_clus 0 (cluster_to_lba fs clus) st in
      let (next, st'') = fat_get_next_cluster fs read_fn clus st' in
      let rest = scan_chain fuel fs next st'' in
      let walk = proceed result st' rest in
      if not (is_end_of_cluster_chain fs clus) && leb 2 clus then walk else (absent, st)

-- A search that is over by the end of the loops returns -1. The two result pointers are not null.
abbrev pub finish : {S : Type 0} → Search × S → Search × S
finish (searching, st) = (absent, st)
finish r = r

unfoldable pub fat_find_file :
    {S : Type 0} → ℕ → FatFs → DiskReadFn S → List ℕ → Mem → S → Search × S
fat_find_file fuel fs read_fn filename buffer st =
    let target_83 = format_83_name filename buffer in
    let root_sectors = (fs.root_ent_cnt * 32 + (fs.bytes_per_sec - 1)) / fs.bytes_per_sec in
    if fs.fat_type == 32
    then scan_chain read_fn target_83 fuel fs fs.root_clus st
    else finish (scan_sectors read_fn target_83 root_sectors 0 fs.root_dir_sec st)
