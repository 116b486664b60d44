-- ===== src/Fat/Examples.antt =====
-- A small FAT32 disk, and the theorems about the driver at that disk.
use gemiboot.Base.{
  le16, ℕ, suc, ◌+◌, ◌*◌, ◌≡◌, ◌≢◌, ◌≤◌, ◌<◌, ◌↔◌, inl, inr, refl, arith, none, some, List, [], ◌∷◌,
  replicate, get_or, ◌++◌, leb, ◌==◌, if◌then◌else◌, Mem, byte, Status, success, failure,
}
use gemiboot.Fat.Volume.{
  FatFs, FatBpb, DiskReadFn, ready, divide_error, mount, fat_init, cluster_to_lba,
  is_end_of_cluster_chain, fat_get_next_cluster,
}
use gemiboot.Fat.Volume.Geometry.{
  IsVolume, IsMounted, overhead, volume_sectors, mount-IsMounted, fat_init_divides_by_zero_iff,
  cluster_to_lba-in_volume,
}
use gemiboot.Fat.Name.{format_83_name}
use gemiboot.Fat.Find.{found, fat_find_file}
use gemiboot.Fat.Find.Flat.{run_byte}
use gemiboot.Fat.Find.Correct.{IsFirst, fat_find_file-IsFirst, fat_find_file-IsFirst_in_root}
use gemiboot.Fat.Read.{Progress, fat_read_file}
use gemiboot.Fat.Read.Frame.{fat_read_file-ne-none}
use gemiboot.Fat.Read.Contents.{fat_read_file-file_byte}
use gemiboot.Fat.Disk.{
  Disk, Serves, fat_entry, IsLink, IsChain, chain_end, chain_link, cluster_bytes, file_byte,
}
use gemiboot.Fat.Disk.Table.{fat_get_next_cluster-fat_entry}

-- A volume of 20000 sectors at sector 63, with a FAT16 root directory of 512 entries.
abbrev sample_bpb : FatBpb
sample_bpb = record {
  bytes_per_sec = 512;
  sec_per_clus = 4;
  rsvd_sec_cnt = 1;
  num_fats = 2;
  root_ent_cnt = 512;
  tot_sec_16 = 20000;
  fat_sz_16 = 20;
  tot_sec_32 = 0;
  fat_sz_32 = 0;
  root_clus = 0;
}

sample-IsVolume : IsVolume 63 sample_bpb
sample-IsVolume = record {
  sectors_of_512 = refl;
  has_clusters = omega arith;
  areas_fit = omega arith;
  addressable = omega arith;
}

mount-IsMounted_example :
    (fs : FatFs) × (mount 63 sample_bpb ≡ ready fs) × IsMounted 63 sample_bpb fs
mount-IsMounted_example = mount-IsMounted 63 sample_bpb sample-IsVolume

-- The mounted volume: 73 sectors before the data area, 4981 clusters.
abbrev sample_fs : FatFs
sample_fs = record {
  part_lba = 63;
  bytes_per_sec = 512;
  sec_per_clus = 4;
  rsvd_sec_cnt = 1;
  num_fats = 2;
  fat_size = 20;
  root_dir_sec = 104;
  root_ent_cnt = 512;
  data_sec = 136;
  total_sectors = 20000;
  total_clusters = 4981;
  root_clus = 0;
  fat_type = 16;
}

sample-IsMounted : IsMounted 63 sample_bpb sample_fs
sample-IsMounted = record {
  bytes_per_sec = refl;
  sec_per_clus = refl;
  root_dir_sec = refl;
  data_sec = refl;
  clusters = refl;
  fat_type = inr (inl (refl, omega arith, omega arith));
}

cluster_to_lba-in_volume_example :
    (63 + overhead sample_bpb ≤ cluster_to_lba sample_fs 2)
    × (cluster_to_lba sample_fs 2 + 4 ≤ cluster_to_lba sample_fs 3)
    × (cluster_to_lba sample_fs 3 + 4 ≤ 63 + volume_sectors sample_bpb)
cluster_to_lba-in_volume_example =
    cluster_to_lba-in_volume 63 2 3 sample_bpb sample_fs sample-IsVolume sample-IsMounted
      (omega arith) (omega arith) (omega arith)

-- Sector 1 is the allocation table: the root directory has cluster 2, a file the clusters 3 and 4.
abbrev table_bytes : List ℕ
table_bytes =
    replicate 8 0 ++ 0xff ∷ 0xff ∷ 0xff ∷ 0x0f ∷ 4 ∷ 0 ∷ 0 ∷ 0 ∷ 0xff ∷ 0xff ∷ 0xff ∷ 0x0f ∷ []

-- Sector 2 is the root directory, with a deleted entry and then the file A.B of 600 bytes.
abbrev root_bytes : List ℕ
root_bytes =
    0xe5 ∷ replicate 31 0
    ++ b'A' ∷ replicate 7 b' '
    ++ b'B' ∷ b' ' ∷ b' ' ∷ 32 ∷ replicate 8 0
    ++ 0 ∷ 0 ∷ 0 ∷ 0 ∷ 0 ∷ 0 ∷ 3 ∷ 0 ∷ 0x58 ∷ 2 ∷ 0 ∷ 0 ∷ []

abbrev tiny_disk : Disk
tiny_disk lba k =
    if lba == 1 then get_or table_bytes k 0 else if lba == 2 then get_or root_bytes k 0 else lba + k

-- The callback counts its calls.
abbrev tiny_read : DiskReadFn ℕ
tiny_read lba count calls = (some (tiny_disk lba), suc calls)

tiny-Serves : Serves tiny_read tiny_disk 5
tiny-Serves = record { reads = λ lba st h. (tiny_disk lba, refl, λ k lt. refl) }

abbrev tiny_fs : FatFs
tiny_fs = record {
  part_lba = 0;
  bytes_per_sec = 512;
  sec_per_clus = 1;
  rsvd_sec_cnt = 1;
  num_fats = 1;
  fat_size = 1;
  root_dir_sec = 2;
  root_ent_cnt = 16;
  data_sec = 2;
  total_sectors = 5;
  total_clusters = 3;
  root_clus = 2;
  fat_type = 32;
}

tiny-IsLink : (c : ℕ) → 2 ≤ c → c < 5 → IsLink tiny_fs 5 c
unfolding is_end_of_cluster_chain
tiny-IsLink c two five = record {
  is_data = ground arith;
  entry_on_disk = omega arith;
  sectors_on_disk = omega arith;
}

tiny_end : IsChain tiny_fs tiny_disk 5 0x0fffffff []
unfolding is_end_of_cluster_chain
tiny_end = chain_end refl

tiny_root : IsChain tiny_fs tiny_disk 5 2 (2 ∷ [])
unfolding fat_entry
tiny_root = chain_link (tiny-IsLink 2 (omega arith) (omega arith)) tiny_end

tiny_file : IsChain tiny_fs tiny_disk 5 3 (3 ∷ 4 ∷ [])
unfolding fat_entry
tiny_file =
    chain_link (tiny-IsLink 3 (omega arith) (omega arith))
      (chain_link (tiny-IsLink 4 (omega arith) (omega arith)) tiny_end)

fat_init_divides_by_zero_iff_example :
    ((fat_init 3 (some tiny_read) 0).0 ≡ divide_error)
    ↔ ((b : Mem) × (some (tiny_disk 3) ≡ some b) × (le16 b 11 ≡ 512) × (byte b 13 ≡ 0))
fat_init_divides_by_zero_iff_example = fat_init_divides_by_zero_iff 3 tiny_read 0

fat_get_next_cluster-fat_entry_example :
    (fat_get_next_cluster tiny_fs tiny_read 3 7).0 ≡ fat_entry tiny_fs tiny_disk 3
fat_get_next_cluster-fat_entry_example =
    fat_get_next_cluster-fat_entry tiny_fs tiny_read tiny_disk 5 3 7 refl (omega arith) tiny-Serves
      (tiny-IsLink 3 (omega arith) (omega arith))

-- The name a.b, in lower case.
abbrev tiny_name : List ℕ
tiny_name = b'a' ∷ b'.' ∷ b'b' ∷ []

fat_find_file-IsFirst_example :
    ((fat_find_file 2 tiny_fs tiny_read tiny_name (λ k. 0) 0).0 ≡ found 3 600) ↔ (
      (i : ℕ) × IsFirst
        (file_byte tiny_fs tiny_disk (2 ∷ []))
        (format_83_name tiny_name (λ k. 0))
        16
        0
        3
        600
        i)
fat_find_file-IsFirst_example =
    fat_find_file-IsFirst 2 5 3 600 tiny_fs tiny_read tiny_disk (2 ∷ []) tiny_name (λ k. 0) 0
      (omega arith) tiny-Serves refl tiny_root refl (omega arith) (omega arith)

abbrev tiny_fs16 : FatFs
tiny_fs16 = record tiny_fs { fat_type = 16 }

fat_find_file-IsFirst_in_root_example :
    ((fat_find_file 0 tiny_fs16 tiny_read tiny_name (λ k. 0) 0).0 ≡ found 3 600)
    ↔ ((i : ℕ) × IsFirst (run_byte tiny_disk 2) (format_83_name tiny_name (λ k. 0)) 16 0 3 600 i)
fat_find_file-IsFirst_in_root_example =
    fat_find_file-IsFirst_in_root 0 5 3 600 tiny_fs16 tiny_read tiny_disk tiny_name (λ k. 0) 0
      (omega arith) tiny-Serves (omega arith) refl (omega arith)

fat_read_file-file_byte_example :
    (r : Status × Progress ℕ) × (fat_read_file 3 tiny_fs tiny_read 3 600 0x200000 (λ k. 0) 0
      ≡ some r)
    × (r.0 ≡ (if leb 600 (2 * cluster_bytes tiny_fs) then success else failure))
    × (byte r.1.mem (0x200000 + 513) ≡ file_byte tiny_fs tiny_disk (3 ∷ 4 ∷ []) 513)
fat_read_file-file_byte_example =
    fat_read_file-file_byte 3 5 tiny_fs tiny_read tiny_disk 3 600 0x200000 513 (3 ∷ 4 ∷ []) (λ k. 0)
      0 (omega arith) tiny-Serves tiny_file refl (omega arith) (omega arith) (omega arith)
      (omega arith)

fat_read_file-ne-none_example : fat_read_file 601 tiny_fs tiny_read 3 600 0x200000 (λ k. 0) 0 ≢ none
fat_read_file-ne-none_example =
    fat_read_file-ne-none 601 tiny_fs tiny_read 3 600 0x200000 (λ k. 0) 0 (omega arith)
      (omega arith)
