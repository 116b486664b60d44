-- ===== src/Mkdisk/Files.antt =====
-- create_directory and write_file_data of tools/mkdisk.c.
pub mod Chain
pub mod Steps
pub mod Above
pub mod Root
use gemiboot.Base.{
  ℕ, zero, suc, ◌+◌, ◌-◌, ◌/◌, List, [], ◌∷◌, ltb, ◌==◌, if◌then◌else◌, Mem, blit, u32,
}
use gemiboot.Mkdisk.{
  Image, get_sector, cluster_to_lba, fat32_set_fat_entry, allocate_cluster, add_dir_entry,
  root_clus,
}

-- A directory's cluster, with the entries . and .. in it. The result of add_dir_entry is not used.
unfoldable pub create_directory : ℕ → List ℕ → Image → ℕ × Image
create_directory parent_clus name img =
    let (clus, img1) = allocate_cluster img in
    let img2 = (add_dir_entry parent_clus name 0x10 clus 0 img1).1 in
    let img3 = (add_dir_entry clus (b'.' ∷ []) 0x10 clus 0 img2).1 in
    let parent = if parent_clus == root_clus then 0 else parent_clus in
    (clus, (add_dir_entry clus (b'.' ∷ b'.' ∷ []) 0x10 parent 0 img3).1)

-- The variables of the loop of write_file_data; `src` is the index of the next byte of the data.
pub record Writing : Type 0 where
  pub image : Image
  pub first_clus : ℕ
  pub prev_clus : ℕ
  pub src : ℕ
  pub remaining : ℕ

-- The body of the loop in round `i`.
unfoldable pub write_cluster : Mem → ℕ → Writing → Writing
write_cluster data_bytes i w =
    let (clus, img) = allocate_cluster w.image in
    let copy_bytes = if ltb 2048 w.remaining then 2048 else w.remaining in
    let linked = if i == 0 then img else fat32_set_fat_entry w.prev_clus clus img in
    let copied =
      blit linked.g_disk (get_sector (cluster_to_lba linked clus)) (λ k. data_bytes (w.src + k))
        copy_bytes in
    let first = if i == 0 then clus else w.first_clus in
    if ltb 0 copy_bytes
    then record {
      image = record linked { g_disk = copied };
      first_clus = first;
      prev_clus = clus;
      src = w.src + copy_bytes;
      remaining = w.remaining - copy_bytes;
    }
    else record w { image = linked; first_clus = first; prev_clus = clus }

unfoldable pub write_clusters : ℕ → ℕ → Mem → Writing → Writing
write_clusters zero i data_bytes w = w
write_clusters (suc left) i data_bytes w =
    write_clusters left (i + 1) data_bytes (write_cluster data_bytes i w)

-- The data is not null: main has checked it. The result of add_dir_entry is not used.
unfoldable pub write_file_data : ℕ → List ℕ → Mem → ℕ → Image → ℕ × Image
write_file_data parent_clus name data_bytes size img =
    let num_clusters = u32 (size + 2048 - 1) / 2048 in
    let rounds = if num_clusters == 0 then 1 else num_clusters in
    let w =
      write_clusters rounds 0 data_bytes
        (record { image = img; first_clus = 0; prev_clus = 0; src = 0; remaining = size }) in
    let ended = fat32_set_fat_entry w.prev_clus 0x0fffffff w.image in
    (w.first_clus, (add_dir_entry parent_clus name 0x20 w.first_clus size ended).1)
