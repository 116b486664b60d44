-- ===== src/Mkdisk/Frame/Allocate.antt =====
-- allocate_cluster of tools/mkdisk.c.
use gemiboot.Base.{
  ◌∙◌, ap, ℕ, ◌+◌, ◌%◌, ◌≡◌, ◌≤◌, ◌<◌, inl, refl, arith, byte, blit_in, blit_out, u32,
}
use gemiboot.Str.{memset}
use gemiboot.Str.Copy.{memset-blit}
use gemiboot.Mkdisk.{Image, get_sector, cluster_to_lba, fat32_set_fat_entry, allocate_cluster}
use gemiboot.Mkdisk.Frame.{
  cluster_at, HasLayout, Kept, set-HasLayout, set-next_free, set-Kept, cluster-exact, link_of,
  link_of-set, link_of-same,
}

-- What allocate_cluster does: the next cluster, marked as an end, and filled with zeros.
pub record HasAllocated (img img' : Image) : Type 0 where
  pub layout : HasLayout img'
  pub next_free : img'.g_next_free_clus ≡ img.g_next_free_clus + 1
  pub marked : link_of img'.g_disk img.g_next_free_clus ≡ 0x0fffffff
  pub kept : Kept img.g_next_free_clus 64 img.g_disk img'.g_disk
  pub cleared : (k : ℕ) → k < 2048 → byte img'.g_disk (cluster_at img.g_next_free_clus + k) ≡ 0

pub allocate_cluster-HasAllocated :
    (img : Image)
    → HasLayout img
    → 3 ≤ img.g_next_free_clus
    → img.g_next_free_clus < 130044
    → ((allocate_cluster img).0 ≡ img.g_next_free_clus) × HasAllocated img (allocate_cluster img).1
unfolding allocate_cluster
allocate_cluster-HasAllocated img l three small =
    let c = img.g_next_free_clus in
    let start : Image = record img { g_next_free_clus = u32 (c + 1) } in
    let sl : HasLayout start = record {
      fat_start = l.fat_start;
      fat_size = l.fat_size;
      data_start = l.data_start;
    } in
    let marked = fat32_set_fat_entry c 0x0fffffff start in
    let ml = set-HasLayout start c 0x0fffffff sl in
    let a = get_sector (cluster_to_lba marked c) in
    let at : a ≡ cluster_at c = cluster-exact marked c ml (omega arith) (omega arith) in
    let set = set-Kept start c 0x0fffffff c 64 sl (omega arith) (omega arith) in
    let clear_out : (x : ℕ)
        → x < cluster_at c
        → byte (memset a 0 2048 marked.g_disk) x ≡ byte marked.g_disk x =
      λ x below.
        memset-blit a 0 2048 marked.g_disk x
        ∙ ap (λ (v : ℕ). v % 256)
            (blit_out marked.g_disk a (λ _. 0) 2048 x (inl (omega (arith, at)))) in
    (
      refl,
      record {
        layout = record {
          fat_start = ml.fat_start;
          fat_size = ml.fat_size;
          data_start = ml.data_start;
        };
        next_free = set-next_free start c 0x0fffffff ∙ omega arith;
        marked =
            link_of-same c marked.g_disk _ (λ x above below. clear_out x (omega arith))
            ∙ link_of-set start c 0x0fffffff sl (omega arith);
        kept = λ x below. clear_out x (omega arith) ∙ set x below;
        cleared = λ k lt.
            memset-blit a 0 2048 marked.g_disk (cluster_at c + k)
            ∙ ap (λ (v : ℕ). v % 256)
                (blit_in marked.g_disk a (λ _. 0) 2048 (cluster_at c + k) (omega (arith, at))
                  (omega (arith, at)));
      },
    )
