-- ===== src/Mkdisk/Files/Chain.antt =====
-- The clusters that write_file_data of tools/mkdisk.c writes.
pub mod Rounds
use gemiboot.Base.{
  sym, ◌∙◌, ap, min, ℕ, zero, suc, ◌+◌, ◌-◌, ◌*◌, ◌/◌, ◌%◌, ◌≡◌, ◌≢◌, ◌≤◌, ◌<◌, ◌⊎◌, inl, inr, refl,
  arith, Mem, byte, blit, blit_in, blit_out, ltb, ◌==◌, if◌then◌else◌, lt_or_le, lt→ltb, le→not_ltb,
  Bool-cases, true, false, u32,
}
use mathlib.Core.Path.{subst}
use gemiboot.Mkdisk.{Image, get_sector, cluster_to_lba, fat32_set_fat_entry, allocate_cluster}
use gemiboot.Mkdisk.Frame.{
  table_at, data_at, cluster_at, HasLayout, Kept, Kept-trans, Kept-weaken, set-HasLayout,
  set-next_free, set_out, set-Kept, cluster-exact, link_of, link_of-set, link_of-set_apart,
  link_of-same, link_of-Kept,
}
use gemiboot.Mkdisk.Frame.Allocate.{HasAllocated, allocate_cluster-HasAllocated}
use gemiboot.Mkdisk.Files.{Writing, write_cluster, write_clusters}

-- A file in the image: `n` clusters from `first` on, one after the other, each linked to the next
-- and the last marked as the end, with the bytes of the data in them.
pub record HasFile (m : Mem) (first n : ℕ) (data_bytes : Mem) (size : ℕ) : Type 0 where
  pub links : (j : ℕ) → j + 1 < n → link_of m (first + j) ≡ first + j + 1
  pub last : link_of m (first + (n - 1)) ≡ 0x0fffffff
  pub bytes : (k : ℕ) → k < size → byte m (cluster_at first + k) ≡ byte data_bytes k

module _ (img0 : Image) (data_bytes : Mem) (size : ℕ) where
  -- Round `i` after its cluster is allocated and linked, with `src` bytes written before.
  pub record IsLinked (i src : ℕ) (img : Image) : Type 0 where
    pub layout : HasLayout img
    pub next_free : img.g_next_free_clus ≡ img0.g_next_free_clus + i + 1
    pub kept : Kept img0.g_next_free_clus 64 img0.g_disk img.g_disk
    pub links :
        (j : ℕ)
        → j < i
        → link_of img.g_disk (img0.g_next_free_clus + j) ≡ img0.g_next_free_clus + j + 1
    pub bytes :
        (k : ℕ)
        → k < src
        → byte img.g_disk (cluster_at img0.g_next_free_clus + k) ≡ byte data_bytes k

  -- The variables of the loop before round `i`.
  pub record Written (i : ℕ) (w : Writing) : Type 0 where
    pub layout : HasLayout w.image
    pub next_free : w.image.g_next_free_clus ≡ img0.g_next_free_clus + i
    pub first : 0 < i → w.first_clus ≡ img0.g_next_free_clus
    pub prev : 0 < i → w.prev_clus + 1 ≡ img0.g_next_free_clus + i
    pub src : w.src ≡ min (i * 2048) size
    pub remaining : w.remaining + w.src ≡ size
    pub kept : Kept img0.g_next_free_clus 64 img0.g_disk w.image.g_disk
    pub links :
        (j : ℕ)
        → j + 1 < i
        → link_of w.image.g_disk (img0.g_next_free_clus + j) ≡ img0.g_next_free_clus + j + 1
    pub bytes :
        (k : ℕ)
        → k < w.src
        → byte w.image.g_disk (cluster_at img0.g_next_free_clus + k) ≡ byte data_bytes k

  -- The bytes of the file's clusters before cluster `f + i` survive its allocation.
  allocated-bytes :
      (i : ℕ) (w : Writing)
      → 3 ≤ img0.g_next_free_clus
      → i * 2048 ≤ size
      → Written i w
      → HasAllocated w.image (allocate_cluster w.image).1
      → (k : ℕ) → k < w.src
      → byte (allocate_cluster w.image).1.g_disk (cluster_at img0.g_next_free_clus + k)
        ≡ byte data_bytes k
  allocated-bytes i w three room h a k lt =
      a.kept (cluster_at img0.g_next_free_clus + k)
        (inr (inr (omega arith, omega (arith, h.src, h.next_free))))
      ∙ h.bytes k lt

  allocated-Kept :
      (i : ℕ) (w : Writing)
      → Written i w
      → HasAllocated w.image (allocate_cluster w.image).1
      → Kept img0.g_next_free_clus 64 img0.g_disk (allocate_cluster w.image).1.g_disk
  allocated-Kept i w h a =
      Kept-trans img0.g_next_free_clus 64 w.image.g_next_free_clus 64 img0.g_disk w.image.g_disk _
        (omega (arith, h.next_free)) (omega arith) h.kept a.kept

  pub first-IsLinked :
      (w : Writing)
      → 3 ≤ img0.g_next_free_clus
      → Written 0 w
      → HasAllocated w.image (allocate_cluster w.image).1
      → IsLinked 0 w.src (allocate_cluster w.image).1
  first-IsLinked w three h a = record {
    layout = a.layout;
    next_free = omega (arith, a.next_free, h.next_free);
    kept = allocated-Kept 0 w h a;
    links = λ j lt. absurd (omega arith);
    bytes = allocated-bytes 0 w three (omega arith) h a;
  }

  pub next-IsLinked :
      (i : ℕ) (w : Writing)
      → 3 ≤ img0.g_next_free_clus
      → 0 < i
      → img0.g_next_free_clus + i < 130044
      → i * 2048 ≤ size
      → Written i w
      → HasAllocated w.image (allocate_cluster w.image).1
      → IsLinked i w.src
          (fat32_set_fat_entry w.prev_clus (img0.g_next_free_clus + i) (allocate_cluster w.image).1)
  next-IsLinked i w three pos small room h a =
      let img = (allocate_cluster w.image).1 in
      let f = img0.g_next_free_clus in
      let p = w.prev_clus in
      let c = f + i in
      let prev = h.prev pos in
      let in_table : p < 130560 = omega arith in
      record {
        layout = set-HasLayout img p c a.layout;
        next_free = set-next_free img p c ∙ omega (arith, a.next_free, h.next_free);
        kept =
            Kept-trans f 64 f 64 img0.g_disk img.g_disk _ (omega arith) (omega arith)
              (allocated-Kept i w h a) (set-Kept img p c f 64 a.layout in_table (omega arith));
        links = λ j lt. elim (lt_or_le (j + 1) i) [
          | inl before ↦
              link_of-set_apart img p (f + j) c a.layout in_table (omega arith) (omega arith)
              ∙ link_of-Kept w.image.g_next_free_clus 64 (f + j) w.image.g_disk img.g_disk a.kept
                  (omega (arith, h.next_free))
              ∙ h.links j before
          | inr here ↦
              let at_prev : f + j ≡ p = omega arith in
              ap (link_of (fat32_set_fat_entry p c img).g_disk) at_prev
              ∙ link_of-set img p c a.layout in_table
              ∙ omega (arith, h.next_free)
        ];
        bytes = λ k lt.
            set_out img p c (cluster_at f + k) a.layout in_table (inr (inr (omega arith)))
            ∙ allocated-bytes i w three room h a k lt;
      }
