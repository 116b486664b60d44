-- ===== src/Mkdisk/Files/Steps.antt =====
-- The image of write_file_data of tools/mkdisk.c in front of its call of add_dir_entry.
use gemiboot.Base.{
  ◌∙◌, ℕ, ◌+◌, ◌-◌, ◌*◌, ◌/◌, ◌%◌, ◌≡◌, ◌≤◌, ◌<◌, inr, refl, arith, Mem, ◌==◌, if◌then◌else◌, List,
}
use mathlib.Core.Path.{subst}
use gemiboot.Mkdisk.{Image, fat32_set_fat_entry, add_dir_entry}
use gemiboot.Mkdisk.Frame.{
  cluster_at, HasLayout, Kept, Kept-trans, set-HasLayout, set-next_free, set-Kept, link_of-Kept,
}
use gemiboot.Mkdisk.Entries.Add.{Keeps}
use gemiboot.Mkdisk.Files.{Writing, write_clusters, write_file_data}
use gemiboot.Mkdisk.Files.Chain.{HasFile, Written}
use gemiboot.Mkdisk.Files.Chain.Rounds.{write_clusters-Written, write_clusters-HasFile}

-- The clusters of a file of `size` bytes; an empty one has a cluster as well.
abbrev pub clusters_of : ℕ → ℕ
clusters_of size = if size == 0 then 1 else (size + 2047) / 2048

nothing_before : (j : ℕ) → ¬ (j < 0)
nothing_before j lt = omega arith

-- A file stays in the image when what is below the cluster behind it is kept.
pub HasFile-Kept :
    (m m' data_bytes : Mem) (first n f r size : ℕ)
    → 3 ≤ first
    → 0 < n
    → first + n ≤ f
    → size ≤ n * 2048
    → Kept f r m m'
    → HasFile m first n data_bytes size
    → HasFile m' first n data_bytes size
HasFile-Kept m m' data_bytes first n f r size three pos below room h file = record {
  links = λ j lt. link_of-Kept f r (first + j) m m' h (omega arith) ∙ file.links j lt;
  last = link_of-Kept f r (first + (n - 1)) m m' h (omega arith) ∙ file.last;
  bytes = λ k lt. h (cluster_at first + k) (inr (inr (omega arith, omega arith))) ∙ file.bytes k lt;
}

-- The image of write_file_data in front of its call of add_dir_entry.
abbrev pub with_clusters : Mem → ℕ → Image → Image
with_clusters data_bytes size img =
    let w =
      write_clusters (clusters_of size) 0 data_bytes
        (record { image = img; first_clus = 0; prev_clus = 0; src = 0; remaining = size }) in
    fat32_set_fat_entry w.prev_clus 0x0fffffff w.image

module _ (data_bytes : Mem) (size : ℕ) (img : Image) where
  loop-Written :
      HasLayout img
      → 3 ≤ img.g_next_free_clus
      → img.g_next_free_clus + clusters_of size ≤ 130044
      → Written img data_bytes size (clusters_of size) (
          write_clusters
            (clusters_of size)
            0
            data_bytes
            (record { image = img; first_clus = 0; prev_clus = 0; src = 0; remaining = size }))
  loop-Written l three small =
      let n = clusters_of size in
      let e : 0 + n ≡ n = omega arith in
      let none_yet : 0 * 2048 ≡ 0 = omega arith in
      let room : (0 + n) * 2048 ≤ size + 2048 = ground arith in
      let w : Writing = record {
        image = img;
        first_clus = 0;
        prev_clus = 0;
        src = 0;
        remaining = size;
      } in
      let start : Written img data_bytes size 0 w = record {
        layout = l;
        next_free = omega arith;
        first = λ lt. absurd (nothing_before 0 lt);
        prev = λ lt. absurd (nothing_before 0 lt);
        src = omega (arith, none_yet);
        remaining = omega arith;
        kept = λ x below. refl;
        links = λ j lt. absurd (nothing_before (j + 1) lt);
        bytes = λ k lt. absurd (nothing_before k lt);
      } in
      subst (λ (k : ℕ). Written img data_bytes size k (write_clusters n 0 data_bytes w)) e
        (write_clusters-Written img data_bytes size n 0 w three (omega arith) room start)

  pub with_clusters-HasFile :
      HasLayout img
      → 3 ≤ img.g_next_free_clus
      → img.g_next_free_clus + clusters_of size ≤ 130044
      → HasFile
          (with_clusters data_bytes size img).g_disk
          img.g_next_free_clus
          (clusters_of size)
          data_bytes
          size
  with_clusters-HasFile l three small =
      write_clusters-HasFile img data_bytes size (clusters_of size) _ (ground arith) (ground arith)
        three small (loop-Written l three small)

  pub with_clusters-Keeps :
      (f : ℕ)
      → HasLayout img
      → 3 ≤ f
      → f ≤ img.g_next_free_clus
      → img.g_next_free_clus + clusters_of size ≤ 130044
      → Keeps f 64 (clusters_of size) img (with_clusters data_bytes size img)
  with_clusters-Keeps f l three le small =
      let h = loop-Written l (omega arith) small in
      let w =
        write_clusters (clusters_of size) 0 data_bytes
          (record { image = img; first_clus = 0; prev_clus = 0; src = 0; remaining = size }) in
      let pos : 0 < clusters_of size = ground arith in
      let prev = h.prev pos in
      record {
        layout = set-HasLayout w.image w.prev_clus 0x0fffffff h.layout;
        next_free = set-next_free w.image w.prev_clus 0x0fffffff ∙ h.next_free;
        kept =
            Kept-trans f 64 f 64 img.g_disk w.image.g_disk _ (omega arith) (omega arith)
              (λ x below. h.kept x (omega arith))
              (set-Kept w.image w.prev_clus 0x0fffffff f 64 h.layout (omega arith) (omega arith));
      }

  -- write_file_data returns the first of the clusters and adds an entry for them.
  pub write_file_data-with_clusters :
      (parent : ℕ) (name : List ℕ)
      → HasLayout img
      → 3 ≤ img.g_next_free_clus
      → img.g_next_free_clus + clusters_of size ≤ 130044
      → write_file_data parent name data_bytes size img ≡ (
        img.g_next_free_clus,
        (add_dir_entry parent name 0x20 img.g_next_free_clus size
            (with_clusters data_bytes size img)).1,
      )
  unfolding write_file_data
  write_file_data-with_clusters parent name l three small =
      let h = loop-Written l three small in
      let rounds : (if (size + 2048 - 1) % 4294967296 / 2048 == 0
            then 1
            else (size + 2048 - 1) % 4294967296 / 2048)
          ≡ clusters_of size =
        ground arith in
      let first = h.first (ground arith) in rw (rounds, first) refl
