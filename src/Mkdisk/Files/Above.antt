-- ===== src/Mkdisk/Files/Above.antt =====
-- What write_file_data and create_directory of tools/mkdisk.c do with a directory above the
-- clusters of interest, or with the root directory.
use gemiboot.Base.{ℕ, ◌+◌, ◌≡◌, ◌≤◌, ◌<◌, arith, Mem, ◌==◌, if◌then◌else◌, List, [], ◌∷◌}
use gemiboot.Mkdisk.{Image, allocate_cluster, add_dir_entry}
use gemiboot.Mkdisk.Frame.{data_at, HasLayout, Kept-weaken}
use gemiboot.Mkdisk.Frame.Allocate.{allocate_cluster-HasAllocated}
use gemiboot.Mkdisk.Entries.{InUse}
use gemiboot.Mkdisk.Entries.Add.{
  Keeps, Keeps-more, Keeps-weaken, InUse-Kept, add_dir_entry-Keeps_above, add_dir_entry-Keeps_root,
}
use gemiboot.Mkdisk.Files.{write_file_data, create_directory}
use gemiboot.Mkdisk.Files.Steps.{
  clusters_of, with_clusters, with_clusters-Keeps, write_file_data-with_clusters,
}

pub write_file_data-Keeps_above :
    (parent f size : ℕ) (name : List ℕ) (data_bytes : Mem) (img : Image)
    → HasLayout img
    → 3 ≤ f
    → f ≤ parent
    → parent < 130044
    → f ≤ img.g_next_free_clus
    → img.g_next_free_clus + clusters_of size ≤ 130044
    → Keeps f 64 (clusters_of size) img (write_file_data parent name data_bytes size img).1
write_file_data-Keeps_above parent f size name data_bytes img l three le small above fits =
    let written = with_clusters-Keeps data_bytes size img f l three above fits in
    let added =
      add_dir_entry-Keeps_above parent f 0x20 img.g_next_free_clus size name
        (with_clusters data_bytes size img) written.layout three le small in
    let e = write_file_data-with_clusters data_bytes size img parent name l (omega arith) fits in
    rw e (Keeps-more f 64 (clusters_of size) img _ _ written added)

-- The entries of a new directory, and the one for it, where `dir` keeps what is below cluster `f`.
create_directory-Keeps :
    (parent f r : ℕ) (name : List ℕ) (img : Image)
    → HasLayout img
    → 3 ≤ f
    → r ≤ 64
    → f ≤ img.g_next_free_clus
    → img.g_next_free_clus < 130044
    → ((img' : Image)
        → Keeps f r 1 img img'
        → Keeps f r 0 img' (add_dir_entry parent name 0x10 img.g_next_free_clus 0 img').1)
    → ((create_directory parent name img).0 ≡ img.g_next_free_clus)
      × Keeps f r 1 img (create_directory parent name img).1
unfolding create_directory
create_directory-Keeps parent f r name img l three few above small in_parent =
    let (clus, a) = allocate_cluster-HasAllocated img l (omega arith) small in
    let new : Keeps f r 1 img (allocate_cluster img).1 = record {
      layout = a.layout;
      next_free = a.next_free;
      kept = Kept-weaken f r img.g_next_free_clus 64 img.g_disk _ above few a.kept;
    } in
    let c = img.g_next_free_clus in
    let in_new = λ (name' : List ℕ) (first : ℕ) (img' : Image) (h : Keeps f r 1 img img').
      Keeps-more f r 1 img img' _ h (
        Keeps-weaken f r f 64 0 img' _ (omega arith) few
          (add_dir_entry-Keeps_above c f 0x10 first 0 name' img' h.layout three above small)) in
    let entered = Keeps-more f r 1 img _ _ new (in_parent _ new) in
    let self = in_new (b'.' ∷ []) c _ entered in
    (clus, rw clus (in_new (b'.' ∷ b'.' ∷ []) (if parent == 2 then 0 else parent) _ self))

pub create_directory-Keeps_above :
    (parent f : ℕ) (name : List ℕ) (img : Image)
    → HasLayout img
    → 3 ≤ f
    → f ≤ parent
    → parent < 130044
    → f ≤ img.g_next_free_clus
    → img.g_next_free_clus < 130044
    → ((create_directory parent name img).0 ≡ img.g_next_free_clus)
      × Keeps f 64 1 img (create_directory parent name img).1
create_directory-Keeps_above parent f name img l three le fits above small =
    create_directory-Keeps parent f 64 name img l three (omega arith) above small (λ img' h.
      add_dir_entry-Keeps_above parent f 0x10 img.g_next_free_clus 0 name img' h.layout three le
        fits)

pub create_directory-Keeps_root :
    (f r : ℕ) (name : List ℕ) (img : Image)
    → HasLayout img
    → 3 ≤ f
    → r ≤ 64
    → f ≤ img.g_next_free_clus
    → img.g_next_free_clus < 130044
    → InUse img.g_disk data_at r
    → ((create_directory 2 name img).0 ≡ img.g_next_free_clus)
      × Keeps f r 1 img (create_directory 2 name img).1
create_directory-Keeps_root f r name img l three few above small used =
    create_directory-Keeps 2 f r name img l three few above small (λ img' h.
      add_dir_entry-Keeps_root f r 0x10 img.g_next_free_clus 0 name img' h.layout three
        (omega arith) (InUse-Kept f r img.g_disk img'.g_disk few h.kept used) few)
