-- ===== src/Mkdisk/Files/Root.antt =====
-- A file that write_file_data of tools/mkdisk.c adds to the root directory.
use gemiboot.Base.{
  sym, ◌∙◌, ap, ℕ, ◌+◌, ◌-◌, ◌*◌, ◌≡◌, ◌≢◌, ◌≤◌, ◌<◌, inl, inr, arith, Mem, byte, ltb,
  if◌then◌else◌, lt_or_le, List, le16, le32,
}
use gemiboot.Mkdisk.{Image, format_83, write_entry}
use gemiboot.Mkdisk.Entries.Fields.{
  le16_same, write_entry_out, write_entry-name, write_entry-attr, write_entry-size,
  write_entry-cluster,
}
use gemiboot.Mkdisk.Frame.{le32_same, data_at, HasLayout, Kept}
use gemiboot.Mkdisk.Entries.{InUse}
use gemiboot.Mkdisk.Entries.Add.{Keeps, InUse-Kept, add_dir_entry_root}
use gemiboot.Mkdisk.Files.{write_file_data}
use gemiboot.Mkdisk.Files.Chain.{HasFile}
use gemiboot.Mkdisk.Files.Steps.{
  clusters_of, with_clusters, with_clusters-HasFile, with_clusters-Keeps,
  write_file_data-with_clusters, HasFile-Kept,
}

-- The name that format_83 gives, as eleven bytes.
abbrev pub name_byte : List ℕ → ℕ → ℕ
name_byte name k =
    if ltb k 8
    then byte (format_83 name (λ k. 0) (λ k. 0)).0 k
    else byte (format_83 name (λ k. 0) (λ k. 0)).1 (k - 8)

-- The 32 bytes at `at` are the entry of a file.
pub record HasEntry (m : Mem) (at : ℕ) (name : List ℕ) (first size : ℕ) : Type 0 where
  pub name_bytes : (k : ℕ) → k < 11 → byte m (at + k) ≡ name_byte name k
  pub attr : byte m (at + 11) ≡ 0x20
  pub cluster : 65536 * le16 m (at + 20) + le16 m (at + 26) ≡ first
  pub file_size : le32 m (at + 28) ≡ size

pub HasEntry-Kept :
    (f r j first size : ℕ) (name : List ℕ) (m m' : Mem)
    → j < r
    → r ≤ 64
    → Kept f r m m'
    → HasEntry m (data_at + j * 32) name first size
    → HasEntry m' (data_at + j * 32) name first size
HasEntry-Kept f r j first size name m m' lt few h e =
    let at = data_at + j * 32 in
    let same = λ (x : ℕ) (above : at ≤ x) (below : x < at + 32).
      h x (inr (inl (omega arith, omega arith))) in
    record {
      name_bytes = λ k below. same (at + k) (omega arith) (omega arith) ∙ e.name_bytes k below;
      attr = same (at + 11) (omega arith) (omega arith) ∙ e.attr;
      cluster =
          let low =
            le16_same (at + 26) m m' (λ x above below. same x (omega arith) (omega arith)) in
          let high =
            le16_same (at + 20) m m' (λ x above below. same x (omega arith) (omega arith)) in
          omega (arith, low, high, e.cluster);
      file_size =
          le32_same (at + 28) m m' (λ x above below. same x (omega arith) (omega arith))
          ∙ e.file_size;
    }

-- The entry's slot is in use when its name starts with a character.
pub InUse-HasEntry :
    (r first size : ℕ) (name : List ℕ) (m : Mem)
    → name_byte name 0 ≢ 0
    → name_byte name 0 ≢ 0xe5
    → InUse m data_at r
    → HasEntry m (data_at + r * 32) name first size
    → InUse m data_at (r + 1)
InUse-HasEntry r first size name m live present used e j lt = elim (lt_or_le j r) [
  | inl before ↦ used j before
  | inr after ↦
      let at : data_at + r * 32 + 0 ≡ data_at + j * 32 = omega arith in
      let first_byte : byte m (data_at + j * 32) ≡ name_byte name 0 =
        ap (byte m) (sym at) ∙ e.name_bytes 0 (omega arith) in
      (λ z. live (sym first_byte ∙ z), λ z. present (sym first_byte ∙ z))
]

-- The image `img'` is `img` with a file in entry `r` of the root directory.
pub record HasAdded (r : ℕ) (name : List ℕ) (data_bytes : Mem) (size : ℕ) (img img' : Image)
    : Type 0 where
  pub keeps : Keeps img.g_next_free_clus r (clusters_of size) img img'
  pub file : HasFile img'.g_disk img.g_next_free_clus (clusters_of size) data_bytes size
  pub entry : HasEntry img'.g_disk (data_at + r * 32) name img.g_next_free_clus size
  pub rest :
      (x : ℕ)
      → data_at + r * 32 + 32 ≤ x
      → x < data_at + 2048
      → byte img'.g_disk x ≡ byte img.g_disk x

-- For an image with the layout of main in which the first `r` entries of the root directory are in
-- use and the next one is empty, and with room for the clusters: write_file_data in the root directory
-- puts the data into linked clusters from the next free one on, writes entry `r` with the name, the
-- first cluster and the size, and changes nothing in front of that cluster's table entry, in the other
-- entries of the root directory, or in the clusters before it.
pub write_file_data-HasAdded :
    (r size : ℕ) (name : List ℕ) (data_bytes : Mem) (img : Image)
    → HasLayout img
    → 3 ≤ img.g_next_free_clus
    → img.g_next_free_clus + clusters_of size ≤ 130044
    → r < 64
    → InUse img.g_disk data_at r
    → byte img.g_disk (data_at + r * 32) ≡ 0
    → HasAdded r name data_bytes size img (write_file_data 2 name data_bytes size img).1
write_file_data-HasAdded r size name data_bytes img l three small few used free =
    let f = img.g_next_free_clus in
    let n = clusters_of size in
    let at = data_at + r * 32 in
    let e = with_clusters data_bytes size img in
    let img' : Image = record e { g_disk = write_entry at name 0x20 f size e.g_disk } in
    let file = with_clusters-HasFile data_bytes size img l three small in
    let h = with_clusters-Keeps data_bytes size img f l three (omega arith) small in
    let out = write_entry_out at name 0x20 f size e.g_disk in
    let in_root = λ (x : ℕ) (above : data_at ≤ x) (below : x < data_at + 2048).
      h.kept x (inr (inl (above, omega arith))) in
    let slot =
      add_dir_entry_root r 0x20 f size name e h.layout
        (InUse-Kept f r img.g_disk e.g_disk (omega arith) (λ x below. h.kept x (omega arith)) used)
        few (in_root at (omega arith) (omega arith) ∙ free) in
    let written = write_file_data-with_clusters data_bytes size img 2 name l three small in
    let added : HasAdded r name data_bytes size img img' = record {
      keeps = record {
        layout = record {
          fat_start = h.layout.fat_start;
          fat_size = h.layout.fat_size;
          data_start = h.layout.data_start;
        };
        next_free = h.next_free;
        kept = λ x below. out x (omega arith) ∙ h.kept x (omega arith);
      };
      file =
          HasFile-Kept e.g_disk img'.g_disk data_bytes f n (f + n) 0 size three (ground arith)
            (omega arith) (ground arith) (λ x below. out x (omega arith)) file;
      entry = record {
        name_bytes = write_entry-name at name 0x20 f size e.g_disk;
        attr = write_entry-attr at name 0x20 f size e.g_disk;
        cluster = write_entry-cluster at name 0x20 f size e.g_disk (omega arith);
        file_size = write_entry-size at name 0x20 f size e.g_disk (ground arith);
      };
      rest = λ x above below. out x (omega arith) ∙ in_root x (omega arith) below;
    } in
    rw written (rw slot added)
