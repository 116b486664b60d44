-- ===== src/Mkdisk.antt =====
-- tools/mkdisk.c, which builds the disk image: the functions that write the FAT32 volume.
pub mod Name
pub mod Table
pub mod Layout
pub mod Frame
pub mod Entries
pub mod Files
pub mod Make
pub mod Boot
pub mod Host
pub mod Main
mod Examples
use gemiboot.Base.{
  put16, put32, ℕ, zero, suc, ◌+◌, ◌-◌, ◌*◌, ◌/◌, ◌%◌, Bool, true, false, not, ◌&&◌, ◌||◌, Option,
  none, some, List, [], ◌∷◌, ltb, leb, ◌==◌, if◌then◌else◌, Mem, byte, put8, blit, u32, sub32,
  Status, success, failure,
}
use gemiboot.Str.{memcpy, memset}

-- The variables of the file, with the image as bytes from offset 0 of g_disk. The block has 256 MB;
-- Outcome of Mkdisk/Main tells the runs of main that write behind it from those that do not.
pub record Image : Type 0 where
  pub g_disk : Mem
  pub g_fat_start : ℕ
  pub g_fat_size : ℕ
  pub g_data_start : ℕ
  pub g_next_free_clus : ℕ

abbrev pub sec_per_clus : ℕ
sec_per_clus = 4

-- get_sector: the offset of a sector in the image.
abbrev pub get_sector : ℕ → ℕ
get_sector lba = u32 (lba * 512)

-- `& 0x0FFFFFFF` keeps the low 28 bits. Both copies of the table are written.
unfoldable pub fat32_set_fat_entry : ℕ → ℕ → Image → Image
fat32_set_fat_entry cluster value img =
    let fat_offset = u32 (cluster * 4) in
    let fat1_sec = u32 (img.g_fat_start + fat_offset / 512) in
    let fat2_sec = u32 (img.g_fat_start + img.g_fat_size + fat_offset / 512) in
    let ent_offset = fat_offset % 512 in
    let first = put32 img.g_disk (get_sector fat1_sec + ent_offset) (value % 0x10000000) in
    record img { g_disk = put32 first (get_sector fat2_sec + ent_offset) (value % 0x10000000) }

unfoldable pub cluster_to_lba : Image → ℕ → ℕ
cluster_to_lba img cluster = u32 (img.g_data_start + sub32 cluster 2 * sec_per_clus)

-- The variables of format_83.
pub record Format : Type 0 where
  pub out_name : Mem
  pub out_ext : Mem
  pub ni : ℕ
  pub ei : ℕ
  pub in_ext : Bool

-- The body of the loop for a character.
unfoldable pub format_step : Format → ℕ → Format
format_step st char =
    let c = if leb b'a' char && leb char b'z' then char - 32 else char in
    if char == b'.'
    then record st { in_ext = true }
    else if not st.in_ext
    then (if ltb st.ni 8
        then record st { out_name = put8 st.out_name st.ni c; ni = st.ni + 1 }
        else st)
    else if ltb st.ei 3
    then record st { out_ext = put8 st.out_ext st.ei c; ei = st.ei + 1 }
    else st

unfoldable pub format_steps : List ℕ → Format → Format
format_steps [] st = st
format_steps (c ∷ cs) st =
    let rest = format_steps cs (format_step st c) in if c == 0 then st else rest

-- `strcmp(name, …) == 0` for the two names that are written as they are.
abbrev pub is_dot : List ℕ → Bool
is_dot (c ∷ []) = c == b'.'
is_dot s = false

abbrev pub is_dot_dot : List ℕ → Bool
is_dot_dot (c ∷ d ∷ []) = c == b'.' && d == b'.'
is_dot_dot s = false

-- The two output buffers, from what they held before.
unfoldable pub format_83 : List ℕ → Mem → Mem → Mem × Mem
format_83 name out_name out_ext =
    let blank_name = memset 0 b' ' 8 out_name in
    let blank_ext = memset 0 b' ' 3 out_ext in
    let st =
      format_steps name
        (record { out_name = blank_name; out_ext = blank_ext; ni = 0; ei = 0; in_ext = false }) in
    if is_dot name
    then (put8 blank_name 0 b'.', blank_ext)
    else if is_dot_dot name
    then (put8 (put8 blank_name 0 b'.') 1 b'.', blank_ext)
    else (st.out_name, st.out_ext)

unfoldable pub allocate_cluster : Image → ℕ × Image
allocate_cluster img =
    let clus = img.g_next_free_clus in
    let marked =
      fat32_set_fat_entry clus 0x0fffffff (record img { g_next_free_clus = u32 (clus + 1) }) in
    let cleared =
      memset (get_sector (cluster_to_lba marked clus)) 0 (sec_per_clus * 512) marked.g_disk in
    (clus, record marked { g_disk = cleared })

-- The entry that add_dir_entry writes at offset `at` of the image.
unfoldable pub write_entry : ℕ → List ℕ → ℕ → ℕ → ℕ → Mem → Mem
write_entry at name attr first_clus size m =
    let (o_name, o_ext) = format_83 name (λ k. 0) (λ k. 0) in
    let named = blit (blit m at o_name 8) (at + 8) o_ext 3 in
    let m1 = put8 named (at + 11) attr in
    let m2 = put16 m1 (at + 20) (first_clus / 65536) in
    let m3 = put16 m2 (at + 26) (first_clus % 65536) in
    let m4 = put32 m3 (at + 28) size in put16 (put16 m4 (at + 24) 0x5821) (at + 22) 0x6000

-- The loop over the entries from offset `at` on: the first free one, with `left` entries left.
unfoldable pub free_entry : ℕ → ℕ → Mem → Option ℕ
free_entry zero at m = none
free_entry (suc left) at m =
    let rest = free_entry left (at + 32) m in
    if byte m at == 0 || byte m at == 0xe5 then some at else rest

-- The loop over the sectors of the directory's cluster.
unfoldable pub free_slot : ℕ → ℕ → Mem → Option ℕ
free_slot zero lba m = none
free_slot (suc left) lba m =
    let rest = free_slot left (u32 (lba + 1)) m in
    elim (free_entry 16 (get_sector lba) m) [ some at ↦ some at | none ↦ rest ]

-- A directory has one cluster. The outer loop runs once.
unfoldable pub add_dir_entry : ℕ → List ℕ → ℕ → ℕ → ℕ → Image → Status × Image
add_dir_entry dir_clus name attr first_clus size img =
    elim (free_slot sec_per_clus (cluster_to_lba img dir_clus) img.g_disk) [
      | none ↦ (failure, img)
      | some at ↦
          (success, record img { g_disk = write_entry at name attr first_clus size img.g_disk })
    ]

abbrev pub root_clus : ℕ
root_clus = 2
