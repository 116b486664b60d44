-- ===== src/Fat/Find/Correct.antt =====
-- fat_find_file of src/common/fat.c finds the first entry of the root directory with the name.
use gemiboot.Base.{
  ℕ, zero, suc, ◌+◌, ◌*◌, ◌/◌, ◌≡◌, ◌≢◌, ◌≤◌, ◌<◌, ◌↔◌, ◌⊎◌, inl, inr, refl, ap, sym, ◌∙◌, true,
  false, arith, Mem, byte, ◌==◌, Bool-cases, List, length,
}
use mathlib.Core.Path.{ap₂}
use gemiboot.Str.{memcmp}
use gemiboot.Fat.Volume.{FatFs, DiskReadFn}
use gemiboot.Fat.Name.{format_83_name}
use gemiboot.Fat.Find.{
  Search, found, absent, searching, out_of_fuel, finish, scan_sectors, is_skipped, is_zero,
  first_cluster_at, file_size_at, scan_entries, fat_find_file,
}
use gemiboot.Fat.Find.Flat.{and_then, run_byte, scan_chain_flat, scan_sectors_flat}
use gemiboot.Fat.Disk.{Disk, Serves, IsChain, file_byte}

-- Entry `i` of the directory `d` is a file or a directory with the name `t`.
abbrev pub Named : Mem → Mem → ℕ → Type 0
Named d t at =
    (byte d at ≢ 0) × (is_skipped d at ≡ false) × (is_zero (memcmp (λ k. d (at + k)) t 11) ≡ true)

-- An entry that the search goes past: not the end of the directory, and deleted, a volume label
-- or of another name.
abbrev pub PassedOver : Mem → Mem → ℕ → Type 0
PassedOver d t at =
    (byte d at ≢ 0) × ((is_skipped d at ≡ true) ⊎ (is_zero (memcmp (λ k. d (at + k)) t 11) ≡ false))

-- The offset of entry `i` of a directory whose entries start at `at`: 32 bytes for each.
abbrev pub slot : ℕ → ℕ → ℕ
slot at zero = at
slot at (suc i) = slot (at + 32) i

-- Entry `i` of the `n` entries from `at` on is the first one with the name, and `c` and `z` are
-- its first cluster and its size.
pub record IsFirst (d t : Mem) (n at c z i : ℕ) : Type 0 where
  pub within : i < n
  pub named : Named d t (slot at i)
  pub cluster : c ≡ first_cluster_at d (slot at i)
  pub size : z ≡ file_size_at d (slot at i)
  pub before : (j : ℕ) → j < i → PassedOver d t (slot at j)

before_suc :
    (d t : Mem) (at i : ℕ)
    → PassedOver d t at
    → ((j : ℕ) → j < i → PassedOver d t (slot (at + 32) j))
    → (j : ℕ) → j < suc i
    → PassedOver d t (slot at j)
before_suc d t at i here rest zero h = here
before_suc d t at i here rest (suc j) h = rest j (omega arith)

IsFirst-suc :
    (d t : Mem) (n at c z i : ℕ)
    → PassedOver d t at
    → IsFirst d t n (at + 32) c z i
    → IsFirst d t (suc n) at c z (suc i)
IsFirst-suc d t n at c z i here f = record {
  within = omega (arith, f.within);
  named = f.named;
  cluster = f.cluster;
  size = f.size;
  before = before_suc d t at i here f.before;
}

scan_entries-found :
    (n at c z : ℕ) (d t : Mem)
    → scan_entries n at d t ≡ found c z
    → (i : ℕ) × IsFirst d t n at c z i
unfolding scan_entries
scan_entries-found zero at c z d t e = cc
scan_entries-found (suc n) at c z d t e = elim (Bool-cases (byte d at == 0)) [
  | inl nul ↦ cc (rw nul at e)
  | inr more ↦
      let present : byte d at ≢ 0 = ground arith in
      elim (Bool-cases (is_skipped d at)) [
        | inl skipped ↦
            let (i, f) = scan_entries-found n (at + 32) c z d t (rw (more, skipped) at e) in
            (suc i, IsFirst-suc d t n at c z i (present, inl skipped) f)
        | inr kept ↦ elim (Bool-cases (is_zero (memcmp (λ k. d (at + k)) t 11))) [
          | inr other ↦
              let (i, f) = scan_entries-found n (at + 32) c z d t (rw (more, kept, other) at e) in
              (suc i, IsFirst-suc d t n at c z i (present, inr other) f)
          | inl same ↦
              let hit = rw (more, kept, same) at e in
              (
                0,
                record {
                  within = omega arith;
                  named = (present, kept, same);
                  cluster = cc hit;
                  size = cc hit;
                  before = λ j h. absurd (omega arith);
                },
              )
        ]
      ]
]

scan_entries_here :
    (n at : ℕ) (d t : Mem)
    → Named d t at
    → scan_entries (suc n) at d t ≡ found (first_cluster_at d at) (file_size_at d at)
unfolding scan_entries
scan_entries_here n at d t (present, kept, same) =
    let more : (byte d at == 0) ≡ false = ground arith in rw (more, kept, same)

scan_entries_past :
    (n at : ℕ) (d t : Mem)
    → PassedOver d t at
    → scan_entries (suc n) at d t ≡ scan_entries n (at + 32) d t
unfolding scan_entries
scan_entries_past n at d t (present, over) =
    let more : (byte d at == 0) ≡ false = ground arith in
    elim over [
      | inl skipped ↦ rw (more, skipped)
      | inr other ↦ elim (Bool-cases (is_skipped d at)) [
        | inl skipped ↦ rw (more, skipped)
        | inr kept ↦ rw (more, kept, other)
      ]
    ]

scan_entries-first :
    (n at c z i : ℕ) (d t : Mem) → IsFirst d t n at c z i → scan_entries n at d t ≡ found c z
scan_entries-first zero at c z i d t f = absurd (omega (arith, f.within))
scan_entries-first (suc n) at c z zero d t f =
    scan_entries_here n at d t f.named ∙ ap₂ found (sym f.cluster) (sym f.size)
scan_entries-first (suc n) at c z (suc i) d t f =
    scan_entries_past n at d t (f.before 0 (omega arith))
    ∙ scan_entries-first n (at + 32) c z i d t (record {
      within = omega (arith, f.within);
      named = f.named;
      cluster = f.cluster;
      size = f.size;
      before = λ j h. f.before (suc j) (omega arith);
    })

and_then-found : (r : Search) (c z : ℕ) → (and_then r absent ≡ found c z) ↔ (r ≡ found c z)
and_then-found searching c z = (λ e. cc, λ e. cc)
and_then-found (found x y) c z = (λ e. e, λ e. e)
and_then-found absent c z = (λ e. e, λ e. e)
and_then-found out_of_fuel c z = (λ e. e, λ e. e)

-- The whole search of a flat directory.
search_iff :
    (n c z : ℕ) (d t : Mem)
    → (and_then (scan_entries n 0 d t) absent ≡ found c z) ↔ ((i : ℕ) × IsFirst d t n 0 c z i)
search_iff n c z d t = (
  λ e. scan_entries-found n 0 c z d t ((and_then-found (scan_entries n 0 d t) c z).0 e),
  λ (i, f). (and_then-found (scan_entries n 0 d t) c z).1 (scan_entries-first n 0 c z i d t f),
)

-- On FAT32, where the disk answers and the root directory's chain lies on it, fat_find_file returns
-- 0 with a cluster and a size exactly when they are those of the first entry with the name in the
-- clusters of the chain, before any end mark, with any fuel above the number of clusters.
pub fat_find_file-IsFirst :
    {S : Type 0} (fuel n c z : ℕ) (fs : FatFs) (read_fn : DiskReadFn S) (disk : Disk)
    (cs filename : List ℕ) (buffer : Mem) (st : S)
    → n ≤ 4294967296
    → Serves read_fn disk n
    → fs.fat_type ≡ 32
    → IsChain fs disk n fs.root_clus cs
    → fs.bytes_per_sec ≡ 512
    → 0 < fs.sec_per_clus
    → length cs < fuel
    → ((fat_find_file fuel fs read_fn filename buffer st).0 ≡ found c z) ↔ (
        (i : ℕ) × IsFirst
          (file_byte fs disk cs)
          (format_83_name filename buffer)
          (length cs * (fs.sec_per_clus * 16))
          0
          c
          z
          i)
unfolding fat_find_file
fat_find_file-IsFirst fuel n c z fs read_fn disk cs filename buffer st small serves fat32 chain bps
      positive enough =
    let t = format_83_name filename buffer in
    let flat = scan_chain_flat read_fn disk n small serves t fs bps positive fuel chain st enough in
    let is32 : (fs.fat_type == 32) ≡ true = ground arith in
    rw (is32, flat) (search_iff (length cs * (fs.sec_per_clus * 16)) c z (file_byte fs disk cs) t)

finish-absent : {S : Type 0} (r : Search × S) → (finish r).0 ≡ and_then r.0 absent
finish-absent (searching, st) = refl
finish-absent (found c z, st) = refl
finish-absent (absent, st) = refl
finish-absent (out_of_fuel, st) = refl

-- On FAT12 and FAT16, where the disk answers and the root directory lies on it, fat_find_file
-- returns 0 with a cluster and a size exactly when they are those of the first entry with the name
-- in the sectors of the root directory, before any end mark.
pub fat_find_file-IsFirst_in_root :
    {S : Type 0} (fuel n c z : ℕ) (fs : FatFs) (read_fn : DiskReadFn S) (disk : Disk)
    (filename : List ℕ) (buffer : Mem) (st : S)
    → n ≤ 4294967296
    → Serves read_fn disk n
    → fs.fat_type ≢ 32
    → fs.bytes_per_sec ≡ 512
    → fs.root_dir_sec + (fs.root_ent_cnt * 32 + 511) / 512 ≤ n
    → ((fat_find_file fuel fs read_fn filename buffer st).0 ≡ found c z) ↔ (
        (i : ℕ) × IsFirst
          (run_byte disk fs.root_dir_sec)
          (format_83_name filename buffer)
          ((fs.root_ent_cnt * 32 + 511) / 512 * 16)
          0
          c
          z
          i)
unfolding fat_find_file
fat_find_file-IsFirst_in_root fuel n c z fs read_fn disk filename buffer st small serves other bps
      fits =
    let t = format_83_name filename buffer in
    let sectors = (fs.root_ent_cnt * 32 + 511) / 512 in
    let not32 : (fs.fat_type == 32) ≡ false = ground arith in
    let flat =
      scan_sectors_flat read_fn disk n small serves t sectors 0 fs.root_dir_sec st (omega arith) in
    let whole =
      finish-absent (scan_sectors read_fn t sectors 0 fs.root_dir_sec st)
      ∙ ap (λ r. and_then r absent) flat in
    rw (not32, bps, whole) (search_iff (sectors * 16) c z (run_byte disk fs.root_dir_sec) t)
