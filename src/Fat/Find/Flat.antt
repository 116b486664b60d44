-- ===== src/Fat/Find/Flat.antt =====
-- fat_find_file of src/common/fat.c searches one flat array of directory entries, although it
-- reads them sector by sector and cluster by cluster.
use gemiboot.Fat.Disk.Table.{cluster_to_lba-exact, fat_get_next_cluster-fat_entry}
use gemiboot.Fat.Disk.{
  chain_end, chain_link, is_data_cluster, Disk, Serves, cluster_bytes, file_byte, IsChain,
  fat_entry,
}
use gemiboot.Base.{
  lt→ltb, le→not_ltb, ℕ, zero, suc, ◌+◌, ◌-◌, ◌*◌, ◌/◌, ◌%◌, ◌≡◌, ◌≤◌, ◌<◌, refl, ap, sym, ◌∙◌,
  true, arith, Mem, byte, le16, u32, List, ◌∷◌, length,
}
use gemiboot.Fat.Find.{
  proceed, Search, found, absent, searching, out_of_fuel, is_skipped, first_cluster_at,
  file_size_at, scan_entries, scan_sectors, scan_chain,
}
use native.Mathlib.Nat.{add_assoc}
use mathlib.Core.Path.{ap₂}
use mathlib.Core.Option.{some}
use gemiboot.Str.{memcmp}
use gemiboot.Str.Search.{memcmp_same}
use gemiboot.Fat.Volume.{FatFs, DiskReadFn, cluster_to_lba, fat_get_next_cluster}

-- The `n` bytes of `b` from `at` on are those of `d` from `at'` on.
abbrev Shifted : Mem → Mem → ℕ → ℕ → ℕ → Type 0
Shifted b d at at' n = (j x y : ℕ) → j < n → x ≡ at + j → y ≡ at' + j → byte b x ≡ byte d y

module _ (b d : Mem) (at at' : ℕ) (same : Shifted b d at at' 32) where
  first_byte_same : byte b at ≡ byte d at'
  first_byte_same = same 0 at at' (omega arith) (omega arith) (omega arith)

  is_skipped_same : is_skipped b at ≡ is_skipped d at'
  is_skipped_same = rw (first_byte_same, same 11 (at + 11) (at' + 11) (omega arith) refl refl)

  name_same : (t : Mem) → memcmp (λ k. b (at + k)) t 11 ≡ memcmp (λ k. d (at' + k)) t 11
  name_same t =
      memcmp_same (λ k. b (at + k)) (λ k. d (at' + k)) t 11
        (λ j lo hi. same j (at + j) (at' + j) (omega arith) refl refl)

  word_same : (o : ℕ) → o + 2 ≤ 32 → le16 b (at + o) ≡ le16 d (at' + o)
  word_same o fits = omega (
    arith,
    same o (at + o) (at' + o) (omega arith) refl refl,
    same (o + 1) (at + o + 1) (at' + o + 1) (omega arith) (omega arith) (omega arith),
  )

  first_cluster_same : first_cluster_at b at ≡ first_cluster_at d at'
  first_cluster_same = omega (arith, word_same 20 (omega arith), word_same 26 (omega arith))

  file_size_same : file_size_at b at ≡ file_size_at d at'
  file_size_same =
      let high : le16 b (at + 28 + 2) ≡ le16 d (at' + 28 + 2) =
        rw (add_assoc at 28 2, add_assoc at' 28 2) (word_same 30 (omega arith)) in
      omega (arith, word_same 28 (omega arith), high)

scan_entries_same :
    (left at at' : ℕ) (b d t : Mem)
    → Shifted b d at at' (left * 32)
    → scan_entries left at b t ≡ scan_entries left at' d t
unfolding scan_entries
scan_entries_same zero at at' b d t same = refl
scan_entries_same (suc left) at at' b d t same =
    let here : Shifted b d at at' 32 = λ j x y lt ex ey. same j x y (omega arith) ex ey in
    let rest =
      scan_entries_same left (at + 32) (at' + 32) b d t
        (λ j x y lt ex ey. same (j + 32) x y (omega arith) (omega arith) (omega arith)) in
    rw (
      is_skipped_same b d at at' here,
      first_byte_same b d at at' here,
      name_same b d at at' here t,
      first_cluster_same b d at at' here,
      file_size_same b d at at' here,
      rest,
    )

-- A search goes on with what follows.
abbrev pub and_then : Search → Search → Search
and_then searching r = r
and_then s r = s

and_then_assoc : (a b c : Search) → and_then a (and_then b c) ≡ and_then (and_then a b) c
and_then_assoc searching b c = refl
and_then_assoc (found x z) b c = refl
and_then_assoc absent b c = refl
and_then_assoc out_of_fuel b c = refl

scan_entries-append :
    (m n at end : ℕ) (d t : Mem)
    → end ≡ at + m * 32
    → scan_entries (m + n) at d t ≡ and_then (scan_entries m at d t) (scan_entries n end d t)
unfolding scan_entries
scan_entries-append zero n at end d t e =
    let e' : end ≡ at = omega arith in let z : 0 + n ≡ n = omega arith in rw (e', z)
scan_entries-append (suc m) n at end d t e =
    let rest = scan_entries-append m n (at + 32) end d t (omega arith) in
    let s : suc m + n ≡ suc (m + n) = omega arith in rw s (ground (arith, rest))

-- The bytes of the sectors from `lba` on, end to end.
abbrev pub run_byte : Disk → ℕ → Mem
run_byte disk lba k = disk (lba + k / 512) (k % 512)

run_same :
    (disk : Disk) (b : Mem) (lba s j x y : ℕ)
    → ((k : ℕ) → k < 512 → byte b k ≡ byte (disk (lba + s)) k)
    → j < 512
    → x ≡ j
    → y ≡ s * 512 + j
    → byte b x ≡ byte (run_byte disk lba) y
run_same disk b lba s j x y same lt ex ey =
    let sector : y / 512 ≡ s = omega arith in
    let offset : y % 512 ≡ j = omega arith in rw (ex, sector, offset) (same j lt)

proceed-and_then :
    {S : Type 0} (r : Search) (st : S) (rest : Search × S)
    → (proceed r st rest).0 ≡ and_then r rest.0
proceed-and_then searching st rest = refl
proceed-and_then (found c z) st rest = refl
proceed-and_then absent st rest = refl
proceed-and_then out_of_fuel st rest = refl

module _ {S : Type 0} (read_fn : DiskReadFn S) (t : Mem) where
  scan_sectors-suc :
      (left s lba at : ℕ) (b : Mem) (st : S)
      → u32 (lba + s) ≡ at
      → (read_fn at 1 st).0 ≡ some b
      → (scan_sectors read_fn t (suc left) s lba st).0
        ≡ and_then
            (scan_entries 16 0 b t)
            (scan_sectors read_fn t left (s + 1) lba (read_fn at 1 st).1).0
  unfolding scan_sectors
  scan_sectors-suc left s lba at b st e reads =
      rw (e, reads, scan_sectors, e)
        (proceed-and_then (scan_entries 16 0 b t) (read_fn at 1 st).1
          (scan_sectors read_fn t left (s + 1) lba (read_fn at 1 st).1))

module _ {S : Type 0} (read_fn : DiskReadFn S) (disk : Disk) (n : ℕ) (small : n ≤ 4294967296)
    (serves : Serves read_fn disk n) (t : Mem) where
  -- A run of sectors on the disk is searched as one array.
  pub scan_sectors_flat :
      (left s lba : ℕ) (st : S)
      → lba + s + left ≤ n
      → (scan_sectors read_fn t left s lba st).0
        ≡ scan_entries (left * 16) (s * 512) (run_byte disk lba) t
  scan_sectors_flat zero s lba st fits = unfold scan_entries scan_sectors in refl
  scan_sectors_flat (suc left) s lba st fits =
      let (b, reads, same) = serves.reads (lba + s) st (omega arith) in
      let st' = (read_fn (lba + s) 1 st).1 in
      let here =
        scan_entries_same 16 0 (s * 512) b (run_byte disk lba) t
          (λ j x y lt ex ey. run_same disk b lba s j x y same lt (omega arith) ey) in
      let next : (s + 1) * 512 ≡ s * 512 + 16 * 32 = omega arith in
      let all : suc left * 16 ≡ 16 + left * 16 = omega arith in
      scan_sectors-suc read_fn t left s lba (lba + s) b st (omega arith) reads
      ∙ ap₂ and_then here (scan_sectors_flat left (s + 1) lba st' (omega arith))
      ∙ sym
          (scan_entries-append 16 (left * 16) (s * 512) ((s + 1) * 512) (run_byte disk lba) t next)
      ∙ ap (λ m. scan_entries m (s * 512) (run_byte disk lba) t) (sym all)

  -- The sectors of a cluster hold the bytes of the chain that starts with it.
  cluster_flat :
      (fs : FatFs) (c : ℕ) (cs : List ℕ) (left : ℕ)
      → left ≡ fs.sec_per_clus
      → scan_entries (left * 16) 0 (run_byte disk (fs.data_sec + (c - 2) * fs.sec_per_clus)) t
        ≡ scan_entries (left * 16) 0 (file_byte fs disk (c ∷ cs)) t
  unfolding file_byte
  cluster_flat fs c cs left e =
      scan_entries_same (left * 16) 0 0 (run_byte disk (fs.data_sec + (c - 2) * fs.sec_per_clus))
        (file_byte fs disk (c ∷ cs)) t
        (λ j x y lt ex ey.
          let ex' : x ≡ j = omega arith in
          let ey' : y ≡ j = omega arith in
          let within : j < cluster_bytes fs = omega arith in
          rw (ex', ey', lt→ltb j (cluster_bytes fs) within) (omega arith))

  rest_flat :
      (fs : FatFs) (c m : ℕ) (cs : List ℕ)
      → scan_entries m 0 (file_byte fs disk cs) t
        ≡ scan_entries m (fs.sec_per_clus * 16 * 32) (file_byte fs disk (c ∷ cs)) t
  unfolding file_byte
  rest_flat fs c m cs =
      scan_entries_same m 0 (fs.sec_per_clus * 16 * 32) (file_byte fs disk cs)
        (file_byte fs disk (c ∷ cs)) t
        (λ j x y lt ex ey.
          let ex' : x ≡ j = omega arith in
          let beyond : cluster_bytes fs ≤ y = omega arith in
          let back : y - cluster_bytes fs ≡ j = omega arith in
          rw (ex', le→not_ltb y (cluster_bytes fs) beyond, back))

  scan_chain-suc :
      (fuel : ℕ) (fs : FatFs) (c lba next : ℕ) (st : S)
      → is_data_cluster fs c ≡ true
      → cluster_to_lba fs c ≡ lba
      → ((st' : S) → (fat_get_next_cluster fs read_fn c st').0 ≡ next)
      → (st' : S) × ((scan_chain read_fn t (suc fuel) fs c st).0
          ≡ and_then
              (scan_sectors read_fn t fs.sec_per_clus 0 lba st).0
              (scan_chain read_fn t fuel fs next st').0)
  unfolding scan_chain
  scan_chain-suc fuel fs c lba next st is_data at entry =
      let r = scan_sectors read_fn t fs.sec_per_clus 0 lba st in
      (
        (fat_get_next_cluster fs read_fn c r.1).1,
        rw (is_data, at, entry r.1, scan_chain)
            (proceed-and_then r.0 r.1
              (scan_chain read_fn t fuel fs next (fat_get_next_cluster fs read_fn c r.1).1)),
      )

  pub scan_chain_flat :
      (fs : FatFs)
      → fs.bytes_per_sec ≡ 512
      → 0 < fs.sec_per_clus
      → (fuel : ℕ) {c : ℕ} {cs : List ℕ} → IsChain fs disk n c cs
      → (st : S) → length cs < fuel
      → (scan_chain read_fn t fuel fs c st).0
        ≡ and_then
            (scan_entries (length cs * (fs.sec_per_clus * 16)) 0 (file_byte fs disk cs) t)
            absent
  scan_chain_flat fs bps pos zero chain st enough = absurd (omega arith)
  scan_chain_flat fs bps pos (suc fuel) {c} (chain_end stop) st enough =
      let none_left : 0 * (fs.sec_per_clus * 16) ≡ 0 = omega arith in
      rw none_left (unfold scan_entries scan_chain in rw (stop, scan_chain))
  scan_chain_flat fs bps pos (suc fuel) {c} (chain_link {rest = cs} link chain) st enough =
      let lba = fs.data_sec + (c - 2) * fs.sec_per_clus in
      let m = length cs * (fs.sec_per_clus * 16) in
      let k = fs.sec_per_clus * 16 in
      let d = file_byte fs disk (c ∷ cs) in
      let (st', step) =
        scan_chain-suc fuel fs c lba (fat_entry fs disk c) st link.is_data
          (cluster_to_lba-exact fs n c small link pos)
          (λ st'. fat_get_next_cluster-fat_entry fs read_fn disk n c st' bps small serves link) in
      let here : (scan_sectors read_fn t fs.sec_per_clus 0 lba st).0 ≡ scan_entries k 0 d t =
        scan_sectors_flat fs.sec_per_clus 0 lba st (omega (arith, link.sectors_on_disk))
        ∙ cluster_flat fs c cs fs.sec_per_clus refl in
      let later : (scan_chain read_fn t fuel fs (fat_entry fs disk c) st').0
          ≡ and_then (scan_entries m (k * 32) d t) absent =
        scan_chain_flat fs bps pos fuel chain st' (omega arith)
        ∙ ap (λ r. and_then r absent) (rest_flat fs c m cs) in
      let all : k + m ≡ suc (length cs) * k = omega arith in
      step
      ∙ ap₂ and_then here later
      ∙ and_then_assoc (scan_entries k 0 d t) (scan_entries m (k * 32) d t) absent
      ∙ ap (λ r. and_then r absent)
          (sym (scan_entries-append k m 0 (k * 32) d t (omega arith))
            ∙ ap (λ q. scan_entries q 0 d t) all)
