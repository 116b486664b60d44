-- ===== src/Fat/Read/Contents.antt =====
-- fat_read_file of src/common/fat.c reads the file that the cluster chain holds.
use gemiboot.Fat.Read.Frame.{
  Advances-from, Advances, wrote, chunk, copy_sector_reads, copy_cluster-Advances, copy_chain-Sound,
  copy_chain_ends, copy_chain_goes, after_entry,
}
use gemiboot.Fat.Read.{copy_sector, Progress, going, copy_cluster, copy_chain, fat_read_file}
use gemiboot.Base.{
  ℕ, zero, suc, ◌+◌, ◌-◌, ◌*◌, ◌/◌, ◌%◌, ◌≡◌, ◌≤◌, ◌<◌, refl, ap, ◌∙◌, inl, inr, arith, some, List,
  ◌∷◌, length, leb, ◌==◌, if◌then◌else◌, Mem, byte, u32, blit_in, lt_or_le, lt→ltb, le→not_ltb,
  Status, success, failure,
}
use gemiboot.Fat.Volume.{FatFs, DiskReadFn, cluster_to_lba, fat_get_next_cluster}
use gemiboot.Fat.Disk.{
  Disk, Serves, fat_entry, IsChain, chain_end, chain_link, cluster_bytes, file_byte,
}
use gemiboot.Fat.Disk.Table.{cluster_to_lba-exact, fat_get_next_cluster-fat_entry}

module _ {S : Type 0} (read_fn : DiskReadFn S) where
  copy_cluster_goes :
      (left s clus_lba lba : ℕ) (p q : Progress S)
      → 0 < p.bytes_remaining
      → u32 (clus_lba + s) ≡ lba
      → copy_sector read_fn lba p ≡ going q
      → copy_cluster read_fn (suc left) s clus_lba p ≡ copy_cluster read_fn left (s + 1) clus_lba q
  unfolding copy_cluster
  copy_cluster_goes left s clus_lba lba p q pos at e = rw (lt→ltb 0 p.bytes_remaining pos, at, e)

  copy_cluster_full :
      (left s clus_lba : ℕ) (p : Progress S)
      → p.bytes_remaining ≡ 0
      → copy_cluster read_fn (suc left) s clus_lba p ≡ going p
  unfolding copy_cluster
  copy_cluster_full left s clus_lba p e = ground arith

module _ {S : Type 0} (read_fn : DiskReadFn S) (disk : Disk) (n : ℕ) (small : n ≤ 4294967296)
    (serves : Serves read_fn disk n) where
  -- The loop over the sectors of a cluster that lies on the disk.
  record Filled (lba total : ℕ) (p q : Progress S) : Type 0 where
    left : q.bytes_remaining ≡ p.bytes_remaining - total
    bytes :
        (k : ℕ)
        → k < p.bytes_remaining
        → k < total
        → byte q.mem (p.dest + k) ≡ byte (disk (lba + k / 512)) (k % 512)

  -- What the first sector writes stays, and what the others write follows it.
  Filled-suc :
      (lba left : ℕ) (p q : Progress S) (b : Mem) (st : S)
      → 0 < p.bytes_remaining
      → ((k : ℕ) → k < 512 → byte b k ≡ byte (disk lba) k)
      → Advances (wrote p b st) q
      → Filled (lba + 1) (left * 512) (wrote p b st) q
      → Filled lba (suc left * 512) p q
  Filled-suc lba left p q b st pos same adv rest = record {
    left = ground (arith, rest.left);
    bytes = λ k lt below. elim (lt_or_le k 512) [
      | inl here ↦
          let zero_div : lba + k / 512 ≡ lba = omega arith in
          let self_mod : k % 512 ≡ k = omega arith in
          let back : p.dest + k - p.dest ≡ k = omega arith in
          rw (zero_div, self_mod, adv.outside (p.dest + k) (ground arith))
            (rw
              (
                blit_in p.mem p.dest b (chunk p.bytes_remaining) (p.dest + k) (omega arith)
                    (ground arith),
                back,
              )
              (same k here))
      | inr there ↦
          let full : chunk p.bytes_remaining ≡ 512 = ground arith in
          let at : p.dest + chunk p.bytes_remaining + (k - 512) ≡ p.dest + k = omega arith in
          let next_div : lba + 1 + (k - 512) / 512 ≡ lba + k / 512 = omega arith in
          let next_mod : (k - 512) % 512 ≡ k % 512 = omega arith in
          let later = rest.bytes (k - 512) (ground arith) (omega arith) in
          rw (next_div, next_mod, at) at later
    ];
  }

  copy_cluster_fills :
      (left s clus_lba lba : ℕ) (p : Progress S)
      → lba ≡ clus_lba + s
      → lba + left ≤ n
      → (q : Progress S) × (copy_cluster read_fn left s clus_lba p ≡ going q)
        × Filled lba (left * 512) p q
  copy_cluster_fills zero s clus_lba lba p e fits = (
    p,
    unfold copy_cluster in refl,
    record { left = omega arith; bytes = λ k lt below. absurd (omega arith) },
  )
  copy_cluster_fills (suc left) s clus_lba lba p e fits = elim (lt_or_le 0 p.bytes_remaining) [
    | inr full ↦ (
      p,
      copy_cluster_full read_fn left s clus_lba p (omega arith),
      record { left = omega arith; bytes = λ k lt below. absurd (omega arith) },
    )
    | inl more ↦
        let (b, reads, same) = serves.reads lba p.disk (omega arith) in
        let p' = wrote p b (read_fn lba 1 p.disk).1 in
        let (q, goes, filled) =
          copy_cluster_fills left (s + 1) clus_lba (lba + 1) p' (omega arith) (omega arith) in
        let moved = copy_cluster-Advances read_fn left (s + 1) clus_lba p' in
        (
          q,
          copy_cluster_goes read_fn left s clus_lba lba p p' more (omega arith)
                (copy_sector_reads read_fn lba p b reads)
              ∙ goes,
          Filled-suc lba left p q b (read_fn lba 1 p.disk).1 more same (rw goes at moved) filled,
        )
  ]

  -- The whole chain: what is left to read, and the bytes that are read.
  record Loaded (fs : FatFs) (cs : List ℕ) (p : Progress S) (r : Status × Progress S) : Type 0 where
    left : r.1.bytes_remaining ≡ p.bytes_remaining - length cs * cluster_bytes fs
    bytes :
        (k : ℕ)
        → k < p.bytes_remaining
        → k < length cs * cluster_bytes fs
        → byte r.1.mem (p.dest + k) ≡ file_byte fs disk cs k

  -- A cluster, and what the rest of the chain gives after it.
  Loaded-cons :
      (fs : FatFs) (c : ℕ) (cs : List ℕ) (p q : Progress S) (st : S) (r : Status × Progress S)
      → Advances p q
      → Filled (fs.data_sec + (c - 2) * fs.sec_per_clus) (cluster_bytes fs) p q
      → Advances q r.1
      → Loaded fs cs (record q { disk = st }) r
      → Loaded fs (c ∷ cs) p r
  unfolding file_byte
  Loaded-cons fs c cs p q st r first filled later rest = record {
    left = omega (arith, filled.left, rest.left);
    bytes = λ k lt below. elim (lt_or_le k (cluster_bytes fs)) [
      | inl here ↦
          let kept = later.outside (p.dest + k) (omega (arith, first.same_end, filled.left)) in
          rw (lt→ltb k (cluster_bytes fs) here, kept) (filled.bytes k lt here)
      | inr there ↦
          let at : q.dest + (k - cluster_bytes fs) ≡ p.dest + k =
            omega (arith, first.same_end, filled.left) in
          let tail = rest.bytes (k - cluster_bytes fs) (omega (arith, filled.left)) (omega arith) in
          rw (le→not_ltb k (cluster_bytes fs) there) (rw at at tail)
    ];
  }

  copy_chain_loads :
      (fs : FatFs)
      → fs.bytes_per_sec ≡ 512
      → 0 < fs.sec_per_clus
      → (fuel : ℕ) {c : ℕ} {cs : List ℕ} → IsChain fs disk n c cs
      → (p : Progress S) → length cs < fuel
      → (r : Status × Progress S) × (copy_chain read_fn fuel fs c p ≡ some r) × Loaded fs cs p r
  copy_chain_loads fs bps pos zero chain p enough = absurd (omega arith)
  copy_chain_loads fs bps pos (suc fuel) {c} (chain_end stop) p enough = (
    ((if p.bytes_remaining == 0 then success else failure), p),
    copy_chain_ends read_fn fuel fs c p (ground arith),
    record { left = omega arith; bytes = λ k lt below. absurd (omega arith) },
  )
  copy_chain_loads fs bps pos (suc fuel) {c} (chain_link {rest = cs} link chain) p enough =
      elim (lt_or_le 0 p.bytes_remaining) [
        | inr full ↦ (
          ((if p.bytes_remaining == 0 then success else failure), p),
          copy_chain_ends read_fn fuel fs c p (ground arith),
          record { left = omega arith; bytes = λ k lt below. absurd (omega arith) },
        )
        | inl more ↦
            let lba = fs.data_sec + (c - 2) * fs.sec_per_clus in
            let (q, goes, filled) =
              copy_cluster_fills fs.sec_per_clus 0 lba lba p (omega arith) link.sectors_on_disk in
            let at : cluster_to_lba fs c ≡ lba = cluster_to_lba-exact fs n c small link pos in
            let goes' : copy_cluster read_fn fs.sec_per_clus 0 (cluster_to_lba fs c) p ≡ going q =
              rw at goes in
            let next : (fat_get_next_cluster fs read_fn c q.disk).0 ≡ fat_entry fs disk c =
              fat_get_next_cluster-fat_entry fs read_fn disk n c q.disk bps small serves link in
            let q' = after_entry read_fn fs c q in
            let (r, ends, loaded) = copy_chain_loads fs bps pos fuel chain q' (omega arith) in
            let moved = copy_cluster-Advances read_fn fs.sec_per_clus 0 lba p in
            let sound = copy_chain-Sound read_fn fuel fs (fat_entry fs disk c) q' r ends in
            (
              r,
              copy_chain_goes read_fn fuel fs c p q (ground (arith, link.is_data)) goes'
                  ∙ ap (λ v. copy_chain read_fn fuel fs v q') next
                  ∙ ends,
              Loaded-cons fs c cs p q q'.disk r (rw goes at moved) filled
                  (Advances-from q q'.disk r.1 sound.0) loaded,
            )
      ]

-- Where the disk answers and the chain from `first_cluster` lies on it, fat_read_file returns, with
-- any fuel above the number of clusters. It returns 0 exactly when the chain holds `file_size` bytes
-- or more, and byte `k` of the destination is byte `k` of the chain's clusters, for each `k` below
-- the file size and the size of the chain.
pub fat_read_file-file_byte :
    {S : Type 0} (fuel n : ℕ) (fs : FatFs) (read_fn : DiskReadFn S) (disk : Disk)
    (clus size dest k : ℕ) (cs : List ℕ) (m : Mem) (st : S)
    → n ≤ 4294967296
    → Serves read_fn disk n
    → IsChain fs disk n clus cs
    → fs.bytes_per_sec ≡ 512
    → 0 < fs.sec_per_clus
    → length cs < fuel
    → k < size
    → k < length cs * cluster_bytes fs
    → (r : Status × Progress S) × (fat_read_file fuel fs read_fn clus size dest m st ≡ some r)
      × (r.0 ≡ (if leb size (length cs * cluster_bytes fs) then success else failure))
      × (byte r.1.mem (dest + k) ≡ file_byte fs disk cs k)
unfolding fat_read_file
fat_read_file-file_byte {S} fuel n fs read_fn disk clus size dest k cs m st small serves chain bps
      pos enough lt below =
    let start : Progress S = record { bytes_remaining = size; dest = dest; mem = m; disk = st } in
    let (r, ends, loaded) =
      copy_chain_loads read_fn disk n small serves fs bps pos fuel chain start enough in
    let sound = copy_chain-Sound read_fn fuel fs clus start r ends in
    (r, ends, ground (arith, sound.1, loaded.left), loaded.bytes k lt below)
