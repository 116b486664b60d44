-- ===== src/Fat/Read/Frame.antt =====
-- fat_read_file of src/common/fat.c on any disk: it stays inside its buffer, and it ends.
use gemiboot.Base.{
  some_eq, lt→ltb, ◌↔◌, u32, ℕ, zero, suc, ◌+◌, ◌-◌, ◌≤◌, ◌<◌, ◌≡◌, ◌≢◌, refl, ap, sym, ◌∙◌, ◌⊎◌,
  inl, inr, arith, none, some, ltb, leb, ◌==◌, not, ◌&&◌, if◌then◌else◌, Mem, blit, blit_out,
  Bool-cases, Option-cases, Status, success, failure,
}
use mathlib.Core.Path.{subst}
use mathlib.Core.Bool.{Bool, true, false}
use gemiboot.Fat.Volume.{
  FatFs, DiskReadFn, sector_size, cluster_to_lba, fat_get_next_cluster, is_end_of_cluster_chain,
}
use gemiboot.Fat.Read.{
  Progress, Copied, going, stopped, copy_sector, copy_cluster, copy_chain, fat_read_file,
}

-- From `p` to `q` the window of bytes still to write shrinks from the front, and memory changes
-- only inside the window of `p`.
pub record Advances {S : Type 0} (p q : Progress S) : Type 0 where
  pub same_end : q.dest + q.bytes_remaining ≡ p.dest + p.bytes_remaining
  pub forward : p.dest ≤ q.dest
  pub outside : (x : ℕ) → (x < p.dest) ⊎ (p.dest + p.bytes_remaining ≤ x) → q.mem x ≡ p.mem x

module _ {S : Type 0} where
  pub Advances-refl : (p : Progress S) → Advances p p
  Advances-refl p = record { same_end = refl; forward = omega arith; outside = λ x h. refl }

  pub Advances-trans : (p q r : Progress S) → Advances p q → Advances q r → Advances p r
  Advances-trans p q r a b = record {
    same_end = omega (arith, a.same_end, b.same_end);
    forward = omega (arith, a.forward, b.forward);
    outside = λ x h. b.outside x (omega (arith, a.same_end, a.forward)) ∙ a.outside x h;
  }

  -- The state of the disk callback plays no part.
  pub Advances-from :
      (p : Progress S) (disk : S) (q : Progress S)
      → Advances (record p { disk = disk }) q
      → Advances p q
  Advances-from p disk q a = record {
    same_end = a.same_end;
    forward = a.forward;
    outside = a.outside;
  }

  abbrev pub progress : Copied S → Progress S
  progress (going p) = p
  progress (stopped p) = p

  pub Copied-cases :
      (c : Copied S) → ((q : Progress S) × (c ≡ stopped q)) ⊎ ((q : Progress S) × (c ≡ going q))
  Copied-cases (stopped q) = inl (q, refl)
  Copied-cases (going q) = inr (q, refl)

-- min(bytes_remaining, 512)
abbrev pub chunk : ℕ → ℕ
chunk remaining = if ltb sector_size remaining then sector_size else remaining

-- The progress after a sector with the bytes `b`.
abbrev pub wrote : {S : Type 0} → Progress S → Mem → S → Progress S
wrote p b disk = record {
  bytes_remaining = p.bytes_remaining - chunk p.bytes_remaining;
  dest = p.dest + chunk p.bytes_remaining;
  mem = blit p.mem p.dest b (chunk p.bytes_remaining);
  disk = disk;
}

module _ {S : Type 0} (read_fn : DiskReadFn S) where
  pub copy_sector_fails :
      (lba : ℕ) (p : Progress S)
      → (read_fn lba 1 p.disk).0 ≡ none
      → copy_sector read_fn lba p ≡ stopped (record p { disk = (read_fn lba 1 p.disk).1 })
  unfolding copy_sector
  copy_sector_fails lba p fails = rw (fails, copy_sector)

  -- Both ways of reading a sector write the same bytes.
  pub copy_sector_reads :
      (lba : ℕ) (p : Progress S) (b : Mem)
      → (read_fn lba 1 p.disk).0 ≡ some b
      → copy_sector read_fn lba p ≡ going (wrote p b (read_fn lba 1 p.disk).1)
  unfolding copy_sector
  copy_sector_reads lba p b reads =
      rw (reads, copy_sector)
        (ap
          (λ (m : Mem). going (record {
            bytes_remaining = p.bytes_remaining - chunk p.bytes_remaining;
            dest = p.dest + chunk p.bytes_remaining;
            mem = m;
            disk = (read_fn lba 1 p.disk).1;
          }))
          (ground arith))

  wrote-Advances : (p : Progress S) (b : Mem) (disk : S) → Advances p (wrote p b disk)
  wrote-Advances p b disk = record {
    same_end = ground arith;
    forward = omega arith;
    outside = λ x h. blit_out p.mem p.dest b (chunk p.bytes_remaining) x (ground arith);
  }

  pub copy_sector-Advances :
      (lba : ℕ) (p : Progress S) → Advances p (progress (copy_sector read_fn lba p))
  copy_sector-Advances lba p = elim (Option-cases (read_fn lba 1 p.disk).0) [
    | inl fails ↦
        rw (copy_sector_fails lba p fails)
          (record { same_end = refl; forward = omega arith; outside = λ x h. refl })
    | inr (b, reads) ↦ rw (copy_sector_reads lba p b reads) (wrote-Advances p b _)
  ]

  pub copy_cluster-Advances :
      (left s lba : ℕ) (p : Progress S) → Advances p (progress (copy_cluster read_fn left s lba p))
  unfolding copy_cluster
  copy_cluster-Advances zero s lba p = Advances-refl p
  copy_cluster-Advances (suc left) s lba p = elim (Bool-cases (ltb 0 p.bytes_remaining)) [
    | inr full ↦ rw (full, progress) (Advances-refl p)
    | inl more ↦
        let here = copy_sector-Advances (u32 (lba + s)) p in
        elim (Copied-cases (copy_sector read_fn (u32 (lba + s)) p)) [
          | inl (q, e) ↦ rw (more, e) (rw e at here)
          | inr (q, e) ↦
              let first : Advances p q = rw e at here in
              rw (more, e) (Advances-trans p q _ first (copy_cluster-Advances left (s + 1) lba q))
        ]
  ]

  -- A cluster is left early by a failing read only, with bytes still to read.
  pub copy_cluster-stopped :
      (left s lba : ℕ) (p q : Progress S)
      → copy_cluster read_fn left s lba p ≡ stopped q
      → 0 < q.bytes_remaining
  unfolding copy_cluster
  copy_cluster-stopped zero s lba p q e = cc
  copy_cluster-stopped (suc left) s lba p q e = elim (Bool-cases (ltb 0 p.bytes_remaining)) [
    | inr full ↦ cc (rw full at e)
    | inl more ↦ elim (Option-cases (read_fn (u32 (lba + s)) 1 p.disk).0) [
      | inl fails ↦ ground (arith, rw (more, copy_sector_fails (u32 (lba + s)) p fails) at e)
      | inr (b, reads) ↦
          copy_cluster-stopped left (s + 1) lba (wrote p b _) q
            (rw (more, copy_sector_reads (u32 (lba + s)) p b reads) at e)
    ]
  ]

  -- The test of the loop over the clusters.
  abbrev pub goes_on : FatFs → ℕ → Progress S → Bool
  goes_on fs clus p = ltb 0 p.bytes_remaining && not (is_end_of_cluster_chain fs clus) && leb 2 clus

  pub copy_chain_ends :
      (fuel : ℕ) (fs : FatFs) (clus : ℕ) (p : Progress S)
      → goes_on fs clus p ≡ false
      → copy_chain read_fn (suc fuel) fs clus p
        ≡ some ((if p.bytes_remaining == 0 then success else failure), p)
  unfolding copy_chain
  copy_chain_ends fuel fs clus p stop = rw (stop, copy_chain)

  pub copy_chain_stops :
      (fuel : ℕ) (fs : FatFs) (clus : ℕ) (p q : Progress S)
      → goes_on fs clus p ≡ true
      → copy_cluster read_fn fs.sec_per_clus 0 (cluster_to_lba fs clus) p ≡ stopped q
      → copy_chain read_fn (suc fuel) fs clus p ≡ some (failure, q)
  unfolding copy_chain
  copy_chain_stops fuel fs clus p q go e = rw (go, e, copy_chain)

  -- The progress with which the next cluster is entered.
  abbrev pub after_entry : FatFs → ℕ → Progress S → Progress S
  after_entry fs clus q = record q { disk = (fat_get_next_cluster fs read_fn clus q.disk).1 }

  pub copy_chain_goes :
      (fuel : ℕ) (fs : FatFs) (clus : ℕ) (p q : Progress S)
      → goes_on fs clus p ≡ true
      → copy_cluster read_fn fs.sec_per_clus 0 (cluster_to_lba fs clus) p ≡ going q
      → copy_chain read_fn (suc fuel) fs clus p
        ≡ copy_chain read_fn fuel fs
            (fat_get_next_cluster fs read_fn clus q.disk).0
            (after_entry fs clus q)
  unfolding copy_chain
  copy_chain_goes fuel fs clus p q go e = rw (go, e, copy_chain)

  -- What every result of the chain has in common.
  abbrev Sound : Progress S → Status × Progress S → Type 0
  Sound p r = Advances p r.1 × ((r.0 ≡ success) ↔ (r.1.bytes_remaining ≡ 0))

  pub copy_chain-Sound :
      (fuel : ℕ) (fs : FatFs) (clus : ℕ) (p : Progress S) (r : Status × Progress S)
      → copy_chain read_fn fuel fs clus p ≡ some r
      → Sound p r
  unfolding copy_chain
  copy_chain-Sound zero fs clus p r e = cc
  copy_chain-Sound (suc fuel) fs clus p r e = elim (Bool-cases (goes_on fs clus p)) [
    | inr stop ↦
        subst (Sound p) (some_eq (sym (copy_chain_ends fuel fs clus p stop) ∙ e))
          (Advances-refl p, ground arith)
    | inl go ↦
        let lba = cluster_to_lba fs clus in
        let here = copy_cluster-Advances fs.sec_per_clus 0 lba p in
        elim (Copied-cases (copy_cluster read_fn fs.sec_per_clus 0 lba p)) [
          | inl (q, c) ↦
              subst (Sound p) (some_eq (sym (copy_chain_stops fuel fs clus p q go c) ∙ e))
                (rw c at here, ground (arith, copy_cluster-stopped fs.sec_per_clus 0 lba p q c))
          | inr (q, c) ↦
              let first : Advances p q = rw c at here in
              let rest =
                copy_chain-Sound fuel fs _ (after_entry fs clus q) r
                  (sym (copy_chain_goes fuel fs clus p q go c) ∙ e) in
              (Advances-trans p q r.1 first (Advances-from q _ r.1 rest.0), rest.1)
        ]
  ]

-- The bytes left fall with every cluster that is read.
copy_cluster-falls :
    {S : Type 0} (read_fn : DiskReadFn S) (left s lba : ℕ) (p q : Progress S)
    → copy_cluster read_fn (suc left) s lba p ≡ going q
    → 0 < p.bytes_remaining
    → q.bytes_remaining < p.bytes_remaining
unfolding copy_cluster
copy_cluster-falls read_fn left s lba p q e pos =
    elim (Option-cases (read_fn (u32 (lba + s)) 1 p.disk).0) [
      | inl fails ↦ cc (
          rw (lt→ltb 0 p.bytes_remaining pos, copy_sector_fails read_fn (u32 (lba + s)) p fails) at
            e)
      | inr (b, reads) ↦
          let p' = wrote p b (read_fn (u32 (lba + s)) 1 p.disk).1 in
          let e' : copy_cluster read_fn left (s + 1) lba p' ≡ going q =
            rw (lt→ltb 0 p.bytes_remaining pos, copy_sector_reads read_fn (u32 (lba + s)) p b reads)
              at e in
          let here = copy_cluster-Advances read_fn left (s + 1) lba p' in
          let adv : Advances p' q = rw e' at here in ground (arith, adv.same_end, adv.forward)
    ]

copy_chain-ne-none :
    {S : Type 0} (read_fn : DiskReadFn S) (fuel : ℕ) (fs : FatFs) (clus : ℕ) (p : Progress S)
    → 0 < fs.sec_per_clus
    → p.bytes_remaining < fuel
    → copy_chain read_fn fuel fs clus p ≢ none
copy_chain-ne-none read_fn zero fs clus p pos enough = absurd (omega arith)
copy_chain-ne-none read_fn (suc fuel) fs clus p pos enough =
    elim (Bool-cases (goes_on read_fn fs clus p)) [
      | inr stop ↦ λ e. cc (sym (copy_chain_ends read_fn fuel fs clus p stop) ∙ e)
      | inl go ↦
          let lba = cluster_to_lba fs clus in
          elim (Copied-cases (copy_cluster read_fn fs.sec_per_clus 0 lba p)) [
            | inl (q, c) ↦ λ e. cc (sym (copy_chain_stops read_fn fuel fs clus p q go c) ∙ e)
            | inr (q, c) ↦
                let one_more : fs.sec_per_clus ≡ suc (fs.sec_per_clus - 1) = omega arith in
                let falls =
                  copy_cluster-falls read_fn (fs.sec_per_clus - 1) 0 lba p q
                    (subst (λ n. copy_cluster read_fn n 0 lba p ≡ going q) one_more c)
                    (ground arith) in
                λ e.
                  copy_chain-ne-none read_fn fuel fs _ (after_entry read_fn fs clus q) pos
                    (omega arith) (sym (copy_chain_goes read_fn fuel fs clus p q go c) ∙ e)
          ]
    ]

-- fat_read_file ends on every disk, with any fuel above the file size, where a cluster has at
-- least one sector: even a chain of clusters that runs in a circle is left.
pub fat_read_file-ne-none :
    {S : Type 0} (fuel : ℕ) (fs : FatFs) (read_fn : DiskReadFn S) (clus size dest : ℕ) (m : Mem)
    (st : S)
    → 0 < fs.sec_per_clus
    → size < fuel
    → fat_read_file fuel fs read_fn clus size dest m st ≢ none
unfolding fat_read_file
fat_read_file-ne-none fuel fs read_fn clus size dest m st pos enough =
    copy_chain-ne-none read_fn fuel fs clus
      (record { bytes_remaining = size; dest = dest; mem = m; disk = st }) pos enough
