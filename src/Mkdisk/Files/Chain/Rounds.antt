-- ===== src/Mkdisk/Files/Chain/Rounds.antt =====
-- The rounds of write_file_data of tools/mkdisk.c.
use gemiboot.Base.{
  ◌∙◌, ap, min, ℕ, zero, suc, ◌+◌, ◌-◌, ◌*◌, ◌%◌, ◌≡◌, ◌≤◌, ◌<◌, inl, inr, arith, Mem, byte, blit,
  blit_in, blit_out, ltb, ◌==◌, if◌then◌else◌, lt_or_le, Bool-cases, false,
}
use mathlib.Core.Path.{subst}
use gemiboot.Mkdisk.{Image, get_sector, cluster_to_lba, fat32_set_fat_entry, allocate_cluster}
use gemiboot.Mkdisk.Frame.{
  cluster_at, cluster-exact, set_out, link_of, link_of-same, link_of-set, link_of-set_apart,
}
use gemiboot.Mkdisk.Frame.Allocate.{allocate_cluster-HasAllocated}
use gemiboot.Mkdisk.Files.{Writing, write_cluster, write_clusters}
use gemiboot.Mkdisk.Files.Chain.{HasFile, IsLinked, Written, first-IsLinked, next-IsLinked}

module _ (img0 : Image) (data_bytes : Mem) (size : ℕ) where
  -- The copy into the cluster of round `i`, and the variables after it.
  copied-Written :
      (i : ℕ) (w : Writing) (img : Image)
      → 3 ≤ img0.g_next_free_clus
      → img0.g_next_free_clus + i < 130044
      → i * 2048 ≤ size
      → Written img0 data_bytes size i w
      → IsLinked img0 data_bytes size i w.src img
      → let copy_bytes = if ltb 2048 w.remaining then 2048 else w.remaining in
        let clus = img0.g_next_free_clus + i in
        let first = if i == 0 then clus else w.first_clus in
        Written img0 data_bytes size (i + 1) (
          if ltb 0 copy_bytes
          then record {
            image = record img {
              g_disk =
                  blit img.g_disk
                    (get_sector (cluster_to_lba img clus))
                    (λ k. data_bytes (w.src + k))
                    copy_bytes;
            };
            first_clus = first;
            prev_clus = clus;
            src = w.src + copy_bytes;
            remaining = w.remaining - copy_bytes;
          }
          else record w { image = img; first_clus = first; prev_clus = clus })
  copied-Written i w img three small room h l =
      let f = img0.g_next_free_clus in
      let n = if ltb 2048 w.remaining then 2048 else w.remaining in
      let first : 0 < i + 1 → (if i == 0 then f + i else w.first_clus) ≡ f =
        λ lt. ground (arith, h.first) in
      let src : w.src ≡ i * 2048 = omega (arith, h.src) in
      let few : n ≤ 2048 = ground arith in
      let next : w.src + n ≡ min ((i + 1) * 2048) size = ground (arith, h.remaining, src) in
      let left : w.remaining - n + (w.src + n) ≡ size = ground (arith, h.remaining) in
      let a = get_sector (cluster_to_lba img (f + i)) in
      let at : a ≡ cluster_at f + w.src =
        cluster-exact img (f + i) l.layout (omega arith) (omega arith) ∙ omega (arith, src) in
      let outside : (x : ℕ)
          → x < a
          → byte (blit img.g_disk a (λ j. data_bytes (w.src + j)) n) x ≡ byte img.g_disk x =
        λ x out.
          ap (λ (v : ℕ). v % 256)
            (blit_out img.g_disk a (λ j. data_bytes (w.src + j)) n x (inl out)) in
      elim (Bool-cases (ltb 0 n)) [
        | inr full ↦
            let zero_bytes : n ≡ 0 = ground arith in
            rw full (record {
              layout = l.layout;
              next_free = omega (arith, l.next_free);
              first = first;
              prev = λ lt. omega arith;
              src = omega (arith, next, zero_bytes);
              remaining = h.remaining;
              kept = l.kept;
              links = λ j lt. l.links j (omega arith);
              bytes = l.bytes;
            })
        | inl more ↦ rw more (record {
          layout = record {
            fat_start = l.layout.fat_start;
            fat_size = l.layout.fat_size;
            data_start = l.layout.data_start;
          };
          next_free = omega (arith, l.next_free);
          first = first;
          prev = λ lt. omega arith;
          src = next;
          remaining = left;
          kept = λ x below. outside x (omega (arith, at, src)) ∙ l.kept x below;
          links = λ j lt.
              link_of-same (f + j) img.g_disk _
                (λ x above below. outside x (omega (arith, at, src)))
              ∙ l.links j (omega arith);
          bytes = λ k lt. elim (lt_or_le k w.src) [
            | inl before ↦ outside (cluster_at f + k) (omega (arith, at)) ∙ l.bytes k before
            | inr here ↦
                ap (λ (v : ℕ). v % 256)
                  (blit_in img.g_disk a (λ j. data_bytes (w.src + j)) n (cluster_at f + k)
                    (omega (arith, at)) (omega (arith, at)))
                ∙ let same : w.src + (cluster_at f + k - a) ≡ k = omega (arith, at) in
                  ap (byte data_bytes) same
          ];
        })
      ]

  write_cluster-Written :
      (i : ℕ) (w : Writing)
      → 3 ≤ img0.g_next_free_clus
      → img0.g_next_free_clus + i < 130044
      → i * 2048 ≤ size
      → Written img0 data_bytes size i w
      → Written img0 data_bytes size (i + 1) (write_cluster data_bytes i w)
  unfolding write_cluster
  write_cluster-Written zero w three small room h =
      let (clus, a) =
        allocate_cluster-HasAllocated w.image h.layout (omega (arith, h.next_free))
          (omega (arith, h.next_free)) in
      let at : (allocate_cluster w.image).0 ≡ img0.g_next_free_clus + 0 = clus ∙ h.next_free in
      rw at (
        copied-Written 0 w (allocate_cluster w.image).1 three small (omega arith) h
          (first-IsLinked img0 data_bytes size w three h a))
  write_cluster-Written (suc i) w three small room h =
      let (clus, a) =
        allocate_cluster-HasAllocated w.image h.layout (omega (arith, h.next_free))
          (omega (arith, h.next_free)) in
      let at : (allocate_cluster w.image).0 ≡ img0.g_next_free_clus + suc i = clus ∙ h.next_free in
      let later : (suc i == 0) ≡ false = ground arith in
      let next =
        fat32_set_fat_entry w.prev_clus (img0.g_next_free_clus + suc i)
          (allocate_cluster w.image).1 in
      let l : IsLinked img0 data_bytes size (suc i) w.src
          (if suc i == 0 then (allocate_cluster w.image).1 else next) =
        rw later
          (next-IsLinked img0 data_bytes size (suc i) w three (omega arith) small room h a) in
      rw at (copied-Written (suc i) w _ three small room h l)

  -- The loop runs `left` more rounds, the last of them for the rest of the data.
  pub write_clusters-Written :
      (left i : ℕ) (w : Writing)
      → 3 ≤ img0.g_next_free_clus
      → img0.g_next_free_clus + i + left ≤ 130044
      → (i + left) * 2048 ≤ size + 2048
      → Written img0 data_bytes size i w
      → Written img0 data_bytes size (i + left) (write_clusters left i data_bytes w)
  unfolding write_clusters
  write_clusters-Written zero i w three small room h =
      let e : i ≡ i + 0 = omega arith in subst (λ (n : ℕ). Written img0 data_bytes size n w) e h
  write_clusters-Written (suc left) i w three small room h =
      let e : i + 1 + left ≡ i + suc left = omega arith in
      subst
        (λ (n : ℕ).
          Written img0 data_bytes size n
            (write_clusters left (i + 1) data_bytes (write_cluster data_bytes i w)))
        e
        (write_clusters-Written left (i + 1) (write_cluster data_bytes i w) three (omega arith)
          (omega arith) (write_cluster-Written i w three (omega arith) (omega arith) h))

  -- The image after the loop and the last entry of the table.
  pub write_clusters-HasFile :
      (n : ℕ) (w : Writing)
      → 0 < n
      → size ≤ n * 2048
      → 3 ≤ img0.g_next_free_clus
      → img0.g_next_free_clus + n ≤ 130044
      → Written img0 data_bytes size n w
      → HasFile
          (fat32_set_fat_entry w.prev_clus 0x0fffffff w.image).g_disk
          img0.g_next_free_clus
          n
          data_bytes
          size
  write_clusters-HasFile n w pos room three small h =
      let f = img0.g_next_free_clus in
      let prev = h.prev pos in
      let in_table : w.prev_clus < 130560 = omega arith in
      record {
        links = λ j lt.
            link_of-set_apart w.image w.prev_clus (f + j) 0x0fffffff h.layout in_table (omega arith)
              (omega arith)
            ∙ h.links j lt;
        last =
            let at : f + (n - 1) ≡ w.prev_clus = omega arith in
            ap (link_of (fat32_set_fat_entry w.prev_clus 0x0fffffff w.image).g_disk) at
            ∙ link_of-set w.image w.prev_clus 0x0fffffff h.layout in_table;
        bytes = λ k lt.
            set_out w.image w.prev_clus 0x0fffffff (cluster_at f + k) h.layout in_table
              (inr (inr (omega arith)))
            ∙ h.bytes k (omega (arith, h.src));
      }
