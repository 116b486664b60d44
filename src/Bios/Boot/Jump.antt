-- ===== src/Bios/Boot/Jump.antt =====
-- What bios_loader_main has done when it jumps.
use mathlib.Core.Path.{subst}
use gemiboot.Base.{
  ◌-◌, length, ap, inl, inr, refl, sym, ◌∙◌, arith, ℕ, zero, suc, ◌≡◌, ◌≢◌, ◌⊎◌, ◌==◌, Option, none,
  some, List, chars, line, Mem, ia32, success, failure, Bool-cases, Option-cases,
}
use gemiboot.Multiboot.{MultibootInfo}
use gemiboot.Serial.{Output}
use gemiboot.Elf.{elf32_load}
use gemiboot.Fat.Volume.{FatFs, DiskReadFn, Init, fat_init}
use gemiboot.Fat.Find.{Search, fat_find_file}
use gemiboot.Fat.Read.{Progress, fat_read_file}
use gemiboot.Bios.Partition.{find_active_partition_lba}
use gemiboot.Bios.Multiboot.{prepare_info}
use gemiboot.Bios.Boot.{
  Ports, Boot, End, kernel_load_temp_addr, say, say_dec, say_hex, countdown, cmos_get_sec,
  wait_second, pause_seconds, start_kernel, load_and_start, read_and_start, search, find_and_start,
  load_from_disk, serial_ready, output_of, waits_end, at_port, bios_loader_main,
}

module _ {S : Type 0} (ports : Ports S) where
  -- The memory after a pause.
  Keeps : Mem → Option (Boot S) → Type 0
  Keeps m none = Unit
  Keeps m (some b) = b.mem ≡ m

  countdown-Keeps : (fuel s : ℕ) (b : Boot S) → Keeps b.mem (countdown ports fuel s b)
  unfolding countdown Keeps say say_dec
  countdown-Keeps fuel zero b = refl
  countdown-Keeps fuel (suc s) b = elim (Option-cases (cmos_get_sec ports fuel b.machine)) [
    | inl out ↦ rw (countdown, out) tt
    | inr ((start_sec, st), e) ↦ elim (Option-cases (wait_second ports fuel 2000000 start_sec st)) [
      | inl out ↦ rw (countdown, e, out) tt
      | inr (st', e') ↦ rw (countdown, e, e') (countdown-Keeps fuel s _)
    ]
  ]

  pause-Keeps : (fuel seconds : ℕ) (b : Boot S) → Keeps b.mem (pause_seconds ports fuel seconds b)
  unfolding pause_seconds say say_dec
  pause-Keeps fuel seconds b = countdown-Keeps fuel seconds _

  -- What holds of the entry point, the structure and the memory, if the end is a jump.
  unfoldable pub Leads : (ℕ → MultibootInfo → Mem → Type 0) → Option (End S) → Type 0
  Leads P none = Unit
  Leads P (some (End.halted b)) = Unit
  Leads P (some (End.divide_error b)) = Unit
  Leads P (some (End.jumped entry mbi b)) = P entry mbi b.mem

  start_kernel-Leads :
      (P : ℕ → MultibootInfo → Mem → Type 0) (fuel name entry : ℕ) (b : Boot S)
      → P entry (prepare_info name b.mem).0 (prepare_info name b.mem).1
      → Leads P (start_kernel ports fuel name entry b)
  unfolding start_kernel Leads Keeps say say_hex
  start_kernel-Leads P fuel name entry b h =
      let number = say_hex entry (say (chars "[GEMIBOOT] Kernel entry point: ") b) in
      let said = say (line "") number in
      let info = prepare_info name b.mem in
      let ready : Boot S = record said { mem = info.1 } in
      elim (Option-cases (pause_seconds ports fuel 5 ready)) [
        | inl out ↦ rw (start_kernel, out) tt
        | inr (paused, e) ↦
            let kept = subst (Keeps info.1) e (pause-Keeps fuel 5 ready) in
            rw (start_kernel, e) (subst (P entry info.0) (sym kept) h)
      ]

  load_and_start-Leads :
      (P : ℕ → MultibootInfo → Mem → Type 0) (fuel name file_size : ℕ) (b : Boot S)
      → ((entry : ℕ) (m : Mem)
          → elf32_load ia32 65536 kernel_load_temp_addr file_size b.mem ≡ some (entry, m)
          → entry ≢ 0
          → P entry (prepare_info name m).0 (prepare_info name m).1)
      → Leads P (load_and_start ports fuel name file_size b)
  unfolding load_and_start Leads say
  load_and_start-Leads P fuel name file_size b h =
      elim (Option-cases (elf32_load ia32 65536 kernel_load_temp_addr file_size b.mem)) [
        | inl out ↦ rw (load_and_start, out) tt
        | inr ((entry, m), e) ↦ elim (Bool-cases (entry == 0)) [
          | inl failed ↦ rw (load_and_start, e, failed) tt
          | inr valid ↦
              rw (load_and_start, e, valid)
                (start_kernel-Leads P fuel name entry _ (h entry m e (ground arith)))
        ]
      ]

  module _ (read_fn : DiskReadFn S) where
    read_and_start-Leads :
        (P : ℕ → MultibootInfo → Mem → Type 0) (fuel name : ℕ) (fs : FatFs) (clus size : ℕ)
        (b : Boot S)
        → ((p : Progress S) (entry : ℕ) (m : Mem)
            → fat_read_file (suc size) fs read_fn clus size kernel_load_temp_addr b.mem b.machine
              ≡ some (success, p)
            → elf32_load ia32 65536 kernel_load_temp_addr size p.mem ≡ some (entry, m)
            → entry ≢ 0
            → P entry (prepare_info name m).0 (prepare_info name m).1)
        → Leads P (read_and_start ports read_fn fuel name fs clus size b)
    unfolding read_and_start Leads say say_dec
    read_and_start-Leads P fuel name fs clus size b h =
        elim (Option-cases
          (fat_read_file (suc size) fs read_fn clus size kernel_load_temp_addr b.mem b.machine)) [
            | inl out ↦ rw (read_and_start, out) tt
            | inr ((failure, p), e) ↦ rw (read_and_start, e) tt
            | inr ((success, p), e) ↦
                rw (read_and_start, e)
                  (load_and_start-Leads P fuel name size _ (λ entry m l ne. h p entry m e l ne))
          ]

    -- A search that found the kernel: one of the two names, and the state before that search.
    pub record HasFound (fuel : ℕ) (fs : FatFs) (clus size : ℕ) (after : S) : Type 0 where
      pub file_name : List ℕ
      pub before : S
      pub is_name : (file_name ≡ chars "gemios.elf") ⊎ (file_name ≡ chars "GEMIOS.ELF")
      pub is_found :
          fat_find_file fuel fs read_fn file_name (λ k. 0) before ≡ (Search.found clus size, after)

    search-HasFound :
        (fuel : ℕ) (fs : FatFs) (clus size : ℕ) (before after : S)
        → search ports read_fn fuel fs before ≡ (Search.found clus size, after)
        → HasFound fuel fs clus size after
    unfolding search
    search-HasFound fuel fs clus size before after e =
        pick (fat_find_file fuel fs read_fn (chars "gemios.elf") (λ k. 0) before) refl e
      where
        second : S → Search × S
        second st = fat_find_file fuel fs read_fn (chars "GEMIOS.ELF") (λ k. 0) st

        pick :
            (first : Search × S)
            → fat_find_file fuel fs read_fn (chars "gemios.elf") (λ k. 0) before ≡ first
            → ◌≡◌ {A = Search × S}
                (elim first.0 [
                  | Search.found c s ↦ (Search.found c s, first.1)
                  | Search.absent ↦ second first.1
                  | Search.searching ↦ second first.1
                  | Search.out_of_fuel ↦ (Search.out_of_fuel, first.1)
                ])
                (Search.found clus size, after)
            → HasFound fuel fs clus size after
        pick (Search.found c s, st) e1 h = record {
          file_name = chars "gemios.elf";
          before = before;
          is_name = inl refl;
          is_found = e1 ∙ h;
        }
        pick (Search.absent, st) e1 h = record {
          file_name = chars "GEMIOS.ELF";
          before = st;
          is_name = inr refl;
          is_found = h;
        }
        pick (Search.searching, st) e1 h = record {
          file_name = chars "GEMIOS.ELF";
          before = st;
          is_name = inr refl;
          is_found = h;
        }
        pick (Search.out_of_fuel, st) e1 h = cc

    find_and_start-Leads :
        (P : ℕ → MultibootInfo → Mem → Type 0) (fuel name : ℕ) (fs : FatFs) (b : Boot S)
        → ((clus size : ℕ) (found_state : S) (p : Progress S) (entry : ℕ) (m : Mem)
            → HasFound fuel fs clus size found_state
            → fat_read_file (suc size) fs read_fn clus size kernel_load_temp_addr b.mem found_state
              ≡ some (success, p)
            → elf32_load ia32 65536 kernel_load_temp_addr size p.mem ≡ some (entry, m)
            → entry ≢ 0
            → P entry (prepare_info name m).0 (prepare_info name m).1)
        → Leads P (find_and_start ports read_fn fuel name fs b)
    unfolding find_and_start Leads say
    find_and_start-Leads P fuel name fs b h = go (search ports read_fn fuel fs b.machine) refl
      where
        go :
            (r : Search × S)
            → search ports read_fn fuel fs b.machine ≡ r
            → Leads P (find_and_start ports read_fn fuel name fs b)
        go (Search.found clus size, st) e =
            rw (find_and_start, ap (λ r. r.0) e, ap (λ r. r.1) e)
              (read_and_start-Leads P fuel name fs clus size _ (λ p entry m r l ne.
                h clus size st p entry m (search-HasFound fuel fs clus size b.machine st e) r l ne))
        go (Search.absent, st) e = rw (find_and_start, e) tt
        go (Search.searching, st) e = rw (find_and_start, e) tt
        go (Search.out_of_fuel, st) e = rw (find_and_start, e) tt

    -- The steps to the jump.
    pub record HasBooted (fuel name : ℕ) (b : Boot S) (entry : ℕ) (mbi : MultibootInfo)
        (at_jump : Mem) : Type 0 where
      pub fs : FatFs
      pub first_clus : ℕ
      pub file_size : ℕ
      pub found_state : S
      pub progress : Progress S
      pub loaded_mem : Mem
      pub mounted :
          (fat_init
            (find_active_partition_lba (read_fn 0 1 b.machine).0)
            (some read_fn)
            (read_fn 0 1 b.machine).1).0
          ≡ Init.ready fs
      pub found : HasFound fuel fs first_clus file_size found_state
      pub read :
          fat_read_file
            (suc file_size)
            fs
            read_fn
            first_clus
            file_size
            kernel_load_temp_addr
            b.mem
            found_state
          ≡ some (success, progress)
      pub loaded :
          elf32_load ia32 65536 kernel_load_temp_addr file_size progress.mem
          ≡ some (entry, loaded_mem)
      pub has_entry : entry ≢ 0
      pub informed : prepare_info name loaded_mem ≡ (mbi, at_jump)

    main-Leads :
        (fuel name : ℕ) (b : Boot S)
        → Leads (HasBooted fuel name b) (load_from_disk ports read_fn fuel name b)
    unfolding load_from_disk Leads say say_dec
    main-Leads fuel name b =
        let rd = read_fn 0 1 b.machine in
        go (fat_init (find_active_partition_lba rd.0) (some read_fn) rd.1) refl
      where
        go :
            (r : Init × S)
            → fat_init
                (find_active_partition_lba (read_fn 0 1 b.machine).0)
                (some read_fn)
                (read_fn 0 1 b.machine).1
              ≡ r
            → Leads (HasBooted fuel name b) (load_from_disk ports read_fn fuel name b)
        go (Init.ready fs, st) e =
            rw (load_from_disk, e)
              (find_and_start-Leads (HasBooted fuel name b) fuel name fs _
                (λ clus size found_state p entry m f r l ne. record {
                  fs = fs;
                  first_clus = clus;
                  file_size = size;
                  found_state = found_state;
                  progress = p;
                  loaded_mem = m;
                  mounted = ap (λ r. r.0) e;
                  found = f;
                  read = r;
                  loaded = l;
                  has_entry = ne;
                  informed = refl;
                }))
        go (Init.failed, st) e = rw (load_from_disk, e) tt
        go (Init.divide_error, st) e = rw (load_from_disk, e) tt

    -- The waits for the port change no end.
    at_port-same :
        (out : Output) (run : Option (End S)) (e : End S)
        → at_port ports out run ≡ some e
        → run ≡ some e
    unfolding at_port
    at_port-same out none e h = h
    at_port-same out (some r) e h =
        elim (Bool-cases (waits_end ports (length (output_of r) - length out) (length out))) [
          | inl all ↦ rw (at_port, all) at h
          | inr never ↦ let stopped = rw (at_port, never) at h in cc
        ]

    -- Where bios_loader_main ends with a jump, then from the machine as serial_init leaves it the volume
    -- of the active partition was mounted, a search for one of the two names on it gave a first
    -- cluster and a size, all of that file was read to 0x200000, its segments were loaded and gave the
    -- nonzero entry point that is jumped to, and the structure and the memory at the jump are what
    -- prepare_info makes of the memory after loading: the messages and the pause change neither.
    pub bios_loader_main-HasBooted :
        (fuel name entry : ℕ) (b b' : Boot S) (mbi : MultibootInfo)
        → bios_loader_main ports read_fn fuel name b ≡ some (End.jumped entry mbi b')
        → HasBooted fuel name (serial_ready ports b) entry mbi b'.mem
    unfolding Leads bios_loader_main
    bios_loader_main-HasBooted fuel name entry b b' mbi e =
        let begun = serial_ready ports b in
        let same =
          at_port-same b.out (load_from_disk ports read_fn fuel name begun)
            (End.jumped entry mbi b') e in
        subst (Leads (HasBooted fuel name begun)) same (main-Leads fuel name begun)
