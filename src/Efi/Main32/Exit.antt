-- ===== src/Efi/Main32/Exit.antt =====
-- How the 32-bit loader leaves boot services.
use mathlib.Core.Path.{subst}
use gemiboot.Base.{
  ap, line, chars, u32, inl, inr, ℕ, zero, suc, ◌≡◌, ◌≢◌, ◌==◌, arith, Option, none, some, true,
  false, Mem, Bool-cases, Option-cases,
}
use gemiboot.Efi.Firmware.{Firmware, MemoryMap}
use gemiboot.Efi.Acpi.{ConfigTables}
use gemiboot.Efi.Ia32.{convert_memory_map, code32}
use gemiboot.Efi.Loader.{
  say, say_dec, Loader, mem_of, set_mem, load_kernel, start_graphics, read_kernel, begin_info,
}
use gemiboot.Efi.Main32.{End, banner, with_map, exit_loop, start_kernel, load_and_start, efi_main}

module _ {S : Type 0} (fw : Firmware S) (g_font_data : Mem) (uefi_mmap_buf image_handle : ℕ) where
  -- A round of the loop that left boot services: GetMemoryMap succeeded, the map it gave was
  -- converted, and ExitBootServices succeeded with that map's key and gave the firmware's last state.
  pub record HasLeft (l : Loader S) : Type 0 where
    pub before : Loader S
    pub old_map : MemoryMap
    pub new_map : MemoryMap
    pub st : S
    pub got_map :
        fw.get_memory_map (record old_map { mmap_size = 0x4000 }) before.firmware ≡ (0, new_map, st)
    pub converted :
        convert_memory_map uefi_mmap_buf new_map.mmap_size new_map.desc_size before.mbi
          (mem_of (with_map fw g_font_data uefi_mmap_buf image_handle new_map st before))
        ≡ some (l.mbi, mem_of l)
    pub exited : fw.exit_boot_services image_handle new_map.map_key st ≡ (0, l.firmware)

  -- The state in which the segments are loaded, after the messages about the file.
  abbrev loading : ℕ → Loader S → Loader S
  loading kernel_size read =
      let code = code32 fw g_font_data in
      say code (line " bytes. Loading ELF segments...")
        (say_dec code (u32 kernel_size) (say code (chars "[GEMIBOOT] Read gemios.elf: ") read))

  -- The way to a loaded kernel from the loader's start in the state `l`: the screen was set up, a
  -- kernel file of nonzero size was found and read, and its segments were loaded from where it was
  -- read to and gave this nonzero entry point.
  pub record HasLoaded (fuel : ℕ) (tables : Option ConfigTables) (l : Loader S) (entry : ℕ)
      : Type 0 where
    pub drawn : Loader S
    pub kernel_size : ℕ
    pub read : Loader S
    pub ready : Loader S
    pub started :
        start_graphics
          (code32 fw g_font_data)
          fuel
          (begin_info (code32 fw g_font_data) (chars "gemiboot 1.0 (UEFI 32-bit)") tables l)
        ≡ some drawn
    pub got :
        read_kernel
          (code32 fw g_font_data)
          fuel
          image_handle
          (banner fw g_font_data uefi_mmap_buf image_handle drawn)
        ≡ some (true, kernel_size, read)
    pub has_size : kernel_size ≢ 0
    pub loaded :
        load_kernel (code32 fw g_font_data) kernel_size (loading kernel_size read)
        ≡ some (entry, ready)
    pub has_entry : entry ≢ 0

  -- What the end of the loader promises: a jump follows such a round, to an entry
  -- point with the property P.
  unfoldable pub Leaves : (ℕ → Type 0) → Option (End S) → Type 0
  Leaves P none = Unit
  Leaves P (some (End.hung l)) = Unit
  Leaves P (some (End.divide_error l)) = Unit
  Leaves P (some (End.jumped entry l)) = P entry × HasLeft l

  is_zero-eq : (n : ℕ) → (n == 0) ≡ true → n ≡ 0
  is_zero-eq n h = ground arith

  exit_loop-Leaves :
      (P : ℕ → Type 0) (fuel entry : ℕ) (map : MemoryMap) (l : Loader S)
      → P entry
      → Leaves P (exit_loop fw g_font_data uefi_mmap_buf image_handle fuel entry map l)
  unfolding exit_loop Leaves with_map
  exit_loop-Leaves P zero entry map l ne = tt
  exit_loop-Leaves P (suc fuel) entry map l ne =
      let gm = fw.get_memory_map (record map { mmap_size = 0x4000 }) l.firmware in
      let got = with_map fw g_font_data uefi_mmap_buf image_handle gm.1 gm.2 l in
      let ex = fw.exit_boot_services image_handle gm.1.map_key gm.2 in
      let conv =
        convert_memory_map uefi_mmap_buf gm.1.mmap_size gm.1.desc_size got.mbi (mem_of got) in
      let missed = exit_loop-Leaves P fuel entry gm.1 (record l { firmware = gm.2 }) ne in
      elim (Option-cases conv) [
        | inl zero_size ↦ elim (Bool-cases (gm.0 == 0)) [
          | inl ok ↦ rw (exit_loop, zero_size, ok) tt
          | inr failed ↦ rw (exit_loop, zero_size, failed) missed
        ]
        | inr ((mbi, m), e) ↦
            let left : Loader S = record (set_mem m got) { mbi = mbi; firmware = ex.1 } in
            elim (Bool-cases (gm.0 == 0)) [
              | inr failed ↦ rw (exit_loop, e, failed) missed
              | inl ok ↦ elim (Bool-cases (ex.0 == 0)) [
                | inr refused ↦
                    rw (exit_loop, e, ok, refused) (exit_loop-Leaves P fuel entry gm.1 left ne)
                | inl accepted ↦
                    rw (exit_loop, e, ok, accepted)
                      (
                        ne,
                        record {
                          before = l;
                          old_map = map;
                          new_map = gm.1;
                          st = gm.2;
                          got_map = ap (λ s. (s, gm.1, gm.2)) (is_zero-eq gm.0 ok);
                          converted = e;
                          exited = ap (λ s. (s, ex.1)) (is_zero-eq ex.0 accepted);
                        },
                      )
              ]
            ]
      ]

  start_kernel-Leaves :
      (P : ℕ → Type 0) (fuel entry : ℕ) (l : Loader S)
      → P entry
      → Leaves P (start_kernel fw g_font_data uefi_mmap_buf image_handle fuel entry l)
  unfolding start_kernel
  start_kernel-Leaves P fuel entry l h = exit_loop-Leaves P fuel entry _ _ h

  load_and_start-Leaves :
      (P : ℕ → Type 0) (fuel kernel_size : ℕ) (l : Loader S)
      → ((entry : ℕ) (ready : Loader S)
          → load_kernel (code32 fw g_font_data) kernel_size (loading kernel_size l)
            ≡ some (entry, ready)
          → entry ≢ 0
          → P entry)
      → Leaves P (load_and_start fw g_font_data uefi_mmap_buf image_handle fuel kernel_size l)
  unfolding load_and_start Leaves
  load_and_start-Leaves P fuel kernel_size l h =
      let said = loading kernel_size l in
      elim (Option-cases (load_kernel (code32 fw g_font_data) kernel_size said)) [
        | inl out ↦ rw (load_and_start, out) tt
        | inr ((entry, ready), e) ↦ elim (Bool-cases (entry == 0)) [
          | inl failed ↦ rw (load_and_start, e, failed) tt
          | inr valid ↦
              rw (load_and_start, e, valid)
                (start_kernel-Leaves P fuel entry ready (h entry ready e (ground arith)))
        ]
      ]

  end-Leaves :
      (fuel : ℕ) (tables : Option ConfigTables) (l : Loader S)
      → Leaves
          (HasLoaded fuel tables l)
          (efi_main fw g_font_data uefi_mmap_buf image_handle fuel tables l)
  unfolding efi_main Leaves
  end-Leaves fuel tables l =
      let code = code32 fw g_font_data in
      let begun = begin_info code (chars "gemiboot 1.0 (UEFI 32-bit)") tables l in
      elim (Option-cases (start_graphics code fuel begun)) [
        | inl out ↦ rw (efi_main, out) tt
        | inr (drawn, e) ↦
            elim (Option-cases (
              read_kernel code fuel image_handle
                (banner fw g_font_data uefi_mmap_buf image_handle drawn))) [
                  | inl out ↦ rw (efi_main, e, out) tt
                  | inr ((false, kernel_size, read), e') ↦ rw (efi_main, e, e') tt
                  | inr ((true, kernel_size, read), e') ↦ elim (Bool-cases (kernel_size == 0)) [
                    | inl failed ↦ rw (efi_main, e, e', failed) tt
                    | inr valid ↦
                        rw (efi_main, e, e', valid)
                          (load_and_start-Leaves (HasLoaded fuel tables l) fuel kernel_size read
                            (λ entry ready loads valid_entry. record {
                              drawn = drawn;
                              kernel_size = kernel_size;
                              read = read;
                              ready = ready;
                              started = e;
                              got = e';
                              has_size = ground arith;
                              loaded = loads;
                              has_entry = valid_entry;
                            }))
                  ]
                ]
      ]

  -- Whatever the firmware does, where the 32-bit loader ends with a jump, the search of the volumes
  -- that follows the setup of the screen found and read a kernel file of nonzero size, that file's
  -- segments were loaded and gave the nonzero entry point that is jumped to, and in the last round
  -- before the jump GetMemoryMap succeeded, the multiboot structure and the memory are those of
  -- converting the map it gave, and ExitBootServices succeeded with the key of that map.
  pub efi_main-HasLeft :
      (fuel entry : ℕ) (tables : Option ConfigTables) (l l' : Loader S)
      → efi_main fw g_font_data uefi_mmap_buf image_handle fuel tables l
        ≡ some (End.jumped entry l')
      → HasLoaded fuel tables l entry × HasLeft l'
  unfolding efi_main Leaves
  efi_main-HasLeft fuel entry tables l l' e =
      subst (Leaves (HasLoaded fuel tables l)) e (end-Leaves fuel tables l)
