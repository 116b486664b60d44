-- ===== src/Efi/Main64/Steps.antt =====
-- How the 64-bit loader leaves boot services, or does not.
use gemiboot.Base.{blit, inl, inr, refl, ap, ℕ, zero, suc, ◌≡◌, ◌==◌, arith, true, Mem, Bool-cases}
use gemiboot.Efi.Firmware.{Firmware, MemoryMap}
use gemiboot.Efi.Pci.{Ports}
use gemiboot.Efi.Loader.{Loader, mem_of, set_mem}
use gemiboot.Efi.Main64.{Symbols, Exit, exit_loop}

module _ {S : Type 0} (fw : Firmware S) (ports : Ports S) (g_font_data : Mem) (sym : Symbols)
    (image_handle : ℕ) where
  -- A round of the retries that left boot services: GetMemoryMap succeeded, the buffer holds what
  -- it gave, and ExitBootServices succeeded with that map's key.
  pub record HasLeft (e : Exit S) : Type 0 where
    pub before : Loader S
    pub old_map : MemoryMap
    pub st : S
    pub got_map :
        fw.get_memory_map (record old_map { mmap_size = 0x10000 }) before.firmware ≡ (0, e.map, st)
    pub in_buffer :
        mem_of e.loader ≡ blit (mem_of before) sym.uefi_mmap_buf e.map.mmap e.map.mmap_size
    pub left : fw.exit_boot_services image_handle e.map.map_key st ≡ (0, e.loader.firmware)

  is_zero-eq : (n : ℕ) → (n == 0) ≡ true → n ≡ 0
  is_zero-eq n h = ground arith

  -- Where the retries end with success, their last round left boot services.
  pub exit_loop-HasLeft :
      (tries : ℕ) (map : MemoryMap) (l : Loader S)
      → (exit_loop fw ports g_font_data sym image_handle tries map l).exited ≡ true
      → HasLeft (exit_loop fw ports g_font_data sym image_handle tries map l)
  unfolding exit_loop
  exit_loop-HasLeft zero map l = λ h. ground arith
  exit_loop-HasLeft (suc tries) map l =
      let gm = fw.get_memory_map (record map { mmap_size = 0x10000 }) l.firmware in
      let ex = fw.exit_boot_services image_handle gm.1.map_key gm.2 in
      let got : Loader S =
        record (set_mem (blit (mem_of l) sym.uefi_mmap_buf gm.1.mmap gm.1.mmap_size) l) {
          firmware = ex.1;
        } in
      elim (Bool-cases (gm.0 == 0)) [
        | inr failed ↦
            rw (exit_loop, failed) (exit_loop-HasLeft tries gm.1 (record l { firmware = gm.2 }))
        | inl ok ↦ elim (Bool-cases (ex.0 == 0)) [
          | inr refused ↦ rw (exit_loop, ok, refused) (exit_loop-HasLeft tries gm.1 got)
          | inl accepted ↦
              rw (exit_loop, ok, accepted)
                (λ h. record {
                  before = l;
                  old_map = map;
                  st = gm.2;
                  got_map = ap (λ s. (s, gm.1, gm.2)) (is_zero-eq gm.0 ok);
                  in_buffer = refl;
                  left = ap (λ s. (s, ex.1)) (is_zero-eq ex.0 accepted);
                })
        ]
      ]
