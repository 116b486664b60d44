-- ===== src/Bios/Boot/Ends.antt =====
-- That bios_loader_main ends once the kernel is found.
use gemiboot.Base.{
  ◌-◌, length, Option, none, true, Mem, if◌then◌else◌, inl, inr, refl, arith, ℕ, zero, suc, ◌/◌,
  ◌%◌, ◌<◌, ◌≡◌, false, ◌==◌, some, chars, line, ia32, Bool-cases, Option-cases,
}
use gemiboot.Serial.{Output}
use gemiboot.Elf.{elf32_load}
use gemiboot.Elf.Refine.{elf32_load-ne-none}
use gemiboot.Bios.Multiboot.{prepare_info}
use gemiboot.Bios.Boot.{
  Ports, Boot, End, kernel_load_temp_addr, say, say_dec, say_hex, wait_update, countdown,
  cmos_get_sec, wait_second, pause_seconds, start_kernel, load_and_start, waits_end, at_port,
  output_of,
}

module _ {S : Type 0} (ports : Ports S) (settled : (st : S) → (ports.inb 0x71 st).0 < 128) where
  cmos_get_sec-some :
      (fuel : ℕ) (st : S) → (r : ℕ × S) × (cmos_get_sec ports (suc fuel) st ≡ some r)
  unfolding cmos_get_sec wait_update
  cmos_get_sec-some fuel st =
      let asked = ports.outb 0x70 0x0a st in
      let clear : ((ports.inb 0x71 asked).0 / 128 % 2 == 1) ≡ false =
        ground (arith, settled asked) in
      rw (cmos_get_sec, clear) (_, refl)

  wait_second-some :
      (fuel left start_sec : ℕ) (st : S)
      → (st' : S) × (wait_second ports (suc fuel) left start_sec st ≡ some st')
  unfolding wait_second
  wait_second-some fuel zero start_sec st =
      let now = cmos_get_sec-some fuel st in rw (wait_second, now.1) (_, refl)
  wait_second-some fuel (suc left) start_sec st =
      let now = cmos_get_sec-some fuel st in
      elim (Bool-cases (now.0.0 == start_sec)) [
        | inl same ↦ rw (wait_second, now.1, same) (wait_second-some fuel left start_sec _)
        | inr later ↦ rw (wait_second, now.1, later) (_, refl)
      ]

  countdown-some :
      (fuel s : ℕ) (b : Boot S)
      → (b' : Boot S) × (countdown ports (suc fuel) s b ≡ some b') × (b'.mem ≡ b.mem)
  unfolding countdown say say_dec
  countdown-some fuel zero b = (b, refl, refl)
  countdown-some fuel (suc s) b =
      let now = cmos_get_sec-some fuel b.machine in
      let later = wait_second-some fuel 2000000 now.0.0 now.0.1 in
      rw (countdown, now.1, later.1) (countdown-some fuel s _)

  pause_seconds-some :
      (fuel seconds : ℕ) (b : Boot S)
      → (b' : Boot S) × (pause_seconds ports (suc fuel) seconds b ≡ some b') × (b'.mem ≡ b.mem)
  unfolding pause_seconds say say_dec
  pause_seconds-some fuel seconds b = countdown-some fuel seconds _

  -- Where the port gets ready for every byte, its waits end.
  waits_end-ready :
      ((n : ℕ) → ports.com1_ready n ≡ true) → (count first : ℕ) → waits_end ports count first ≡ true
  unfolding waits_end
  waits_end-ready com1 zero first = refl
  waits_end-ready com1 (suc count) first =
      rw (waits_end, com1 first) (waits_end-ready com1 count (suc first))

  pub at_port-ready :
      ((n : ℕ) → ports.com1_ready n ≡ true)
      → (out : Output) (run : Option (End S)) → at_port ports out run ≡ run
  unfolding at_port
  at_port-ready com1 out none = refl
  at_port-ready com1 out (some e) =
      let all = waits_end-ready com1 (length (output_of e) - length out) (length out) in
      rw (at_port, all) refl

  -- From the entry point on the loader jumps, with the structure and the memory of prepare_info.
  start_kernel-jumps :
      (fuel name entry : ℕ) (b : Boot S)
      → (b' : Boot S) × (start_kernel ports (suc fuel) name entry b
          ≡ some (End.jumped entry (prepare_info name b.mem).0 b'))
        × (b'.mem ≡ (prepare_info name b.mem).1)
  unfolding start_kernel say say_hex
  start_kernel-jumps fuel name entry b =
      let number = say_hex entry (say (chars "[GEMIBOOT] Kernel entry point: ") b) in
      let said = say (line "") number in
      let info = prepare_info name b.mem in
      let paused = pause_seconds-some fuel 5 (record said { mem = info.1 }) in
      rw (start_kernel, paused.1) (_, refl, paused.2)

  -- What load_and_start comes to: a jump to the entry point of elf32_load, with what prepare_info
  -- makes of the memory after loading, or a halt where elf32_load has refused the file.
  pub load_and_start_outcome :
      (fuel name file_size : ℕ) (b : Boot S)
      → (entry : ℕ) × (m : Mem) × (b' : Boot S) × (elf32_load ia32 65536 kernel_load_temp_addr
            file_size b.mem
          ≡ some (entry, m))
        × (load_and_start ports (suc fuel) name file_size b
            ≡ some
                (if entry == 0 then End.halted b' else End.jumped entry (prepare_info name m).0 b'))
        × (b'.mem ≡ (if entry == 0 then m else (prepare_info name m).1))
  unfolding load_and_start say
  load_and_start_outcome fuel name file_size b =
      elim (Option-cases (elf32_load ia32 65536 kernel_load_temp_addr file_size b.mem)) [
        | inl out ↦
            absurd (
              elf32_load-ne-none ia32 65536 kernel_load_temp_addr file_size b.mem (omega arith) out)
        | inr ((entry, m), e) ↦
            let said = say (line "[GEMIBOOT] Parsing ELF32 and loading sections...") b in
            let loaded : Boot S = record said { mem = m } in
            let refused =
              say (line "[GEMIBOOT] ERROR: Failed to parse and load ELF32 kernel!") loaded in
            let (b', jumps, kept) = start_kernel-jumps fuel name entry loaded in
            elim (Bool-cases (entry == 0)) [
              | inl failed ↦
                  (entry, m, refused, e, rw (load_and_start, e, failed) refl, rw failed refl)
              | inr valid ↦ (entry, m, b', e, rw (load_and_start, e, valid) jumps, rw valid kept)
            ]
      ]
