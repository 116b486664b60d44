-- ===== src/Elf/Examples.antt =====
-- A small ELF32 image, and the theorems about it at that image.
use gemiboot.Base.{
  inr, ℕ, zero, suc, ◌+◌, ◌-◌, ◌*◌, ◌≤◌, ◌<◌, ◌≡◌, ◌≢◌, refl, inl, arith, none, some, List, get_or,
  leb, if◌then◌else◌, Mem, byte, ia32, x64, success, failure,
}
use gemiboot.Samples.{image_bytes}
use gemiboot.Elf.{ehdr_at, phdr_at, pt_load, elf32_validate, elf32_load}
use gemiboot.Elf.Spec.{header, layout, IsLoadable, IsPlaceable}
use gemiboot.Elf.Load.{Same}
use gemiboot.Elf.Refine.{elf32_load-layout, elf32_load-ne-none}
use gemiboot.Elf.Bounds.{Covers, segment_byte, elf32_load-contents, elf32_load_frame}

-- Memory that holds `bytes` from `base` on, and zeroes elsewhere.
abbrev mem_of : List ℕ → ℕ → Mem
mem_of bytes base x = if leb base x then get_or bytes (x - base) 0 else 0

abbrev sample : Mem
sample = mem_of image_bytes 0x200000

sample_valid :
    (elf32_validate 0x200000 88 sample ≡ success)
    × (elf32_validate 0x200000 51 sample ≡ failure)
    × (elf32_validate 0x200001 87 sample ≡ failure)
unfolding elf32_validate
sample_valid = (refl, refl, refl)

sample_headers :
    (i : ℕ)
    → i < (ehdr_at sample 0x200000).e_phnum
    → (ehdr_at sample 0x200000).e_phoff + i * (ehdr_at sample 0x200000).e_phentsize + 32 ≤ 88
unfolding ehdr_at
sample_headers i h = omega arith

sample_segments :
    (i : ℕ)
    → i < (ehdr_at sample 0x200000).e_phnum
    → (header sample 0x200000 i).p_type ≡ pt_load
    → IsPlaceable 0x200000 88 (header sample 0x200000 i)
unfolding ehdr_at phdr_at
sample_segments zero h t = record {
  in_image = omega arith;
  addressable = omega arith;
  apart = inl (omega arith, omega arith);
}
sample_segments (suc i) h t = absurd (omega arith)

sample-IsLoadable : IsLoadable 0x200000 88 sample
sample-IsLoadable = record {
  valid = sample_valid.0;
  addressable = omega arith;
  headers = sample_headers;
  segments = sample_segments;
}

sample_phnum : (ehdr_at sample 0x200000).e_phnum < 2
unfolding ehdr_at
sample_phnum = omega arith

elf32_load-layout_example :
    (m' : Mem) × (elf32_load ia32 2 0x200000 88 sample
      ≡ some ((ehdr_at sample 0x200000).e_entry, m'))
    × Same m' (layout sample 0x200000 (ehdr_at sample 0x200000).e_phnum)
elf32_load-layout_example =
    elf32_load-layout ia32 0x200000 88 sample sample-IsLoadable 2 sample_phnum

-- Address 0x100006 lies in the bss of the only segment, and 0x100008 beyond it.
sample_bss : Covers (header sample 0x200000 0) 0x100006
unfolding ehdr_at phdr_at
sample_bss = (refl, omega arith, inr (omega arith))

sample_phnum_eq : (ehdr_at sample 0x200000).e_phnum ≡ 1
unfolding ehdr_at
sample_phnum_eq = refl

sample_beyond : (j : ℕ) → j < 1 → ¬ Covers (header sample 0x200000 j) 0x100008
unfolding ehdr_at phdr_at
sample_beyond zero h c = omega arith
sample_beyond (suc j) h c = omega arith

elf32_load-contents_example :
    (m' : Mem) × (elf32_load x64 2 0x200000 88 sample
      ≡ some ((ehdr_at sample 0x200000).e_entry, m'))
    × (byte m' 0x100006 ≡ segment_byte sample 0x200000 (header sample 0x200000 0) 0x100006)
elf32_load-contents_example =
    elf32_load-contents x64 0x200000 88 2 0 0x100006 sample sample-IsLoadable sample_phnum
      (omega (arith, sample_phnum_eq)) sample_bss
      (λ j lo hi. absurd (omega (arith, sample_phnum_eq)))

elf32_load_frame_example :
    (m' : Mem) × (elf32_load x64 2 0x200000 88 sample
      ≡ some ((ehdr_at sample 0x200000).e_entry, m'))
    × (byte m' 0x100008 ≡ byte sample 0x100008)
elf32_load_frame_example =
    elf32_load_frame x64 0x200000 88 2 0x100008 sample sample-IsLoadable sample_phnum
      (λ j h. sample_beyond j (omega (arith, sample_phnum_eq)))

elf32_load-ne-none_example : elf32_load ia32 65536 0x200000 88 sample ≢ none
elf32_load-ne-none_example = elf32_load-ne-none ia32 65536 0x200000 88 sample (omega arith)
