-- ===== src/Elf/Bounds.antt =====
-- elf32_load of src/common/elf.c byte by byte, and what its bounds check lets through.
use gemiboot.Base.{
  refl, ℕ, zero, suc, ◌+◌, ◌-◌, ◌≤◌, ◌<◌, ◌≡◌, ◌↔◌, ◌⊎◌, inl, inr, ◌∙◌, arith, none, some, Mem,
  byte, blit, blit_in, blit_out, ltb, lt_or_le, eq_or_lt, Bool-cases, ◌==◌, if◌then◌else◌, Arch,
}
use gemiboot.Elf.{Phdr, ehdr_at, pt_load, copy_file_bytes, elf32_load}
use gemiboot.Elf.Spec.{placed, header, layout, IsLoadable}
use gemiboot.Elf.Refine.{elf32_load-layout}

-- Address `x` lies in the memory of a loadable segment.
abbrev pub Covers : Phdr → ℕ → Type 0
Covers ph x =
    (ph.p_type ≡ pt_load)
    × (ph.p_paddr ≤ x)
    × ((x < ph.p_paddr + ph.p_filesz) ⊎ (x < ph.p_paddr + ph.p_memsz))

-- The byte that a segment has at address `x`: from its file bytes in the image, or 0.
abbrev pub segment_byte : Mem → ℕ → Phdr → ℕ → ℕ
segment_byte m image ph x =
    if ltb (x - ph.p_paddr) ph.p_filesz then byte m (image + ph.p_offset + (x - ph.p_paddr)) else 0

module _ (m0 : Mem) (image : ℕ) where
  placed_covered :
      (ph : Phdr) (m : Mem) (x : ℕ)
      → Covers ph x
      → byte (placed m0 image ph m) x ≡ segment_byte m0 image ph x
  unfolding placed
  placed_covered ph m x (is_load, lo, hi) =
      let file = blit m ph.p_paddr (λ k. m0 (image + ph.p_offset + k)) ph.p_filesz in
      elim (lt_or_le x (ph.p_paddr + ph.p_filesz)) [
        | inl in_file ↦ ground (
          arith,
          blit_out file (ph.p_paddr + ph.p_filesz) (λ _. 0) (ph.p_memsz - ph.p_filesz) x
              (inl in_file),
          blit_in m ph.p_paddr (λ k. m0 (image + ph.p_offset + k)) ph.p_filesz x lo in_file,
        )
        | inr in_bss ↦ ground (
          arith,
          blit_in file (ph.p_paddr + ph.p_filesz) (λ _. 0) (ph.p_memsz - ph.p_filesz) x in_bss
              (omega arith),
        )
      ]

  placed_out :
      (ph : Phdr) (m : Mem) (x : ℕ) → ¬ Covers ph x → byte (placed m0 image ph m) x ≡ byte m x
  unfolding placed
  placed_out ph m x out = elim (Bool-cases (ph.p_type == pt_load)) [
    | inr other ↦ rw other refl
    | inl is_load ↦
        let t : ph.p_type ≡ pt_load = ground arith in
        let file = blit m ph.p_paddr (λ k. m0 (image + ph.p_offset + k)) ph.p_filesz in
        rw
          (
            is_load,
            blit_out file (ph.p_paddr + ph.p_filesz) (λ _. 0) (ph.p_memsz - ph.p_filesz) x
                (outside ph x t out),
            blit_out m ph.p_paddr (λ k. m0 (image + ph.p_offset + k)) ph.p_filesz x
                (outside_file ph x t out),
          )
          refl
  ]
    where
      outside_file :
          (ph : Phdr) (x : ℕ)
          → ph.p_type ≡ pt_load
          → ¬ Covers ph x
          → (x < ph.p_paddr) ⊎ (ph.p_paddr + ph.p_filesz ≤ x)
      outside_file ph x t out = elim (lt_or_le x ph.p_paddr) [
        | inl below ↦ inl below
        | inr lo ↦ elim (lt_or_le x (ph.p_paddr + ph.p_filesz)) [
          | inl hi ↦ absurd (out (t, lo, inl hi))
          | inr above ↦ inr above
        ]
      ]

      outside :
          (ph : Phdr) (x : ℕ)
          → ph.p_type ≡ pt_load
          → ¬ Covers ph x
          → (x < ph.p_paddr + ph.p_filesz)
            ⊎ (ph.p_paddr + ph.p_filesz + (ph.p_memsz - ph.p_filesz) ≤ x)
      outside ph x t out = elim (lt_or_le x (ph.p_paddr + ph.p_filesz)) [
        | inl below ↦ inl below
        | inr lo ↦ elim (lt_or_le x (ph.p_paddr + ph.p_memsz)) [
          | inl hi ↦ absurd (out (t, omega arith, inr hi))
          | inr above ↦ inr (omega arith)
        ]
      ]

  layout_out :
      (n x : ℕ)
      → ((j : ℕ) → j < n → ¬ Covers (header m0 image j) x)
      → byte (layout m0 image n) x ≡ byte m0 x
  unfolding layout
  layout_out zero x out = refl
  layout_out (suc n) x out =
      placed_out (header m0 image n) (layout m0 image n) x (out n (omega arith))
      ∙ layout_out n x (λ j h. out j (omega arith))

  -- The last segment that covers an address decides its byte.
  layout_covered :
      (n i x : ℕ)
      → i < n
      → Covers (header m0 image i) x
      → ((j : ℕ) → i < j → j < n → ¬ Covers (header m0 image j) x)
      → byte (layout m0 image n) x ≡ segment_byte m0 image (header m0 image i) x
  unfolding layout
  layout_covered zero i x lt cov last = absurd (omega arith)
  layout_covered (suc n) i x lt cov last = elim (eq_or_lt i n (omega arith)) [
    | inl at ↦ rw (← at) (placed_covered (header m0 image i) (layout m0 image i) x cov)
    | inr before ↦
        placed_out (header m0 image n) (layout m0 image n) x (last n before (omega arith))
        ∙ layout_covered n i x before cov (λ j lo hi. last j lo (omega arith))
  ]

-- After elf32_load of a loadable image an address that a loadable segment covers, and no later
-- one, holds that segment's byte: its file byte from the image, or 0 beyond its file bytes. The
-- result is the entry point, with any fuel above the number of program headers.
pub elf32_load-contents :
    (arch : Arch) (image size fuel i x : ℕ) (m : Mem)
    → IsLoadable image size m
    → (ehdr_at m image).e_phnum < fuel
    → i < (ehdr_at m image).e_phnum
    → Covers (header m image i) x
    → ((j : ℕ) → i < j → j < (ehdr_at m image).e_phnum → ¬ Covers (header m image j) x)
    → (m' : Mem) × (elf32_load arch fuel image size m ≡ some ((ehdr_at m image).e_entry, m'))
      × (byte m' x ≡ segment_byte m image (header m image i) x)
elf32_load-contents arch image size fuel i x m ok lt below cov last =
    let (m', loads, same) = elf32_load-layout arch image size m ok fuel lt in
    (m', loads, same x ∙ layout_covered m image (ehdr_at m image).e_phnum i x below cov last)

-- After elf32_load of a loadable image an address that no loadable segment covers holds the byte
-- that it held before, with any fuel above the number of program headers.
pub elf32_load_frame :
    (arch : Arch) (image size fuel x : ℕ) (m : Mem)
    → IsLoadable image size m
    → (ehdr_at m image).e_phnum < fuel
    → ((j : ℕ) → j < (ehdr_at m image).e_phnum → ¬ Covers (header m image j) x)
    → (m' : Mem) × (elf32_load arch fuel image size m ≡ some ((ehdr_at m image).e_entry, m'))
      × (byte m' x ≡ byte m x)
elf32_load_frame arch image size fuel x m ok lt out =
    let (m', loads, same) = elf32_load-layout arch image size m ok fuel lt in
    (m', loads, same x ∙ layout_out m image (ehdr_at m image).e_phnum x out)

-- The bounds check of a loadable segment refuses exactly the segments with file bytes whose end,
-- as a number, exceeds the size of the image, as long as that end is below 2 ^ 32.
pub copy_file_bytes-none_iff :
    (arch : Arch) (image size : ℕ) (ph : Phdr) (m : Mem)
    → ph.p_offset + ph.p_filesz < 4294967296
    → (copy_file_bytes arch image size ph m ≡ none)
      ↔ ((0 < ph.p_filesz) × (size < ph.p_offset + ph.p_filesz))
unfolding copy_file_bytes
copy_file_bytes-none_iff arch image size ph m small = ground arith
