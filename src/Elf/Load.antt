-- ===== src/Elf/Load.antt =====
-- elf32_load of src/common/elf.c leaves the layout of the image in memory.
use gemiboot.Base.{
  le→not_ltb, u32, ap, ia32, x64, ◌∙◌, sym, size_mod, ltb, some, Arch, ℕ, ◌+◌, ◌-◌, ◌%◌, ◌≤◌, ◌<◌,
  ◌≡◌, refl, ◌⊎◌, inl, inr, arith, Mem, byte, le16, le32, blit, blit_in, blit_out, Bool-cases, ◌==◌,
}
use gemiboot.Str.Copy.{memcpy-copied, memset-blit}
use gemiboot.Str.{memcpy}
use gemiboot.Elf.{load_segment, copy_file_bytes, clear_bss, Phdr, phdr_at, pt_load}
use gemiboot.Elf.Spec.{placed, SameOn, IsPlaceable}

-- Two memories with the same bytes everywhere.
abbrev pub Same : Mem → Mem → Type 0
Same m m' = (x : ℕ) → byte m x ≡ byte m' x

pub le16_same :
    (m m' : Mem) (lo hi a : ℕ) → SameOn m m' lo hi → lo ≤ a → a + 2 ≤ hi → le16 m a ≡ le16 m' a
le16_same m m' lo hi a h p q =
    omega (arith, h a (omega arith) (omega arith), h (a + 1) (omega arith) (omega arith))

pub le32_same :
    (m m' : Mem) (lo hi a : ℕ) → SameOn m m' lo hi → lo ≤ a → a + 4 ≤ hi → le32 m a ≡ le32 m' a
le32_same m m' lo hi a h p q = omega (
  arith,
  le16_same m m' lo hi a h p (omega arith),
  le16_same m m' lo hi (a + 2) h (omega arith) (omega arith),
)

phdr_same :
    (m m' : Mem) (lo hi a : ℕ)
    → SameOn m m' lo hi
    → lo ≤ a
    → a + 32 ≤ hi
    → phdr_at m a ≡ phdr_at m' a
unfolding phdr_at
phdr_same m m' lo hi a h p q = λ i. record {
  p_type = le32_same m m' lo hi a h p (omega arith) i;
  p_offset = le32_same m m' lo hi (a + 4) h (omega arith) (omega arith) i;
  p_paddr = le32_same m m' lo hi (a + 12) h (omega arith) (omega arith) i;
  p_filesz = le32_same m m' lo hi (a + 16) h (omega arith) (omega arith) i;
  p_memsz = le32_same m m' lo hi (a + 20) h (omega arith) (omega arith) i;
}

-- An address below 4 GB does not wrap around.
pub address_exact : (arch : Arch) (x : ℕ) → x < 4294967296 → x % size_mod arch ≡ x
address_exact ia32 x small = omega arith
address_exact x64 x small = omega arith

in_or_out : (a n x : ℕ) → ((a ≤ x) × (x < a + n)) ⊎ ((x < a) ⊎ (a + n ≤ x))
in_or_out a n x = grind arith

-- Overlaying the same bytes on memories that agree gives memories that agree.
blit-Same :
    (m m' : Mem) (f g : ℕ → ℕ) (a n : ℕ)
    → Same m m'
    → ((k : ℕ) → k < n → f k % 256 ≡ g k % 256)
    → Same (blit m a f n) (blit m' a g n)
blit-Same m m' f g a n h e x = elim (in_or_out a n x) [
  | inl (lo, hi) ↦ rw (blit_in m a f n x lo hi, blit_in m' a g n x lo hi) (e (x - a) (omega arith))
  | inr out ↦ rw (blit_out m a f n x out, blit_out m' a g n x out) (h x)
]

module _ (m0 : Mem) (image size : ℕ) where
  -- One segment over memories that agree.
  pub placed-Same :
      (ph : Phdr) (m m' : Mem) → Same m m' → Same (placed m0 image ph m) (placed m0 image ph m')
  unfolding placed
  placed-Same ph m m' h = elim (Bool-cases (ph.p_type == pt_load)) [
    | inl is_load ↦ rw is_load (
        blit-Same _ _ _ _ (ph.p_paddr + ph.p_filesz) (ph.p_memsz - ph.p_filesz)
          (blit-Same m m' _ _ ph.p_paddr ph.p_filesz h (λ k lt. refl)) (λ k lt. refl))
    | inr other ↦ rw other h
  ]

  -- A placeable segment leaves the image as it is.
  pub placed_image :
      (ph : Phdr) (m : Mem)
      → (ph.p_type ≡ pt_load → IsPlaceable image size ph)
      → SameOn m0 m image (image + size)
      → SameOn m0 (placed m0 image ph m) image (image + size)
  unfolding placed
  placed_image ph m place h x lo hi = elim (Bool-cases (ph.p_type == pt_load)) [
    | inl is_load ↦
        let p = place (ground arith) in
        let inner = blit m ph.p_paddr (λ k. m0 (image + ph.p_offset + k)) ph.p_filesz in
        rw is_load (
          rw
            (
              blit_out inner (ph.p_paddr + ph.p_filesz) (λ _. 0) (ph.p_memsz - ph.p_filesz) x
                  (ground (arith, p.apart)),
              blit_out m ph.p_paddr (λ k. m0 (image + ph.p_offset + k)) ph.p_filesz x
                  (ground (arith, p.apart)),
            )
            (h x lo hi))
    | inr other ↦ rw other (h x lo hi)
  ]

  copy_lem :
      (arch : Arch) (ph : Phdr) (m : Mem)
      → image + size < 4294967296
      → IsPlaceable image size ph
      → SameOn m0 m image (image + size)
      → (m' : Mem) × (copy_file_bytes arch image size ph m ≡ some m')
        × Same m' (blit m ph.p_paddr (λ k. m0 (image + ph.p_offset + k)) ph.p_filesz)
  unfolding copy_file_bytes
  copy_lem arch ph m small p same = elim (Bool-cases (ltb 0 ph.p_filesz)) [
    | inl some_bytes ↦
        let exact : (image + ph.p_offset) % size_mod arch ≡ image + ph.p_offset =
          address_exact arch (image + ph.p_offset) (omega (arith, p.in_image)) in
        (
          memcpy ph.p_paddr (image + ph.p_offset) ph.p_filesz m,
          rw
              (
                some_bytes,
                le→not_ltb size (u32 (ph.p_offset + ph.p_filesz)) (omega (arith, p.in_image)),
                exact,
              )
              refl,
          λ x.
              memcpy-copied ph.p_paddr (image + ph.p_offset) ph.p_filesz m x
                (ground (arith, p.apart, p.in_image))
              ∙ blit-Same m m (λ k. m (image + ph.p_offset + k)) (λ k. m0 (image + ph.p_offset + k))
                  ph.p_paddr ph.p_filesz (λ y. refl)
                  (λ k lt.
                    sym (same (image + ph.p_offset + k) (omega arith) (omega (arith, p.in_image))))
                  x,
        )
    | inr no_bytes ↦ (
      m,
      rw no_bytes,
      λ x.
          rw (
            blit_out m ph.p_paddr (λ k. m0 (image + ph.p_offset + k)) ph.p_filesz x (ground arith)),
    )
  ]

  clear_lem :
      (arch : Arch) (ph : Phdr) (m : Mem)
      → ph.p_paddr + ph.p_filesz < 4294967296
      → Same
          (clear_bss arch ph m)
          (blit m (ph.p_paddr + ph.p_filesz) (λ _. 0) (ph.p_memsz - ph.p_filesz))
  unfolding clear_bss
  clear_lem arch ph m small x = elim (Bool-cases (ltb ph.p_filesz ph.p_memsz)) [
    | inl bss ↦
        let e = address_exact arch (ph.p_paddr + ph.p_filesz) small in
        rw (bss, e) (memset-blit (ph.p_paddr + ph.p_filesz) 0 (ph.p_memsz - ph.p_filesz) m x)
    | inr full ↦ rw (
      full,
      blit_out m (ph.p_paddr + ph.p_filesz) (λ _. 0) (ph.p_memsz - ph.p_filesz) x (ground arith),
    )
  ]

  pub load_segment_lem :
      (arch : Arch) (a : ℕ) (m : Mem)
      → image + size < 4294967296
      → image ≤ a
      → a + 32 ≤ image + size
      → SameOn m0 m image (image + size)
      → ((phdr_at m0 a).p_type ≡ pt_load → IsPlaceable image size (phdr_at m0 a))
      → (m' : Mem) × (load_segment arch image size a m ≡ some m')
        × Same m' (placed m0 image (phdr_at m0 a) m)
  unfolding load_segment placed
  load_segment_lem arch a m small lo hi same place =
      let ph = phdr_at m0 a in
      let read : phdr_at m a ≡ ph = sym (phdr_same m0 m image (image + size) a same lo hi) in
      elim (Bool-cases (ph.p_type == pt_load)) [
        | inr other ↦ (m, rw (read, other), λ x. rw other)
        | inl is_load ↦
            let p = place (ground arith) in
            let (m', copies, overlay) = copy_lem arch ph m small p same in
            let kept : SameOn m0 m' image (image + size) = λ x below above.
              same x below above
              ∙ sym (
                  overlay x
                  ∙ ap (λ (v : ℕ). v % 256)
                      (blit_out m ph.p_paddr (λ k. m0 (image + ph.p_offset + k)) ph.p_filesz x
                        (ground (arith, p.apart)))) in
            let reread : phdr_at m' a ≡ ph =
              sym (phdr_same m0 m' image (image + size) a kept lo hi) in
            (
              clear_bss arch ph m',
              rw (read, is_load, copies, reread),
              λ x. rw is_load (
                  clear_lem arch ph m' p.addressable x
                  ∙ blit-Same m' _ (λ _. 0) (λ _. 0) (ph.p_paddr + ph.p_filesz)
                      (ph.p_memsz - ph.p_filesz) overlay (λ k lt. refl) x),
            )
      ]
