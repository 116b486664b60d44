-- ===== src/Elf/Refine.antt =====
-- elf32_load of src/common/elf.c refines the layout of the image, and always returns.
use gemiboot.Base.{
  Option-cases, lt_or_le, le→not_ltb, lt→ltb, ℕ, zero, suc, ◌+◌, ◌*◌, ◌%◌, ◌≤◌, ◌<◌, ◌≡◌, ◌≢◌, refl,
  ap, sym, ◌∙◌, inl, inr, arith, none, some, Mem, byte, u16, u32, Arch, ia32, x64, size_mod,
  success,
}
use gemiboot.Elf.{ehdr_at, phdr_size, load_segment, load_loop, elf32_validate, elf32_load}
use gemiboot.Elf.Spec.{placed, header, layout, SameOn, IsLoadable}
use gemiboot.Elf.Load.{
  address_exact, Same, le16_same, le32_same, placed-Same, placed_image, load_segment_lem,
}

-- What the check of the header establishes.
pub validate_needs :
    (image size : ℕ) (m : Mem) → elf32_validate image size m ≡ success → (0 < image) × (52 ≤ size)
unfolding elf32_validate
validate_needs image size m h = ground arith

pub phnum-lt : (m : Mem) (a : ℕ) → (ehdr_at m a).e_phnum < 65536
unfolding ehdr_at
phnum-lt m a = omega arith

-- A round that loads a segment and goes on.
load_loop_round :
    (arch : Arch) (fuel i image size off a : ℕ) (m m1 : Mem)
    → i < (ehdr_at m image).e_phnum
    → u32 ((ehdr_at m image).e_phoff + u32 (i * (ehdr_at m image).e_phentsize)) ≡ off
    → (off + phdr_size) % size_mod arch ≤ size
    → (image + off) % size_mod arch ≡ a
    → load_segment arch image size a m ≡ some m1
    → u16 (i + 1) ≡ suc i
    → load_loop arch (suc fuel) i image size m ≡ load_loop arch fuel (suc i) image size m1
unfolding load_loop
load_loop_round arch fuel i image size off a m m1 below at fits placed loads next = rw (
  at,
  lt→ltb i (ehdr_at m image).e_phnum below,
  le→not_ltb size ((off + phdr_size) % size_mod arch) fits,
  placed,
  loads,
  next,
)

load_loop_end :
    (arch : Arch) (fuel i image size : ℕ) (m : Mem)
    → (ehdr_at m image).e_phnum ≤ i
    → load_loop arch (suc fuel) i image size m ≡ some ((ehdr_at m image).e_entry, m)
unfolding load_loop
load_loop_end arch fuel i image size m over = rw (le→not_ltb i (ehdr_at m image).e_phnum over)

module _ (arch : Arch) (image size : ℕ) (m0 : Mem) (ok : IsLoadable image size m0) where
  layout-placed :
      (n : ℕ) → n ≤ (ehdr_at m0 image).e_phnum → SameOn m0 (layout m0 image n) image (image + size)
  unfolding layout
  layout-placed zero h = λ x lo hi. refl
  layout-placed (suc n) h =
      placed_image m0 image size (header m0 image n) (layout m0 image n)
        (ok.segments n (omega arith)) (layout-placed n (omega arith))

  ehdr_same :
      (m : Mem)
      → SameOn m0 m image (image + size)
      → ((ehdr_at m image).e_phnum ≡ (ehdr_at m0 image).e_phnum)
        × ((ehdr_at m image).e_phoff ≡ (ehdr_at m0 image).e_phoff)
        × ((ehdr_at m image).e_phentsize ≡ (ehdr_at m0 image).e_phentsize)
        × ((ehdr_at m image).e_entry ≡ (ehdr_at m0 image).e_entry)
  unfolding ehdr_at
  ehdr_same m same =
      let needs = validate_needs image size m0 ok.valid in
      (
        sym (le16_same m0 m image (image + size) (image + 44) same (omega arith) (omega arith)),
        sym (le32_same m0 m image (image + size) (image + 28) same (omega arith) (omega arith)),
        sym (le16_same m0 m image (image + size) (image + 42) same (omega arith) (omega arith)),
        sym (le32_same m0 m image (image + size) (image + 24) same (omega arith) (omega arith)),
      )

  -- The wraps of the loop do nothing at a header that lies in the image.
  offset_exact :
      (i : ℕ)
      → i < (ehdr_at m0 image).e_phnum
      → u32 ((ehdr_at m0 image).e_phoff + u32 (i * (ehdr_at m0 image).e_phentsize))
        ≡ (ehdr_at m0 image).e_phoff + i * (ehdr_at m0 image).e_phentsize
  offset_exact i h = omega (arith, ok.headers i h, ok.addressable)

  end_exact :
      (arch : Arch) (i : ℕ)
      → i < (ehdr_at m0 image).e_phnum
      → ((ehdr_at m0 image).e_phoff + i * (ehdr_at m0 image).e_phentsize + phdr_size)
          % size_mod arch
        ≤ size
  end_exact ia32 i h = omega (arith, ok.headers i h, ok.addressable)
  end_exact x64 i h = omega (arith, ok.headers i h, ok.addressable)

  layout-suc :
      (i : ℕ) (m m1 : Mem)
      → Same m (layout m0 image i)
      → Same m1 (placed m0 image (header m0 image i) m)
      → Same m1 (layout m0 image (suc i))
  unfolding layout
  layout-suc i m m1 same next x =
      next x ∙ placed-Same m0 image size (header m0 image i) m (layout m0 image i) same x

  load_loop_lem :
      (left fuel i : ℕ) (m : Mem)
      → i + left ≡ (ehdr_at m0 image).e_phnum
      → left < fuel
      → Same m (layout m0 image i)
      → (m' : Mem) × (load_loop arch fuel i image size m ≡ some ((ehdr_at m0 image).e_entry, m'))
        × Same m' (layout m0 image (ehdr_at m0 image).e_phnum)
  load_loop_lem left zero i m e lt same = absurd (omega arith)
  load_loop_lem zero (suc fuel) i m e lt same =
      let at : i ≡ (ehdr_at m0 image).e_phnum = omega arith in
      let kept : SameOn m0 m image (image + size) =
        λ x lo hi. layout-placed i (omega arith) x lo hi ∙ sym (same x) in
      let read = ehdr_same m kept in
      (
        m,
        load_loop_end arch fuel i image size m (omega (arith, read.0))
            ∙ ap (λ (v : ℕ). some (v, m)) read.3,
        λ x. same x ∙ ap (λ n. byte (layout m0 image n) x) at,
      )
  load_loop_lem (suc left) (suc fuel) i m e lt same =
      let below : i < (ehdr_at m0 image).e_phnum = omega arith in
      let kept : SameOn m0 m image (image + size) =
        λ x lo hi. layout-placed i (omega arith) x lo hi ∙ sym (same x) in
      let read = ehdr_same m kept in
      let off = (ehdr_at m0 image).e_phoff + i * (ehdr_at m0 image).e_phentsize in
      let at : u32 ((ehdr_at m image).e_phoff + u32 (i * (ehdr_at m image).e_phentsize)) ≡ off =
        rw (read.1, read.2) (offset_exact i below) in
      let in_words : image + off < 4294967296 = omega (arith, ok.headers i below, ok.addressable) in
      let next : u16 (i + 1) ≡ suc i = omega (arith, phnum-lt m0 image) in
      let (m1, loads, placed1) =
        load_segment_lem m0 image size arch (image + off) m ok.addressable (omega arith)
          (omega (arith, ok.headers i below)) kept (ok.segments i below) in
      let (m', rest, done) =
        load_loop_lem left fuel (suc i) m1 (omega arith) (omega arith)
          (layout-suc i m m1 same placed1) in
      (
        m',
        load_loop_round arch fuel i image size off (image + off) m m1 (rw read.0 below) at
              (end_exact arch i below) (address_exact arch (image + off) in_words) loads next
            ∙ rest,
        done,
      )

  -- elf32_load of a loadable image returns its entry point, with any fuel above the number of
  -- program headers, and memory then holds the layout of the image: each segment's file bytes at
  -- p_paddr and zeroes up to p_memsz, in the order of the headers, and every other byte as before.
  pub elf32_load-layout :
      (fuel : ℕ)
      → (ehdr_at m0 image).e_phnum < fuel
      → (m' : Mem) × (elf32_load arch fuel image size m0 ≡ some ((ehdr_at m0 image).e_entry, m'))
        × Same m' (layout m0 image (ehdr_at m0 image).e_phnum)
  unfolding elf32_load layout
  elf32_load-layout fuel lt =
      let (m', loads, done) =
        load_loop_lem (ehdr_at m0 image).e_phnum fuel 0 m0 (omega arith) lt (λ x. refl) in
      (m', rw (ok.valid, elf32_load) loads, done)

-- The two rounds that return 0.
load_loop_short :
    (arch : Arch) (fuel i image size : ℕ) (m : Mem)
    → i < (ehdr_at m image).e_phnum
    → size
      < (u32 ((ehdr_at m image).e_phoff + u32 (i * (ehdr_at m image).e_phentsize)) + phdr_size)
        % size_mod arch
    → load_loop arch (suc fuel) i image size m ≢ none
unfolding load_loop
load_loop_short arch fuel i image size m below short e =
    cc (rw (lt→ltb i (ehdr_at m image).e_phnum below, lt→ltb size _ short) at e)

load_loop_refused :
    (arch : Arch) (fuel i image size : ℕ) (m : Mem)
    → i < (ehdr_at m image).e_phnum
    → (u32 ((ehdr_at m image).e_phoff + u32 (i * (ehdr_at m image).e_phentsize)) + phdr_size)
        % size_mod arch
      ≤ size
    → load_segment arch image size
        ((image + u32 ((ehdr_at m image).e_phoff + u32 (i * (ehdr_at m image).e_phentsize)))
          % size_mod arch)
        m
      ≡ none
    → load_loop arch (suc fuel) i image size m ≢ none
unfolding load_loop
load_loop_refused arch fuel i image size m below fits refused e =
    cc (rw (lt→ltb i (ehdr_at m image).e_phnum below, le→not_ltb size _ fits, refused) at e)

-- The loop ends whatever the image holds, since e_phnum is a uint16_t.
load_loop_ends :
    (arch : Arch) (fuel i image size : ℕ) (m : Mem)
    → i < 65536
    → 65536 ≤ i + fuel
    → load_loop arch fuel i image size m ≢ none
unfolding load_loop
load_loop_ends arch zero i image size m lt enough = absurd (omega arith)
load_loop_ends arch (suc fuel) i image size m lt enough =
    elim (lt_or_le i (ehdr_at m image).e_phnum) [
      | inr over ↦ λ e. cc (sym (load_loop_end arch fuel i image size m over) ∙ e)
      | inl below ↦
          let off = u32 ((ehdr_at m image).e_phoff + u32 (i * (ehdr_at m image).e_phentsize)) in
          let next : u16 (i + 1) ≡ suc i = omega (arith, phnum-lt m image) in
          elim (lt_or_le size ((off + phdr_size) % size_mod arch)) [
            | inl short ↦ load_loop_short arch fuel i image size m below short
            | inr fits ↦
                elim (Option-cases
                  (load_segment arch image size ((image + off) % size_mod arch) m)) [
                    | inl refused ↦ load_loop_refused arch fuel i image size m below fits refused
                    | inr (m1, loads) ↦ λ e.
                        load_loop_ends arch fuel (suc i) image size m1
                          (omega (arith, phnum-lt m image)) (omega arith)
                          (sym (
                              load_loop_round arch fuel i image size off
                                ((image + off) % size_mod arch) m m1 below refl fits refl loads
                                next)
                            ∙ e)
                  ]
          ]
    ]

-- elf32_load returns on every image and every memory: 65536 rounds are enough.
pub elf32_load-ne-none :
    (arch : Arch) (fuel image size : ℕ) (m : Mem)
    → 65536 ≤ fuel
    → elf32_load arch fuel image size m ≢ none
unfolding elf32_load
elf32_load-ne-none arch fuel image size m enough =
    ground (arith, load_loop_ends arch fuel 0 image size m)
