-- ===== src/Elf/Spec.antt =====
-- What loading an ELF image means, apart from the code of src/common/elf.c: the segments, read
-- from the image as it is before the call, laid over memory in the order of their headers.
use gemiboot.Base.{
  ℕ, zero, suc, ◌+◌, ◌-◌, ◌*◌, ◌≤◌, ◌<◌, ◌≡◌, ◌⊎◌, ◌==◌, if◌then◌else◌, Mem, byte, blit, success,
}
use gemiboot.Elf.{Phdr, phdr_at, ehdr_at, phdr_size, pt_load, elf32_validate}

-- One segment laid over `m`: its file bytes from the image in `m0`, then zeroes up to p_memsz.
unfoldable pub placed : Mem → ℕ → Phdr → Mem → Mem
placed m0 image ph m =
    if ph.p_type == pt_load
    then blit (blit m ph.p_paddr (λ k. m0 (image + ph.p_offset + k)) ph.p_filesz)
        (ph.p_paddr + ph.p_filesz) (λ _. 0) (ph.p_memsz - ph.p_filesz)
    else m

-- Program header `i` of the image at `image`.
abbrev pub header : Mem → ℕ → ℕ → Phdr
header m image i =
    phdr_at m (image + ((ehdr_at m image).e_phoff + i * (ehdr_at m image).e_phentsize))

-- The first `n` segments laid over `m0`, in order.
unfoldable pub layout : Mem → ℕ → ℕ → Mem
unfolding placed
layout m0 image zero = m0
layout m0 image (suc n) = placed m0 image (header m0 image n) (layout m0 image n)

-- Every byte of memory from `lo` up to `hi` is the same in both.
abbrev pub SameOn : Mem → Mem → ℕ → ℕ → Type 0
SameOn m m' lo hi = (x : ℕ) → lo ≤ x → x < hi → byte m x ≡ byte m' x

-- A segment whose file bytes lie in the image and whose destination lies in the first 4 GB and
-- does not meet the image.
pub record IsPlaceable (image size : ℕ) (ph : Phdr) : Type 0 where
  pub in_image : ph.p_offset + ph.p_filesz ≤ size
  pub addressable : ph.p_paddr + ph.p_filesz < 4294967296
  pub apart :
      ((ph.p_paddr + ph.p_filesz ≤ image) × (ph.p_paddr + ph.p_memsz ≤ image))
      ⊎ (image + size ≤ ph.p_paddr)

-- An image that the code accepts, with its program headers inside it and its segments placeable.
pub record IsLoadable (image size : ℕ) (m : Mem) : Type 0 where
  pub valid : elf32_validate image size m ≡ success
  pub addressable : image + size < 4294967296
  pub headers :
      (i : ℕ)
      → i < (ehdr_at m image).e_phnum
      → (ehdr_at m image).e_phoff + i * (ehdr_at m image).e_phentsize + phdr_size ≤ size
  pub segments :
      (i : ℕ)
      → i < (ehdr_at m image).e_phnum
      → (header m image i).p_type ≡ pt_load
      → IsPlaceable image size (header m image i)
