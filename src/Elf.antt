-- ===== src/Elf.antt =====
-- src/common/elf.c: checking an ELF32 image and loading its segments. The image and the
-- destinations lie in one memory, so a write can change what is read next, as in the source.
pub mod Spec
pub mod Load
pub mod Refine
pub mod Bounds
mod Examples
use gemiboot.Base.{
  ℕ, zero, suc, ◌+◌, ◌-◌, ◌*◌, ◌%◌, ◌||◌, not, Option, none, some, ltb, ◌==◌, if◌then◌else◌, Mem,
  byte, le16, le32, u16, u32, Arch, size_mod, Status, success, failure,
}
use gemiboot.Str.{memcpy, memset}

-- The fields of Elf32_Ehdr (src/include/elf.h) that the code reads.
pub record Ehdr : Type 0 where
  pub e_ident : ℕ → ℕ
  pub e_type : ℕ
  pub e_machine : ℕ
  pub e_entry : ℕ
  pub e_phoff : ℕ
  pub e_phentsize : ℕ
  pub e_phnum : ℕ

-- The fields of Elf32_Phdr that the code reads.
pub record Phdr : Type 0 where
  pub p_type : ℕ
  pub p_offset : ℕ
  pub p_paddr : ℕ
  pub p_filesz : ℕ
  pub p_memsz : ℕ

-- *(Elf32_Ehdr *)a and *(Elf32_Phdr *)a, at the offsets of the packed structures.
unfoldable pub ehdr_at : Mem → ℕ → Ehdr
ehdr_at m a = record {
  e_ident = λ k. byte m (a + k);
  e_type = le16 m (a + 16);
  e_machine = le16 m (a + 18);
  e_entry = le32 m (a + 24);
  e_phoff = le32 m (a + 28);
  e_phentsize = le16 m (a + 42);
  e_phnum = le16 m (a + 44);
}

unfoldable pub phdr_at : Mem → ℕ → Phdr
phdr_at m a = record {
  p_type = le32 m a;
  p_offset = le32 m (a + 4);
  p_paddr = le32 m (a + 12);
  p_filesz = le32 m (a + 16);
  p_memsz = le32 m (a + 20);
}

-- sizeof(Elf32_Ehdr) and sizeof(Elf32_Phdr)
abbrev pub ehdr_size : ℕ
ehdr_size = 52

abbrev pub phdr_size : ℕ
phdr_size = 32

abbrev pub pt_load : ℕ
pt_load = 1

unfoldable pub elf32_validate : ℕ → ℕ → Mem → Status
unfolding ehdr_at
elf32_validate image size m =
    let e = ehdr_at m image in
    if image == 0 || ltb size ehdr_size
    then failure
    else if not (e.e_ident 0 == 0x7f)
        || not (e.e_ident 1 == b'E')
        || not (e.e_ident 2 == b'L')
        || not (e.e_ident 3 == b'F')
    then failure
    else if not (e.e_ident 4 == 1)
        || not (e.e_ident 5 == 1)
        || not (e.e_type == 2)
        || not (e.e_machine == 3)
    then failure
    else if e.e_phoff == 0 || e.e_phnum == 0
    then failure
    else success

-- The copy of a segment's file bytes; `none` is the `return 0` of the bounds check, whose sum is
-- taken in uint32_t. The pointer into the image has the width of size_t.
unfoldable pub copy_file_bytes : Arch → ℕ → ℕ → Phdr → Mem → Option Mem
copy_file_bytes arch image size ph m =
    if ltb 0 ph.p_filesz
    then (if ltb size (u32 (ph.p_offset + ph.p_filesz))
        then none
        else some (memcpy ph.p_paddr ((image + ph.p_offset) % size_mod arch) ph.p_filesz m))
    else some m

-- The clearing of the part of a segment beyond its file bytes.
unfoldable pub clear_bss : Arch → Phdr → Mem → Mem
clear_bss arch ph m =
    if ltb ph.p_filesz ph.p_memsz
    then memset ((ph.p_paddr + ph.p_filesz) % size_mod arch) 0 (ph.p_memsz - ph.p_filesz) m
    else m

-- The body of the loop for the program header at address `a`. The header is read again after the
-- copy, which may have changed it.
unfoldable pub load_segment : Arch → ℕ → ℕ → ℕ → Mem → Option Mem
load_segment arch image size a m =
    if (phdr_at m a).p_type == pt_load
    then elim (copy_file_bytes arch image size (phdr_at m a) m) [
      | none ↦ none
      | some m' ↦ some (clear_bss arch (phdr_at m' a) m')
    ]
    else some m

-- The loop of elf32_load: the value returned and the memory. `none` means that the fuel ran out.
-- The header is read anew in each round.
unfoldable pub load_loop : Arch → ℕ → ℕ → ℕ → ℕ → Mem → Option (ℕ × Mem)
load_loop arch zero i image size m = none
load_loop arch (suc fuel) i image size m =
    let e = ehdr_at m image in
    let phdr_offset = u32 (e.e_phoff + u32 (i * e.e_phentsize)) in
    let round : Option (ℕ × Mem) =
      elim (load_segment arch image size ((image + phdr_offset) % size_mod arch) m) [
        | none ↦ some (0, m)
        | some m' ↦ load_loop arch fuel (u16 (i + 1)) image size m'
      ] in
    if ltb i e.e_phnum
    then (if ltb size ((phdr_offset + phdr_size) % size_mod arch) then some (0, m) else round)
    else some (e.e_entry, m)

unfoldable pub elf32_load : Arch → ℕ → ℕ → ℕ → Mem → Option (ℕ × Mem)
elf32_load arch fuel image size m = elim (elf32_validate image size m) [
  | failure ↦ some (0, m)
  | success ↦ load_loop arch fuel 0 image size m
]
