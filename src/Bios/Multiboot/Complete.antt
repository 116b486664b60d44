-- ===== src/Bios/Multiboot/Complete.antt =====
-- What the kernel gets from bios_loader_main of src/bios/bios_loader.c.
use gemiboot.Base.{
  put16, put32, leb, ◌&&◌, ◌∙◌, ltb, ℕ, ◌+◌, ◌*◌, ◌≡◌, ◌≤◌, ◌<◌, ◌⊎◌, refl, arith, Mem, le32, put8,
  false,
}
use Prim.Native.Nat.{bit_or}
use gemiboot.Bios.Multiboot.{
  put_entry, fallback_map, memory_map_count, memory_map_mem, set_memory_map, set_constants,
  set_framebuffer, prepare_info,
}
use gemiboot.Multiboot.{MultibootInfo, no_info}

framebuffer_facts :
    (m : Mem) (mbi : MultibootInfo)
    → ((set_framebuffer m mbi).mmap_addr ≡ mbi.mmap_addr)
      × ((set_framebuffer m mbi).mmap_length ≡ mbi.mmap_length)
      × (0 < (set_framebuffer m mbi).framebuffer_addr_low)
      × (0 < (set_framebuffer m mbi).framebuffer_width)
      × (0 < (set_framebuffer m mbi).framebuffer_height)
      × ((set_framebuffer m mbi).flags ≡ bit_or mbi.flags 4096)
unfolding set_framebuffer
framebuffer_facts m mbi =
    (ground arith, ground arith, ground arith, ground arith, ground arith, ground arith)

map_count : (m : Mem) → (0 < memory_map_count m) × (memory_map_count m ≤ 128)
unfolding memory_map_count
map_count m = (ground arith, ground arith)

-- The flags of the structure are those of the memory sizes, the boot device, the memory map, the
-- loader's name and the framebuffer, and no other. The memory map handed to the kernel has one to 128 entries of 24 bytes, and ends before the
-- buffer with the video setup; the framebuffer has an address, a width and a height.
pub prepare_info_complete :
    (name : ℕ) (m : Mem)
    → ((prepare_info name m).0.flags ≡ 4675)
      × ((prepare_info name m).0.mmap_addr + (prepare_info name m).0.mmap_length ≤ 0x9000)
      × ((prepare_info name m).0.mmap_length ≡ memory_map_count m * 24)
      × (0 < memory_map_count m)
      × (memory_map_count m ≤ 128)
      × (0 < (prepare_info name m).0.framebuffer_addr_low)
      × (0 < (prepare_info name m).0.framebuffer_width)
      × (0 < (prepare_info name m).0.framebuffer_height)
unfolding prepare_info set_constants set_memory_map
prepare_info_complete name m =
    let (at, len, addr, width, height, flags) =
      framebuffer_facts (memory_map_mem m) (set_constants name (set_memory_map m no_info)) in
    let (some_entry, few) = map_count m in
    (flags, omega (arith, at, len, few), len, some_entry, few, addr, width, height)

-- The start and the length of entry `i` of the memory map.
abbrev pub region_start : Mem → ℕ → ℕ
region_start m i = le32 m (0x8008 + i * 24)

abbrev pub region_length : Mem → ℕ → ℕ
region_length m i = le32 m (0x8010 + i * 24)

fallback_regions :
    (m : Mem)
    → (region_start (fallback_map m) 0 ≡ 0)
      × (region_start (fallback_map m) 0 + region_length (fallback_map m) 0
          ≡ region_start (fallback_map m) 1)
      × (region_start (fallback_map m) 1 + region_length (fallback_map m) 1
          ≡ region_start (fallback_map m) 2)
      × (region_start (fallback_map m) 2 + region_length (fallback_map m) 2 ≡ 0x8000000)
unfolding fallback_map put_entry put32 put16 put8
fallback_regions m = (refl, refl, refl, refl)

fallback_used :
    (name : ℕ) (m : Mem)
    → (le32 m 0x8000 ≡ 0) ⊎ (128 < le32 m 0x8000)
    → (prepare_info name m).1 ≡ fallback_map m
unfolding prepare_info memory_map_mem
fallback_used name m bad =
    let test : (ltb 0 (le32 m 0x8000) && leb (le32 m 0x8000) 128) ≡ false = ground arith in
    rw test refl

fallback_length :
    (m : Mem) → (le32 m 0x8000 ≡ 0) ⊎ (128 < le32 m 0x8000) → memory_map_count m * 24 ≡ 72
unfolding memory_map_count
fallback_length m bad =
    let test : (ltb 0 (le32 m 0x8000) && leb (le32 m 0x8000) 128) ≡ false = ground arith in
    rw test refl

-- Where the firmware's map has no entry or more than 128, the kernel gets a map of three entries,
-- which follow one another without a gap from address 0 to 128 MB.
pub prepare_info-regions :
    (name : ℕ) (m : Mem)
    → (le32 m 0x8000 ≡ 0) ⊎ (128 < le32 m 0x8000)
    → ((prepare_info name m).0.mmap_length ≡ 72)
      × (region_start (prepare_info name m).1 0 ≡ 0)
      × (region_start (prepare_info name m).1 0 + region_length (prepare_info name m).1 0
          ≡ region_start (prepare_info name m).1 1)
      × (region_start (prepare_info name m).1 1 + region_length (prepare_info name m).1 1
          ≡ region_start (prepare_info name m).1 2)
      × (region_start (prepare_info name m).1 2 + region_length (prepare_info name m).1 2
          ≡ 0x8000000)
prepare_info-regions name m bad =
    let mapped : (prepare_info name m).1 ≡ fallback_map m = fallback_used name m bad in
    let (_, _, len, _, _, _, _, _) = prepare_info_complete name m in
    let (a, b, c, d) = fallback_regions m in
    (len ∙ fallback_length m bad, rw mapped a, rw mapped b, rw mapped c, rw mapped d)
