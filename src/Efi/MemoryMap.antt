-- ===== src/Efi/MemoryMap.antt =====
-- convert_memory_map of src/efi64/efi64.c: the firmware's memory map as a multiboot map.
pub mod Entries
pub mod Convert
use Prim.Native.Nat.{bit_or}
use gemiboot.Base.{
  ℕ, zero, suc, ◌+◌, ◌-◌, ◌*◌, ◌/◌, ◌%◌, Bool, ◌||◌, Option, none, some, ltb, ◌==◌, if◌then◌else◌,
  Mem, le32, le64, put32, u32, u64,
}
use gemiboot.Multiboot.{MultibootInfo}

-- The fields of EFI_MEMORY_DESCRIPTOR that the code reads.
pub record Descriptor : Type 0 where
  pub type : ℕ
  pub physical_start : ℕ
  pub number_of_pages : ℕ

unfoldable pub descriptor_at : Mem → ℕ → Descriptor
descriptor_at m a = record {
  type = le32 m a;
  physical_start = le64 m (a + 8);
  number_of_pages = le64 m (a + 24);
}

-- EfiLoaderCode, EfiLoaderData, EfiBootServicesCode, EfiBootServicesData, EfiConventionalMemory
unfoldable pub is_available : ℕ → Bool
is_available t = t == 1 || t == 2 || t == 3 || t == 4 || t == 7

-- EfiACPIReclaimMemory is 9 and EfiACPIMemoryNVS is 10; the results are available, ACPI
-- reclaimable, NVS and reserved.
unfoldable pub multiboot_type : ℕ → ℕ
multiboot_type t = if is_available t then 1 else if t == 9 then 3 else if t == 10 then 4 else 2

abbrev pub descriptor_length : Descriptor → ℕ
descriptor_length d = u64 (d.number_of_pages * 4096)

-- The variables of the loop.
pub record Converting : Type 0 where
  pub mem : Mem
  pub entry_count : ℕ
  pub total_ram_bytes : ℕ

-- entries[k] with its six fields.
unfoldable pub put_map_entry : ℕ → Descriptor → Mem → Mem
put_map_entry at d m =
    let len = descriptor_length d in
    let m1 = put32 (put32 m at 20) (at + 4) (d.physical_start % 4294967296) in
    let m2 =
      put32 (put32 m1 (at + 8) (d.physical_start / 4294967296)) (at + 12) (len % 4294967296) in
    put32 (put32 m2 (at + 16) (len / 4294967296)) (at + 20) (multiboot_type d.type)

-- The body of the loop for a descriptor.
unfoldable pub convert_descriptor : ℕ → Converting → Converting
convert_descriptor desc st =
    let d = descriptor_at st.mem desc in
    record {
      mem = put_map_entry (0x8004 + st.entry_count * 24) d st.mem;
      entry_count = st.entry_count + 1;
      total_ram_bytes =
          if is_available d.type
          then u64 (st.total_ram_bytes + descriptor_length d)
          else st.total_ram_bytes;
    }

-- The loop from descriptor `i` on, with `left` descriptors left.
unfoldable pub convert_loop : ℕ → ℕ → ℕ → ℕ → Converting → Converting
convert_loop zero i mmap desc_size st = st
convert_loop (suc left) i mmap desc_size st =
    let more =
      convert_loop left (i + 1) mmap desc_size (convert_descriptor (mmap + i * desc_size) st) in
    if ltb st.entry_count 120 then more else st

unfoldable pub finish_map : Converting → MultibootInfo → MultibootInfo × Mem
finish_map st mbi =
    let mib = 1024 * 1024 in
    (
      record mbi {
        mmap_addr = 0x8004;
        mmap_length = st.entry_count * 24;
        mem_lower = 640;
        mem_upper =
            u32 (
              if ltb mib st.total_ram_bytes then (st.total_ram_bytes - mib) / 1024 else 127 * 1024);
        flags = bit_or (bit_or mbi.flags 64) 1;
      },
      put32 st.mem 0x8000 st.entry_count,
    )

-- `none` is the divide error of `mmap_size / desc_size`.
unfoldable pub convert_memory_map : ℕ → ℕ → ℕ → MultibootInfo → Mem → Option (MultibootInfo × Mem)
convert_memory_map mmap mmap_size desc_size mbi m =
    let start : Converting = record { mem = m; entry_count = 0; total_ram_bytes = 0 } in
    if desc_size == 0
    then none
    else some (finish_map (convert_loop (mmap_size / desc_size) 0 mmap desc_size start) mbi)
