-- ===== src/Bios/Partition.antt =====
-- find_active_partition_lba of src/bios/bios_loader.c.
pub mod Choice
use gemiboot.Base.{
  ℕ, zero, suc, ◌+◌, ◌*◌, ◌&&◌, not, Bool, true, false, Option, none, some, ◌==◌, if◌then◌else◌,
  Mem, byte, le32,
}

-- The entry `i` of the table, from offset 446 of the sector: its status and its first sector.
abbrev pub status_at : Mem → ℕ → ℕ
status_at mbr i = byte mbr (446 + i * 16)

abbrev pub start_lba_at : Mem → ℕ → ℕ
start_lba_at mbr i = le32 mbr (446 + i * 16 + 8)

-- parts[i].status == 0x80 && parts[i].start_lba != 0
abbrev pub is_active : Mem → ℕ → Bool
is_active mbr i = status_at mbr i == 0x80 && not (start_lba_at mbr i == 0)

-- The loop from entry `i` on, with `left` entries left: the address that it returns, if it does.
unfoldable pub scan_parts : ℕ → ℕ → Mem → Option ℕ
scan_parts zero i mbr = none
scan_parts (suc left) i mbr =
    let rest = scan_parts left (i + 1) mbr in
    if is_active mbr i then some (start_lba_at mbr i) else rest

-- What follows the loop: the first entry, where there is one.
unfoldable pub after_loop : Mem → Option ℕ → ℕ
after_loop mbr (some lba) = lba
after_loop mbr none = if not (start_lba_at mbr 0 == 0) then start_lba_at mbr 0 else 2048

-- What comes after the sector is read. `none` for the sector is a failing read.
unfoldable pub find_active_partition_lba : Option Mem → ℕ
find_active_partition_lba none = 2048
find_active_partition_lba (some mbr) = after_loop mbr (scan_parts 4 0 mbr)
