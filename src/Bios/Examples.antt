-- ===== src/Bios/Examples.antt =====
-- A small disk behind the firmware, and the theorems about the BIOS loader at it.
mod Boot
use gemiboot.Base.{
  ◌<◌, ◌≤◌, inl, ◌==◌, if◌then◌else◌, inr, ℕ, suc, ◌+◌, ◌-◌, ◌*◌, ◌/◌, ◌%◌, ◌≡◌, ◌≢◌, ◌↔◌, refl,
  arith, some, none, [], Mem, byte, blit, blit_in, blit_out, ap, ◌∙◌, success,
}
use gemiboot.Fat.Disk.{Disk, Serves}
use gemiboot.Bios.Disk.Callback.{sector_callback, sector_callback-Serves}
use gemiboot.Bios.Disk.{Machine, ReadRaw, bios_read_sectors}
use gemiboot.Bios.Disk.Chunks.{
  ServesRaw, HasRead, bios_read_sectors-HasRead, bios_read_sectors-ne-none,
}
use gemiboot.Bios.Multiboot.{prepare_info, memory_map_count}
use gemiboot.Bios.Multiboot.Complete.{
  region_start, region_length, prepare_info_complete, prepare_info-regions,
}
use gemiboot.Bios.Partition.{find_active_partition_lba}
use gemiboot.Bios.Partition.Choice.{Chosen, find_active_partition_lba-Chosen}

abbrev sample_disk : Disk
sample_disk lba k = lba + k

-- The firmware puts the sectors at the segment and the offset, and counts its calls.
abbrev sample_raw : ReadRaw ℕ
sample_raw lba count seg off m calls = (
  0,
  blit m (seg * 16 + off) (λ k. sample_disk (lba + k / 512) (k % 512)) (count * 512),
  suc calls,
)

sample_serves : ServesRaw sample_raw sample_disk 4096
sample_serves = record {
  returns = λ lba count seg off m st few fits. refl;
  reads = λ lba count seg off m st k few fits below.
      let back : seg * 16 + off + k - (seg * 16 + off) ≡ k = omega arith in
      ap (λ (v : ℕ). v % 256)
        (blit_in m (seg * 16 + off) (λ j. sample_disk (lba + j / 512) (j % 512)) (count * 512)
          (seg * 16 + off + k) (omega arith) (omega arith))
      ∙ ap (λ (j : ℕ). byte (sample_disk (lba + j / 512)) (j % 512)) back;
  outside = λ lba count seg off m st x few fits out.
      ap (λ (v : ℕ). v % 256)
        (blit_out m (seg * 16 + off) (λ j. sample_disk (lba + j / 512) (j % 512)) (count * 512) x
          out);
}

abbrev sample_machine : Machine ℕ
sample_machine = record { mem = λ x. 0; out = []; disk = 0 }

-- A read of 130 sectors, which takes three chunks.
bios_read_sectors-HasRead_example :
    (w' : Machine ℕ) × (bios_read_sectors sample_raw 2048 130 0x200000 sample_machine
      ≡ some (success, w'))
    × HasRead sample_disk 2048 130 0x200000 sample_machine w'
bios_read_sectors-HasRead_example =
    bios_read_sectors-HasRead sample_raw sample_disk 4096 2048 130 0x200000 sample_machine
      (omega arith) sample_serves (omega arith) (omega arith) (inr (omega arith))

sector_callback-Serves_example : Serves (sector_callback sample_raw 0x7000) sample_disk 4096
sector_callback-Serves_example =
    sector_callback-Serves sample_raw sample_disk 4096 0x7000 (omega arith) sample_serves
      (omega arith) (inl (omega arith))

-- The second entry is active, and starts at sector 2048.
abbrev sample_mbr : Mem
sample_mbr x = if x == 462 then 0x80 else if x == 471 then 8 else if x == 454 then 63 else 0

find_active_partition_lba-Chosen_example :
    (find_active_partition_lba (some sample_mbr) ≡ 2048) ↔ Chosen sample_mbr 2048
find_active_partition_lba-Chosen_example = find_active_partition_lba-Chosen sample_mbr 2048

-- Memory without a map and without a framebuffer.
prepare_info_complete_example :
    ((prepare_info 0x7000 (λ x. 0)).0.flags ≡ 4675)
    × ((prepare_info 0x7000 (λ x. 0)).0.mmap_addr + (prepare_info 0x7000 (λ x. 0)).0.mmap_length
        ≤ 0x9000)
    × ((prepare_info 0x7000 (λ x. 0)).0.mmap_length ≡ memory_map_count (λ x. 0) * 24)
    × (0 < memory_map_count (λ x. 0))
    × (memory_map_count (λ x. 0) ≤ 128)
    × (0 < (prepare_info 0x7000 (λ x. 0)).0.framebuffer_addr_low)
    × (0 < (prepare_info 0x7000 (λ x. 0)).0.framebuffer_width)
    × (0 < (prepare_info 0x7000 (λ x. 0)).0.framebuffer_height)
prepare_info_complete_example = prepare_info_complete 0x7000 (λ x. 0)
