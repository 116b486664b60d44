-- ===== src/Bios/Disk/Callback.antt =====
-- bios_read_sectors of src/bios/bios_disk.c as the callback of the FAT driver.
use gemiboot.Base.{
  ℕ, ◌+◌, ◌/◌, ◌%◌, ◌≡◌, ◌<◌, ◌∙◌, refl, ap, arith, none, some, byte, success, failure,
}
use gemiboot.Fat.Volume.{DiskReadFn}
use gemiboot.Fat.Disk.{Disk, Serves}
use gemiboot.Bios.Disk.{Machine, ReadRaw, bios_read_sectors}
use gemiboot.Bios.Disk.Chunks.{ServesRaw, ApartFromBounce, bios_read_sectors-HasRead}

-- A call with a buffer at the address `buffer`.
unfoldable pub sector_callback : {S : Type 0} → ReadRaw S → ℕ → DiskReadFn (Machine S)
sector_callback read_raw buffer lba count w = elim (bios_read_sectors read_raw lba count buffer w) [
  | none ↦ (none, w)
  | some (success, w') ↦ (some (λ k. w'.mem (buffer + k)), w')
  | some (failure, w') ↦ (none, w')
]

-- Where the firmware reads the first `n` sectors, and the driver's buffer is not null and does not
-- meet the bounce buffer, bios_read_sectors is a callback that reads each of these sectors, as the
-- FAT driver's theorems ask for.
pub sector_callback-Serves :
    {S : Type 0} (read_raw : ReadRaw S) (disk : Disk) (n buffer : ℕ)
    → n < 4294967296
    → ServesRaw read_raw disk n
    → 0 < buffer
    → ApartFromBounce buffer 1
    → Serves (sector_callback read_raw buffer) disk n
unfolding sector_callback
sector_callback-Serves read_raw disk n buffer small serves real apart = record {
  reads = λ lba w below.
      let (w', reads, done) =
        bios_read_sectors-HasRead read_raw disk n lba 1 buffer w small serves (omega arith) real
          apart in
      rw (sector_callback, reads)
        (
          λ k. w'.mem (buffer + k),
          refl,
          λ k lt.
              let at : lba + k / 512 ≡ lba = omega arith in
              let offset : k % 512 ≡ k = omega arith in
              done.bytes k (omega arith)
              ∙ ap (λ (l : ℕ). byte (disk l) (k % 512)) at
              ∙ ap (byte (disk lba)) offset,
        );
}
