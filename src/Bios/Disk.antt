-- ===== src/Bios/Disk.antt =====
-- bios_read_sectors of src/bios/bios_disk.c, which reads through a buffer in low memory.
pub mod Chunks
pub mod Callback
use gemiboot.Base.{
  ℕ, zero, suc, ◌+◌, ◌-◌, ◌*◌, ◌%◌, Bool, true, false, ◌||◌, Option, none, some, List, [], ◌∷◌, ltb,
  ◌==◌, if◌then◌else◌, Mem, u16, u32, Status, success, failure,
}
use gemiboot.Str.{memcpy}
use gemiboot.Serial.{Output, serial_puts, serial_put_dec}

-- Memory, what went out on the serial port, and the state of the firmware and the disk.
pub record Machine (S : Type 0) : Type 0 where
  pub mem : Mem
  pub out : Output
  pub disk : S

-- bios_disk_read_raw: an address on the disk, a count, a segment and an offset. The result is the
-- return value, the memory and the state.
abbrev pub ReadRaw : Type 0 → Type 0
ReadRaw S = ℕ → ℕ → ℕ → ℕ → Mem → S → ℕ × Mem × S

abbrev pub bounce_buf_paddr : ℕ
bounce_buf_paddr = 0x20000

abbrev pub bounce_buf_seg : ℕ
bounce_buf_seg = 0x2000

abbrev pub max_sectors_chunk : ℕ
max_sectors_chunk = 64

-- The error message: its number goes through a buffer of unknown contents.
unfoldable pub read_error : ℕ → ℕ → ℕ → Mem → Output → Output
read_error lba chunk res buf out =
    let out1 =
      serial_puts
        (b'[' ∷ b'B' ∷ b'I' ∷ b'O' ∷ b'S' ∷ b' ' ∷ b'D' ∷ b'I' ∷ b'S' ∷ b'K' ∷ b']' ∷ b' ' ∷ b'E'
          ∷ b'R' ∷ b'R' ∷ b'O' ∷ b'R' ∷ b':' ∷ b' ' ∷ b'r' ∷ b'e' ∷ b'a' ∷ b'd' ∷ b' ' ∷ b'f' ∷ b'a'
          ∷ b'i' ∷ b'l' ∷ b'e' ∷ b'd' ∷ b' ' ∷ b'f' ∷ b'o' ∷ b'r' ∷ b' ' ∷ b'L' ∷ b'B' ∷ b'A' ∷ b' '
          ∷ [])
        out in
    let out2 = serial_put_dec lba buf out1 in
    let out3 = serial_puts (b' ' ∷ b'c' ∷ b'o' ∷ b'u' ∷ b'n' ∷ b't' ∷ b' ' ∷ []) out2 in
    let out4 = serial_put_dec chunk buf out3 in
    let out5 = serial_puts (b' ' ∷ b'r' ∷ b'e' ∷ b's' ∷ b'=' ∷ []) out4 in
    serial_puts (10 ∷ []) (serial_put_dec res buf out5)

module _ {S : Type 0} (read_raw : ReadRaw S) where
  -- The loop; `none` means that the fuel ran out.
  unfoldable pub read_loop : ℕ → ℕ → ℕ → ℕ → Machine S → Option (Status × Machine S)
  read_loop zero lba count dest w = none
  read_loop (suc fuel) lba count dest w =
      let chunk = if ltb max_sectors_chunk count then max_sectors_chunk else count in
      let (res, mem, disk) = read_raw lba (u16 chunk) bounce_buf_seg 0 w.mem w.disk in
      let copied = memcpy dest bounce_buf_paddr (chunk * 512) mem in
      let rest =
        read_loop fuel (u32 (lba + chunk)) (count - chunk) (dest + chunk * 512)
          (record { mem = copied; out = w.out; disk = disk }) in
      if ltb 0 count
      then (if res == 0
          then rest
          else some (
            failure,
            record { mem = mem; out = read_error lba chunk res (λ k. 0) w.out; disk = disk },
          ))
      else some (success, w)

  -- `buffer` is the address of the destination.
  unfoldable pub bios_read_sectors : ℕ → ℕ → ℕ → Machine S → Option (Status × Machine S)
  bios_read_sectors lba count buffer w =
      if count == 0 || buffer == 0
      then some (success, w)
      else read_loop (suc count) lba count buffer w
