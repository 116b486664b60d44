-- ===== src/Efi/Pci.antt =====
-- pci_remap_above_4g_bars of src/efi64/efi64.c, over port instructions that are an argument.
pub mod Windows
use Prim.Native.Nat.{bit_and, bit_or}
use gemiboot.Base.{
  ℕ, zero, suc, ◌+◌, ◌-◌, ◌*◌, ◌/◌, ◌%◌, not, ◌&&◌, ◌||◌, ltb, leb, ◌==◌, if◌then◌else◌, u8, u32,
  u64, sub32,
}

-- outl and inl, over the state of the devices.
pub record Ports (S : Type 0) : Type 0 where
  pub pci_outl : ℕ → ℕ → S → S
  pub pci_inl : ℕ → S → ℕ × S

-- The address of a register: fields that do not overlap, so `|` is a sum.
abbrev pub pci_address : ℕ → ℕ → ℕ → ℕ → ℕ
pci_address bus slot func offset =
    0x80000000 + bus * 65536 + slot * 2048 + func * 256 + offset / 4 * 4

-- The variables of the loops that last, and the devices.
pub record Remap (S : Type 0) : Type 0 where
  pub next_32bit_base : ℕ
  pub new_fb_base : ℕ
  pub devices : S

-- The length that a BAR answers to the probe.
unfoldable pub bar_length : ℕ → ℕ
bar_length answer =
    let size_mask = bit_and answer 0xfffffff0 in
    let bar_len = u32 (4294967296 - size_mask) in
    if bar_len == 0 || ltb 0x20000000 bar_len then 0x10000000 else bar_len

-- The window below the last one, aligned to its length.
unfoldable pub next_window : ℕ → ℕ → ℕ
next_window base bar_len = bit_and (sub32 base bar_len) (4294967295 - (bar_len - 1))

-- The framebuffer moves with the BAR that holds it.
unfoldable pub moved_fb : ℕ → ℕ → ℕ → ℕ → ℕ → ℕ
moved_fb fb_base bar_addr bar_len target_base new_fb_base =
    if not (bar_addr == 0) && leb bar_addr fb_base && ltb fb_base (u64 (bar_addr + bar_len))
    then u64 (target_base + (fb_base - bar_addr))
    else new_fb_base

module _ {S : Type 0} (ports : Ports S) where
  unfoldable pub pci_read32 : ℕ → ℕ → ℕ → ℕ → S → ℕ × S
  pci_read32 bus slot func offset st =
      ports.pci_inl 0xcfc (ports.pci_outl 0xcf8 (pci_address bus slot func offset) st)

  unfoldable pub pci_write32 : ℕ → ℕ → ℕ → ℕ → ℕ → S → S
  pci_write32 bus slot func offset val st =
      ports.pci_outl 0xcfc val (ports.pci_outl 0xcf8 (pci_address bus slot func offset) st)

  -- A 64-bit BAR above 4 GB: probed, given a window, and switched on again.
  unfoldable pub move_bar : ℕ → ℕ → ℕ → ℕ → ℕ → ℕ → ℕ → Remap S → Remap S
  move_bar bus slot func bar_off bar_low bar_addr fb_base r =
      let (cmd, s1) = pci_read32 bus slot func 4 r.devices in
      let s2 = pci_write32 bus slot func 4 (bit_and cmd 0xfffffffd) s1 in
      let s3 = pci_write32 bus slot func bar_off 0xffffffff s2 in
      let (answer, s4) = pci_read32 bus slot func bar_off s3 in
      let bar_len = bar_length answer in
      let target_base = next_window r.next_32bit_base bar_len in
      let s5 = pci_write32 bus slot func bar_off (bit_or target_base (bar_low % 16)) s4 in
      let s6 = pci_write32 bus slot func (u8 (bar_off + 4)) 0 s5 in
      let s7 = pci_write32 bus slot func 4 (bit_or cmd 6) s6 in
      record {
        next_32bit_base = target_base;
        new_fb_base = moved_fb fb_base bar_addr bar_len target_base r.new_fb_base;
        devices = s7;
      }

  -- The high half of a 64-bit BAR, and its move where it lies above 4 GB.
  unfoldable pub look_at_bar : ℕ → ℕ → ℕ → ℕ → ℕ → ℕ → Remap S → Remap S
  look_at_bar bus slot func bar_off bar_low fb_base r =
      let (bar_high, st) = pci_read32 bus slot func (u8 (bar_off + 4)) r.devices in
      let bar_addr = bar_high * 4294967296 + bar_low / 16 * 16 in
      let read : Remap S = record r { devices = st } in
      if not (bar_high == 0) || ltb 0xffffffff bar_addr
      then move_bar bus slot func bar_off bar_low bar_addr fb_base read
      else read

  -- The loop over the BARs from `bar` on. A 64-bit BAR takes two.
  unfoldable pub bar_loop : ℕ → ℕ → ℕ → ℕ → ℕ → ℕ → Remap S → Remap S
  bar_loop zero bar bus slot func fb_base r = r
  bar_loop (suc left) bar bus slot func fb_base r =
      let bar_off = 0x10 + bar * 4 in
      let (bar_low, st) = pci_read32 bus slot func bar_off r.devices in
      let read : Remap S = record r { devices = st } in
      let wide = bar_low % 2 == 0 && bar_low / 2 % 4 == 2 && ltb (bar + 1) 6 in
      let looked = look_at_bar bus slot func bar_off bar_low fb_base read in
      let rest =
        bar_loop left (if wide then bar + 2 else bar + 1) bus slot func fb_base
          (if wide then looked else read) in
      if ltb bar 6 then rest else r

  -- The loop over the functions of a slot from `func` on.
  unfoldable pub func_loop : ℕ → ℕ → ℕ → ℕ → ℕ → Remap S → Remap S
  func_loop zero func bus slot fb_base r = r
  func_loop (suc left) func bus slot fb_base r =
      let (vendor_dev, st) = pci_read32 bus slot func 0 r.devices in
      let absent = vendor_dev % 65536 == 0xffff || vendor_dev % 65536 == 0 in
      let seen : Remap S = record r { devices = st } in
      let done = bar_loop 6 0 bus slot func fb_base seen in
      let (hdr_type, st') = pci_read32 bus slot func 0xc done.devices in
      let checked : Remap S = record done { devices = st' } in
      let after = if absent then seen else if func == 0 then checked else done in
      let single = func == 0 && (absent || hdr_type / 65536 / 128 % 2 == 0) in
      let rest = func_loop left (func + 1) bus slot fb_base after in if single then after else rest

  unfoldable pub slot_loop : ℕ → ℕ → ℕ → ℕ → Remap S → Remap S
  slot_loop zero slot bus fb_base r = r
  slot_loop (suc left) slot bus fb_base r =
      slot_loop left (slot + 1) bus fb_base (func_loop 8 0 bus slot fb_base r)

  unfoldable pub bus_loop : ℕ → ℕ → ℕ → Remap S → Remap S
  bus_loop zero bus fb_base r = r
  bus_loop (suc left) bus fb_base r = bus_loop left (bus + 1) fb_base (slot_loop 32 0 bus fb_base r)

  unfoldable pub pci_remap_above_4g_bars : ℕ → S → ℕ × S
  pci_remap_above_4g_bars fb_base st =
      let r =
        bus_loop 256 0 fb_base
          (record { next_32bit_base = 0xe0000000; new_fb_base = fb_base; devices = st }) in
      (r.new_fb_base, r.devices)
