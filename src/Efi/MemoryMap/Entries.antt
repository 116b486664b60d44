-- ===== src/Efi/MemoryMap/Entries.antt =====
-- The multiboot map that convert_memory_map of src/efi64/efi64.c writes.
use gemiboot.Base.{
  ℕ, ◌+◌, ◌*◌, ◌/◌, ◌%◌, ◌≡◌, ◌≤◌, ◌<◌, ◌⊎◌, inl, ap, ◌∙◌, arith, Mem, byte, le32, le64, put32,
  le32-put32, le32-put32_apart, put32_outside,
}
use gemiboot.Efi.MemoryMap.{Descriptor, multiboot_type, descriptor_length, put_map_entry}

-- Entry `k` of the map stands for a descriptor: its start and its length in 64 bits, and its type.
pub record IsEntry (m : Mem) (k : ℕ) (d : Descriptor) : Type 0 where
  pub size : le32 m (0x8004 + k * 24) ≡ 20
  pub start : le64 m (0x8004 + k * 24 + 4) ≡ d.physical_start
  pub length : le64 m (0x8004 + k * 24 + 12) ≡ descriptor_length d
  pub type : le32 m (0x8004 + k * 24 + 20) ≡ multiboot_type d.type

type_lt : (t : ℕ) → multiboot_type t < 5
unfolding multiboot_type
type_lt t = ground arith

-- A value in memory stays where something else is written.
stays :
    (m : Mem) (a b v u : ℕ) → (b + 4 ≤ a) ⊎ (a + 4 ≤ b) → le32 m b ≡ u → le32 (put32 m a v) b ≡ u
stays m a b v u apart e = le32-put32_apart m a b v apart ∙ e

-- The six fields of an entry.
module _ (m : Mem) (at s b c d e t : ℕ) where
  abbrev six : Mem
  six =
      put32
        (put32 (put32 (put32 (put32 (put32 m at s) (at + 4) b) (at + 8) c) (at + 12) d) (at + 16) e)
        (at + 20) t

  abbrev three : Mem
  three = put32 (put32 (put32 m at s) (at + 4) b) (at + 8) c

  third_stays : (x u : ℕ) → x + 4 ≤ at + 12 → le32 three x ≡ u → le32 six x ≡ u
  third_stays x u below h = stays _ (at + 20) x t u (inl (omega arith)) (
      stays _ (at + 16) x e u (inl (omega arith))
        (stays three (at + 12) x d u (inl (omega arith)) h))

  field_0 : s < 4294967296 → le32 six at ≡ s
  field_0 small = third_stays at s (omega arith) (
      stays _ (at + 8) at c s (inl (omega arith))
        (stays _ (at + 4) at b s (inl (omega arith)) (le32-put32 m at s small)))

  field_4 : b < 4294967296 → le32 six (at + 4) ≡ b
  field_4 small = third_stays (at + 4) b (omega arith) (
      stays _ (at + 8) (at + 4) c b (inl (omega arith))
        (le32-put32 (put32 m at s) (at + 4) b small))

  field_8 : c < 4294967296 → le32 six (at + 8) ≡ c
  field_8 small = third_stays (at + 8) c (omega arith) (le32-put32 _ (at + 8) c small)

  field_12 : d < 4294967296 → le32 six (at + 12) ≡ d
  field_12 small =
      stays _ (at + 20) (at + 12) t d (inl (omega arith))
        (stays _ (at + 16) (at + 12) e d (inl (omega arith)) (le32-put32 three (at + 12) d small))

  field_16 : e < 4294967296 → le32 six (at + 16) ≡ e
  field_16 small =
      stays _ (at + 20) (at + 16) t e (inl (omega arith)) (le32-put32 _ (at + 16) e small)

  six_outside : (x : ℕ) → (x < at) ⊎ (at + 24 ≤ x) → byte six x ≡ byte m x
  six_outside x out =
      put32_outside _ (at + 20) t x (omega arith)
      ∙ put32_outside _ (at + 16) e x (omega arith)
      ∙ put32_outside _ (at + 12) d x (omega arith)
      ∙ put32_outside _ (at + 8) c x (omega arith)
      ∙ put32_outside _ (at + 4) b x (omega arith)
      ∙ put32_outside m at s x (omega arith)

pub put_map_entry-IsEntry :
    (k : ℕ) (d : Descriptor) (m : Mem)
    → d.physical_start < 18446744073709551616
    → IsEntry (put_map_entry (0x8004 + k * 24) d m) k d
unfolding put_map_entry
put_map_entry-IsEntry k d m small =
    let at = 0x8004 + k * 24 in
    let lo = d.physical_start % 4294967296 in
    let hi = d.physical_start / 4294967296 in
    let len = descriptor_length d in
    let t = multiboot_type d.type in
    let llo = len % 4294967296 in
    let lhi = len / 4294967296 in
    let start_hi : le32 (six m at 20 lo hi llo lhi t) (at + 4 + 4) ≡ hi =
      ap (le32 (six m at 20 lo hi llo lhi t)) (omega arith)
      ∙ field_8 m at 20 lo hi llo lhi t (omega arith) in
    let length_hi : le32 (six m at 20 lo hi llo lhi t) (at + 12 + 4) ≡ lhi =
      ap (le32 (six m at 20 lo hi llo lhi t)) (omega arith)
      ∙ field_16 m at 20 lo hi llo lhi t (omega arith) in
    record {
      size = field_0 m at 20 lo hi llo lhi t (omega arith);
      start = omega (arith, field_4 m at 20 lo hi llo lhi t (omega arith), start_hi);
      length = omega (arith, field_12 m at 20 lo hi llo lhi t (omega arith), length_hi);
      type = le32-put32 _ (at + 20) t (omega (arith, type_lt d.type));
    }

pub put_map_entry_outside :
    (at x : ℕ) (d : Descriptor) (m : Mem)
    → (x < at) ⊎ (at + 24 ≤ x)
    → byte (put_map_entry at d m) x ≡ byte m x
unfolding put_map_entry
put_map_entry_outside at x d m out =
    six_outside m at 20 (d.physical_start % 4294967296) (d.physical_start / 4294967296)
      (descriptor_length d % 4294967296) (descriptor_length d / 4294967296) (multiboot_type d.type)
      x out
