-- ===== src/Base/Word.antt =====
-- Fixed-width unsigned integers as native numbers with the wrap written out, the width of
-- size_t and uintptr_t (src/include/types.h), and the signed results of comparisons.
use Prim.Native.Nat.{ℕ, ◌+◌, ◌-◌, ◌%◌}
use gemiboot.Base.Tests.{leb, if◌then◌else◌}

abbrev pub u8 : ℕ → ℕ
u8 n = n % 256

abbrev pub u16 : ℕ → ℕ
u16 n = n % 65536

abbrev pub u32 : ℕ → ℕ
u32 n = n % 4294967296

abbrev pub u64 : ℕ → ℕ
u64 n = n % 18446744073709551616

-- a - b in uint32_t, for a and b below 2 ^ 32.
abbrev pub sub32 : ℕ → ℕ → ℕ
sub32 a b = u32 (a + 4294967296 - b)

-- The two targets of the build: 32-bit code (BIOS, UEFI 32) and 64-bit code (UEFI 64).
pub data Arch : Type 0 where
  ia32 x64 : Arch

-- The number of values of size_t and uintptr_t.
abbrev pub size_mod : Arch → ℕ
size_mod ia32 = 4294967296
size_mod x64 = 18446744073709551616

-- The results of memcmp and its kin. `negsuc n` is -(n + 1).
pub data ℤ : Type 0 where
  pos : ℕ → ℤ
  negsuc : ℕ → ℤ

-- a - b as an int.
abbrev pub sub_ℕ : ℕ → ℕ → ℤ
sub_ℕ a b = if leb b a then pos (a - b) else negsuc (b - a - 1)
