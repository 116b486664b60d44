-- ===== src/Base/Memory.antt =====
-- Byte-addressed memory. Every read takes the value of a cell as a byte, so that no side
-- condition on the contents of memory is needed.
use Prim.Native.Nat.{ℕ, ◌+◌, ◌-◌, ◌*◌, ◌/◌, ◌%◌, ◌≤◌, ◌<◌}
use mathlib.Core.Path.{◌≡◌}
use mathlib.Core.Logic.{◌⊎◌}
use mathlib.Core.Bool.{◌&&◌}
use native.Mathlib.Omega.{arith}
use gemiboot.Base.Tests.{ltb, leb, ◌==◌, if◌then◌else◌}

abbrev pub Mem : Type 0
Mem = ℕ → ℕ

-- *(uint8_t *)a
abbrev pub byte : Mem → ℕ → ℕ
byte m a = m a % 256

-- *(uint16_t *)a and *(uint32_t *)a on a little-endian machine.
abbrev pub le16 : Mem → ℕ → ℕ
le16 m a = byte m a + 256 * byte m (a + 1)

abbrev pub le32 : Mem → ℕ → ℕ
le32 m a = le16 m a + 65536 * le16 m (a + 2)

-- *(uint8_t *)a = v
unfoldable pub put8 : Mem → ℕ → ℕ → Mem
put8 m a v x = if x == a then v % 256 else m x

-- *(uint16_t *)a = v and *(uint32_t *)a = v
unfoldable pub put16 : Mem → ℕ → ℕ → Mem
put16 m a v = put8 (put8 m a v) (a + 1) (v / 256)

unfoldable pub put32 : Mem → ℕ → ℕ → Mem
put32 m a v = put16 (put16 m a v) (a + 2) (v / 65536)

-- *(uint64_t *)a
abbrev pub le64 : Mem → ℕ → ℕ
le64 m a = le32 m a + 4294967296 * le32 m (a + 4)

-- `n` bytes from `src` on, laid over `m` from `a` on: a copy between distinct objects.
unfoldable pub blit : Mem → ℕ → (ℕ → ℕ) → ℕ → Mem
blit m a src n x = if leb a x && ltb x (a + n) then src (x - a) else m x

pub put8_self : (m : Mem) (a v : ℕ) → put8 m a v a ≡ v % 256
unfolding put8
put8_self m a v = ground arith

pub put8_ne : (m : Mem) (a v x : ℕ) → (x < a) ⊎ (a < x) → put8 m a v x ≡ m x
unfolding put8
put8_ne m a v x h = ground arith

pub blit_in :
    (m : Mem) (a : ℕ) (src : ℕ → ℕ) (n x : ℕ) → a ≤ x → x < a + n → blit m a src n x ≡ src (x - a)
unfolding blit
blit_in m a src n x p q = ground arith

pub blit_out :
    (m : Mem) (a : ℕ) (src : ℕ → ℕ) (n x : ℕ) → (x < a) ⊎ (a + n ≤ x) → blit m a src n x ≡ m x
unfolding blit
blit_out m a src n x h = ground arith

pub le32-put32 : (m : Mem) (a v : ℕ) → v < 4294967296 → le32 (put32 m a v) a ≡ v
unfolding put32 put16 put8
le32-put32 m a v small = ground arith

pub le32-put32_apart :
    (m : Mem) (a b v : ℕ) → (b + 4 ≤ a) ⊎ (a + 4 ≤ b) → le32 (put32 m a v) b ≡ le32 m b
unfolding put32 put16 put8
le32-put32_apart m a b v apart = ground arith

pub put32_outside : (m : Mem) (a v x : ℕ) → (x < a) ⊎ (a + 4 ≤ x) → byte (put32 m a v) x ≡ byte m x
unfolding put32 put16 put8
put32_outside m a v x out = ground arith
