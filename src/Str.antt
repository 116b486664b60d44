-- ===== src/Str.antt =====
-- The memory and string functions of src/common/string.c over byte memory. A pointer is an
-- address, and 0 is NULL. The loops that are bounded by a count recur on the rounds left; the
-- loops that look for a NUL take fuel, and `none` means that the fuel ran out.
pub mod Copy
pub mod Search
pub mod Strings
mod Examples
use gemiboot.Base.{
  ℕ, zero, suc, ◌+◌, ◌-◌, ◌≡◌, Bool, true, false, Option, none, some, ltb, ◌==◌, if◌then◌else◌, Mem,
  byte, put8, u8, ℤ, pos, sub_ℕ,
}

-- The loop of memcpy at index `i`, with `left` rounds left.
pub memcpy_loop : ℕ → ℕ → ℕ → ℕ → Mem → Mem
memcpy_loop zero i dest src m = m
memcpy_loop (suc left) i dest src m =
    memcpy_loop left (i + 1) dest src (put8 m (dest + i) (byte m (src + i)))

unfoldable pub memcpy : ℕ → ℕ → ℕ → Mem → Mem
unfolding memcpy_loop
memcpy dest src n m = memcpy_loop n 0 dest src m

pub memset_loop : ℕ → ℕ → ℕ → ℕ → Mem → Mem
memset_loop zero i s val m = m
memset_loop (suc left) i s val m = memset_loop left (i + 1) s val (put8 m (s + i) val)

-- `(uint8_t)c` is taken once, before the loop.
unfoldable pub memset : ℕ → ℕ → ℕ → Mem → Mem
unfolding memset_loop
memset s c n m = memset_loop n 0 s (u8 c) m

-- The loop of memmove that runs from the end: `i` is the number of bytes still to copy.
pub memmove_back : ℕ → ℕ → ℕ → Mem → Mem
memmove_back zero dest src m = m
memmove_back (suc i) dest src m = memmove_back i dest src (put8 m (dest + i) (byte m (src + i)))

unfoldable pub memmove : ℕ → ℕ → ℕ → Mem → Mem
unfolding memcpy_loop memmove_back
memmove dest src n m =
    if ltb dest src
    then memcpy_loop n 0 dest src m
    else if ltb src dest
    then memmove_back n dest src m
    else m

-- `p1` and `p2` are the bytes from each pointer on, so that they may be of distinct objects.
pub memcmp_loop : ℕ → ℕ → Mem → Mem → ℤ
memcmp_loop zero i p1 p2 = pos 0
memcmp_loop (suc left) i p1 p2 =
    let rest = memcmp_loop left (i + 1) p1 p2 in
    if byte p1 i == byte p2 i then rest else sub_ℕ (byte p1 i) (byte p2 i)

unfoldable pub memcmp : Mem → Mem → ℕ → ℤ
unfolding memcmp_loop
memcmp p1 p2 n = memcmp_loop n 0 p1 p2

pub strlen_loop : ℕ → ℕ → ℕ → Mem → Option ℕ
strlen_loop zero s len m = none
strlen_loop (suc fuel) s len m =
    let rest = strlen_loop fuel s (len + 1) m in
    if s == 0 then some len else if byte m (s + len) == 0 then some len else rest

unfoldable pub strlen : ℕ → ℕ → Mem → Option ℕ
unfolding strlen_loop
strlen fuel s m = strlen_loop fuel s 0 m

-- Both pointers move on while the bytes are equal and no NUL is met.
unfoldable pub strcmp : ℕ → ℕ → ℕ → Mem → Option ℤ
strcmp zero s1 s2 m = none
strcmp (suc fuel) s1 s2 m =
    let rest = strcmp fuel (s1 + 1) (s2 + 1) m in
    let stop = some (sub_ℕ (byte m s1) (byte m s2)) in
    if byte m s1 == 0 then stop else if byte m s1 == byte m s2 then rest else stop

pub strncmp_loop : ℕ → ℕ → ℕ → ℕ → Mem → ℤ
strncmp_loop zero i s1 s2 m = pos 0
strncmp_loop (suc left) i s1 s2 m =
    let rest = strncmp_loop left (i + 1) s1 s2 m in
    if byte m (s1 + i) == byte m (s2 + i)
    then (if byte m (s1 + i) == 0 then pos 0 else rest)
    else sub_ℕ (byte m (s1 + i)) (byte m (s2 + i))

unfoldable pub strncmp : ℕ → ℕ → ℕ → Mem → ℤ
unfolding strncmp_loop
strncmp s1 s2 n m = strncmp_loop n 0 s1 s2 m

pub strcpy_loop : ℕ → ℕ → ℕ → Mem → Option Mem
strcpy_loop zero d src m = none
strcpy_loop (suc fuel) d src m =
    let copied = put8 m d (byte m src) in
    let rest = strcpy_loop fuel (d + 1) (src + 1) copied in
    if byte m src == 0 then some copied else rest

unfoldable pub strcpy : ℕ → ℕ → ℕ → Mem → Option Mem
unfolding strcpy_loop
strcpy fuel dest src m = strcpy_loop fuel dest src m
