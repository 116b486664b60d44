-- ===== src/Str/Copy.antt =====
-- memcpy, memmove and memset of src/common/string.c: what they leave in memory.
use gemiboot.Base.{
  ℕ, zero, suc, ◌+◌, ◌-◌, ◌≤◌, ◌<◌, ◌≡◌, refl, ◌⊎◌, inl, inr, arith, ltb, Mem, byte, put8, blit,
  put8_self, put8_ne, blit_in, blit_out, Bool-cases, ltb→lt, ap, ◌%◌,
}
use gemiboot.Str.{memcpy_loop, memcpy, memset_loop, memset, memmove_back, memmove}

-- The `n` bytes from `src` on, as they are in `m`, laid over `m` from `dest` on.
abbrev pub copied : Mem → ℕ → ℕ → ℕ → Mem
copied m dest src n = blit m dest (λ k. m (src + k)) n

memcpy_loop_out :
    (left i dest src : ℕ) (m : Mem) (x : ℕ)
    → (x < dest + i) ⊎ (dest + i + left ≤ x)
    → byte (memcpy_loop left i dest src m) x ≡ byte m x
unfolding memcpy_loop
memcpy_loop_out zero i dest src m x h = refl
memcpy_loop_out (suc left) i dest src m x h = omega (
  arith,
  memcpy_loop_out left (i + 1) dest src (put8 m (dest + i) (byte m (src + i))) x (omega arith),
  put8_ne m (dest + i) (byte m (src + i)) x (omega arith),
)

eq_or_ne : (a b : ℕ) → (a ≡ b) ⊎ ((a < b) ⊎ (b < a))
eq_or_ne a b = grind arith

memcpy_loop_in :
    (left i dest src : ℕ) (m : Mem) (x : ℕ)
    → (dest ≤ src) ⊎ (src + i + left ≤ dest)
    → dest + i ≤ x
    → x < dest + i + left
    → byte (memcpy_loop left i dest src m) x ≡ byte m (src + (x - dest))
unfolding memcpy_loop
memcpy_loop_in zero i dest src m x apart lo hi = absurd (omega arith)
memcpy_loop_in (suc left) i dest src m x apart lo hi =
    let m' = put8 m (dest + i) (byte m (src + i)) in
    elim (eq_or_ne x (dest + i)) [
      | inl at ↦
          let e : src + (x - dest) ≡ src + i = omega arith in
          rw (e, memcpy_loop_out left (i + 1) dest src m' x (omega arith), at)
            (omega (arith, put8_self m (dest + i) (byte m (src + i))))
      | inr past ↦ omega (
        arith,
        memcpy_loop_in left (i + 1) dest src m' x (omega arith) (omega arith) (omega arith),
        put8_ne m (dest + i) (byte m (src + i)) (src + (x - dest)) (omega arith),
      )
    ]

memmove_back_out :
    (n dest src : ℕ) (m : Mem) (x : ℕ)
    → (x < dest) ⊎ (dest + n ≤ x)
    → byte (memmove_back n dest src m) x ≡ byte m x
unfolding memmove_back
memmove_back_out zero dest src m x h = refl
memmove_back_out (suc n) dest src m x h = omega (
  arith,
  memmove_back_out n dest src (put8 m (dest + n) (byte m (src + n))) x (omega arith),
  put8_ne m (dest + n) (byte m (src + n)) x (omega arith),
)

memmove_back_in :
    (n dest src : ℕ) (m : Mem) (x : ℕ)
    → src < dest
    → dest ≤ x
    → x < dest + n
    → byte (memmove_back n dest src m) x ≡ byte m (src + (x - dest))
unfolding memmove_back
memmove_back_in zero dest src m x apart lo hi = absurd (omega arith)
memmove_back_in (suc n) dest src m x apart lo hi =
    let m' = put8 m (dest + n) (byte m (src + n)) in
    elim (eq_or_ne x (dest + n)) [
      | inl at ↦
          let e : src + (x - dest) ≡ src + n = omega arith in
          rw (e, memmove_back_out n dest src m' x (omega arith), at)
            (omega (arith, put8_self m (dest + n) (byte m (src + n))))
      | inr before ↦ omega (
        arith,
        memmove_back_in n dest src m' x apart (omega arith) (omega arith),
        put8_ne m (dest + n) (byte m (src + n)) (src + (x - dest)) (omega arith),
      )
    ]

memset_loop_out :
    (left i s val : ℕ) (m : Mem) (x : ℕ)
    → (x < s + i) ⊎ (s + i + left ≤ x)
    → byte (memset_loop left i s val m) x ≡ byte m x
unfolding memset_loop
memset_loop_out zero i s val m x h = refl
memset_loop_out (suc left) i s val m x h = omega (
  arith,
  memset_loop_out left (i + 1) s val (put8 m (s + i) val) x (omega arith),
  put8_ne m (s + i) val x (omega arith),
)

memset_loop_in :
    (left i s val : ℕ) (m : Mem) (x : ℕ)
    → s + i ≤ x
    → x < s + i + left
    → byte (memset_loop left i s val m) x ≡ val % 256
unfolding memset_loop
memset_loop_in zero i s val m x lo hi = absurd (omega arith)
memset_loop_in (suc left) i s val m x lo hi =
    let m' = put8 m (s + i) val in
    elim (eq_or_ne x (s + i)) [
      | inl at ↦
          rw (memset_loop_out left (i + 1) s val m' x (omega arith), at)
            (omega (arith, put8_self m (s + i) val))
      | inr past ↦ memset_loop_in left (i + 1) s val m' x (omega arith) (omega arith)
    ]

-- Every address lies inside a block of `n` bytes or outside it.
in_or_out : (a n x : ℕ) → ((a ≤ x) × (x < a + n)) ⊎ ((x < a) ⊎ (a + n ≤ x))
in_or_out a n x = grind arith

-- A memory that has the bytes of the copy inside the block, and is unchanged outside it.
copied_ext :
    (m m' : Mem) (dest src n x : ℕ)
    → (dest ≤ x → x < dest + n → byte m' x ≡ byte m (src + (x - dest)))
    → ((x < dest) ⊎ (dest + n ≤ x) → byte m' x ≡ byte m x)
    → byte m' x ≡ byte (copied m dest src n) x
copied_ext m m' dest src n x inside outside = elim (in_or_out dest n x) [
  | inl (lo, hi) ↦ rw (blit_in m dest (λ k. m (src + k)) n x lo hi) (inside lo hi)
  | inr out ↦ rw (blit_out m dest (λ k. m (src + k)) n x out) (outside out)
]

-- Where the destination does not start inside the source block, memcpy leaves the bytes of the
-- source block, as they were before the call, in the destination block, and changes no other byte.
pub memcpy-copied :
    (dest src n : ℕ) (m : Mem) (x : ℕ)
    → (dest ≤ src) ⊎ (src + n ≤ dest)
    → byte (memcpy dest src n m) x ≡ byte (copied m dest src n) x
unfolding memcpy
memcpy-copied dest src n m x apart =
    copied_ext m (memcpy_loop n 0 dest src m) dest src n x
      (λ lo hi. memcpy_loop_in n 0 dest src m x (omega arith) (omega arith) (omega arith))
      (λ out. memcpy_loop_out n 0 dest src m x (omega arith))

-- memmove leaves the bytes of the source block, as they were before the call, in the destination
-- block, however the two blocks overlap, and changes no other byte.
pub memmove-copied :
    (dest src n : ℕ) (m : Mem) (x : ℕ)
    → byte (memmove dest src n m) x ≡ byte (copied m dest src n) x
unfolding memmove
memmove-copied dest src n m x = elim (Bool-cases (ltb dest src)) [
  | inl before ↦ rw before (
      copied_ext m (memcpy_loop n 0 dest src m) dest src n x
        (λ lo hi. memcpy_loop_in n 0 dest src m x (ground arith) (omega arith) (omega arith))
        (λ out. memcpy_loop_out n 0 dest src m x (omega arith)))
  | inr not_before ↦ elim (Bool-cases (ltb src dest)) [
    | inl after ↦
        rw (not_before, after)
          (copied_ext m (memmove_back n dest src m) dest src n x
            (memmove_back_in n dest src m x (ltb→lt src dest after))
            (memmove_back_out n dest src m x))
    | inr not_after ↦
        let e : dest ≡ src = ground arith in
        rw (not_before, not_after)
          (copied_ext m m dest src n x (λ lo hi. ap (byte m) (omega arith)) (λ out. refl))
  ]
]

-- memset leaves the low byte of `c` in each of the `n` bytes from `s` on, and changes no other.
pub memset-blit :
    (s c n : ℕ) (m : Mem) (x : ℕ) → byte (memset s c n m) x ≡ byte (blit m s (λ _. c) n) x
unfolding memset
memset-blit s c n m x = elim (in_or_out s n x) [
  | inl (lo, hi) ↦
      rw (blit_in m s (λ _. c) n x lo hi)
        (omega (arith, memset_loop_in n 0 s (c % 256) m x (omega arith) (omega arith)))
  | inr out ↦ rw (blit_out m s (λ _. c) n x out) (memset_loop_out n 0 s (c % 256) m x (omega arith))
]
