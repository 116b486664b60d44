-- ===== src/Str/Strings.antt =====
-- strcmp, strncmp and strcpy of src/common/string.c.
use gemiboot.Base.{
  le→not_ltb, lt→ltb, lt_or_le, ltb, if◌then◌else◌, eq_or_lt, ℕ, zero, suc, ◌+◌, ◌≤◌, ◌<◌, ◌≡◌, ◌≢◌,
  refl, ◌⊎◌, inl, inr, arith, some, Mem, byte, put8, put8_ne, pos, sub_ℕ,
}
use gemiboot.Str.{memcpy_loop, memcpy, strcmp, strncmp_loop, strncmp, strcpy_loop, strcpy}
use gemiboot.Str.Search.{SameFrom, IsString}

-- Offset `k` is where the comparison of two strings stops: at the end of the first, or at the
-- first difference.
pub record IsStop (m : Mem) (s1 s2 i k : ℕ) : Type 0 where
  pub same : (j : ℕ) → i ≤ j → j < k → byte m (s1 + j) ≡ byte m (s2 + j)
  pub no_nul : (j : ℕ) → i ≤ j → j < k → byte m (s1 + j) ≢ 0
  pub stops : (byte m (s1 + k) ≡ 0) ⊎ (byte m (s1 + k) ≢ byte m (s2 + k))

IsStop-suc : (m : Mem) (s1 s2 i k : ℕ) → IsStop m s1 s2 i k → IsStop m s1 s2 (i + 1) k
IsStop-suc m s1 s2 i k h = record {
  same = λ j lo hi. h.same j (omega arith) hi;
  no_nul = λ j lo hi. h.no_nul j (omega arith) hi;
  stops = h.stops;
}

strcmp_from :
    (fuel i k s1 s2 a b : ℕ) (m : Mem)
    → a ≡ s1 + i
    → b ≡ s2 + i
    → IsStop m s1 s2 i k
    → i ≤ k
    → k < fuel + i
    → strcmp fuel a b m ≡ some (sub_ℕ (byte m (s1 + k)) (byte m (s2 + k)))
unfolding strcmp
strcmp_from zero i k s1 s2 a b m ea eb h le lt = absurd (omega arith)
strcmp_from (suc fuel) i k s1 s2 a b m ea eb h le lt = elim (eq_or_lt i k le) [
  | inl at ↦ rw (ea, eb, at) (ground (arith, h.stops))
  | inr before ↦
      let same = h.same i (omega arith) before in
      let no_nul = h.no_nul i (omega arith) before in
      let rest =
        strcmp_from fuel (i + 1) k s1 s2 (s1 + i + 1) (s2 + i + 1) m (omega arith) (omega arith)
          (IsStop-suc m s1 s2 i k h) (omega arith) (omega arith) in
      rw (ea, eb) (ground (arith, rest))
]

-- strcmp returns the difference of the bytes at the place where the comparison of the two strings
-- stops, with any fuel above that offset.
pub strcmp_lem :
    (fuel k s1 s2 : ℕ) (m : Mem)
    → IsStop m s1 s2 0 k
    → k < fuel
    → strcmp fuel s1 s2 m ≡ some (sub_ℕ (byte m (s1 + k)) (byte m (s2 + k)))
strcmp_lem fuel k s1 s2 m h lt =
    strcmp_from fuel 0 k s1 s2 s1 s2 m (omega arith) (omega arith) h (omega arith) (omega arith)

strncmp_from :
    (left i n k s1 s2 : ℕ) (m : Mem)
    → i + left ≡ n
    → IsStop m s1 s2 i k
    → i ≤ k
    → k < n
    → strncmp_loop left i s1 s2 m ≡ sub_ℕ (byte m (s1 + k)) (byte m (s2 + k))
unfolding strncmp_loop
strncmp_from zero i n k s1 s2 m e h le lt = absurd (omega arith)
strncmp_from (suc left) i n k s1 s2 m e h le lt = elim (eq_or_lt i k le) [
  | inl at ↦ rw at (ground (arith, h.stops))
  | inr before ↦
      let same = h.same i (omega arith) before in
      let no_nul = h.no_nul i (omega arith) before in
      let rest =
        strncmp_from left (i + 1) n k s1 s2 m (omega arith) (IsStop-suc m s1 s2 i k h) (omega arith)
          lt in
      ground (arith, rest)
]

strncmp_same :
    (left i n s1 s2 : ℕ) (m : Mem)
    → i + left ≡ n
    → SameFrom (λ j. m (s1 + j)) (λ j. m (s2 + j)) i n
    → strncmp_loop left i s1 s2 m ≡ pos 0
unfolding strncmp_loop
strncmp_same zero i n s1 s2 m e h = refl
strncmp_same (suc left) i n s1 s2 m e h =
    let rest =
      strncmp_same left (i + 1) n s1 s2 m (omega arith) (λ j lo hi. h j (omega arith) hi) in
    ground (arith, rest, h i (omega arith) (omega arith))

-- strncmp returns the difference of the bytes at the place where the comparison of the two strings
-- stops, if that is within the first `n` bytes, and else 0.
pub strncmp_lem :
    (n k s1 s2 : ℕ) (m : Mem)
    → IsStop m s1 s2 0 k
    → strncmp s1 s2 n m ≡ (if ltb k n then sub_ℕ (byte m (s1 + k)) (byte m (s2 + k)) else pos 0)
unfolding strncmp
strncmp_lem n k s1 s2 m h = elim (lt_or_le k n) [
  | inl within ↦
      rw (lt→ltb k n within) (strncmp_from n 0 n k s1 s2 m (omega arith) h (omega arith) within)
  | inr beyond ↦
      rw (le→not_ltb k n beyond)
        (strncmp_same n 0 n s1 s2 m (omega arith) (λ j lo hi. h.same j lo (omega arith)))
]

strcpy_from :
    (left fuel i k dest src d s : ℕ) (m : Mem)
    → i + left ≡ k
    → left < fuel
    → d ≡ dest + i
    → s ≡ src + i
    → (dest ≤ src) ⊎ (src + k < dest)
    → byte m (src + k) ≡ 0
    → ((j : ℕ) → i ≤ j → j < k → byte m (src + j) ≢ 0)
    → strcpy_loop fuel d s m ≡ some (memcpy_loop (suc left) i dest src m)
unfolding strcpy_loop memcpy_loop
strcpy_from left zero i k dest src d s m e lt ed es apart ends no_nul = absurd (omega arith)
strcpy_from zero (suc fuel) i k dest src d s m e lt ed es apart ends no_nul =
    let at : i ≡ k = omega arith in rw (ed, es, at) (ground (arith, ends))
strcpy_from (suc left) (suc fuel) i k dest src d s m e lt ed es apart ends no_nul =
    let m' = put8 m (dest + i) (byte m (src + i)) in
    let kept = λ (j : ℕ) (lo : i < j) (hi : j ≤ k).
      put8_ne m (dest + i) (byte m (src + i)) (src + j) (omega arith) in
    let rest =
      strcpy_from left fuel (i + 1) k dest src (dest + i + 1) (src + i + 1) m' (omega arith)
        (omega arith) (omega arith) (omega arith) apart
        (omega (arith, kept k (omega arith) (omega arith)))
        (λ j lo hi z.
          no_nul j (omega arith) hi (omega (arith, kept j (omega arith) (omega arith)))) in
    rw (ed, es) (ground (arith, rest, no_nul i (omega arith) (omega arith)))

-- strcpy of a string of length `k` is memcpy of `k + 1` bytes, the NUL with them, where the
-- destination does not start inside the string, with any fuel above `k`.
pub strcpy-memcpy :
    (fuel dest src k : ℕ) (m : Mem)
    → IsString m src k
    → k < fuel
    → (dest ≤ src) ⊎ (src + k < dest)
    → strcpy fuel dest src m ≡ some (memcpy dest src (suc k) m)
unfolding strcpy memcpy
strcpy-memcpy fuel dest src k m str lt apart =
    strcpy_from k fuel 0 k dest src dest src m (omega arith) lt (omega arith) (omega arith) apart
      str.ends (λ j lo hi. str.no_nul j hi)
