-- ===== src/Str/Search.antt =====
-- memcmp and strlen of src/common/string.c.
use gemiboot.Base.{
  eq_or_lt, ℕ, zero, suc, ◌+◌, ◌≤◌, ◌<◌, ◌≡◌, ◌≢◌, refl, ◌⊎◌, inl, inr, ◌↔◌, arith, some, Bool, Mem,
  byte, ◌==◌, ==_iff, Bool-cases, pos, sub_ℕ,
}
use gemiboot.Str.{memcmp_loop, memcmp, strlen_loop, strlen}

-- The bytes at offsets from `i` up to `hi` are the same at both places.
abbrev pub SameFrom : Mem → Mem → ℕ → ℕ → Type 0
SameFrom p1 p2 i hi = (j : ℕ) → i ≤ j → j < hi → byte p1 j ≡ byte p2 j

-- `k` is the first offset from `i` on, below `hi`, at which the bytes differ.
pub record IsFirstDifference (p1 p2 : Mem) (i hi k : ℕ) : Type 0 where
  pub from : i ≤ k
  pub below : k < hi
  pub same_before : SameFrom p1 p2 i k
  pub differ : byte p1 k ≢ byte p2 k

SameFrom-suc :
    (p1 p2 : Mem) (i hi : ℕ)
    → byte p1 i ≡ byte p2 i
    → SameFrom p1 p2 (i + 1) hi
    → SameFrom p1 p2 i hi
SameFrom-suc p1 p2 i hi e same j lo below = elim (eq_or_lt i j lo) [
  | inl at ↦ rw (← at) e
  | inr past ↦ same j (omega arith) below
]

memcmp_loop_cases :
    (left i hi : ℕ) (p1 p2 : Mem)
    → i + left ≡ hi
    → ((memcmp_loop left i p1 p2 ≡ pos 0) × SameFrom p1 p2 i hi)
      ⊎ ((k : ℕ) × IsFirstDifference p1 p2 i hi k
          × (memcmp_loop left i p1 p2 ≡ sub_ℕ (byte p1 k) (byte p2 k)))
unfolding memcmp_loop
memcmp_loop_cases zero i hi p1 p2 e = inl (refl, λ j lo h. absurd (omega arith))
memcmp_loop_cases (suc left) i hi p1 p2 e = elim (Bool-cases (byte p1 i == byte p2 i)) [
  | inl same ↦
      let eq = (==_iff (byte p1 i) (byte p2 i)).0 same in
      elim (memcmp_loop_cases left (i + 1) hi p1 p2 (omega arith)) [
        | inl (zero_result, rest) ↦ inl (rw same zero_result, SameFrom-suc p1 p2 i hi eq rest)
        | inr (k, first, result) ↦ inr (
          k,
          record {
            from = omega (arith, first.from);
            below = first.below;
            same_before = SameFrom-suc p1 p2 i k eq first.same_before;
            differ = first.differ;
          },
          rw same result,
        )
      ]
  | inr other ↦ inr (
    i,
    record {
      from = omega arith;
      below = omega arith;
      same_before = λ j lo h. absurd (omega arith);
      differ = λ eq. ground (arith, eq);
    },
    rw other,
  )
]

-- memcmp either finds no difference in the `n` bytes and returns 0, or returns the difference of
-- the bytes at the first place where the two blocks differ.
pub memcmp_cases :
    (p1 p2 : Mem) (n : ℕ)
    → ((memcmp p1 p2 n ≡ pos 0) × SameFrom p1 p2 0 n)
      ⊎ ((k : ℕ) × IsFirstDifference p1 p2 0 n k × (memcmp p1 p2 n ≡ sub_ℕ (byte p1 k) (byte p2 k)))
unfolding memcmp
memcmp_cases p1 p2 n = memcmp_loop_cases n 0 n p1 p2 (omega arith)

pub sub_ℕ-ne-zero : (a b : ℕ) → a ≢ b → sub_ℕ a b ≢ pos 0
sub_ℕ-ne-zero a b h e = ground arith

-- memcmp returns 0 exactly when the two blocks hold the same bytes.
pub memcmp_zero_iff : (p1 p2 : Mem) (n : ℕ) → (memcmp p1 p2 n ≡ pos 0) ↔ SameFrom p1 p2 0 n
memcmp_zero_iff p1 p2 n = elim (memcmp_cases p1 p2 n) [
  | inl (e, same) ↦ (λ _. same, λ _. e)
  | inr (k, first, e) ↦ (
    λ z. absurd (sub_ℕ-ne-zero (byte p1 k) (byte p2 k) first.differ (rw e at z)),
    λ same. absurd (first.differ (same k first.from first.below)),
  )
]

-- A NUL-terminated string of length `k` at `s`.
pub record IsString (m : Mem) (s k : ℕ) : Type 0 where
  pub ends : byte m (s + k) ≡ 0
  pub no_nul : (j : ℕ) → j < k → byte m (s + j) ≢ 0

strlen_loop_lem :
    (fuel s len k : ℕ) (m : Mem)
    → s ≢ 0
    → IsString m s k
    → len ≤ k
    → k < fuel + len
    → strlen_loop fuel s len m ≡ some k
unfolding strlen_loop
strlen_loop_lem zero s len k m ptr str le h = absurd (omega arith)
strlen_loop_lem (suc fuel) s len k m ptr str le h = elim (Bool-cases (byte m (s + len) == 0)) [
  | inl nul ↦ let e : len ≡ k = at_end nul in ground arith
  | inr more ↦
      let below : len + 1 ≤ k = before_end more in
      ground (arith, strlen_loop_lem fuel s (len + 1) k m ptr str below (omega arith))
]
  where
    at_end : (byte m (s + len) == 0) ≡ Bool.true → len ≡ k
    at_end nul = ground (arith, str.no_nul len)

    before_end : (byte m (s + len) == 0) ≡ Bool.false → len + 1 ≤ k
    before_end more = elim (eq_or_lt len k le) [
      | inl e ↦ absurd (ground (arith, str.ends))
      | inr lt ↦ omega arith
    ]

-- strlen of a string of length `k` is `k`, with any fuel above `k`.
pub strlen_lem :
    (fuel s k : ℕ) (m : Mem) → s ≢ 0 → IsString m s k → k < fuel → strlen fuel s m ≡ some k
unfolding strlen
strlen_lem fuel s k m ptr str h = strlen_loop_lem fuel s 0 k m ptr str (omega arith) (omega arith)

memcmp_loop_same :
    (left i : ℕ) (p1 p1' p2 : Mem)
    → SameFrom p1 p1' i (i + left)
    → memcmp_loop left i p1 p2 ≡ memcmp_loop left i p1' p2
unfolding memcmp_loop
memcmp_loop_same zero i p1 p1' p2 same = refl
memcmp_loop_same (suc left) i p1 p1' p2 same = rw (
  same i (omega arith) (omega arith),
  memcmp_loop_same left (i + 1) p1 p1' p2 (λ j lo hi. same j (omega arith) (omega arith)),
)

-- memcmp depends on the bytes that it compares alone.
pub memcmp_same : (p1 p1' p2 : Mem) (n : ℕ) → SameFrom p1 p1' 0 n → memcmp p1 p2 n ≡ memcmp p1' p2 n
unfolding memcmp
memcmp_same p1 p1' p2 n same = memcmp_loop_same n 0 p1 p1' p2 (λ j lo hi. same j lo (omega arith))
