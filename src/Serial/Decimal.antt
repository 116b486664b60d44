-- ===== src/Serial/Decimal.antt =====
-- serial_put_dec of src/common/string.c prints a number in decimal.
use gemiboot.Base.{
  append_assoc, append-nil, ℕ, zero, suc, ◌+◌, ◌-◌, ◌*◌, ◌/◌, ◌%◌, ◌^◌, ◌≡◌, ◌≤◌, ◌<◌, refl, ap,
  sym, ◌∙◌, Bool, true, false, ◌&&◌, inl, inr, arith, List, [], ◌∷◌, ◌++◌, length, ltb, leb, ◌==◌,
  if◌then◌else◌, Mem, byte, put8, put8_self, put8_ne, lt→ltb, lt_or_le, Bool-cases,
}
use gemiboot.Serial.{Output, serial_putc, digit_loop, send_loop, serial_put_dec}

-- The number that a run of decimal digits stands for, after the digits before it gave `acc`.
unfoldable pub decimal : ℕ → List ℕ → ℕ
decimal acc [] = acc
decimal acc (c ∷ cs) = decimal (acc * 10 + (c - b'0')) cs

unfoldable pub are_digits : List ℕ → Bool
are_digits [] = true
are_digits (c ∷ cs) = leb b'0' c && leb c b'9' && are_digits cs

-- The decimal digits of a number, none for 0.
unfoldable pub digits : ℕ → ℕ → List ℕ
digits zero val = []
digits (suc fuel) val =
    let rest = digits fuel (val / 10) in if ltb 0 val then rest ++ (b'0' + val % 10) ∷ [] else []

decimal-++ :
    (xs : List ℕ) (acc c : ℕ) → decimal acc (xs ++ c ∷ []) ≡ decimal acc xs * 10 + (c - b'0')
unfolding decimal
decimal-++ [] acc c = refl
decimal-++ (x ∷ xs) acc c = decimal-++ xs (acc * 10 + (x - b'0')) c

are_digits-++ :
    (xs : List ℕ) (c : ℕ)
    → are_digits xs ≡ true
    → b'0' ≤ c
    → c ≤ b'9'
    → are_digits (xs ++ c ∷ []) ≡ true
unfolding are_digits
are_digits-++ [] c h low high = ground arith
are_digits-++ (x ∷ xs) c h low high =
    let tail : are_digits xs ≡ true = ground arith in
    let rest = are_digits-++ xs c tail low high in ground arith

length-++_one : (xs : List ℕ) (c : ℕ) → length (xs ++ c ∷ []) ≡ suc (length xs)
length-++_one [] c = refl
length-++_one (x ∷ xs) c = ap suc (length-++_one xs c)

-- The digits' number, their number of characters and the characters themselves.
pub digits_lem :
    (fuel val k : ℕ)
    → val ≤ fuel
    → val < 10 ^ k
    → (decimal 0 (digits fuel val) ≡ val)
      × (length (digits fuel val) ≤ k)
      × (are_digits (digits fuel val) ≡ true)
unfolding digits decimal are_digits
digits_lem zero val k enough below = (omega arith, omega arith, refl)
digits_lem (suc fuel) val zero enough below =
    let test : ltb 0 val ≡ false = ground arith in rw test (omega arith, omega arith, refl)
digits_lem (suc fuel) val (suc k) enough below = elim (lt_or_le 0 val) [
  | inr zero_val ↦
      let test : ltb 0 val ≡ false = ground arith in rw test (omega arith, omega arith, refl)
  | inl more ↦
      let c = b'0' + val % 10 in
      let (value, few, all) = digits_lem fuel (val / 10) k (omega arith) (omega arith) in
      rw (lt→ltb 0 val more) (
        decimal-++ (digits fuel (val / 10)) 0 c ∙ omega (arith, value),
        omega (arith, length-++_one (digits fuel (val / 10)) c, few),
        are_digits-++ (digits fuel (val / 10)) c all (omega arith) (omega arith),
      )
]

send_loop_same :
    (i : ℕ) (buf buf' : Mem) (out : Output)
    → ((j : ℕ) → j < i → byte buf j ≡ byte buf' j)
    → send_loop i buf out ≡ send_loop i buf' out
unfolding send_loop
send_loop_same zero buf buf' out same = refl
send_loop_same (suc i) buf buf' out same =
    rw (same i (omega arith)) (send_loop_same i buf buf' _ (λ j h. same j (omega arith)))

send_last :
    (i c : ℕ) (buf : Mem) (out ds : Output)
    → c < 256
    → send_loop (suc i) (put8 buf i c) (out ++ ds) ≡ send_loop i buf (out ++ (ds ++ c ∷ []))
unfolding send_loop serial_putc
send_last i c buf out ds small =
    let at : byte (put8 buf i c) i ≡ c = omega (arith, put8_self buf i c) in
    ap (λ (v : ℕ). send_loop i (put8 buf i c) ((out ++ ds) ++ v ∷ [])) at
    ∙ ap (send_loop i (put8 buf i c)) (append_assoc out ds (c ∷ []))
    ∙ send_loop_same i (put8 buf i c) buf (out ++ (ds ++ c ∷ []))
        (λ j h. ap (λ (v : ℕ). v % 256) (put8_ne buf i c j (inl h)))

-- What the two loops send for a number, on top of what buf holds below `i`.
pub send_digits :
    (fuel val i : ℕ) (buf : Mem) (out : Output)
    → ((digit_loop fuel val i buf).1 ≡ i + length (digits fuel val))
      × (send_loop (digit_loop fuel val i buf).1 (digit_loop fuel val i buf).0 out
          ≡ send_loop i buf (out ++ digits fuel val))
unfolding digit_loop digits
send_digits zero val i buf out = (omega arith, ap (send_loop i buf) (sym (append-nil out)))
send_digits (suc fuel) val i buf out = elim (lt_or_le 0 val) [
  | inr zero_val ↦
      let test : ltb 0 val ≡ false = ground arith in
      rw test (omega arith, ap (send_loop i buf) (sym (append-nil out)))
  | inl more ↦
      let c = b'0' + val % 10 in
      let (count, sent) = send_digits fuel (val / 10) (suc i) (put8 buf i c) out in
      rw (lt→ltb 0 val more) (
        omega (arith, count, length-++_one (digits fuel (val / 10)) c),
        sent ∙ send_last i c buf out (digits fuel (val / 10)) (omega arith),
      )
]

pub decimal-nonempty : (ds : List ℕ) (val : ℕ) → decimal 0 ds ≡ val → 0 < val → 0 < length ds
unfolding decimal
decimal-nonempty [] val e more = absurd (omega arith)
decimal-nonempty (c ∷ cs) val e more = omega arith

-- serial_put_dec, for a number of 32 bits, sends one to ten decimal digits, which stand for the
-- number, and it uses no more than ten of the twelve characters of buf.
pub serial_put_dec-decimal :
    (val : ℕ) (buf : Mem) (out : Output)
    → val < 4294967296
    → (ds : List ℕ) × (serial_put_dec val buf out ≡ out ++ ds)
      × (decimal 0 ds ≡ val)
      × (are_digits ds ≡ true)
      × (0 < length ds)
      × (length ds ≤ 10)
      × ((digit_loop val val 0 buf).1 ≤ 10)
unfolding serial_put_dec serial_putc decimal are_digits send_loop
serial_put_dec-decimal val buf out small = elim (Bool-cases (val == 0)) [
  | inl none ↦
      let (count, _) = send_digits val val 0 buf out in
      let (value, few, all) = digits_lem val val 10 (omega arith) (omega arith) in
      (
        b'0' ∷ [],
        rw none refl,
        ground arith,
        refl,
        omega arith,
        omega arith,
        omega (arith, count, few),
      )
  | inr some ↦
      let (count, sent) = send_digits val val 0 buf out in
      let (value, few, all) = digits_lem val val 10 (omega arith) (omega arith) in
      (
        digits val val,
        rw some sent,
        value,
        all,
        decimal-nonempty (digits val val) val value (ground arith),
        few,
        omega (arith, count, few),
      )
]
