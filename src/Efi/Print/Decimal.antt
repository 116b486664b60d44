-- ===== src/Efi/Print/Decimal.antt =====
-- uefi_put_dec of src/efi64/efi64.c prints the digits that serial_put_dec prints.
use gemiboot.Base.{
  ℕ, zero, suc, ◌+◌, ◌-◌, ◌/◌, ◌%◌, ◌≡◌, ◌≢◌, ◌<◌, refl, ap, sym, ◌∙◌, arith, true, false, List, [],
  ◌∷◌, ◌++◌, append-nil, append_assoc, leb, ◌==◌, ◌&&◌, if◌then◌else◌, Bool-cases, Mem, byte, put8,
  put8_ne, lt→ltb, le→not_ltb, lt_or_le, inl, inr, eq_or_lt,
}
use mathlib.Core.Path.{ap₂}
use gemiboot.Serial.{Output, digit_loop, send_loop, serial_putc, serial_put_dec}
use gemiboot.Serial.Decimal.{digits, digits_lem, decimal-nonempty, send_digits}
use gemiboot.Efi.Print.{string_at, reverse_loop, dec_text}

-- Byte `k` of what reversing the characters from `start` to `end` gives.
abbrev mirrored : ℕ → ℕ → Mem → ℕ → ℕ
mirrored start end buf k =
    if leb start k && leb k end then byte buf (start + end - k) else byte buf k

swap_mirrored :
    (start end k : ℕ) (buf : Mem)
    → start < end
    → mirrored (start + 1) (end - 1) (put8 (put8 buf start (byte buf end)) end (byte buf start)) k
      ≡ mirrored start end buf k
unfolding put8
swap_mirrored start end k buf lt =
    let inner : start + 1 + (end - 1) - k ≡ start + end - k = omega arith in rw inner (ground arith)

reverse_loop-mirrored :
    (fuel start end k : ℕ) (buf : Mem)
    → end < start + fuel + fuel
    → byte (reverse_loop fuel start end buf) k ≡ mirrored start end buf k
unfolding reverse_loop
reverse_loop-mirrored zero start end k buf enough = ground arith
reverse_loop-mirrored (suc fuel) start end k buf enough = elim (lt_or_le start end) [
  | inr done ↦ rw (le→not_ltb start end done) (ground arith)
  | inl more ↦ rw (lt→ltb start end more) (
      reverse_loop-mirrored fuel (start + 1) (end - 1) k _ (omega arith)
      ∙ swap_mirrored start end k buf more)
]

-- The characters of an array from `i - 1` down to 0.
downwards : ℕ → Mem → List ℕ
downwards zero buf = []
downwards (suc i) buf = byte buf i ∷ downwards i buf

send_loop-downwards :
    (i : ℕ) (buf : Mem) (out : Output) → send_loop i buf out ≡ out ++ downwards i buf
unfolding send_loop serial_putc downwards
send_loop-downwards zero buf out = sym (append-nil out)
send_loop-downwards (suc i) buf out =
    send_loop-downwards i buf _ ∙ append_assoc out (byte buf i ∷ []) (downwards i buf)

-- An array whose characters from `k` on are `m` characters of another one backwards, and then a
-- NUL, holds them as its string.
string_at-downwards :
    (m n k : ℕ) (buf rev : Mem)
    → m < n
    → ((j : ℕ) → j < m → byte rev (k + j) ≡ byte buf (m - 1 - j))
    → ((j : ℕ) → j < m → byte buf j ≢ 0)
    → byte rev (k + m) ≡ 0
    → string_at n k rev ≡ downwards m buf
unfolding string_at downwards
string_at-downwards zero zero k buf rev lt same some ends = absurd (omega arith)
string_at-downwards zero (suc n) k buf rev lt same some ends =
    let here : byte rev k ≡ 0 = ap (byte rev) (omega arith) ∙ ends in
    let nul : (byte rev k == 0) ≡ true = ground arith in rw nul refl
string_at-downwards (suc m) zero k buf rev lt same some ends = absurd (omega arith)
string_at-downwards (suc m) (suc n) k buf rev lt same some ends =
    let here : byte rev k ≡ byte buf m =
      ap (byte rev) (omega arith) ∙ same 0 (omega arith) ∙ ap (byte buf) (omega arith) in
    let char : byte buf m ≢ 0 = some m (omega arith) in
    let more : (byte rev k == 0) ≡ false = ground arith in
    let rest =
      string_at-downwards m n (k + 1) buf rev (omega arith)
        (λ j h.
          ap (byte rev) (omega arith) ∙ same (suc j) (omega arith) ∙ ap (byte buf) (omega arith))
        (λ j h. some j (omega arith)) (ap (byte rev) (omega arith) ∙ ends) in
    rw more (ap₂ (λ (c : ℕ) (l : List ℕ). c ∷ l) here rest)

digit_here : (i j d : ℕ) (buf : Mem) → j ≡ i → d < 10 → byte (put8 buf i (b'0' + d)) j ≢ 0
unfolding put8
digit_here i j d buf e small = ground arith

digit_loop_digits :
    (fuel val i : ℕ) (buf : Mem)
    → ((j : ℕ) → j < i → byte buf j ≢ 0)
    → (j : ℕ) → j < (digit_loop fuel val i buf).1
    → byte (digit_loop fuel val i buf).0 j ≢ 0
unfolding digit_loop
digit_loop_digits zero val i buf h = h
digit_loop_digits (suc fuel) val i buf h = elim (lt_or_le 0 val) [
  | inr done ↦ rw (le→not_ltb 0 val done) h
  | inl more ↦ rw (lt→ltb 0 val more) (
      digit_loop_digits fuel (val / 10) (suc i) (put8 buf i (b'0' + val % 10)) (λ j below.
        elim (eq_or_lt j i (omega arith)) [
          | inl e ↦ digit_here i j (val % 10) buf e (omega arith)
          | inr before ↦ λ nul.
              h j before (
                ap (λ (v : ℕ). v % 256) (sym (put8_ne buf i (b'0' + val % 10) j (inl before)))
                ∙ nul)
        ]))
]

mirror_digits :
    (i j : ℕ) (buf : Mem) → j < i → mirrored 0 (i - 1) (put8 buf i 0) (0 + j) ≡ byte buf (i - 1 - j)
unfolding put8
mirror_digits i j buf below =
    let at : 0 + (i - 1) - (0 + j) ≡ i - 1 - j = omega arith in rw at (ground arith)

mirror_end : (i : ℕ) (buf : Mem) → 0 < i → mirrored 0 (i - 1) (put8 buf i 0) (0 + i) ≡ 0
unfolding put8
mirror_end i buf some = ground arith

-- The string of the digits that digit_loop leaves, reversed.
nothing_left : (ds : List ℕ) (buf : Mem) → send_loop 0 buf ([] ++ ds) ≡ ds
unfolding send_loop
nothing_left ds buf = refl

digits_string :
    (val i : ℕ) (buf : Mem)
    → i ≡ (digit_loop val val 0 buf).1
    → 0 < i
    → i < 16
    → string_at 16 0 (reverse_loop i 0 (i - 1) (put8 (digit_loop val val 0 buf).0 i 0))
      ≡ digits val val
digits_string val i buf e some few =
    let d = (digit_loop val val 0 buf).0 in
    let rev = reverse_loop i 0 (i - 1) (put8 d i 0) in
    let read = λ (k : ℕ). reverse_loop-mirrored i 0 (i - 1) k (put8 d i 0) (omega arith) in
    let chars =
      string_at-downwards i 16 0 d rev few (λ j below. read (0 + j) ∙ mirror_digits i j d below)
        (λ j below. digit_loop_digits val val 0 buf (λ k no. absurd (omega arith)) j (omega arith))
        (read (0 + i) ∙ mirror_end i d some) in
    let (_, sent) = send_digits val val 0 buf [] in
    chars
    ∙ sym (send_loop-downwards i d [])
    ∙ ap (λ (k : ℕ). send_loop k d []) e
    ∙ sent
    ∙ nothing_left (digits val val) buf

-- uefi_put_dec prints the text that serial_put_dec prints, for every number of 32 bits, whatever the
-- arrays on the stack held.
pub dec_text-serial_put_dec :
    (val : ℕ) (buf buf' : Mem) (out : Output)
    → val < 4294967296
    → serial_put_dec val buf' out ≡ out ++ dec_text val buf
unfolding dec_text serial_put_dec serial_putc send_loop
dec_text-serial_put_dec val buf buf' out small = elim (Bool-cases (val == 0)) [
  | inl none ↦ rw none refl
  | inr some ↦
      let (count, _) = send_digits val val 0 buf out in
      let (_, sent) = send_digits val val 0 buf' out in
      let (value, few, _) = digits_lem val val 10 (omega arith) (omega arith) in
      let more = decimal-nonempty (digits val val) val value (ground arith) in
      let text =
        digits_string val (digit_loop val val 0 buf).1 buf refl (omega (arith, count))
          (omega (arith, count, few)) in
      rw (some, text) sent
]
