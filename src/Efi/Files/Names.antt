-- ===== src/Efi/Files/Names.antt =====
-- What utf16_case_equals compares.
use gemiboot.Base.{
  ap, sym, ◌∙◌, inl, inr, ℕ, zero, suc, ◌+◌, ◌%◌, ◌<◌, ◌≡◌, ◌↔◌, ◌==◌, arith, true, Bool-cases,
  List, [], ◌∷◌, Mem, length, get_or,
}
use gemiboot.Fat.Name.{to_upper}
use gemiboot.Efi.Files.{utf16_case_equals}

-- The text stands in the units from index `i` on, whatever the cases of its letters, with a NUL
-- after it. Of a unit before the NUL only the low byte counts.
pub record IsName (i : ℕ) (u : Mem) (ascii : List ℕ) : Type 0 where
  pub same_letters :
      (k : ℕ) → k < length ascii → to_upper (get_or ascii k 0) ≡ to_upper (u (i + k) % 256)
  pub nul : u (i + length ascii) % 65536 ≡ 0

at_shift : (u : Mem) (i n : ℕ) → u (i + suc n) ≡ u (i + 1 + n)
at_shift u i n = ap u (omega arith)

at_start : (u : Mem) (i : ℕ) → u (i + 0) ≡ u i
at_start u i = ap u (omega arith)

IsName-∷ :
    (i : ℕ) (u : Mem) (c : ℕ) (ascii : List ℕ)
    → to_upper c ≡ to_upper (u i % 256)
    → IsName (i + 1) u ascii
    → IsName i u (c ∷ ascii)
IsName-∷ i u c ascii same h = record {
  same_letters = letters;
  nul = ap (λ x. x % 65536) (at_shift u i (length ascii)) ∙ h.nul;
}
  where
    letters :
        (k : ℕ)
        → k < length (c ∷ ascii)
        → to_upper (get_or (c ∷ ascii) k 0) ≡ to_upper (u (i + k) % 256)
    letters zero lt = same ∙ ap (λ x. to_upper (x % 256)) (sym (at_start u i))
    letters (suc k) lt =
        h.same_letters k (omega arith) ∙ ap (λ x. to_upper (x % 256)) (sym (at_shift u i k))

IsName-tail :
    (i : ℕ) (u : Mem) (c : ℕ) (ascii : List ℕ) → IsName i u (c ∷ ascii) → IsName (i + 1) u ascii
IsName-tail i u c ascii h = record {
  same_letters =
      λ k lt. h.same_letters (suc k) (omega arith) ∙ ap (λ x. to_upper (x % 256)) (at_shift u i k);
  nul = ap (λ x. x % 65536) (sym (at_shift u i (length ascii))) ∙ h.nul;
}

-- The comparison holds of the units from index `i` on if and only if they are the text in this
-- sense.
pub utf16_case_equals_iff :
    (i : ℕ) (u : Mem) (ascii : List ℕ) → (utf16_case_equals i u ascii ≡ true) ↔ IsName i u ascii
unfolding utf16_case_equals
utf16_case_equals_iff i u [] = (
  λ h. record {
    same_letters = λ k lt. ground arith;
    nul = ap (λ x. x % 65536) (at_start u i) ∙ is_zero h;
  },
  λ h. zero_is (ap (λ x. x % 65536) (sym (at_start u i)) ∙ h.nul),
)
  where
    is_zero : {n : ℕ} → (n == 0) ≡ true → n ≡ 0
    is_zero {n} e = ground arith

    zero_is : {n : ℕ} → n ≡ 0 → (n == 0) ≡ true
    zero_is {n} e = ground arith
utf16_case_equals_iff i u (c ∷ ascii) =
    let rest = utf16_case_equals_iff (i + 1) u ascii in
    elim (Bool-cases (to_upper c == to_upper (u i % 256))) [
      | inl same ↦ rw same (
        λ h. IsName-∷ i u c ascii (ground arith) (rest.0 h),
        λ h. rest.1 (IsName-tail i u c ascii h),
      )
      | inr other ↦ rw other (
        λ h. ground arith,
        λ h.
            let same =
              h.same_letters 0 (omega arith) ∙ ap (λ x. to_upper (x % 256)) (at_start u i) in
            ground arith,
      )
    ]
