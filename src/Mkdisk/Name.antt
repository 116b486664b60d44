-- ===== src/Mkdisk/Name.antt =====
-- The names that tools/mkdisk.c writes are the names that src/common/fat.c looks for.
use gemiboot.Base.{
  blit_in, le→not_ltb, lt→ltb, lt_or_le, ℕ, ◌+◌, ◌-◌, ◌%◌, ◌≡◌, ◌≤◌, ◌<◌, ◌⊎◌, inl, inr, refl, ap,
  sym, ◌∙◌, arith, true, false, List, [], ◌∷◌, length, ltb, ◌==◌, if◌then◌else◌, Mem, byte, put8,
  Bool-cases,
}
use gemiboot.Str.{memset}
use gemiboot.Str.Copy.{memset-blit}
use gemiboot.Fat.Name.{NameState, to_upper, format_char, format_loop, blank_state, format_83_name}
use gemiboot.Mkdisk.{Format, format_step, format_steps, is_dot, is_dot_dot, format_83}

-- The first `n` bytes of the second memory stand at offset `o` of the first.
abbrev Holds : Mem → ℕ → Mem → ℕ → Type 0
Holds m o m' n = (k : ℕ) → k < n → byte m (o + k) ≡ byte m' k

-- The variables of the two loops agree.
record Agrees (st : NameState) (ft : Format) : Type 0 where
  name : Holds st.output_83 0 ft.out_name 8
  ext : Holds st.output_83 8 ft.out_ext 3
  name_idx : st.name_idx ≡ ft.ni
  ext_idx : st.ext_idx ≡ ft.ei
  in_ext : st.in_ext ≡ ft.in_ext

Holds-put8 :
    (m m' : Mem) (o a b v n : ℕ) → b ≡ o + a → Holds m o m' n → Holds (put8 m b v) o (put8 m' a v) n
unfolding put8
Holds-put8 m m' o a b v n e h k below = elim (Bool-cases (k == a)) [
  | inl same ↦ let there : (o + k == b) ≡ true = ground arith in rw (there, same) refl
  | inr other ↦ let there : (o + k == b) ≡ false = ground arith in rw (there, other) (h k below)
]

Holds-put8_apart :
    (m m' : Mem) (o a v n : ℕ) → (a < o) ⊎ (o + n ≤ a) → Holds m o m' n → Holds (put8 m a v) o m' n
unfolding put8
Holds-put8_apart m m' o a v n apart h k below =
    let elsewhere : (o + k == a) ≡ false = ground arith in rw elsewhere (h k below)

Agrees-step :
    (st : NameState) (ft : Format) (c : ℕ)
    → Agrees st ft
    → Agrees (format_char st c) (format_step ft c)
unfolding format_char format_step to_upper
Agrees-step st ft c h = elim (Bool-cases (c == b'.')) [
  | inl dot ↦ rw dot (record {
    name = h.name;
    ext = h.ext;
    name_idx = h.name_idx;
    ext_idx = h.ext_idx;
    in_ext = refl;
  })
  | inr other ↦ elim (Bool-cases ft.in_ext) [
    | inl in_ext ↦
        rw (other, h.in_ext ∙ in_ext, in_ext, h.ext_idx)
          (elim (Bool-cases (ltb ft.ei 3)) [
            | inl room ↦ rw room (record {
              name =
                  Holds-put8_apart st.output_83 ft.out_name 0 (8 + ft.ei) _ 8 (omega arith) h.name;
              ext = Holds-put8 st.output_83 ft.out_ext 8 ft.ei (8 + ft.ei) _ 3 refl h.ext;
              name_idx = h.name_idx;
              ext_idx = refl;
              in_ext = refl;
            })
            | inr full ↦ rw full (record {
              name = h.name;
              ext = h.ext;
              name_idx = h.name_idx;
              ext_idx = refl;
              in_ext = refl;
            })
          ])
    | inr in_name ↦
        rw (other, h.in_ext ∙ in_name, in_name, h.name_idx)
          (elim (Bool-cases (ltb ft.ni 8)) [
            | inl room ↦ rw room (record {
              name = Holds-put8 st.output_83 ft.out_name 0 ft.ni ft.ni _ 8 (omega arith) h.name;
              ext = Holds-put8_apart st.output_83 ft.out_ext 8 ft.ni _ 3 (ground arith) h.ext;
              name_idx = refl;
              ext_idx = h.ext_idx;
              in_ext = refl;
            })
            | inr full ↦ rw full (record {
              name = h.name;
              ext = h.ext;
              name_idx = refl;
              ext_idx = h.ext_idx;
              in_ext = refl;
            })
          ])
  ]
]

Agrees-loop :
    (cs : List ℕ) (i : ℕ) (st : NameState) (ft : Format)
    → i + length cs ≤ 64
    → Agrees st ft
    → Agrees (format_loop cs i st) (format_steps cs ft)
unfolding format_loop format_steps
Agrees-loop [] i st ft short h = h
Agrees-loop (c ∷ cs) i st ft short h = elim (Bool-cases (c == 0)) [
  | inl nul ↦ rw nul h
  | inr more ↦
      let within : ltb i 64 ≡ true = ground arith in
      rw (more, within)
        (Agrees-loop cs (i + 1) (format_char st c) (format_step ft c) (omega arith)
          (Agrees-step st ft c h))
]

blank : (n x : ℕ) (m : Mem) → x < n → byte (memset 0 b' ' n m) x ≡ b' '
blank n x m below =
    memset-blit 0 b' ' n m x
    ∙ ap (λ (v : ℕ). v % 256) (blit_in m 0 (λ _. b' ') n x (omega arith) (omega arith))

Agrees-blank :
    (buffer out_name out_ext : Mem)
    → Agrees (blank_state buffer) (record {
      out_name = memset 0 b' ' 8 out_name;
      out_ext = memset 0 b' ' 3 out_ext;
      ni = 0;
      ei = 0;
      in_ext = false;
    })
Agrees-blank buffer out_name out_ext = record {
  name = λ k below. blank 11 (0 + k) buffer (omega arith) ∙ sym (blank 8 k out_name below);
  ext = λ k below. blank 11 (8 + k) buffer (omega arith) ∙ sym (blank 3 k out_ext below);
  name_idx = refl;
  ext_idx = refl;
  in_ext = refl;
}

-- For a name of at most 64 characters that is not . or .., the name and the extension that mkdisk
-- writes into a directory entry are the eleven bytes that the boot loader compares with, whatever
-- the buffers held.
pub format_83-format_83_name :
    (name : List ℕ) (out_name out_ext buffer : Mem) (k : ℕ)
    → length name ≤ 64
    → is_dot name ≡ false
    → is_dot_dot name ≡ false
    → k < 11
    → byte (format_83_name name buffer) k ≡ (
        if ltb k 8
        then byte (format_83 name out_name out_ext).0 k
        else byte (format_83 name out_name out_ext).1 (k - 8))
unfolding format_83_name format_83
format_83-format_83_name name out_name out_ext buffer k short dot dot_dot below =
    let h = Agrees-loop name 0 _ _ (omega arith) (Agrees-blank buffer out_name out_ext) in
    let self : 0 + k ≡ k = omega arith in
    rw (dot, dot_dot)
      (elim (lt_or_le k 8) [
        | inl in_name ↦ rw (lt→ltb k 8 in_name) (rw self at (h.name k in_name))
        | inr in_ext ↦
            let at : 8 + (k - 8) ≡ k = omega arith in
            rw (le→not_ltb k 8 in_ext) (rw at at (h.ext (k - 8) (omega arith)))
      ])
