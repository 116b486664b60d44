-- ===== src/Mkdisk/Entries/Fields.antt =====
-- The bytes of the directory entry that add_dir_entry of tools/mkdisk.c writes.
use gemiboot.Base.{
  ◌∙◌, ap, ℕ, ◌+◌, ◌-◌, ◌*◌, ◌/◌, ◌%◌, ◌≡◌, ◌≤◌, ◌<◌, ◌⊎◌, inl, inr, arith, Mem, byte, blit,
  blit_in, blit_out, ltb, if◌then◌else◌, lt_or_le, lt→ltb, le→not_ltb, List, le16, le32, put8,
  put16, put32, put32_outside, le32-put32, put8_ne, put8_self,
}
use gemiboot.Mkdisk.Frame.{le32_same}
use gemiboot.Mkdisk.{format_83, write_entry}

put16_outside : (m : Mem) (a v x : ℕ) → (x < a) ⊎ (a + 2 ≤ x) → byte (put16 m a v) x ≡ byte m x
unfolding put16 put8
put16_outside m a v x out = ground arith

le16-put16 : (m : Mem) (a v : ℕ) → v < 65536 → le16 (put16 m a v) a ≡ v
unfolding put16 put8
le16-put16 m a v small = ground arith

pub le16_same :
    (a : ℕ) (m m' : Mem)
    → ((x : ℕ) → a ≤ x → x < a + 2 → byte m' x ≡ byte m x)
    → le16 m' a ≡ le16 m a
le16_same a m m' h =
    omega (arith, h a (omega arith) (omega arith), h (a + 1) (omega arith) (omega arith))

byte-blit_out :
    (m : Mem) (a : ℕ) (src : Mem) (n x : ℕ)
    → (x < a) ⊎ (a + n ≤ x)
    → byte (blit m a src n) x ≡ byte m x
byte-blit_out m a src n x out = ap (λ (v : ℕ). v % 256) (blit_out m a src n x out)

byte-put8_out : (m : Mem) (a v x : ℕ) → (x < a) ⊎ (a < x) → byte (put8 m a v) x ≡ byte m x
byte-put8_out m a v x out = ap (λ (v : ℕ). v % 256) (put8_ne m a v x out)

module _ (at : ℕ) (name : List ℕ) (attr first_clus size : ℕ) (m : Mem) where
  -- The bytes from the size's field on, and those before the time's.
  stamped :
      (m' : Mem) (x : ℕ)
      → (x < at + 22) ⊎ (at + 26 ≤ x)
      → byte (put16 (put16 m' (at + 24) 0x5821) (at + 22) 0x6000) x ≡ byte m' x
  stamped m' x out =
      put16_outside (put16 m' (at + 24) 0x5821) (at + 22) 0x6000 x (omega arith)
      ∙ put16_outside m' (at + 24) 0x5821 x (omega arith)

  -- The image after each of the first writes.
  abbrev named : Mem
  named =
      let o = format_83 name (λ k. 0) (λ k. 0) in
      put8 (blit (blit m at o.0 8) (at + 8) o.1 3) (at + 11) attr

  abbrev with_high : Mem
  with_high = put16 named (at + 20) (first_clus / 65536)

  abbrev with_low : Mem
  with_low = put16 with_high (at + 26) (first_clus % 65536)

  abbrev sized : Mem
  sized = put32 with_low (at + 28) size

  -- The bytes before the first cluster's fields, and those behind the entry.
  write_entry-named :
      (x : ℕ)
      → (x < at + 12) ⊎ (at + 32 ≤ x)
      → byte (write_entry at name attr first_clus size m) x ≡ byte named x
  unfolding write_entry
  write_entry-named x out =
      stamped sized x (omega arith)
      ∙ put32_outside with_low (at + 28) size x (omega arith)
      ∙ put16_outside with_high (at + 26) (first_clus % 65536) x (omega arith)
      ∙ put16_outside named (at + 20) (first_clus / 65536) x (omega arith)

  pub write_entry_out :
      (x : ℕ)
      → (x < at) ⊎ (at + 32 ≤ x)
      → byte (write_entry at name attr first_clus size m) x ≡ byte m x
  write_entry_out x out =
      write_entry-named x (omega arith)
      ∙ byte-put8_out _ (at + 11) attr x (omega arith)
      ∙ byte-blit_out _ (at + 8) _ 3 x (omega arith)
      ∙ byte-blit_out m at _ 8 x (omega arith)

  -- The eleven bytes of the name.
  pub write_entry-name :
      (k : ℕ)
      → k < 11
      → byte (write_entry at name attr first_clus size m) (at + k) ≡ (
          if ltb k 8
          then byte (format_83 name (λ k. 0) (λ k. 0)).0 k
          else byte (format_83 name (λ k. 0) (λ k. 0)).1 (k - 8))
  write_entry-name k below =
      write_entry-named (at + k) (omega arith)
      ∙ byte-put8_out _ (at + 11) attr (at + k) (omega arith)
      ∙ elim (lt_or_le k 8) [
        | inl in_name ↦
            let e : at + k - at ≡ k = omega arith in
            rw (lt→ltb k 8 in_name) (
              byte-blit_out _ (at + 8) _ 3 (at + k) (omega arith)
              ∙ ap (λ (v : ℕ). v % 256) (blit_in m at _ 8 (at + k) (omega arith) (omega arith))
              ∙ ap (byte (format_83 name (λ k. 0) (λ k. 0)).0) e)
        | inr in_ext ↦
            let e : at + k - (at + 8) ≡ k - 8 = omega arith in
            rw (le→not_ltb k 8 in_ext) (
              ap (λ (v : ℕ). v % 256) (blit_in _ (at + 8) _ 3 (at + k) (omega arith) (omega arith))
              ∙ ap (byte (format_83 name (λ k. 0) (λ k. 0)).1) e)
      ]

  pub write_entry-attr : byte (write_entry at name attr first_clus size m) (at + 11) ≡ attr % 256
  write_entry-attr =
      write_entry-named (at + 11) (omega arith)
      ∙ ap (λ (v : ℕ). v % 256) (put8_self _ (at + 11) attr)
      ∙ omega arith

  pub write_entry-size :
      size < 4294967296 → le32 (write_entry at name attr first_clus size m) (at + 28) ≡ size
  unfolding write_entry
  write_entry-size small =
      le32_same (at + 28) sized (write_entry at name attr first_clus size m)
        (λ x above below. stamped sized x (omega arith))
      ∙ le32-put32 with_low (at + 28) size small

  pub write_entry-cluster :
      first_clus < 4294967296
      → 65536 * le16 (write_entry at name attr first_clus size m) (at + 20)
          + le16 (write_entry at name attr first_clus size m) (at + 26)
        ≡ first_clus
  unfolding write_entry
  write_entry-cluster small =
      let low : le16 (write_entry at name attr first_clus size m) (at + 26) ≡ first_clus % 65536 =
        le16_same (at + 26) with_low (write_entry at name attr first_clus size m) (λ x above below.
          stamped sized x (omega arith) ∙ put32_outside with_low (at + 28) size x (omega arith))
        ∙ le16-put16 with_high (at + 26) (first_clus % 65536) (omega arith) in
      let high : le16 (write_entry at name attr first_clus size m) (at + 20) ≡ first_clus / 65536 =
        le16_same (at + 20) with_high (write_entry at name attr first_clus size m) (λ x above below.
          stamped sized x (omega arith)
          ∙ put32_outside with_low (at + 28) size x (omega arith)
          ∙ put16_outside with_high (at + 26) (first_clus % 65536) x (omega arith))
        ∙ le16-put16 named (at + 20) (first_clus / 65536) (omega arith) in
      omega (arith, low, high)
