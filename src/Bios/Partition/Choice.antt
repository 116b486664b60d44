-- ===== src/Bios/Partition/Choice.antt =====
-- The partition that find_active_partition_lba of src/bios/bios_loader.c chooses.
use mathlib.Core.Path.{subst}
use gemiboot.Base.{
  ℕ, zero, suc, ◌+◌, ◌≡◌, ◌≢◌, ◌≤◌, ◌<◌, ◌↔◌, ◌⊎◌, inl, inr, refl, ap, sym, ◌∙◌, arith, true, false,
  none, some, ◌==◌, Mem, Bool-cases, eq_or_lt,
}
use gemiboot.Bios.Partition.{
  start_lba_at, is_active, scan_parts, after_loop, find_active_partition_lba,
}

-- The choice: the first active entry, else the first entry, else sector 2048. An entry counts only
-- with a first sector other than 0.
pub data Chosen (mbr : Mem) : ℕ → Type 0 where
  active :
      (i : ℕ)
      → i < 4
      → is_active mbr i ≡ true
      → ((j : ℕ) → j < i → is_active mbr j ≡ false)
      → Chosen mbr (start_lba_at mbr i)
  first_entry :
      ((j : ℕ) → j < 4 → is_active mbr j ≡ false)
      → start_lba_at mbr 0 ≢ 0
      → Chosen mbr (start_lba_at mbr 0)
  fallback : ((j : ℕ) → j < 4 → is_active mbr j ≡ false) → start_lba_at mbr 0 ≡ 0 → Chosen mbr 2048

scan_parts-some :
    (left i k : ℕ) (mbr : Mem)
    → i ≤ k
    → k < i + left
    → is_active mbr k ≡ true
    → ((j : ℕ) → i ≤ j → j < k → is_active mbr j ≡ false)
    → scan_parts left i mbr ≡ some (start_lba_at mbr k)
unfolding scan_parts
scan_parts-some zero i k mbr low high on before = absurd (omega arith)
scan_parts-some (suc left) i k mbr low high on before = elim (eq_or_lt i k low) [
  | inl here ↦
      let on_here : is_active mbr i ≡ true = ap (is_active mbr) here ∙ on in
      rw on_here (ap (λ (x : ℕ). some (start_lba_at mbr x)) here)
  | inr there ↦ rw (before i (omega arith) there) (
      scan_parts-some left (i + 1) k mbr (omega arith) (omega arith) on
        (λ j a b. before j (omega arith) b))
]

scan_parts-none :
    (left i : ℕ) (mbr : Mem)
    → ((j : ℕ) → i ≤ j → j < i + left → is_active mbr j ≡ false)
    → scan_parts left i mbr ≡ none
unfolding scan_parts
scan_parts-none zero i mbr off = refl
scan_parts-none (suc left) i mbr off =
    rw (off i (omega arith) (omega arith))
      (scan_parts-none left (i + 1) mbr (λ j a b. off j (omega arith) (omega arith)))

-- Either there is a first active entry, or none is active.
first_active :
    (left i : ℕ) (mbr : Mem)
    → ((k : ℕ) × (i ≤ k)
        × (k < i + left)
        × (is_active mbr k ≡ true)
        × ((j : ℕ) → i ≤ j → j < k → is_active mbr j ≡ false))
      ⊎ ((j : ℕ) → i ≤ j → j < i + left → is_active mbr j ≡ false)
first_active zero i mbr = inr (λ j a b. absurd (omega arith))
first_active (suc left) i mbr = elim (Bool-cases (is_active mbr i)) [
  | inl on ↦ inl (i, omega arith, omega arith, on, λ j a b. absurd (omega arith))
  | inr off ↦ elim (first_active left (i + 1) mbr) [
    | inl (k, low, high, on, before) ↦ inl (
      k,
      omega arith,
      omega arith,
      on,
      λ j a b. elim (eq_or_lt i j a) [
        | inl e ↦ ap (is_active mbr) (sym e) ∙ off
        | inr l ↦ before j (omega arith) b
      ],
    )
    | inr none_on ↦ inr (λ j a b. elim (eq_or_lt i j a) [
      | inl e ↦ ap (is_active mbr) (sym e) ∙ off
      | inr l ↦ none_on j (omega arith) (omega arith)
    ])
  ]
]

Chosen-find : (mbr : Mem) (lba : ℕ) → Chosen mbr lba → find_active_partition_lba (some mbr) ≡ lba
unfolding find_active_partition_lba after_loop
Chosen-find mbr _ (active i four on before) =
    ap (after_loop mbr) (scan_parts-some 4 0 i mbr (omega arith) four on (λ j a b. before j b))
Chosen-find mbr _ (first_entry off given) =
    let test : (start_lba_at mbr 0 == 0) ≡ false = ground arith in
    ap (after_loop mbr) (scan_parts-none 4 0 mbr (λ j a b. off j b)) ∙ rw test refl
Chosen-find mbr _ (fallback off empty) =
    let test : (start_lba_at mbr 0 == 0) ≡ true = ground arith in
    ap (after_loop mbr) (scan_parts-none 4 0 mbr (λ j a b. off j b)) ∙ rw test refl

find-Chosen : (mbr : Mem) → Chosen mbr (find_active_partition_lba (some mbr))
find-Chosen mbr = elim (first_active 4 0 mbr) [
  | inl (k, low, high, on, before) ↦
      let c = active k high on (λ j b. before j (omega arith) b) in
      subst (Chosen mbr) (sym (Chosen-find mbr _ c)) c
  | inr none_on ↦ elim (eq_or_lt 0 (start_lba_at mbr 0) (omega arith)) [
    | inl e ↦
        let c = fallback (λ j b. none_on j (omega arith) b) (sym e) in
        subst (Chosen mbr) (sym (Chosen-find mbr _ c)) c
    | inr l ↦
        let c = first_entry (λ j b. none_on j (omega arith) b) (omega arith) in
        subst (Chosen mbr) (sym (Chosen-find mbr _ c)) c
  ]
]

-- From a sector that could be read, find_active_partition_lba returns exactly the choice above:
-- the first sector of the first active entry, else of the first entry, else 2048.
pub find_active_partition_lba-Chosen :
    (mbr : Mem) (lba : ℕ) → (find_active_partition_lba (some mbr) ≡ lba) ↔ Chosen mbr lba
find_active_partition_lba-Chosen mbr lba =
    (λ e. subst (Chosen mbr) e (find-Chosen mbr), Chosen-find mbr lba)
