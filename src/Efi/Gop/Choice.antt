-- ===== src/Efi/Gop/Choice.antt =====
-- Which video mode init_gop chooses.
use gemiboot.Base.{
  inl, inr, refl, ap, ◌∙◌, ℕ, zero, suc, ◌+◌, ◌-◌, ◌<◌, ◌≤◌, ◌≡◌, ◌==◌, ◌&&◌, arith, Option, none,
  some, Bool, true, false, Bool-cases, ltb, if◌then◌else◌, lt_or_le, lt→ltb, le→not_ltb, eq_or_lt,
}
use mathlib.Core.Path.{subst}
use gemiboot.Efi.Firmware.{Firmware, ModeInfo}
use gemiboot.Efi.Gop.{no_mode, is_usable, is_640_480, Look, look_at, Modes, scan_modes, mode_after}

-- The answers of QueryMode: a status and the information. A mode is usable where the answer is a
-- success with one of the two formats, and exact where it has 640 by 480 pixels beside.
abbrev pub Answers : Type 0
Answers = ℕ → ℕ × Option ModeInfo

abbrev is_usable_answer : ℕ → Option ModeInfo → Bool
is_usable_answer status none = false
is_usable_answer status (some info) = status == 0 && is_usable info

abbrev is_exact_answer : ℕ → Option ModeInfo → Bool
is_exact_answer status none = false
is_exact_answer status (some info) = (status == 0 && is_usable info) && is_640_480 info

abbrev pub usable : Answers → ℕ → Bool
usable answers k = is_usable_answer (answers k).0 (answers k).1

abbrev pub exact : Answers → ℕ → Bool
exact answers k = is_exact_answer (answers k).0 (answers k).1

-- The first exact mode; if there is none, the first usable one; if there is none, the current mode.
pub data IsPreferred (answers : Answers) (max_mode current : ℕ) : ℕ → Type 0 where
  exact_mode :
      (m : ℕ)
      → m < max_mode
      → exact answers m ≡ true
      → ((j : ℕ) → j < m → exact answers j ≡ false)
      → IsPreferred answers max_mode current m
  usable_mode :
      (m : ℕ)
      → ((j : ℕ) → j < max_mode → exact answers j ≡ false)
      → m < max_mode
      → usable answers m ≡ true
      → ((j : ℕ) → j < m → usable answers j ≡ false)
      → IsPreferred answers max_mode current m
  current_mode :
      ((j : ℕ) → j < max_mode → usable answers j ≡ false)
      → IsPreferred answers max_mode current current

-- The fallback mode before mode `k` is looked at.
data IsFallback (answers : Answers) (k : ℕ) : ℕ → Type 0 where
  not_yet : ((j : ℕ) → j < k → usable answers j ≡ false) → IsFallback answers k no_mode
  first :
      (m : ℕ)
      → m < k
      → m < no_mode
      → usable answers m ≡ true
      → ((j : ℕ) → j < m → usable answers j ≡ false)
      → IsFallback answers k m

abbrev next_fallback : Bool → ℕ → ℕ → ℕ
next_fallback is_usable k fb = if is_usable then (if fb == no_mode then k else fb) else fb

look_at_lem :
    (k fb status : ℕ) (info : Option ModeInfo)
    → look_at k fb status info ≡ (
        if is_exact_answer status info
        then Look.stop_at k (next_fallback (is_usable_answer status info) k fb)
        else Look.go_on (next_fallback (is_usable_answer status info) k fb))
unfolding look_at
look_at_lem k fb status none = refl
look_at_lem k fb status (some info) = elim (Bool-cases (status == 0)) [
  | inr failed ↦ rw failed refl
  | inl ok ↦ elim (Bool-cases (is_usable info)) [
    | inr other ↦ rw (ok, other) refl
    | inl fits ↦ rw (ok, fits) refl
  ]
]

none_before :
    (test : ℕ → Bool) (k : ℕ)
    → ((j : ℕ) → j < k → test j ≡ false)
    → test k ≡ false
    → (j : ℕ) → j < k + 1
    → test j ≡ false
none_before test k h at_k j lt = elim (eq_or_lt j k (omega arith)) [
  | inl e ↦ ap test e ∙ at_k
  | inr before ↦ h j before
]

next-IsFallback :
    (answers : Answers) (k fb : ℕ)
    → k < no_mode
    → IsFallback answers k fb
    → IsFallback answers (k + 1) (next_fallback (usable answers k) k fb)
next-IsFallback answers k _ small (not_yet h) = elim (Bool-cases (usable answers k)) [
  | inl u ↦ rw u (first k (omega arith) small u h)
  | inr n ↦ rw n (not_yet (none_before (usable answers) k h n))
]
next-IsFallback answers k _ small (first m lt m_small u h) =
    let found : (m == no_mode) ≡ false = ground arith in
    elim (Bool-cases (usable answers k)) [
      | inl more ↦ rw (more, found) (first m (omega arith) m_small u h)
      | inr other ↦ rw other (first m (omega arith) m_small u h)
    ]

module _ {S : Type 0} (fw : Firmware S) (answers : Answers) (max_mode current : ℕ) where
  -- The state after the loop has the number of modes and the current mode.
  abbrev Steady : S → Type 0
  Steady st = ((fw.gop_mode st).max_mode ≡ max_mode) × ((fw.gop_mode st).mode ≡ current)

  mode_after-IsPreferred :
      (fb : ℕ) (st : S)
      → Steady st
      → max_mode ≤ no_mode
      → ((j : ℕ) → j < max_mode → exact answers j ≡ false)
      → IsFallback answers max_mode fb
      → IsPreferred answers max_mode current
          (mode_after fw (record { best_mode = no_mode; fallback_mode = fb; firmware = st }))
  unfolding mode_after
  mode_after-IsPreferred _ st steady small no_exact (not_yet h) =
      rw (mode_after, steady.1) (current_mode h)
  mode_after-IsPreferred _ st steady small no_exact (first m lt m_small u h) =
      let found : (m == no_mode) ≡ false = ground arith in
      rw (mode_after, found) (usable_mode m no_exact lt u h)

  -- The loop from mode `k` on.
  scan_from-IsPreferred :
      ((k : ℕ) (st : S) → (fw.query_mode k st).0 ≡ (answers k).0)
      → ((k : ℕ) (st : S) → (fw.query_mode k st).1 ≡ (answers k).1)
      → ((k : ℕ) (st : S) → fw.gop_mode (fw.query_mode k st).2 ≡ fw.gop_mode st)
      → max_mode ≤ no_mode
      → (fuel k fb : ℕ) (st : S) → Steady st
      → k ≤ max_mode
      → max_mode - k < fuel
      → ((j : ℕ) → j < k → exact answers j ≡ false)
      → IsFallback answers k fb
      → (found : Modes S) × (scan_modes fw fuel k fb st ≡ some found)
        × IsPreferred answers max_mode current (mode_after fw found)
  unfolding scan_modes mode_after
  scan_from-IsPreferred status info kept small zero k fb st steady le enough none_exact fallback =
      ground (arith, enough)
  scan_from-IsPreferred status info kept small (suc fuel) k fb st steady le enough none_exact
        fallback =
      let look = look_at_lem k fb (answers k).0 (answers k).1 in
      let q = fw.query_mode k st in
      elim (lt_or_le k max_mode) [
        | inr over ↦
            let test : ltb k (fw.gop_mode st).max_mode ≡ false =
              ap (ltb k) steady.0 ∙ le→not_ltb k max_mode over in
            let at_end : k ≡ max_mode = omega arith in
            rw (scan_modes, test)
              (
                _,
                refl,
                mode_after-IsPreferred fb st steady small (λ j lt. none_exact j (omega arith))
                    (subst (λ n. IsFallback answers n fb) at_end fallback),
              )
        | inl more ↦
            let test : ltb k (fw.gop_mode st).max_mode ≡ true =
              ap (ltb k) steady.0 ∙ lt→ltb k max_mode more in
            elim (Bool-cases (exact answers k)) [
              | inl e ↦
                  let chosen : (k == no_mode) ≡ false = ground arith in
                  rw (scan_modes, test, status k st, info k st, look, e)
                    (_, refl, rw (mode_after, chosen) (exact_mode k more e none_exact))
              | inr n ↦
                  rw (scan_modes, test, status k st, info k st, look, n)
                    (scan_from-IsPreferred status info kept small fuel (k + 1)
                      (next_fallback (usable answers k) k fb) q.2
                      (
                        ap (λ g. g.max_mode) (kept k st) ∙ steady.0,
                        ap (λ g. g.mode) (kept k st) ∙ steady.1,
                      )
                      (omega arith) (omega arith) (none_before (exact answers) k none_exact n)
                      (next-IsFallback answers k fb (omega arith) fallback))
            ]
      ]

-- Where QueryMode gives fixed answers and changes neither the number of modes nor the current mode,
-- and there are at most 2^32 - 1 modes, the loop of init_gop ends on fuel that exceeds the number of
-- modes, and the mode that it then uses is the first exact one, or the first usable one where no
-- mode is exact, or the current one where none is usable.
pub scan_modes-IsPreferred :
    {S : Type 0} (fw : Firmware S) (answers : Answers)
    → ((k : ℕ) (st : S) → (fw.query_mode k st).0 ≡ (answers k).0)
    → ((k : ℕ) (st : S) → (fw.query_mode k st).1 ≡ (answers k).1)
    → ((k : ℕ) (st : S) → fw.gop_mode (fw.query_mode k st).2 ≡ fw.gop_mode st)
    → (fuel : ℕ) (st : S) → (fw.gop_mode st).max_mode ≤ no_mode
    → (fw.gop_mode st).max_mode < fuel
    → (found : Modes S) × (scan_modes fw fuel 0 no_mode st ≡ some found)
      × IsPreferred answers (fw.gop_mode st).max_mode (fw.gop_mode st).mode (mode_after fw found)
scan_modes-IsPreferred fw answers status info kept fuel st small enough =
    scan_from-IsPreferred fw answers (fw.gop_mode st).max_mode (fw.gop_mode st).mode status info
      kept small fuel 0 no_mode st (refl, refl) (omega arith) (omega arith) (λ j lt. ground arith)
      (not_yet (λ j lt. ground arith))
