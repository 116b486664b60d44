-- ===== src/Efi/Pci/Windows.antt =====
-- The windows that pci_remap_above_4g_bars of src/efi64/efi64.c gives out.
use Prim.Native.Nat.{bit_or, bit_and, bit_and-bitwise, digits}
use native.Mathlib.Nat.{two-pow-succ, one-le-pow}
use mathlib.Core.Path.{subst}
use gemiboot.Base.{
  ℕ, zero, suc, ◌+◌, ◌-◌, ◌*◌, ◌/◌, ◌%◌, ◌^◌, ◌≤◌, ◌<◌, ◌≡◌, arith, ◌∙◌, ap, sym, min, sub32, refl,
  inl, inr, true, ◌&&◌, ◌==◌, Bool, Bool-cases, u8,
}
use gemiboot.Efi.Pci.{bar_length, next_window, Remap, Ports, pci_read32, pci_write32, move_bar}

-- No digit of the conjunction is above that of the first number.
conjunction-le : (n a b : ℕ) → digits (λ b. zero) min n a b ≤ a
conjunction-le zero a b = omega arith
conjunction-le (suc n) zero b = omega arith
conjunction-le (suc n) (suc a) b = omega (arith, conjunction-le n (suc a / 2) (b / 2))

bit_and-le : (a b : ℕ) → bit_and a b ≤ a
bit_and-le a b = omega (arith, bit_and-bitwise a b, conjunction-le a a b)

twice : (q p p' : ℕ) → p' ≡ p + p → q * p' ≡ q * p * 2
twice q p p' e = ap (λ (x : ℕ). q * x) e ∙ grind arith

after : (t p m : ℕ) → m ≡ 1 + t → m * p ≡ p + t * p
after t p m e = ap (λ (x : ℕ). x * p) e ∙ grind arith

-- The conjunction with a multiple of a power of two is one as well.
conjunction-multiple :
    (k n a q : ℕ) → (r : ℕ) × (digits (λ b. zero) min n a (q * 2 ^ k) ≡ r * 2 ^ k)
conjunction-multiple k zero a q = (0, omega arith)
conjunction-multiple k (suc n) zero q = (0, omega arith)
conjunction-multiple zero (suc n) (suc a) q =
    (digits (λ b. zero) min (suc n) (suc a) (q * 2 ^ 0), omega arith)
conjunction-multiple (suc k) (suc n) (suc a) q =
    let (r, e) = conjunction-multiple k n (suc a / 2) q in
    let double : q * 2 ^ suc k ≡ q * 2 ^ k * 2 = twice q (2 ^ k) (2 ^ suc k) (two-pow-succ k) in
    let half : q * 2 ^ suc k / 2 ≡ q * 2 ^ k = omega (arith, double) in
    let even : q * 2 ^ suc k % 2 ≡ 0 = omega (arith, double) in
    let least : min (suc a % 2) (q * 2 ^ suc k % 2) ≡ 0 = omega (arith, even) in
    let goal : r * 2 ^ suc k ≡ r * 2 ^ k * 2 = twice r (2 ^ k) (2 ^ suc k) (two-pow-succ k) in
    (
      r,
      ap
            (λ (b : ℕ).
              digits (λ b. zero) min n (suc a / 2) b * 2 + min (suc a % 2) (q * 2 ^ suc k % 2))
            half
          ∙ omega (arith, e, least, goal),
    )

pub next_window-below :
    (base len : ℕ) → base < 4294967296 → len ≤ base → 0 < len → next_window base len + len ≤ base
unfolding next_window
next_window-below base len small fits pos =
    omega (arith, bit_and-le (sub32 base len) (4294967295 - (len - 1)))

-- The highest bits of a 32-bit word.
split_power : (j k : ℕ) → 2 ^ (j + k) ≡ 2 ^ j * 2 ^ k
split_power j zero = let e : j + 0 ≡ j = omega arith in ap (λ (n : ℕ). 2 ^ n) e ∙ omega arith
split_power j (suc k) =
    let e : j + suc k ≡ suc (j + k) = omega arith in
    let previous = split_power j k in
    let right = twice (2 ^ j) (2 ^ k) (2 ^ suc k) (two-pow-succ k) in
    ap (λ (n : ℕ). 2 ^ n) e ∙ omega (arith, two-pow-succ (j + k), previous, right)

mask-multiple : (k : ℕ) → k ≤ 32 → (q : ℕ) × (4294967295 - (2 ^ k - 1) ≡ q * 2 ^ k)
mask-multiple k le =
    let e : 32 - k + k ≡ 32 = omega arith in
    let whole : 2 ^ 32 ≡ 2 ^ (32 - k) * 2 ^ k =
      ap (λ (n : ℕ). 2 ^ n) (sym e) ∙ split_power (32 - k) k in
    let t = 2 ^ (32 - k) - 1 in
    let some_bits : 1 ≤ 2 ^ (32 - k) = one-le-pow (32 - k) 2 (omega arith) in
    let one_more : 1 ≤ 2 ^ k = one-le-pow k 2 (omega arith) in
    let above : 2 ^ (32 - k) * 2 ^ k ≡ 2 ^ k + t * 2 ^ k =
      after t (2 ^ k) (2 ^ (32 - k)) (omega (arith, some_bits)) in
    (t, omega (arith, whole, above, one_more))

pub next_window-aligned : (base k : ℕ) → k ≤ 32 → (q : ℕ) × (next_window base (2 ^ k) ≡ q * 2 ^ k)
unfolding next_window
next_window-aligned base k le =
    let (t, mask) = mask-multiple k le in
    let x = sub32 base (2 ^ k) in
    let (r, e) = conjunction-multiple k x x t in
    (r, ap (bit_and x) mask ∙ bit_and-bitwise x (t * 2 ^ k) ∙ e)

-- The length that move_bar finds is never 0, and at most 512 MB.
bar_length-bounds : (answer : ℕ) → (0 < bar_length answer) × (bar_length answer ≤ 0x20000000)
unfolding bar_length
bar_length-bounds answer = (ground arith, ground arith)

abbrev holds_below : ℕ → (ℕ → Bool) → Bool
holds_below zero p = true
holds_below (suc n) p = p n && holds_below n p

holds_below-at : (n k : ℕ) (p : ℕ → Bool) → holds_below n p ≡ true → k < n → p k ≡ true
holds_below-at zero k p h lt = absurd (omega arith)
holds_below-at (suc n) k p h lt = elim (Bool-cases (k == n)) [
  | inl same ↦ let e : k ≡ n = ground arith in subst (λ i. p i ≡ true) (sym e) (ground (arith, h))
  | inr other ↦ holds_below-at n k p (ground (arith, h)) (ground arith)
]

-- Whether a probe that answers with a length of 2 ^ (k + 4) and `flags` gives this length.
abbrev gives_power : ℕ → ℕ → Bool
gives_power k flags = bar_length (4294967296 - 2 ^ (k + 4) + flags) == 2 ^ (k + 4)

all_powers : holds_below 26 (λ k. holds_below 16 (gives_power k)) ≡ true
unfolding bar_length
all_powers = refl

-- A BAR that decodes 2 ^ (k + 4) bytes answers the probe with the address bits from there on set,
-- and with its flags.
bar_length-power :
    (k flags : ℕ)
    → k < 26
    → flags < 16
    → bar_length (4294967296 - 2 ^ (k + 4) + flags) ≡ 2 ^ (k + 4)
bar_length-power k flags small low =
    let row = holds_below-at 26 k (λ k. holds_below 16 (gives_power k)) all_powers small in
    let at = holds_below-at 16 flags (gives_power k) row low in ground (arith, at)

module _ {S : Type 0} (ports : Ports S) (bus slot func bar_off : ℕ) where
  -- What the device answers to a read of the BAR when decoding is off and all bits were written.
  abbrev pub probe : S → ℕ × S
  probe st =
      let (cmd, s1) = pci_read32 ports bus slot func 4 st in
      let s2 = pci_write32 ports bus slot func 4 (bit_and cmd 0xfffffffd) s1 in
      pci_read32 ports bus slot func bar_off (pci_write32 ports bus slot func bar_off 0xffffffff s2)

  -- What holds of the window that a BAR with this answer to the probe is given between `low` and the
  -- start `high` of the last window.
  pub record IsWindow (answer low high : ℕ) : Type 0 where
    pub some_byte : 0 < bar_length answer
    pub most : bar_length answer ≤ 0x20000000
    pub below : low + bar_length answer ≤ high
    pub aligned :
        (k : ℕ) → k ≤ 32 → bar_length answer ≡ 2 ^ k → (q : ℕ) × (low ≡ q * bar_length answer)
    pub decodes :
        (k flags : ℕ)
        → k < 26
        → flags < 16
        → answer ≡ 4294967296 - 2 ^ (k + 4) + flags
        → bar_length answer ≡ 2 ^ (k + 4)

  -- Whatever the devices answer, and while 512 MB or more are left below the last window: with the
  -- length that the answer to the probe gives, which for a BAR that decodes 2 ^ k bytes, 16 bytes to
  -- 512 MB, is 2 ^ k, and which is 1 byte to 512 MB for any answer, the BAR's window ends at or below
  -- the start of the last one, so no two windows meet, and where the length is a power of two the
  -- window is aligned to it. Its start is what move_bar, after the probe, writes to the BAR with the
  -- BAR's flags; 0 goes to its high half, and then decoding is switched on again.
  pub move_bar-IsWindow :
      (bar_low bar_addr fb_base : ℕ) (r : Remap S)
      → 0x20000000 ≤ r.next_32bit_base
      → r.next_32bit_base < 4294967296
      → let r' = move_bar ports bus slot func bar_off bar_low bar_addr fb_base r in
        IsWindow (probe r.devices).0 r'.next_32bit_base r.next_32bit_base
        × (r'.devices
            ≡ pci_write32 ports bus slot func 4
                (bit_or (pci_read32 ports bus slot func 4 r.devices).0 6)
                (pci_write32 ports bus slot func (u8 (bar_off + 4)) 0 (
                  pci_write32 ports bus slot func bar_off
                    (bit_or r'.next_32bit_base (bar_low % 16))
                    (probe r.devices).1)))
  unfolding move_bar
  move_bar-IsWindow bar_low bar_addr fb_base r room small =
      let answer = (probe r.devices).0 in
      let base = r.next_32bit_base in
      let len = bar_length answer in
      let (pos, most) = bar_length-bounds answer in
      (
        record {
          some_byte = pos;
          most = most;
          below = next_window-below base len small (omega arith) pos;
          aligned = λ k le power.
              let (q, multiple) = next_window-aligned base k le in
              (q, ap (next_window base) power ∙ multiple ∙ ap (λ (n : ℕ). q * n) (sym power));
          decodes = λ k flags few low e. ap bar_length e ∙ bar_length-power k flags few low;
        },
        refl,
      )
