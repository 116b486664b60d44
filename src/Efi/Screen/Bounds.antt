-- ===== src/Efi/Screen/Bounds.antt =====
-- The console of src/efi64/efi64.c writes inside the framebuffer only.
use mathlib.Core.Path.{ap₂}
use native.Mathlib.Nat.{mul-le-mul_left, add-mul}
use gemiboot.Base.{
  ℕ, ◌+◌, ◌-◌, ◌*◌, ◌%◌, ◌≡◌, ◌≤◌, ◌<◌, ◌⊎◌, ap, sym, ◌∙◌, arith, false, Mem, byte, blit_out, Arch,
  ia32, x64, size_mod,
}
use gemiboot.Str.{memset, memmove}
use gemiboot.Str.Copy.{memset-blit, memmove-copied}
use gemiboot.Efi.Screen.{Screen, has_no_memory, gop_scroll}

-- The second memory differs from the first only in the `n` bytes from `lo` on.
abbrev pub OnlyIn : ℕ → ℕ → Mem → Mem → Type 0
OnlyIn lo n m m' = (x : ℕ) → (x < lo) ⊎ (lo + n ≤ x) → byte m' x ≡ byte m x

pub OnlyIn-trans :
    (lo n : ℕ) (m m' m'' : Mem) → OnlyIn lo n m m' → OnlyIn lo n m' m'' → OnlyIn lo n m m''
OnlyIn-trans lo n m m' m'' p q x out = q x out ∙ p x out

OnlyIn-memset : (lo n a k : ℕ) (m : Mem) → lo ≤ a → a + k ≤ lo + n → OnlyIn lo n m (memset a 0 k m)
OnlyIn-memset lo n a k m low high x out =
    memset-blit a 0 k m x ∙ ap (λ (v : ℕ). v % 256) (blit_out m a (λ _. 0) k x (omega arith))

OnlyIn-memmove :
    (lo n a b k : ℕ) (m : Mem) → lo ≤ a → a + k ≤ lo + n → OnlyIn lo n m (memmove a b k m)
OnlyIn-memmove lo n a b k m low high x out =
    memmove-copied a b k m x
    ∙ ap (λ (v : ℕ). v % 256) (blit_out m a (λ j. m (b + j)) k x (omega arith))

-- The framebuffer is set up: its rows hold their pixels, it holds a line of text of one character
-- at least, and it lies in the address space.
pub record IsFrame (arch : Arch) (s : Screen) : Type 0 where
  pub base : 0 < s.g_fb_base
  pub rows : s.g_fb_width * 4 ≤ s.g_fb_pitch
  pub column : 8 ≤ s.g_fb_width
  pub line : 16 ≤ s.g_fb_height
  pub small : s.g_fb_height * s.g_fb_pitch < 4294967296
  pub addressable : s.g_fb_base + s.g_fb_height * s.g_fb_pitch < size_mod arch

-- The cursor is at a line of the screen, and at most behind the last column.
pub record IsOnScreen (s : Screen) : Type 0 where
  pub row : (s.g_cursor_y + 1) * 16 ≤ s.g_fb_height
  pub column : s.g_cursor_x * 8 ≤ s.g_fb_width

-- What drawing does: the cursor stays on the screen, the framebuffer where it is, and no byte
-- outside it changes.
pub record Draws (s t : Screen) : Type 0 where
  pub on_screen : IsOnScreen t
  pub base : t.g_fb_base ≡ s.g_fb_base
  pub width : t.g_fb_width ≡ s.g_fb_width
  pub height : t.g_fb_height ≡ s.g_fb_height
  pub pitch : t.g_fb_pitch ≡ s.g_fb_pitch
  pub inside : OnlyIn s.g_fb_base (s.g_fb_height * s.g_fb_pitch) s.mem t.mem

pub Draws-IsFrame : (arch : Arch) (s t : Screen) → Draws s t → IsFrame arch s → IsFrame arch t
Draws-IsFrame arch s t d f =
    let area : t.g_fb_height * t.g_fb_pitch ≡ s.g_fb_height * s.g_fb_pitch =
      ap₂ (λ (h p : ℕ). h * p) d.height d.pitch in
    record {
      base = omega (arith, d.base, f.base);
      rows = omega (arith, d.width, d.pitch, f.rows);
      column = omega (arith, d.width, f.column);
      line = omega (arith, d.height, f.line);
      small = omega (arith, area, f.small);
      addressable = omega (arith, area, d.base, f.addressable);
    }

-- The lines above the last one, and the last one, are the framebuffer.
lines_sum : (h p : ℕ) → 16 ≤ h → (h - 16) * p + 16 * p ≤ h * p
lines_sum h p tall =
    let whole : h - 16 + 16 ≡ h = omega arith in
    omega (arith, sym (add-mul (h - 16) 16 p), ap (λ (k : ℕ). k * p) whole)

pub height_small : (h p : ℕ) → 32 ≤ p → h * p < 4294967296 → h * 32 < 4294967296
height_small h p wide small = let area : h * 32 ≤ h * p = mul-le-mul_left h wide in omega arith

size_mod_lt : (arch : Arch) → 4294967296 ≤ size_mod arch
size_mod_lt ia32 = omega arith
size_mod_lt x64 = omega arith

-- An address in the address space does not wrap.
pub in_space : (arch : Arch) (a : ℕ) → a < size_mod arch → a % size_mod arch ≡ a
in_space ia32 a h = omega arith
in_space x64 a h = omega arith

pub scroll_inside :
    (arch : Arch) (s : Screen)
    → IsFrame arch s
    → OnlyIn s.g_fb_base (s.g_fb_height * s.g_fb_pitch) s.mem (gop_scroll arch s).mem
unfolding gop_scroll
scroll_inside arch s f x out =
    let h = s.g_fb_height in
    let p = s.g_fb_pitch in
    let lines = lines_sum h p f.line in
    let wide : 32 ≤ p = omega (arith, f.rows, f.column) in
    let tall = height_small h p wide f.small in
    let size = size_mod_lt arch in
    let line_bytes : 16 * p % 4294967296 ≡ 16 * p = omega (arith, f.small) in
    let above : (h + 4294967296 - 16) % 4294967296 ≡ h - 16 = omega (arith, f.line, tall) in
    let copy_bytes : (h - 16) * p % 4294967296 ≡ (h - 16) * p = omega (arith, f.small) in
    let from : (s.g_fb_base + (h - 16) * p) % size_mod arch ≡ s.g_fb_base + (h - 16) * p =
      in_space arch _ (omega (arith, f.addressable, f.line)) in
    let mapped : has_no_memory s ≡ false = ground (arith, f.base, f.line, wide) in
    rw (line_bytes, above, copy_bytes, from, mapped)
      (OnlyIn-memset s.g_fb_base (h * p) (s.g_fb_base + (h - 16) * p) (16 * p) _ (omega arith)
          (omega arith) x out
        ∙ OnlyIn-memmove s.g_fb_base (h * p) s.g_fb_base _ ((h - 16) * p) s.mem (omega arith)
            (omega arith) x out)
