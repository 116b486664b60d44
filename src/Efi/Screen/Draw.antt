-- ===== src/Efi/Screen/Draw.antt =====
-- gop_draw_char of src/efi64/efi64.c keeps the cursor on the screen and writes inside the framebuffer.
use mathlib.Core.Path.{ap₂}
use native.Mathlib.Nat.{mul-le-mul_right, add-mul}
use gemiboot.Base.{
  ℕ, zero, suc, ◌+◌, ◌-◌, ◌*◌, ◌/◌, ◌%◌, ◌^◌, ◌≡◌, ◌≤◌, ◌<◌, inl, inr, refl, ◌∙◌, arith, false, ltb,
  ◌==◌, ◌||◌, if◌then◌else◌, Bool-cases, Mem, put32, put32_outside, u32, Arch, size_mod, lt_or_le,
  lt→ltb, le→not_ltb,
}
use gemiboot.Efi.Screen.{
  Screen, has_no_memory, gop_scroll, next_line, glyph_row, draw_pixels, draw_rows, draw_glyph,
  gop_draw_char,
}
use gemiboot.Efi.Screen.Bounds.{
  OnlyIn, IsFrame, IsOnScreen, Draws, Draws-IsFrame, height_small, in_space, scroll_inside,
}

pub Draws-trans : (s t u : Screen) → Draws s t → Draws t u → Draws s u
Draws-trans s t u p q =
    let area : t.g_fb_height * t.g_fb_pitch ≡ s.g_fb_height * s.g_fb_pitch =
      ap₂ (λ (h p : ℕ). h * p) p.height p.pitch in
    record {
      on_screen = q.on_screen;
      base = q.base ∙ p.base;
      width = q.width ∙ p.width;
      height = q.height ∙ p.height;
      pitch = q.pitch ∙ p.pitch;
      inside = λ x out. q.inside x (omega (arith, area, p.base)) ∙ p.inside x out;
    }

record Keeps (s t : Screen) : Type 0 where
  base : t.g_fb_base ≡ s.g_fb_base
  width : t.g_fb_width ≡ s.g_fb_width
  height : t.g_fb_height ≡ s.g_fb_height
  pitch : t.g_fb_pitch ≡ s.g_fb_pitch
  cursor : t.g_cursor_x ≡ s.g_cursor_x

scroll-Keeps : (arch : Arch) (s : Screen) → Keeps s (gop_scroll arch s)
unfolding gop_scroll
scroll-Keeps arch s = elim (Bool-cases (has_no_memory s)) [
  | inl e ↦ rw e (record { base = refl; width = refl; height = refl; pitch = refl; cursor = refl })
  | inr e ↦ rw e (record { base = refl; width = refl; height = refl; pitch = refl; cursor = refl })
]

-- The pitch and the height of a framebuffer are no large numbers.
frame_sizes :
    (arch : Arch) (s : Screen)
    → IsFrame arch s
    → (s.g_fb_height * 32 < 4294967296) × (s.g_fb_pitch * 16 < 4294967296)
frame_sizes arch s f =
    let wide : 32 ≤ s.g_fb_pitch = omega (arith, f.rows, f.column) in
    let lines : 16 * s.g_fb_pitch ≤ s.g_fb_height * s.g_fb_pitch =
      mul-le-mul_right s.g_fb_pitch f.line in
    (height_small s.g_fb_height s.g_fb_pitch wide f.small, omega (arith, f.small))

next_line-Draws :
    (arch : Arch) (s : Screen)
    → IsFrame arch s
    → (s.g_cursor_y + 1) * 16 ≤ s.g_fb_height
    → Draws s (next_line arch s)
unfolding next_line
next_line-Draws arch s f row =
    let (tall, _) = frame_sizes arch s f in
    let below : (s.g_cursor_y + 1) % 4294967296 ≡ s.g_cursor_y + 1 = omega arith in
    let edge : (s.g_cursor_y + 1 + 1) % 4294967296 * 16 % 4294967296 ≡ (s.g_cursor_y + 1 + 1) * 16 =
      omega arith in
    let last : (s.g_fb_height / 16 + 4294967296 - 1) % 4294967296 ≡ s.g_fb_height / 16 - 1 =
      omega (arith, f.line) in
    let down : Screen = record s { g_cursor_x = 0; g_cursor_y = s.g_cursor_y + 1 } in
    let frame : IsFrame arch down = record {
      base = f.base;
      rows = f.rows;
      column = f.column;
      line = f.line;
      small = f.small;
      addressable = f.addressable;
    } in
    let k = scroll-Keeps arch down in
    elim (lt_or_le s.g_fb_height ((s.g_cursor_y + 1 + 1) * 16)) [
      | inl full ↦
          rw (below, edge, last, lt→ltb s.g_fb_height ((s.g_cursor_y + 1 + 1) * 16) full)
            (record {
              on_screen = record {
                row = omega (arith, k.height, f.line);
                column = omega (arith, k.cursor);
              };
              base = k.base;
              width = k.width;
              height = k.height;
              pitch = k.pitch;
              inside = scroll_inside arch down frame;
            })
      | inr room ↦
          rw (below, edge, le→not_ltb s.g_fb_height ((s.g_cursor_y + 1 + 1) * 16) room)
            (record {
              on_screen = record { row = room; column = omega arith };
              base = refl;
              width = refl;
              height = refl;
              pitch = refl;
              inside = λ x out. refl;
            })
    ]

draw_pixels_inside :
    (left x line row fg bg lo n : ℕ) (m : Mem)
    → lo ≤ line + 4 * x
    → line + 4 * (x + left) ≤ lo + n
    → OnlyIn lo n m (draw_pixels left x line row fg bg m)
unfolding draw_pixels
draw_pixels_inside zero x line row fg bg lo n m low high y out = refl
draw_pixels_inside (suc left) x line row fg bg lo n m low high y out =
    let color = if row / 2 ^ left % 2 == 1 then fg else bg in
    draw_pixels_inside left (x + 1) line row fg bg lo n (put32 m (line + 4 * x) color) (omega arith)
      (omega arith) y out
    ∙ put32_outside m (line + 4 * x) color y (omega arith)

draw_rows_inside :
    (left y : ℕ) (arch : Arch) (font : Mem) (c : ℕ) (s : Screen) (m : Mem)
    → IsFrame arch s
    → (s.g_cursor_y + 1) * 16 ≤ s.g_fb_height
    → (s.g_cursor_x + 1) * 8 ≤ s.g_fb_width
    → y + left ≤ 16
    → OnlyIn s.g_fb_base (s.g_fb_height * s.g_fb_pitch) m (draw_rows left y arch font c s m)
unfolding draw_rows
draw_rows_inside zero y arch font c s m f row column short x out = refl
draw_rows_inside (suc left) y arch font c s m f row column short x out =
    let p = s.g_fb_pitch in
    let py = s.g_cursor_y * 16 in
    let (tall, narrow) = frame_sizes arch s f in
    let start : s.g_cursor_x * 8 % 4294967296 * 4 % 4294967296 ≡ s.g_cursor_x * 32 =
      omega (arith, f.rows) in
    let down : (py % 4294967296 + y) % 4294967296 ≡ py + y = omega arith in
    let inner : suc (py + y) * p ≤ s.g_fb_height * p = mul-le-mul_right p (omega arith) in
    let row_end : suc (py + y) * p ≡ (py + y) * p + p = omega (arith, add-mul 1 (py + y) p) in
    let offset : (py + y) * p % 4294967296 ≡ (py + y) * p = omega (arith, f.small, f.rows) in
    let fits : s.g_cursor_x * 32 + 32 ≤ p = omega (arith, f.rows) in
    let at = s.g_fb_base + (py + y) * p + s.g_cursor_x * 32 in
    let line : at % size_mod arch ≡ at = in_space arch at (omega (arith, f.addressable)) in
    let m' = draw_pixels 8 0 at (glyph_row font c y) s.g_fg_color s.g_bg_color m in
    rw (start, down, offset, line)
      (draw_rows_inside left (y + 1) arch font c s m' f row column (omega arith) x out
        ∙ draw_pixels_inside 8 0 at (glyph_row font c y) s.g_fg_color s.g_bg_color s.g_fb_base
            (s.g_fb_height * p) m (omega arith) (omega arith) x out)

-- A glyph where the cursor is.
glyph_here :
    (arch : Arch) (font : Mem) (c : ℕ) (t : Screen)
    → IsFrame arch t
    → (t.g_cursor_y + 1) * 16 ≤ t.g_fb_height
    → (t.g_cursor_x + 1) * 8 ≤ t.g_fb_width
    → Draws t
        (record t { mem = draw_rows 16 0 arch font c t t.mem; g_cursor_x = u32 (t.g_cursor_x + 1) })
glyph_here arch font c t f row column =
    let (_, narrow) = frame_sizes arch t f in
    record {
      on_screen = record { row = row; column = omega (arith, f.rows) };
      base = refl;
      width = refl;
      height = refl;
      pitch = refl;
      inside = draw_rows_inside 16 0 arch font c t t.mem f row column (omega arith);
    }

next_line_cursor : (arch : Arch) (s : Screen) → (next_line arch s).g_cursor_x ≡ 0
unfolding next_line
next_line_cursor arch s =
    let down : Screen = record s { g_cursor_x = 0; g_cursor_y = u32 (s.g_cursor_y + 1) } in
    let k = scroll-Keeps arch down in
    elim (Bool-cases (ltb s.g_fb_height (u32 (u32 (down.g_cursor_y + 1) * 16)))) [
      | inl full ↦ rw full k.cursor
      | inr room ↦ rw room refl
    ]

draw_glyph-Draws :
    (arch : Arch) (font : Mem) (c : ℕ) (s : Screen)
    → IsFrame arch s
    → IsOnScreen s
    → Draws s (draw_glyph arch font c s)
unfolding draw_glyph
draw_glyph-Draws arch font c s f on =
    let (_, narrow) = frame_sizes arch s f in
    let edge : (s.g_cursor_x + 1) % 4294967296 * 8 % 4294967296 ≡ (s.g_cursor_x + 1) * 8 =
      omega (arith, f.rows, on.column) in
    elim (lt_or_le s.g_fb_width ((s.g_cursor_x + 1) * 8)) [
      | inl full ↦
          let first = next_line-Draws arch s f on.row in
          let t = next_line arch s in
          let frame = Draws-IsFrame arch s t first f in
          rw (edge, lt→ltb s.g_fb_width ((s.g_cursor_x + 1) * 8) full)
            (Draws-trans s t _ first (
              glyph_here arch font c t frame first.on_screen.row
                (omega (arith, next_line_cursor arch s, frame.column))))
      | inr room ↦
          rw (edge, le→not_ltb s.g_fb_width ((s.g_cursor_x + 1) * 8) room)
            (glyph_here arch font c s f on.row room)
    ]

-- On a framebuffer that is set up, with the cursor on the screen, gop_draw_char leaves the cursor
-- on the screen and the framebuffer where it is, and changes no byte outside the framebuffer,
-- whatever the character, the font and the colours are.
pub gop_draw_char-Draws :
    (arch : Arch) (font : Mem) (c : ℕ) (s : Screen)
    → IsFrame arch s
    → IsOnScreen s
    → Draws s (gop_draw_char arch font c s)
unfolding gop_draw_char
gop_draw_char-Draws arch font c s f on =
    let ready : (s.g_fb_base == 0 || s.g_fb_width == 0 || s.g_fb_height == 0) ≡ false =
      ground (arith, f.base, f.column, f.line) in
    elim (Bool-cases (c == 13)) [
      | inl cr ↦
          rw (ready, cr)
            (record {
              on_screen = record { row = on.row; column = omega arith };
              base = refl;
              width = refl;
              height = refl;
              pitch = refl;
              inside = λ x out. refl;
            })
      | inr other ↦ elim (Bool-cases (c == 10)) [
        | inl lf ↦ rw (ready, other, lf) (next_line-Draws arch s f on.row)
        | inr glyph ↦ rw (ready, other, glyph) (draw_glyph-Draws arch font c s f on)
      ]
    ]
