-- ===== src/Efi/Screen.antt =====
-- The text console on the framebuffer: gop_clear_screen, gop_scroll and gop_draw_char of
-- src/efi64/efi64.c. The font's bytes are an argument.
pub mod Bounds
pub mod Draw
use gemiboot.Base.{
  ℕ, zero, suc, ◌+◌, ◌-◌, ◌*◌, ◌/◌, ◌%◌, ◌^◌, Bool, true, false, ◌&&◌, ◌||◌, ltb, leb, ◌==◌,
  if◌then◌else◌, Mem, byte, put32, u32, sub32, Arch, size_mod,
}
use gemiboot.Str.{memset, memmove}

-- The variables of the file that the console uses, and the memory that holds the framebuffer.
pub record Screen : Type 0 where
  pub mem : Mem
  pub g_fb_base : ℕ
  pub g_fb_width : ℕ
  pub g_fb_height : ℕ
  pub g_fb_pitch : ℕ
  pub g_cursor_x : ℕ
  pub g_cursor_y : ℕ
  pub g_fg_color : ℕ
  pub g_bg_color : ℕ

-- !g_fb_base || !g_fb_height || !g_fb_pitch
abbrev pub has_no_memory : Screen → Bool
has_no_memory s = s.g_fb_base == 0 || s.g_fb_height == 0 || s.g_fb_pitch == 0

unfoldable pub gop_clear_screen : Screen → Screen
gop_clear_screen s = if has_no_memory s then s else record s {
  mem = memset s.g_fb_base 0 (u32 (s.g_fb_height * s.g_fb_pitch)) s.mem;
  g_cursor_x = 0;
  g_cursor_y = 0;
}

unfoldable pub gop_scroll : Arch → Screen → Screen
gop_scroll arch s =
    let line_bytes = u32 (16 * s.g_fb_pitch) in
    let copy_bytes = u32 (sub32 s.g_fb_height 16 * s.g_fb_pitch) in
    let moved = memmove s.g_fb_base ((s.g_fb_base + line_bytes) % size_mod arch) copy_bytes s.mem in
    if has_no_memory s
    then s
    else record s { mem = memset ((s.g_fb_base + copy_bytes) % size_mod arch) 0 line_bytes moved }

-- The start of the next line, which scrolls at the end of the screen.
unfoldable pub next_line : Arch → Screen → Screen
next_line arch s =
    let down : Screen = record s { g_cursor_x = 0; g_cursor_y = u32 (s.g_cursor_y + 1) } in
    let scrolled : Screen = record (gop_scroll arch down) {
      g_cursor_y = sub32 (s.g_fb_height / 16) 1;
    } in
    if ltb s.g_fb_height (u32 (u32 (down.g_cursor_y + 1) * 16)) then scrolled else down

-- Row `y` of the glyph of a character: from the font, or blank.
unfoldable pub glyph_row : Mem → ℕ → ℕ → ℕ
glyph_row g_font_data c y =
    if leb 32 c && leb c 126 then byte g_font_data ((c - 32) * 16 + y) else 0

-- The loop over the pixels of a row from `x` on: `row & (0x80 >> x)` is bit `7 - x` of the row.
unfoldable pub draw_pixels : ℕ → ℕ → ℕ → ℕ → ℕ → ℕ → Mem → Mem
draw_pixels zero x line row fg bg m = m
draw_pixels (suc left) x line row fg bg m =
    let color = if row / 2 ^ left % 2 == 1 then fg else bg in
    draw_pixels left (x + 1) line row fg bg (put32 m (line + 4 * x) color)

-- The loop over the rows of a glyph from `y` on, with `left` rows left.
unfoldable pub draw_rows : ℕ → ℕ → Arch → Mem → ℕ → Screen → Mem → Mem
draw_rows zero y arch g_font_data c s m = m
draw_rows (suc left) y arch g_font_data c s m =
    let px_start = u32 (s.g_cursor_x * 8) in
    let py_start = u32 (s.g_cursor_y * 16) in
    let line =
      (s.g_fb_base + u32 (u32 (py_start + y) * s.g_fb_pitch) + u32 (px_start * 4))
      % size_mod arch in
    draw_rows left (y + 1) arch g_font_data c s
      (draw_pixels 8 0 line (glyph_row g_font_data c y) s.g_fg_color s.g_bg_color m)

-- A character that is neither \r nor \n: the next line where the line is full, then the glyph.
unfoldable pub draw_glyph : Arch → Mem → ℕ → Screen → Screen
draw_glyph arch g_font_data c s =
    let t = if ltb s.g_fb_width (u32 (u32 (s.g_cursor_x + 1) * 8)) then next_line arch s else s in
    record t {
      mem = draw_rows 16 0 arch g_font_data c t t.mem;
      g_cursor_x = u32 (t.g_cursor_x + 1);
    }

-- The character is a byte.
unfoldable pub gop_draw_char : Arch → Mem → ℕ → Screen → Screen
gop_draw_char arch g_font_data c s =
    if s.g_fb_base == 0 || s.g_fb_width == 0 || s.g_fb_height == 0
    then s
    else if c == 13
    then record s { g_cursor_x = 0 }
    else if c == 10
    then next_line arch s
    else draw_glyph arch g_font_data c s
