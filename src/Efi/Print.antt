-- ===== src/Efi/Print.antt =====
-- uefi_puts, uefi_put_dec and uefi_put_hex of src/efi64/efi64.c. A string is the list of its bytes
-- before the NUL.
pub mod Text
pub mod Decimal
use gemiboot.Base.{
  ℕ, zero, suc, ◌+◌, ◌-◌, ◌*◌, ◌/◌, ◌%◌, ◌^◌, Bool, true, false, not, List, [], ◌∷◌, ◌++◌, ltb,
  ◌==◌, if◌then◌else◌, Mem, byte, put8, Arch,
}
use gemiboot.Serial.{digit_loop, hex_char}
use gemiboot.Efi.Screen.{Screen, gop_draw_char}

-- The screen, whether the firmware has a console (g_st and its ConOut are not null), and the texts
-- that went to the console's OutputString.
pub record Console : Type 0 where
  pub screen : Screen
  pub has_con_out : Bool
  pub sent : List (List ℕ)

-- The variables of the first loop of uefi_puts: the rest of the string, and the buffer with the
-- number of units in it.
pub record Puts : Type 0 where
  pub rest : List ℕ
  pub j : ℕ
  pub buf : List ℕ
  pub screen : Screen

module _ (arch : Arch) (g_font_data : Mem) where
  unfoldable pub draw_if_mapped : ℕ → Screen → Screen
  draw_if_mapped c s = if s.g_fb_base == 0 then s else gop_draw_char arch g_font_data c s

  -- The loop that fills the buffer. A newline takes two units.
  unfoldable pub fill_loop : List ℕ → ℕ → List ℕ → Screen → Puts
  fill_loop [] j buf s = record { rest = []; j = j; buf = buf; screen = s }
  fill_loop (c ∷ cs) j buf s =
      let j1 = if c == 10 then j + 1 else j in
      let buf1 = if c == 10 then buf ++ 13 ∷ [] else buf in
      let more = fill_loop cs (j1 + 1) (buf1 ++ c ∷ []) (draw_if_mapped c s) in
      let full : Puts = record { rest = c ∷ cs; j = j; buf = buf; screen = s } in
      if ltb j 254 then more else full

  -- The loop over what is left of the string.
  unfoldable pub draw_loop : List ℕ → Screen → Screen
  draw_loop [] s = s
  draw_loop (c ∷ cs) s = draw_loop cs (draw_if_mapped c s)

  unfoldable pub uefi_puts : List ℕ → Console → Console
  uefi_puts str con =
      let first = fill_loop str 0 [] con.screen in
      if con.has_con_out
      then record con {
        screen = draw_loop first.rest first.screen;
        sent = con.sent ++ first.buf ∷ [];
      }
      else record con { screen = draw_loop str con.screen }

-- The string in a character array, from index `k` on, with `n` characters left.
unfoldable pub string_at : ℕ → ℕ → Mem → List ℕ
string_at zero k buf = []
string_at (suc n) k buf =
    let rest = string_at n (k + 1) buf in if byte buf k == 0 then [] else byte buf k ∷ rest

-- The loop that reverses the digits: `fuel` rounds are enough for `fuel` characters.
unfoldable pub reverse_loop : ℕ → ℕ → ℕ → Mem → Mem
reverse_loop zero start end buf = buf
reverse_loop (suc fuel) start end buf =
    let t = byte buf start in
    let swapped = put8 (put8 buf start (byte buf end)) end t in
    let more = reverse_loop fuel (start + 1) (end - 1) swapped in
    if ltb start end then more else buf

-- The text that uefi_put_dec gives to uefi_puts; `buf` is what the array held before.
unfoldable pub dec_text : ℕ → Mem → List ℕ
dec_text val buf =
    let (digits, i) = digit_loop val val 0 buf in
    let reversed = reverse_loop i 0 (i - 1) (put8 digits i 0) in
    if val == 0 then b'0' ∷ [] else string_at 16 0 reversed

unfoldable pub uefi_put_dec : Arch → Mem → ℕ → Mem → Console → Console
uefi_put_dec arch g_font_data val buf con = uefi_puts arch g_font_data (dec_text val buf) con

-- The loop that fills in the digits from index `i` on: its shift is `28 - i * 4`.
unfoldable pub hex_fill : ℕ → ℕ → ℕ → Mem → Mem
hex_fill zero i val buf = buf
hex_fill (suc left) i val buf =
    hex_fill left (i + 1) val (put8 buf (2 + i) (hex_char (val / 16 ^ left % 16)))

unfoldable pub hex_text : ℕ → Mem → List ℕ
hex_text val buf =
    let filled = hex_fill 8 0 val (put8 (put8 buf 0 b'0') 1 b'x') in
    string_at 12 0 (put8 filled 10 0)

unfoldable pub uefi_put_hex : Arch → Mem → ℕ → Mem → Console → Console
uefi_put_hex arch g_font_data val buf con = uefi_puts arch g_font_data (hex_text val buf) con
