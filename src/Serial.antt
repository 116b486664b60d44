-- ===== src/Serial.antt =====
-- The serial output of src/common/string.c: serial_puts, serial_put_hex and serial_put_dec, as the
-- bytes that go out: serial_putc adds a byte to the output, as its outb does. Its wait for the port
-- is in Serial/Port, which has the port itself; a run of the BIOS loader that sends bytes is put
-- under those waits by at_port of Bios/Boot.
pub mod Decimal
pub mod Hex
pub mod Port
mod Examples
use gemiboot.Base.{
  ℕ, zero, suc, ◌+◌, ◌-◌, ◌*◌, ◌/◌, ◌%◌, ◌^◌, Bool, true, false, List, [], ◌∷◌, ◌++◌, ltb, ◌==◌,
  if◌then◌else◌, Mem, byte, put8,
}

-- The bytes that went out, first one first.
abbrev pub Output : Type 0
Output = List ℕ

-- The byte that the outb of serial_putc sends, when its wait has ended.
unfoldable pub serial_putc : ℕ → Output → Output
serial_putc c out = out ++ c ∷ []

-- A carriage return goes before a newline. The string is the list of its bytes before the NUL.
unfoldable pub serial_puts : List ℕ → Output → Output
serial_puts [] out = out
serial_puts (c ∷ s) out =
    if c == 10
    then serial_puts s (serial_putc c (serial_putc 13 out))
    else serial_puts s (serial_putc c out)

-- hex_chars[d]
abbrev pub hex_char : ℕ → ℕ
hex_char d = if ltb d 10 then b'0' + d else b'A' + (d - 10)

-- The loop with `left` digits left: its shift is `i = 4 * (left - 1)`.
unfoldable pub hex_loop : ℕ → ℕ → Output → Output
hex_loop zero val out = out
hex_loop (suc left) val out = hex_loop left val (serial_putc (hex_char (val / 16 ^ left % 16)) out)

unfoldable pub serial_put_hex : ℕ → Output → Output
serial_put_hex val out = hex_loop 8 val (serial_puts (b'0' ∷ b'x' ∷ []) out)

-- The loop that puts the digits into buf, the last one first; the result is buf and i.
unfoldable pub digit_loop : ℕ → ℕ → ℕ → Mem → Mem × ℕ
digit_loop zero val i buf = (buf, i)
digit_loop (suc fuel) val i buf =
    let rest = digit_loop fuel (val / 10) (suc i) (put8 buf i (b'0' + val % 10)) in
    if ltb 0 val then rest else (buf, i)

-- The loop that sends them.
unfoldable pub send_loop : ℕ → Mem → Output → Output
send_loop zero buf out = out
send_loop (suc i) buf out = send_loop i buf (serial_putc (byte buf i) out)

-- `buf` is what the array on the stack holds. As many rounds as `val` are enough.
unfoldable pub serial_put_dec : ℕ → Mem → Output → Output
serial_put_dec val buf out =
    let (digits, i) = digit_loop val val 0 buf in
    if val == 0 then serial_putc b'0' out else send_loop i digits out
