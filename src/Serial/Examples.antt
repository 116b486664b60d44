-- ===== src/Serial/Examples.antt =====
-- Numbers on the serial port, and the theorems about them.
use gemiboot.Base.{
  ℕ, zero, suc, false, ◌≡◌, ◌≤◌, ◌<◌, refl, true, arith, List, [], ◌∷◌, length, put8, some, ◌++◌,
  ◌==◌, if◌then◌else◌,
}
use gemiboot.Serial.{serial_putc, send_loop, serial_puts, serial_put_dec, digit_loop, Output}
use gemiboot.Serial.Port.{Uart, port_puts}
use gemiboot.Serial.Port.Sends.{
  GetsReady, now, later, IsUart, and_byte, none_left, port_puts-serial_puts,
}
use gemiboot.Serial.Decimal.{decimal, are_digits, serial_put_dec-decimal}

test_puts : serial_puts (b'a' ∷ 10 ∷ []) (b'>' ∷ []) ≡ b'>' ∷ b'a' ∷ 13 ∷ 10 ∷ []
unfolding serial_puts serial_putc
test_puts = refl

test_dec : serial_put_dec 2048 (λ k. 0) [] ≡ b'2' ∷ b'0' ∷ b'4' ∷ b'8' ∷ []
unfolding serial_put_dec send_loop digit_loop serial_putc put8
test_dec = refl

serial_put_dec-decimal_example :
    (ds : List ℕ) × (serial_put_dec 2048 (λ k. 7) (b'=' ∷ []) ≡ b'=' ∷ ds)
    × (decimal 0 ds ≡ 2048)
    × (are_digits ds ≡ true)
    × (0 < length ds)
    × (length ds ≤ 10)
    × ((digit_loop 2048 2048 0 (λ k. 7)).1 ≤ 10)
serial_put_dec-decimal_example = serial_put_dec-decimal 2048 (λ k. 7) (b'=' ∷ []) (omega arith)

-- A device that is busy after each byte until its status was read once; its state is whether it is
-- busy, and what has gone out.
abbrev uart : Uart (ℕ × Output)
uart = record {
  outb = λ port c st. if port == 0x3f8 then (1, st.1 ++ c ∷ []) else st;
  inb = λ port st. ((if st.0 == 0 then 0x20 else 0), (0, st.1));
}

gets_ready : (busy : ℕ) (out : Output) → (st' : ℕ × Output) × GetsReady uart 2 (busy, out) st'
gets_ready zero out = (_, now refl)
gets_ready (suc busy) out =
    let test : (suc busy == 0) ≡ false = ground arith in
    (_, later (rw test (omega arith)) (now refl))

uart-IsUart : IsUart uart (λ st. st.1) 2
uart-IsUart = record {
  sends = λ c gets. refl;
  quiet = λ st. refl;
  ready = λ st. gets_ready st.0 st.1;
}

port_puts-serial_puts_example :
    (st' : ℕ × Output) × (port_puts uart 2 (b'a' ∷ 10 ∷ []) (1, []) ≡ some st')
    × (st'.1 ≡ serial_puts (b'a' ∷ 10 ∷ []) [])
port_puts-serial_puts_example =
    port_puts-serial_puts uart (λ st. st.1) 2 uart-IsUart (b'a' ∷ 10 ∷ []) (1, [])
      (and_byte (omega arith) (and_byte (omega arith) none_left))
