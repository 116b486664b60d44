-- ===== src/Serial/Port.antt =====
-- serial_init, serial_putc and serial_puts of src/common/string.c at the port, whose instructions
-- outb and inb are a parameter.
pub mod Sends
use gemiboot.Base.{
  ℕ, zero, suc, ◌+◌, ◌/◌, ◌%◌, Option, none, some, List, [], ◌∷◌, ◌==◌, if◌then◌else◌,
}

-- The instructions, over a state of the device.
pub record Uart (S : Type 0) : Type 0 where
  pub outb : ℕ → ℕ → S → S
  pub inb : ℕ → S → ℕ × S

abbrev pub com1_port : ℕ
com1_port = 0x3f8

module _ {S : Type 0} (uart : Uart S) where
  unfoldable pub serial_init : S → S
  serial_init st =
      let s1 = uart.outb (com1_port + 3) 0x80 (uart.outb (com1_port + 1) 0x00 st) in
      let s2 = uart.outb (com1_port + 1) 0x00 (uart.outb (com1_port + 0) 0x03 s1) in
      let s3 = uart.outb (com1_port + 2) 0xc7 (uart.outb (com1_port + 3) 0x03 s2) in
      uart.outb (com1_port + 4) 0x0b s3

  -- The loop of serial_putc waits for bit 5; `none` means that the fuel ran out.
  unfoldable pub wait_empty : ℕ → S → Option S
  wait_empty zero st = none
  wait_empty (suc fuel) st =
      let (status, st') = uart.inb (com1_port + 5) st in
      let rest = wait_empty fuel st' in if status / 32 % 2 == 0 then rest else some st'

  unfoldable pub port_putc : ℕ → ℕ → S → Option S
  port_putc fuel c st = elim (wait_empty fuel st) [
    | none ↦ none
    | some ready ↦ some (uart.outb com1_port (c % 256) ready)
  ]

  -- serial_puts over the port. The string is the list of its bytes before the NUL.
  unfoldable pub port_puts : ℕ → List ℕ → S → Option S
  port_puts fuel [] st = some st
  port_puts fuel (c ∷ s) st = elim (if c == 10 then port_putc fuel 13 st else some st) [
    | none ↦ none
    | some returned ↦ elim (port_putc fuel c returned) [
      | none ↦ none
      | some sent ↦ port_puts fuel s sent
    ]
  ]
