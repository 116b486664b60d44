-- ===== src/Serial/Port/Sends.antt =====
-- The text that goes out at the port is the output that the loaders' models keep.
use gemiboot.Base.{
  true, false, ◌∙◌, ap, ℕ, suc, ◌/◌, ◌%◌, ◌≡◌, ◌<◌, inl, inr, refl, arith, ◌==◌, Bool-cases, List,
  [], ◌∷◌, some, ◌++◌,
}
use gemiboot.Serial.{Output, serial_putc, serial_puts}
use gemiboot.Serial.Port.{Uart, wait_empty, port_putc, port_puts}

abbrev pub IsEmpty : ℕ → Type 0
IsEmpty status = status / 32 % 2 ≡ 1

-- Bit 5 of the line status register says that the device takes a byte. Of up to `fuel` reads from
-- the state `st` on, the first that shows it leaves the state `st'`.
pub data GetsReady {S : Type 0} (uart : Uart S) : ℕ → S → S → Type 0 where
  now :
      {fuel : ℕ} {st : S}
      → IsEmpty (uart.inb 0x3fd st).0
      → GetsReady uart (suc fuel) st (uart.inb 0x3fd st).1
  later :
      {fuel : ℕ} {st st' : S}
      → ¬ IsEmpty (uart.inb 0x3fd st).0
      → GetsReady uart fuel (uart.inb 0x3fd st).1 st'
      → GetsReady uart (suc fuel) st st'

-- A device that has sent the bytes `sent st`: a byte that is written to its data register when its
-- status showed it ready goes out, a read sends nothing, and from each state one of at most `fuel`
-- reads shows it ready.
pub record IsUart {S : Type 0} (uart : Uart S) (sent : S → Output) (fuel : ℕ) : Type 0 where
  pub sends :
      {n : ℕ} {before st : S} (c : ℕ)
      → GetsReady uart n before st
      → sent (uart.outb 0x3f8 c st) ≡ sent st ++ c ∷ []
  pub quiet : (st : S) → sent (uart.inb 0x3fd st).1 ≡ sent st
  pub ready : (st : S) → (st' : S) × GetsReady uart fuel st st'

-- The characters of a string.
pub data AllBytes : List ℕ → Type 0 where
  none_left : AllBytes []
  and_byte : {c : ℕ} {s : List ℕ} → c < 256 → AllBytes s → AllBytes (c ∷ s)

module _ {S : Type 0} (uart : Uart S) (sent : S → Output) (fuel : ℕ)
    (is : IsUart uart sent fuel) where
  -- The loop of serial_putc stops at the first read that shows the device ready.
  wait_empty-ready :
      {n : ℕ} {st st' : S}
      → GetsReady uart n st st'
      → (wait_empty uart n st ≡ some st') × (sent st' ≡ sent st)
  unfolding wait_empty
  wait_empty-ready {st} (now e) =
      let test : ((uart.inb 0x3fd st).0 / 32 % 2 == 0) ≡ false = ground (arith, e) in
      (rw (wait_empty, test) refl, is.quiet st)
  wait_empty-ready {st} (later busy rest) =
      let test : ((uart.inb 0x3fd st).0 / 32 % 2 == 0) ≡ true = ground (arith, busy) in
      let (waits, same) = wait_empty-ready rest in (rw (wait_empty, test) waits, same ∙ is.quiet st)

  port_putc-sends :
      (c : ℕ) (st : S)
      → c < 256
      → (st' : S) × (port_putc uart fuel c st ≡ some st') × (sent st' ≡ serial_putc c (sent st))
  unfolding port_putc serial_putc
  port_putc-sends c st small =
      let (ready, gets) = is.ready st in
      let (waits, same) = wait_empty-ready gets in
      let exact : c % 256 ≡ c = omega arith in
      rw (port_putc, waits, exact)
        (_, refl, is.sends c gets ∙ ap (λ (o : Output). o ++ c ∷ []) same)

  -- On a device that sends a byte only where bit 5 of its status register showed it ready, and that
  -- shows so within some number of reads, serial_puts ends, with any string of bytes, and the port
  -- has sent what the model of serial_puts adds to the output: the bytes of the string, with a
  -- carriage return in front of each newline.
  pub port_puts-serial_puts :
      (s : List ℕ) (st : S)
      → AllBytes s
      → (st' : S) × (port_puts uart fuel s st ≡ some st') × (sent st' ≡ serial_puts s (sent st))
  unfolding port_puts serial_puts
  port_puts-serial_puts [] st bytes = (st, refl, refl)
  port_puts-serial_puts (c ∷ s) st (and_byte small bytes) = elim (Bool-cases (c == 10)) [
    | inl newline ↦
        let (st1, returns, out1) = port_putc-sends 13 st (omega arith) in
        let (st2, puts, out2) = port_putc-sends c st1 small in
        let (st3, rest, out3) = port_puts-serial_puts s st2 bytes in
        rw (newline, port_puts, returns, puts)
          (st3, rest, out3 ∙ ap (serial_puts s) (out2 ∙ ap (serial_putc c) out1))
    | inr other ↦
        let (st2, puts, out2) = port_putc-sends c st small in
        let (st3, rest, out3) = port_puts-serial_puts s st2 bytes in
        rw (other, port_puts, puts) (st3, rest, out3 ∙ ap (serial_puts s) out2)
  ]
