-- ===== src/Serial.antt =====
-- kernel/drivers/serial.c: the first serial port, behind the ports of the machine `m`. A wait for the
-- transmitter takes fuel, and `none` means that it ran out. A string is the list of its characters.
pub mod Output
pub mod Line
mod Tests
use matryoshka_os.Prelude.{
  ℕ, zero, suc, ◌+◌, ◌-◌, ◌*◌, ◌/◌, ◌%◌, ◌^◌, bit_and, Bool, not, Option, none, some, List, [], ◌∷◌,
  leb, ◌==◌, if◌then◌else◌, ◌>>=◌,
}
use matryoshka_os.Io.{Machine}

-- COM1_PORT
abbrev pub com1 : ℕ
com1 = 0x3F8

-- '\r' and '\n'
abbrev pub carriage_return : ℕ
carriage_return = 13

abbrev pub newline : ℕ
newline = 10

-- "0123456789ABCDEF"[d]
abbrev pub hex_digit : ℕ → ℕ
hex_digit d = if leb d 9 then 48 + d else 55 + d

-- "[klog] "
abbrev pub klog_prefix : List ℕ
klog_prefix = 91 ∷ 107 ∷ 108 ∷ 111 ∷ 103 ∷ 93 ∷ 32 ∷ []

module _ (m : Machine) where
  open m use {State, outb, inb}

  -- The writes of `serial_init` before the test of the chip, and after it.
  pub set_up : State → State
  set_up s =
      let dlab = outb (outb s (com1 + 1) 0x00) (com1 + 3) 0x80 in
      let divisor = outb (outb dlab com1 0x03) (com1 + 1) 0x00 in
      let line = outb (outb (outb divisor (com1 + 3) 0x03) (com1 + 2) 0xC7) (com1 + 4) 0x0B in
      outb (outb line (com1 + 4) 0x1E) com1 0xAE

  -- -1 if the chip does not give back the byte that was sent around the loop.
  pub serial_init : State → ℕ × State
  unfolding set_up
  serial_init s =
      let r = inb (set_up s) com1 in
      if not (r.0 == 0xAE) then (2 ^ 32 - 1, r.1) else (0, outb r.1 (com1 + 4) 0x0F)

  pub is_transmit_empty : State → ℕ × State
  is_transmit_empty s = let r = inb s (com1 + 5) in (bit_and r.0 0x20, r.1)

  -- `while (serial_is_transmit_empty() == 0);`
  pub wait_empty : ℕ → State → Option State
  wait_empty zero s = none
  wait_empty (suc fuel) s =
      let r = is_transmit_empty s in
      let rest = wait_empty fuel r.1 in if r.0 == 0 then rest else some r.1

  pub putc : ℕ → State → ℕ → Option State
  putc fuel s c = wait_empty fuel s >>= λ t. some (outb t com1 c)

  pub puts : ℕ → State → List ℕ → Option State
  puts fuel s [] = some s
  puts fuel s (c ∷ cs) = do
    t ← (if c == newline then putc fuel s carriage_return else some s)
    u ← putc fuel t c
    puts fuel u cs

  pub println : ℕ → State → List ℕ → Option State
  println fuel s str = do t ← puts fuel s str; u ← putc fuel t carriage_return; putc fuel u newline

  -- The loop of `serial_put_hex32`, with `rounds` digits left.
  pub put_digits : ℕ → State → ℕ → ℕ → Option State
  put_digits fuel s v zero = some s
  put_digits fuel s v (suc rounds) = do
    t ← putc fuel s (hex_digit (bit_and (v / 2 ^ (rounds * 4)) 0xF))
    put_digits fuel t v rounds

  -- "0x" comes first.
  pub put_hex32 : ℕ → State → ℕ → Option State
  put_hex32 fuel s v = do t ← puts fuel s (48 ∷ 120 ∷ []); put_digits fuel t v 8

  pub klog : ℕ → State → List ℕ → Option State
  klog fuel s msg = do
    t ← puts fuel s klog_prefix
    u ← puts fuel t msg
    v ← putc fuel u carriage_return
    putc fuel v newline
