-- ===== src/Serial/Line.antt =====
-- A transmitter on which the driver of kernel/drivers/serial.c can run: it records what it sends.
use matryoshka_os.Prelude.{
  ℕ, ◌-◌, refl, arith, List, [], ◌∷◌, ◌++◌, ◌==◌, if◌then◌else◌, ==_eq, ==_ne,
}
use matryoshka_os.Io.{Machine}
use matryoshka_os.Serial.Output.{Transmitter}

pub record Line : Type 0 where
  pub out : List ℕ
  pub polls : ℕ
  pub echo : ℕ

-- Each byte keeps the transmitter busy for two polls.
abbrev pub line_machine : Machine
line_machine = record {
  State = Line;
  outb = λ s p v. if p == 0x3F8 then record s { out = s.out ++ v ∷ []; polls = 2; echo = v } else s;
  inb = λ s p.
      if p == 0x3FD
      then (if s.polls == 0 then 0x20 else 0, record s { polls = s.polls - 1 })
      else (s.echo, s);
  outl = λ s p v. s;
  inl = λ s p. (0, s);
}

unfoldable pub line_transmitter : Transmitter line_machine
line_transmitter = record {
  sent = λ s. s.out;
  busy = λ s. s.polls;
  longest = 2;
  poll_sent = λ s. refl;
  poll_busy = λ s. refl;
  poll_full = λ s h. rw (==_ne s.polls 0 h) refl;
  poll_empty = λ s h. rw (==_eq s.polls 0 h) (λ e. absurd (omega arith));
  write_sent = λ s v h. refl;
  write_busy = λ s v h. omega arith;
}

abbrev pub idle_line : Line
idle_line = record { out = []; polls = 0; echo = 0 }
