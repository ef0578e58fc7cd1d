-- ===== src/Io.antt =====
-- kernel/include/matryoshka/io.h: the instructions that read and write ports. What stands behind the
-- ports is no code: it is a parameter, with a state that both reads and writes may change.
pub mod Cells
use matryoshka_os.Prelude.{ℕ}

pub record Machine : Type 1 where
  pub State : Type 0
  pub outb : State → ℕ → ℕ → State
  pub inb : State → ℕ → ℕ × State
  pub outl : State → ℕ → ℕ → State
  pub inl : State → ℕ → ℕ × State

module _ (m : Machine) where
  open m use {State, outb}

  -- A write to an unused port, for the time it takes.
  unfoldable pub io_wait : State → State
  io_wait s = outb s 0x80 0
