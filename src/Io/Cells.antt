-- ===== src/Io/Cells.antt =====
-- A machine whose ports are cells of memory, on which the drivers can run.
use matryoshka_os.Prelude.{ℕ, update}
use matryoshka_os.Io.{Machine}

abbrev pub cells : Machine
cells = record {
  State = ℕ → ℕ;
  outb = update;
  inb = λ s p. (s p, s);
  outl = update;
  inl = λ s p. (s p, s);
}
