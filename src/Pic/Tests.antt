-- ===== src/Pic/Tests.antt =====
-- Runs of the interrupt controllers' driver on ports that are cells of memory.
use matryoshka_os.Prelude.{ℕ, ◌<◌, ◌^◌, ◌≡◌, refl, arith, ◌==◌, if◌then◌else◌}
use matryoshka_os.Io.Cells.{cells}
use matryoshka_os.Io.{io_wait}
use matryoshka_os.Pic.{pic_init, write_words, send_eoi, enable_irq, get_mask}
use matryoshka_os.Pic.Mask.{Controllers}

cells_are_controllers : Controllers cells
cells_are_controllers = record {
  Ready = λ s. (p : ℕ) → s p < 2 ^ 8;
  read_keeps = λ s p r d. refl;
  read_byte = λ s p r d. r p;
  write_keeps = λ s p v r d h q. ground (arith, r q);
  read_written = λ s p v r d h. ground arith;
  read_other = λ s p q v r d e ne h. ground arith;
}

-- All lines are masked but the first.
abbrev one_open : ℕ → ℕ
one_open p = if p == 0x21 then 0xFE else 0xFF

all_masked : (get_mask cells (pic_init cells one_open)).0 ≡ 0xFFFF
unfolding get_mask pic_init write_words io_wait
all_masked = refl

second_acknowledged : send_eoi cells (λ p. 0) 12 0xA0 ≡ 0x20
unfolding send_eoi
second_acknowledged = refl

opens_keyboard : (get_mask cells (enable_irq cells one_open 1)).0 ≡ 0xFFFC
unfolding get_mask enable_irq
opens_keyboard = refl
