-- ===== src/Keyboard/Tests.antt =====
-- Runs of the keyboard driver, and its theorems at a concrete state.
use matryoshka_os.Prelude.{
  ℕ, zero, suc, ◌<◌, true, ◌≡◌, refl, false, not, ◌&&◌, arith, ◌==◌, ltb, if◌then◌else◌, [], ◌∷◌,
  ◌++◌, length,
}
use matryoshka_os.Keyboard.{
  Keyboard, irq_handler, buf_put, type_key, translate, is_shifted, is_caps, is_alpha, toggle_case,
  has_input, wait_char,
}
use matryoshka_os.Keyboard.Ring.{IsValid, queue}
use matryoshka_os.Keyboard.Wait.{after_waits, Took, wait_char_lem}
use matryoshka_os.Keyboard.Handler.{expected, typed_lem}

-- "ab" is in the ring, round its end; caps lock is on.
abbrev sample : Keyboard
sample = record {
  modifiers = 16;
  extended_pending = false;
  kb_buffer = λ i. if i == 255 then 97 else 98;
  kb_head = 1;
  kb_tail = 255;
  wait_func = 0;
}

sample-IsValid : IsValid sample
sample-IsValid = record { head_below = omega arith; tail_below = omega arith }

holds_ab : queue sample ≡ 97 ∷ 98 ∷ []
holds_ab = refl

-- The key A gives a capital.
types_capital : queue (irq_handler sample 0x1E) ≡ 97 ∷ 98 ∷ 65 ∷ []
unfolding irq_handler type_key translate buf_put is_alpha toggle_case
types_capital = refl

typed_lem_example :
    IsValid (irq_handler sample 0x1E)
    × (((irq_handler sample 0x1E).modifiers ≡ 16)
        × (queue (irq_handler sample 0x1E) ≡ (
            if not (expected (is_shifted sample) (is_caps sample) 0x1E == 0)
              && ltb (length (queue sample)) 255
            then queue sample ++ expected (is_shifted sample) (is_caps sample) 0x1E ∷ []
            else queue sample)))
typed_lem_example =
    typed_lem sample 0x1E sample-IsValid refl
      (omega arith, omega arith, omega arith, omega arith, omega arith, omega arith)

-- The ring is empty, and `task_yield`, at 0x100400, waits.
abbrev idle : Keyboard
idle = record sample { kb_head = 255; wait_func = 0x100400 }

-- During a yield the key A is pressed.
abbrev yields : ℕ → Keyboard → Keyboard
yields func s = irq_handler s 0x1E

idle-empty : (k : ℕ) → k < 1 → has_input (after_waits yields (λ s. s) k idle) ≡ false
unfolding has_input
idle-empty zero h = refl
idle-empty (suc k) h = absurd (omega arith)

comes : has_input (after_waits yields (λ s. s) 1 idle) ≡ true
unfolding has_input irq_handler type_key translate buf_put is_alpha toggle_case
comes = refl

wait_char_lem_example : Took (after_waits yields (λ s. s) 1 idle) (wait_char yields (λ s. s) 2 idle)
wait_char_lem_example =
    wait_char_lem yields (λ s. s) 1 2 idle idle-empty comes
      (typed_lem idle 0x1E (record { head_below = omega arith; tail_below = omega arith }) refl
        (omega arith, omega arith, omega arith, omega arith, omega arith, omega arith)).0
      (omega arith)
