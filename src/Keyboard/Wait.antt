-- ===== src/Keyboard/Wait.antt =====
-- The waiting loop of `keyboard_getchar` (kernel/drivers/keyboard.c).
use matryoshka_os.Prelude.{
  ℕ, zero, suc, ◌<◌, ◌≡◌, ◌==◌, inl, inr, true, false, arith, if◌then◌else◌, some, ◌∷◌, Option,
  subst, sym,
}
use matryoshka_os.Keyboard.{Keyboard, getchar, has_input, wait_char}
use matryoshka_os.Keyboard.Ring.{IsValid, queue, getchar_lem}

-- The driver after `n` rounds of the loop, each of which calls the wait function if one is set, and
-- halts if none is.
abbrev pub after_waits : (ℕ → Keyboard → Keyboard) → (Keyboard → Keyboard) → ℕ → Keyboard → Keyboard
after_waits call halt zero s = s
after_waits call halt (suc n) s =
    after_waits call halt n (if s.wait_func == 0 then halt s else call s.wait_func s)

-- A character was taken from the front of the queue of `s`, and the ring has stayed valid.
pub record Took (s : Keyboard) (r : Option (ℕ × Keyboard)) : Type 0 where
  pub char : ℕ
  pub left : Keyboard
  pub result : r ≡ some (char, left)
  pub first : queue s ≡ char ∷ queue left
  pub valid : IsValid left

module _ (call : ℕ → Keyboard → Keyboard) (halt : Keyboard → Keyboard) where
  waits :
      (fuel : ℕ) (s : Keyboard)
      → has_input s ≡ false
      → wait_char call halt (suc fuel) s
        ≡ wait_char call halt fuel (if s.wait_func == 0 then halt s else call s.wait_func s)
  unfolding wait_char has_input
  waits fuel s empty = ground (arith, empty)

  takes :
      (fuel : ℕ) (s : Keyboard) → has_input s ≡ true → wait_char call halt (suc fuel) s ≡ getchar s
  unfolding wait_char has_input
  takes fuel s full = ground (arith, full)

  taken : (s : Keyboard) → IsValid s → has_input s ≡ true → Took s (getchar s)
  taken s v full = elim (getchar_lem s v) [
    | inl (nothing, (none_held, empty)) ↦ absurd (ground (arith, full, empty))
    | inr (c, s', (e, (q, (v', held)))) ↦ record {
      char = c;
      left = s';
      result = e;
      first = q;
      valid = v';
    }
  ]

  -- `keyboard_getchar` returns as soon as a character has come: if `keyboard_has_input` is false before
  -- each of the first `n` waits and true after them, with the indices then inside the ring, the loop
  -- (with more fuel than `n`) waits exactly so often, by the wait function if one is set and by `hlt`
  -- if none is, and then takes the first character of the queue and leaves the rest.
  pub wait_char_lem :
      (n fuel : ℕ) (s : Keyboard)
      → ((k : ℕ) → k < n → has_input (after_waits call halt k s) ≡ false)
      → has_input (after_waits call halt n s) ≡ true
      → IsValid (after_waits call halt n s)
      → n < fuel
      → Took (after_waits call halt n s) (wait_char call halt fuel s)
  wait_char_lem n zero s empty full v enough = absurd (omega arith)
  wait_char_lem zero (suc fuel) s empty full v enough =
      subst (Took s) (sym (takes fuel s full)) (taken s v full)
  wait_char_lem (suc n) (suc fuel) s empty full v enough =
      subst (Took (after_waits call halt (suc n) s)) (sym (waits fuel s (empty 0 (omega arith)))) (
        wait_char_lem n fuel (if s.wait_func == 0 then halt s else call s.wait_func s)
          (λ k lt. empty (suc k) (omega arith)) full v (omega arith))
