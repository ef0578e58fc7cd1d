-- ===== src/Vfs/Grow.antt =====
-- The loop in `ensure_capacity` of kernel/fs/ramfs.c.
use matryoshka_os.Prelude.{
  ℕ, zero, suc, ◌*◌, ◌%◌, ◌^◌, ◌≤◌, ◌<◌, ◌≡◌, refl, ap, ◌∙◌, inl, inr, Bool-cases, arith, ltb, true,
  false, some,
}
use native.Mathlib.Nat.{pow-suc, mul_assoc}
use matryoshka_os.Vfs.Ramfs.{grow}

grow_short :
    (fuel capacity needed : ℕ)
    → ltb capacity needed ≡ true
    → capacity * 2 % 2 ^ 32 ≡ capacity * 2
    → grow (suc fuel) capacity needed ≡ grow fuel (capacity * 2) needed
unfolding grow
grow_short fuel capacity needed short doubled = rw (short, doubled) refl

-- Enough doublings reach the size that is needed.
grow_within :
    (rounds capacity needed : ℕ)
    → 0 < capacity
    → needed ≤ capacity * 2 ^ rounds
    → needed ≤ 2 ^ 31
    → capacity < 2 ^ 32
    → (c : ℕ) × ((grow (suc rounds) capacity needed ≡ some c) × ((needed ≤ c) × (c < 2 ^ 32)))
unfolding grow
grow_within zero capacity needed pos reach small lt =
    let enough : ltb capacity needed ≡ false = ground arith in
    (capacity, (rw enough refl, (omega arith, lt)))
grow_within (suc rounds) capacity needed pos reach small lt =
    elim (Bool-cases (ltb capacity needed)) [
      | inl short ↦
          let doubled : capacity * 2 % 2 ^ 32 ≡ capacity * 2 = ground arith in
          let (c, (e, bounds)) =
            grow_within rounds (capacity * 2) needed (omega arith) (further reach) small
              (ground arith) in
          (c, (grow_short (suc rounds) capacity needed short doubled ∙ e, bounds))
      | inr enough ↦ (capacity, (rw enough refl, (ground arith, lt)))
    ]
  where
    further : needed ≤ capacity * 2 ^ suc rounds → needed ≤ capacity * 2 * 2 ^ rounds
    further h = omega (
      arith,
      h,
      ap (λ (p : ℕ). capacity * p) (pow-suc 2 rounds),
      mul_assoc capacity 2 (2 ^ rounds),
    )

-- The loop that doubles the capacity ends, within 32 rounds, with a capacity of at least the size
-- that is needed, if that is at most 2^31.
pub grow_lem :
    (capacity needed : ℕ)
    → 0 < capacity
    → capacity < 2 ^ 32
    → needed ≤ 2 ^ 31
    → (c : ℕ) × ((grow 33 capacity needed ≡ some c) × ((needed ≤ c) × (c < 2 ^ 32)))
grow_lem capacity needed pos lt small = grow_within 32 capacity needed pos (omega arith) small lt
