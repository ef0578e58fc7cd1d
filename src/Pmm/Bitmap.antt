-- ===== src/Pmm/Bitmap.antt =====
-- The three bitmap helpers of kernel/mm/pmm.c, seen frame by frame.
use Prim.Native.Nat.{max}
use native.Mathlib.Decide.{ℕ_discrete}
use matryoshka_os.Prelude.{
  ℕ, ◌-◌, ◌*◌, ◌/◌, ◌%◌, ◌^◌, ◌≤◌, ◌<◌, ◌≡◌, ap, bit_and, bit_or, true, false, not, arith, ◌==◌,
  if◌then◌else◌, length, get_or-set_self, get_or-set_ne,
}
use matryoshka_os.Prelude.Bits.{
  test_bit, test_bit-le-one, test_bit-bit_and, test_bit-bit_or, test_bit-pow_two,
  test_bit-complement, bit_and-pow_two, pow_two_pos, pow_two-lt,
}
use matryoshka_os.Pmm.{Pmm, word_of, bitmap_set, bitmap_clear, bitmap_test}

-- Bit `frame % 32` of the frame's word.
abbrev pub bit_of : Pmm → ℕ → ℕ
bit_of s frame = test_bit (word_of s frame) (frame % 32)

nonzero_product : (x b p : ℕ) → b ≤ 1 → x ≡ b * p → 0 < p → not (x == 0) ≡ (b == 1)
nonzero_product x b p h e k = elim (ℕ_discrete b 0) [
  | yes z ↦ rw z (ground (arith, ap (λ (t : ℕ). t * p) z))
  | no z ↦ let one : b ≡ 1 = omega arith in ground (arith, one, ap (λ (t : ℕ). t * p) one)
]

pub bitmap_test-eq-bit_of : (s : Pmm) (frame : ℕ) → bitmap_test s frame ≡ (bit_of s frame == 1)
unfolding bitmap_test
bitmap_test-eq-bit_of s frame =
    nonzero_product (bit_and (word_of s frame) (2 ^ (frame % 32))) (bit_of s frame)
      (2 ^ (frame % 32)) (test_bit-le-one (word_of s frame) (frame % 32))
      (bit_and-pow_two (word_of s frame) (frame % 32)) (pow_two_pos (frame % 32))

same_frame : (f g : ℕ) → f / 32 ≡ g / 32 → f % 32 ≡ g % 32 → f ≡ g
same_frame f g p q = omega arith

module _ (s : Pmm) (f g : ℕ) where
  bit_of-set :
      f / 32 < length s.frame_bitmap
      → bit_of (bitmap_set s f) g ≡ max (bit_of s g) (if f == g then 1 else 0)
  unfolding bitmap_set
  bit_of-set h = elim (ℕ_discrete (f / 32) (g / 32)) [
    | yes e ↦
        rw (← e, get_or-set_self s.frame_bitmap (f / 32) _ 0 h)
          (ground (
            arith,
            test_bit-bit_or (word_of s f) (2 ^ (f % 32)) (g % 32),
            test_bit-pow_two (f % 32) (g % 32),
            same_frame f g,
          ))
    | no n ↦
        rw (get_or-set_ne s.frame_bitmap (bit_or (word_of s f) (2 ^ (f % 32))) 0 n)
          (ground (arith, ap (λ (t : ℕ). t / 32) {x = f} {y = g}))
  ]

  bit_of-clear :
      f / 32 < length s.frame_bitmap
      → bit_of (bitmap_clear s f) g ≡ (if f == g then 0 else bit_of s g)
  unfolding bitmap_clear
  bit_of-clear h = elim (ℕ_discrete (f / 32) (g / 32)) [
    | yes e ↦
        rw (← e, get_or-set_self s.frame_bitmap (f / 32) _ 0 h)
          (ground (
            arith,
            test_bit-bit_and (word_of s f) (2 ^ 32 - 1 - 2 ^ (f % 32)) (g % 32),
            test_bit-complement 32 (2 ^ (f % 32)) (g % 32) (pow_two-lt (f % 32) 32 (omega arith))
                (omega arith),
            test_bit-pow_two (f % 32) (g % 32),
            test_bit-le-one (word_of s f) (g % 32),
            same_frame f g,
          ))
    | no n ↦
        rw (get_or-set_ne s.frame_bitmap (bit_and (word_of s f) (2 ^ 32 - 1 - 2 ^ (f % 32))) 0 n)
          (ground (arith, ap (λ (t : ℕ). t / 32) {x = f} {y = g}))
  ]

  -- Setting the bit of one frame sets the test of that frame and of no other.
  pub bitmap_test-set :
      f / 32 < length s.frame_bitmap
      → bitmap_test (bitmap_set s f) g ≡ (if f == g then true else bitmap_test s g)
  bitmap_test-set h =
      rw (bitmap_test-eq-bit_of, bitmap_test-eq-bit_of)
        (ground (arith, bit_of-set h, test_bit-le-one (word_of s g) (g % 32)))

  pub bitmap_test-clear :
      f / 32 < length s.frame_bitmap
      → bitmap_test (bitmap_clear s f) g ≡ (if f == g then false else bitmap_test s g)
  bitmap_test-clear h =
      rw (bitmap_test-eq-bit_of, bitmap_test-eq-bit_of)
        (ground (arith, bit_of-clear h, test_bit-le-one (word_of s g) (g % 32)))
