-- ===== src/Prelude/Bits.antt =====
-- Bits of machine words. A word is a native number; `test_bit w i` is bit `i` of `w`, as a number.
-- The laws of `&`, `|` and `^` bit by bit, and of masks with a single bit.
use Prim.Native.Nat.{
  ℕ, zero, suc, ◌+◌, ◌-◌, ◌*◌, ◌/◌, ◌%◌, ◌^◌, ◌≤◌, ◌<◌, min, max, bit_and, bit_or, digits, bitwise,
  bit_and-bitwise, bit_or-bitwise,
}
use mathlib.Core.Path.{◌≡◌, refl, sym, ap, ◌∙◌}
use native.Mathlib.Omega.{arith}
use native.Mathlib.Nat.{pow-suc}
use matryoshka_os.Prelude.Tests.{◌==◌, if◌then◌else◌}

-- The recursion over binary digits that the native operations stand for, for any operation `op` on
-- a digit and any value `base` where the first operand has run out.
module _ (base : ℕ → ℕ) (op : ℕ → ℕ → ℕ) where
  digits_end : (fuel y : ℕ) → digits base op fuel 0 y ≡ base y
  digits_end zero y = refl
  digits_end (suc fuel) y = refl

  -- Any two amounts of fuel that reach the first operand give one value.
  digits_enough : (x y p q : ℕ) → x ≤ p → x ≤ q → digits base op p x y ≡ digits base op q x y
  digits_enough zero y p q hp hq = digits_end p y ∙ sym (digits_end q y)
  digits_enough (suc x) y zero q hp hq = absurd (omega arith)
  digits_enough (suc x) y (suc p) zero hp hq = absurd (omega arith)
  digits_enough (suc x) y (suc p) (suc q) hp hq =
      ap (λ rest. rest * 2 + op (suc x % 2) (y % 2))
        (digits_enough (suc x / 2) (y / 2) p q (omega arith) (omega arith))

  -- The lowest digit, and the rest.
  lowest_digit :
      ((y : ℕ) → base y ≡ base (y / 2) * 2 + op 0 (y % 2))
      → (x y : ℕ) → bitwise base op x y ≡ bitwise base op (x / 2) (y / 2) * 2 + op (x % 2) (y % 2)
  lowest_digit law zero y = law y
  lowest_digit law (suc x) y =
      ap (λ rest. rest * 2 + op (suc x % 2) (y % 2))
        (digits_enough (suc x / 2) (y / 2) x (suc x / 2) (omega arith) (omega arith))

pub bit_and_step : (a b : ℕ) → bit_and a b ≡ bit_and (a / 2) (b / 2) * 2 + min (a % 2) (b % 2)
bit_and_step a b =
    rw (bit_and-bitwise a b, bit_and-bitwise (a / 2) (b / 2))
      (lowest_digit (λ y. 0) min (λ y. omega arith) a b)

pub bit_or_step : (a b : ℕ) → bit_or a b ≡ bit_or (a / 2) (b / 2) * 2 + max (a % 2) (b % 2)
bit_or_step a b =
    rw (bit_or-bitwise a b, bit_or-bitwise (a / 2) (b / 2))
      (lowest_digit (λ y. y) max (λ y. omega arith) a b)

pub zero-bit_and : (b : ℕ) → bit_and 0 b ≡ 0
zero-bit_and b = bit_and-bitwise 0 b

pub zero-bit_or : (b : ℕ) → bit_or 0 b ≡ b
zero-bit_or b = bit_or-bitwise 0 b

-- Bit `i` of `w`, 0 or 1.
abbrev pub test_bit : ℕ → ℕ → ℕ
test_bit w zero = w % 2
test_bit w (suc i) = test_bit (w / 2) i

pub test_bit-le-one : (w i : ℕ) → test_bit w i ≤ 1
test_bit-le-one w zero = omega arith
test_bit-le-one w (suc i) = test_bit-le-one (w / 2) i

pub test_bit-bit_and : (a b i : ℕ) → test_bit (bit_and a b) i ≡ min (test_bit a i) (test_bit b i)
test_bit-bit_and a b zero = omega (arith, bit_and_step a b)
test_bit-bit_and a b (suc i) =
    let half : bit_and a b / 2 ≡ bit_and (a / 2) (b / 2) = omega (arith, bit_and_step a b) in
    rw half (test_bit-bit_and (a / 2) (b / 2) i)

pub test_bit-bit_or : (a b i : ℕ) → test_bit (bit_or a b) i ≡ max (test_bit a i) (test_bit b i)
test_bit-bit_or a b zero = omega (arith, bit_or_step a b)
test_bit-bit_or a b (suc i) =
    let half : bit_or a b / 2 ≡ bit_or (a / 2) (b / 2) = omega (arith, bit_or_step a b) in
    rw half (test_bit-bit_or (a / 2) (b / 2) i)

pow_two_half : (b : ℕ) → 2 ^ suc b / 2 ≡ 2 ^ b
pow_two_half b = omega (arith, pow-suc 2 b)

test_bit-zero : (i : ℕ) → test_bit 0 i ≡ 0
test_bit-zero zero = refl
test_bit-zero (suc i) = test_bit-zero i

pub pow_two_pos : (n : ℕ) → 0 < 2 ^ n
pow_two_pos zero = omega arith
pow_two_pos (suc n) = omega (arith, pow-suc 2 n, pow_two_pos n)

-- The mask `1 << b` has bit `b` and no other.
pub test_bit-pow_two : (b i : ℕ) → test_bit (2 ^ b) i ≡ (if b == i then 1 else 0)
test_bit-pow_two zero zero = refl
test_bit-pow_two zero (suc i) = test_bit-zero i ∙ ground arith
test_bit-pow_two (suc b) zero = ground (arith, pow-suc 2 b)
test_bit-pow_two (suc b) (suc i) = rw (pow_two_half b) (test_bit-pow_two b i ∙ ground arith)

-- The complement of a word of `n` bits, `~x`, bit by bit.
pub test_bit-complement :
    (n x i : ℕ) → x < 2 ^ n → i < n → test_bit (2 ^ n - 1 - x) i ≡ 1 - test_bit x i
test_bit-complement zero x i h k = absurd (omega arith)
test_bit-complement (suc n) x zero h k = omega (arith, pow-suc 2 n)
test_bit-complement (suc n) x (suc i) h k =
    let half : (2 ^ suc n - 1 - x) / 2 ≡ 2 ^ n - 1 - x / 2 = omega (arith, pow-suc 2 n) in
    rw half (test_bit-complement n (x / 2) i (omega (arith, pow-suc 2 n)) (omega arith))

-- Halving ends at 0, so each of the two laws for a second operand 0 goes down to `0 op 0`.
bit_and-zero_below : (bound x : ℕ) → x < bound → bit_and x 0 ≡ 0
bit_and-zero_below bound zero h = zero-bit_and 0
bit_and-zero_below zero (suc x) h = absurd (omega arith)
bit_and-zero_below (suc bound) (suc x) h =
    bit_and_step (suc x) 0 ∙ omega (arith, bit_and-zero_below bound (suc x / 2) (omega arith))

pub bit_and-zero : (x : ℕ) → bit_and x 0 ≡ 0
bit_and-zero x = bit_and-zero_below (suc x) x (omega arith)

bit_or-zero_below : (bound x : ℕ) → x < bound → bit_or x 0 ≡ x
bit_or-zero_below bound zero h = zero-bit_or 0
bit_or-zero_below zero (suc x) h = absurd (omega arith)
bit_or-zero_below (suc bound) (suc x) h =
    bit_or_step (suc x) 0 ∙ omega (arith, bit_or-zero_below bound (suc x / 2) (omega arith))

pub bit_or-zero : (x : ℕ) → bit_or x 0 ≡ x
bit_or-zero x = bit_or-zero_below (suc x) x (omega arith)

bit_or_comm_below : (bound a b : ℕ) → a < bound → bit_or a b ≡ bit_or b a
bit_or_comm_below bound zero b h = zero-bit_or b ∙ sym (bit_or-zero b)
bit_or_comm_below zero (suc a) b h = absurd (omega arith)
bit_or_comm_below (suc bound) (suc a) b h = omega (
  arith,
  bit_or_step (suc a) b,
  bit_or_step b (suc a),
  bit_or_comm_below bound (suc a / 2) (b / 2) (omega arith),
)

pub bit_or_comm : (a b : ℕ) → bit_or a b ≡ bit_or b a
bit_or_comm a b = bit_or_comm_below (suc a) a b (omega arith)

-- `w & (1 << b)` is bit `b` of `w`, in its place.
pub bit_and-pow_two : (w b : ℕ) → bit_and w (2 ^ b) ≡ test_bit w b * 2 ^ b
bit_and-pow_two w zero = omega (arith, bit_and_step w 1, bit_and-zero (w / 2))
bit_and-pow_two w (suc b) =
    let lower : bit_and (w / 2) (2 ^ b) ≡ test_bit (w / 2) b * 2 ^ b = bit_and-pow_two (w / 2) b in
    let step : bit_and w (2 ^ suc b) ≡ bit_and (w / 2) (2 ^ b) * 2 =
      rw (← pow_two_half b) (omega (arith, bit_and_step w (2 ^ suc b), pow-suc 2 b)) in
    omega (
      arith,
      step,
      ap (λ (t : ℕ). t * 2) lower,
      pow-suc 2 b,
      ap (λ (t : ℕ). test_bit (w / 2) b * t) (pow-suc 2 b),
    )

-- Fields that do not overlap: `|` is `+`.
pub bit_or-add : (k hi lo : ℕ) → lo < 2 ^ k → bit_or (hi * 2 ^ k) lo ≡ hi * 2 ^ k + lo
bit_or-add zero hi lo h =
    let lo0 : lo ≡ 0 = omega arith in rw lo0 (omega (arith, bit_or-zero (hi * 1)))
bit_or-add (suc k) hi lo h =
    let hi_half : hi * 2 ^ suc k / 2 ≡ hi * 2 ^ k =
      omega (arith, ap (λ (t : ℕ). hi * t) (pow-suc 2 k)) in
    let rest : bit_or (hi * 2 ^ suc k / 2) (lo / 2) ≡ hi * 2 ^ k + lo / 2 =
      rw hi_half (bit_or-add k hi (lo / 2) (omega (arith, pow-suc 2 k))) in
    omega (arith, rest, bit_or_step (hi * 2 ^ suc k) lo, ap (λ (t : ℕ). hi * t) (pow-suc 2 k))

pub bit_or-lt : (n a b : ℕ) → a < 2 ^ n → b < 2 ^ n → bit_or a b < 2 ^ n
bit_or-lt zero a b ha hb =
    let a0 : a ≡ 0 = omega arith in let b0 : b ≡ 0 = omega arith in rw (a0, b0) (omega arith)
bit_or-lt (suc n) a b ha hb = omega (
  arith,
  pow-suc 2 n,
  bit_or_step a b,
  bit_or-lt n (a / 2) (b / 2) (omega (arith, pow-suc 2 n)) (omega (arith, pow-suc 2 n)),
)

pub bit_and-le : (n a b : ℕ) → a ≤ n → bit_and a b ≤ a
bit_and-le n zero b h = omega (arith, zero-bit_and b)
bit_and-le zero (suc a) b h = absurd (omega arith)
bit_and-le (suc n) (suc a) b h =
    omega (arith, bit_and_step (suc a) b, bit_and-le n (suc a / 2) (b / 2) (omega arith))

pub pow_two-lt : (b n : ℕ) → b < n → 2 ^ b < 2 ^ n
pow_two-lt b zero h = absurd (omega arith)
pow_two-lt zero (suc zero) h = omega arith
pow_two-lt zero (suc (suc n)) h =
    omega (arith, pow-suc 2 (suc n), pow_two-lt zero (suc n) (omega arith))
pow_two-lt (suc b) (suc n) h = omega (arith, pow-suc 2 n, pow-suc 2 b, pow_two-lt b n (omega arith))

-- A word of `n` bits that are all set is the word of ones.
pub all_ones : (n w : ℕ) → w < 2 ^ n → ((i : ℕ) → i < n → test_bit w i ≡ 1) → w ≡ 2 ^ n - 1
all_ones zero w h ones = omega arith
all_ones (suc n) w h ones =
    let rest : w / 2 ≡ 2 ^ n - 1 =
      all_ones n (w / 2) (omega (arith, pow-suc 2 n)) (λ i p. ones (suc i) (omega arith)) in
    omega (arith, rest, ones 0 (omega arith), pow-suc 2 n)

pub test_bit_all_ones : (n i : ℕ) → i < n → test_bit (2 ^ n - 1) i ≡ 1
test_bit_all_ones n i h =
    let none_set : test_bit (2 ^ n - 1 - 0) i ≡ 1 - test_bit 0 i =
      test_bit-complement n 0 i (pow_two_pos n) h in
    let whole : 2 ^ n - 1 - 0 ≡ 2 ^ n - 1 = omega arith in
    rw whole at (none_set ∙ ap (λ (t : ℕ). 1 - t) (test_bit-zero i))

-- A word of two parts: the bits below `k` are those of the lower part, the others the upper part's.
pub test_bit_low :
    (k hi lo i : ℕ) → lo < 2 ^ k → i < k → test_bit (hi * 2 ^ k + lo) i ≡ test_bit lo i
test_bit_low zero hi lo i h p = absurd (omega arith)
test_bit_low (suc k) hi lo zero h p = omega (arith, ap (λ (t : ℕ). hi * t) (pow-suc 2 k))
test_bit_low (suc k) hi lo (suc i) h p =
    let half : (hi * 2 ^ suc k + lo) / 2 ≡ hi * 2 ^ k + lo / 2 =
      omega (arith, ap (λ (t : ℕ). hi * t) (pow-suc 2 k)) in
    rw half (test_bit_low k hi (lo / 2) i (omega (arith, pow-suc 2 k)) (omega arith))

pub test_bit_high :
    (k hi lo i : ℕ) → lo < 2 ^ k → test_bit (hi * 2 ^ k + lo) (k + i) ≡ test_bit hi i
test_bit_high zero hi lo i h =
    let whole : hi * 2 ^ 0 + lo ≡ hi = omega arith in
    let index : 0 + i ≡ i = omega arith in rw (whole, index) refl
test_bit_high (suc k) hi lo i h =
    let half : (hi * 2 ^ suc k + lo) / 2 ≡ hi * 2 ^ k + lo / 2 =
      omega (arith, ap (λ (t : ℕ). hi * t) (pow-suc 2 k)) in
    let index : suc k + i ≡ suc (k + i) = omega arith in
    ap (λ (j : ℕ). test_bit (hi * 2 ^ suc k + lo) j) index
    ∙ (ap (λ (w : ℕ). test_bit w (k + i)) half
        ∙ test_bit_high k hi (lo / 2) i (omega (arith, pow-suc 2 k)))
