-- ===== src/Prelude/Fields.antt =====
-- Masks of several bits: the lowest bits of a word, and a field further up.
use Prim.Native.Nat.{ℕ, zero, suc, ◌+◌, ◌-◌, ◌*◌, ◌/◌, ◌%◌, ◌^◌, bit_and, bit_or}
use mathlib.Core.Path.{◌≡◌, refl, sym, ap, ◌∙◌}
use native.Mathlib.Omega.{arith}
use native.Mathlib.Nat.{pow-suc, div-div-eq-div-mul, mod-add-div, div-one}
use matryoshka_os.Prelude.Bits.{bit_and_step, bit_or_step, bit_and-zero, pow_two_pos}

div-pow_two : (k x : ℕ) → x / 2 ^ suc k ≡ x / 2 / 2 ^ k
div-pow_two k x =
    ap (λ (p : ℕ). x / p) (pow-suc 2 k ∙ omega arith) ∙ sym (div-div-eq-div-mul x 2 (2 ^ k))

mod-pow_two : (k x : ℕ) → x % 2 ^ suc k ≡ x / 2 % 2 ^ k * 2 + x % 2
mod-pow_two k x = omega (
  arith,
  mod-add-div x (2 ^ suc k),
  mod-add-div (x / 2) (2 ^ k),
  ap (λ (q : ℕ). 2 ^ suc k * q) (div-pow_two k x),
  ap (λ (p : ℕ). p * (x / 2 / 2 ^ k)) (pow-suc 2 k),
)

-- The lowest `k` bits.
pub bit_and-ones : (k x : ℕ) → bit_and x (2 ^ k - 1) ≡ x % 2 ^ k
bit_and-ones zero x = bit_and-zero x ∙ omega arith
bit_and-ones (suc k) x =
    let half : (2 ^ suc k - 1) / 2 ≡ 2 ^ k - 1 = omega (arith, pow-suc 2 k, pow_two_pos k) in
    let odd : (2 ^ suc k - 1) % 2 ≡ 1 = omega (arith, pow-suc 2 k, pow_two_pos k) in
    omega (
      arith,
      bit_and_step x (2 ^ suc k - 1),
      ap (λ (m : ℕ). bit_and (x / 2) m) half ∙ bit_and-ones k (x / 2),
      odd,
      mod-pow_two k x,
    )

-- The `m` bits above the lowest `k`.
pub bit_and-field : (k m x : ℕ) → bit_and x ((2 ^ m - 1) * 2 ^ k) ≡ x / 2 ^ k % 2 ^ m * 2 ^ k
bit_and-field zero m x =
    ap (λ (t : ℕ). bit_and x t) (omega arith) ∙ bit_and-ones m x ∙ rw (div-one x) (omega arith)
bit_and-field (suc k) m x =
    let half : (2 ^ m - 1) * 2 ^ suc k / 2 ≡ (2 ^ m - 1) * 2 ^ k =
      omega (arith, ap (λ (t : ℕ). (2 ^ m - 1) * t) (pow-suc 2 k)) in
    let even : (2 ^ m - 1) * 2 ^ suc k % 2 ≡ 0 =
      omega (arith, ap (λ (t : ℕ). (2 ^ m - 1) * t) (pow-suc 2 k)) in
    omega (
      arith,
      bit_and_step x ((2 ^ m - 1) * 2 ^ suc k),
      ap (λ (t : ℕ). bit_and (x / 2) t) half ∙ bit_and-field k m (x / 2),
      even,
      ap (λ (q : ℕ). q % 2 ^ m * 2 ^ suc k) (div-pow_two k x),
      ap (λ (p : ℕ). x / 2 / 2 ^ k % 2 ^ m * p) (pow-suc 2 k),
    )

-- The bits above the lowest `k` of an `|`.
pub div-bit_or : (k a b : ℕ) → bit_or a b / 2 ^ k ≡ bit_or (a / 2 ^ k) (b / 2 ^ k)
div-bit_or zero a b = rw (div-one a, div-one b, div-one (bit_or a b)) refl
div-bit_or (suc k) a b =
    let half : bit_or a b / 2 ≡ bit_or (a / 2) (b / 2) = omega (arith, bit_or_step a b) in
    rw (div-pow_two k (bit_or a b), div-pow_two k a, div-pow_two k b, half)
      (div-bit_or k (a / 2) (b / 2))
