-- ===== src/Shell/Digits.antt =====
-- kernel/shell.c: `print_uint` prints the decimal digits of its argument.
use native.Mathlib.Decide.{ℕ_discrete}
use matryoshka_os.Prelude.{
  ℕ, zero, suc, ◌+◌, ◌-◌, ◌*◌, ◌/◌, ◌%◌, ◌^◌, ◌<◌, ◌≤◌, ◌≡◌, ◌≢◌, refl, sym, ap, ◌∙◌, subst, arith,
  List, [], ◌∷◌, length, ==_eq, ==_ne,
}
use matryoshka_os.Vga.{Vga, put_chars}
use matryoshka_os.Shell.{digits_of, print_uint}

-- The number that digits stand for after the number `acc`.
abbrev pub decimal_value : ℕ → List ℕ → ℕ
decimal_value acc [] = acc
decimal_value acc (d ∷ ds) = decimal_value (acc * 10 + (d - 48)) ds

-- Digits alone, and no needless 0 in front.
abbrev pub AllDigits : List ℕ → Type 0
AllDigits [] = Unit
AllDigits (d ∷ ds) = (48 ≤ d) × (d ≤ 57) × AllDigits ds

abbrev pub NoZeroFirst : List ℕ → Type 0
NoZeroFirst [] = Unit
NoZeroFirst (d ∷ ds) = d ≢ 48

digits_zero : (fuel : ℕ) (buf : List ℕ) → digits_of fuel 0 buf ≡ buf
unfolding digits_of
digits_zero zero buf = refl
digits_zero (suc fuel) buf = refl

digits_step :
    (fuel n : ℕ) (buf : List ℕ)
    → n ≢ 0
    → digits_of (suc fuel) n buf ≡ digits_of fuel (n / 10) ((48 + n % 10) ∷ buf)
unfolding digits_of
digits_step fuel n buf h = rw (==_ne n 0 h) refl

tenth : (n fuel : ℕ) → n < 10 ^ suc fuel → n / 10 < 10 ^ fuel
tenth n fuel h = let power : 10 ^ suc fuel ≡ 10 ^ fuel * 10 = omega arith in omega (arith, h, power)

digits_value :
    (fuel n : ℕ) (buf : List ℕ)
    → n < 10 ^ fuel
    → decimal_value 0 (digits_of fuel n buf) ≡ decimal_value n buf
unfolding digits_of
digits_value zero n buf h = let none_left : n ≡ 0 = omega (arith, h) in rw none_left refl
digits_value (suc fuel) n buf h = elim (ℕ_discrete n 0) [
  | yes e ↦ rw (e, digits_zero (suc fuel) buf) refl
  | no ne ↦
      let rest : decimal_value (n / 10) ((48 + n % 10) ∷ buf) ≡ decimal_value n buf =
        ap (λ (k : ℕ). decimal_value k buf) (omega arith) in
      ap (decimal_value 0) (digits_step fuel n buf ne)
      ∙ (digits_value fuel (n / 10) ((48 + n % 10) ∷ buf) (tenth n fuel h) ∙ rest)
]

digits_all : (fuel n : ℕ) (buf : List ℕ) → AllDigits buf → AllDigits (digits_of fuel n buf)
unfolding digits_of
digits_all zero n buf h = h
digits_all (suc fuel) n buf h = elim (ℕ_discrete n 0) [
  | yes e ↦ rw (e, digits_zero (suc fuel) buf) h
  | no ne ↦
      rw (==_ne n 0 ne)
        (digits_all fuel (n / 10) ((48 + n % 10) ∷ buf) (omega arith, omega arith, h))
]

digits_first :
    (fuel n : ℕ) (buf : List ℕ) → n ≢ 0 → n < 10 ^ fuel → NoZeroFirst (digits_of fuel n buf)
unfolding digits_of
digits_first zero n buf some_left h = absurd (some_left (omega (arith, h)))
digits_first (suc fuel) n buf some_left h = elim (ℕ_discrete (n / 10) 0) [
  | yes e ↦
      let last : digits_of (suc fuel) n buf ≡ (48 + n % 10) ∷ buf =
        digits_step fuel n buf some_left
        ∙ (ap (λ (k : ℕ). digits_of fuel k ((48 + n % 10) ∷ buf)) e
            ∙ digits_zero fuel ((48 + n % 10) ∷ buf)) in
      subst NoZeroFirst (sym last) (λ z. some_left (omega arith))
  | no ne ↦
      subst NoZeroFirst (sym (digits_step fuel n buf some_left))
        (digits_first fuel (n / 10) ((48 + n % 10) ∷ buf) ne (tenth n fuel h))
]

length-digits_of : (fuel n : ℕ) (buf : List ℕ) → length (digits_of fuel n buf) ≤ fuel + length buf
unfolding digits_of
length-digits_of zero n buf = omega arith
length-digits_of (suc fuel) n buf =
    let rest = length-digits_of fuel (n / 10) ((48 + n % 10) ∷ buf) in
    elim (ℕ_discrete n 0) [
      | yes e ↦ rw (==_eq n 0 e) (omega arith)
      | no ne ↦ rw (==_ne n 0 ne) (omega arith)
    ]

-- `print_uint` of a 64-bit number prints a text of decimal digits whose value is the number; of 0 it
-- is the digit 0, of any other number it does not start with 0. The digits fit into the 21 characters
-- of its buffer.
pub print_uint_lem :
    (v : Vga) (n : ℕ)
    → n < 2 ^ 64
    → (ds : List ℕ) × (print_uint v n ≡ put_chars v ds)
      × AllDigits ds
      × (decimal_value 0 ds ≡ n)
      × (length ds ≤ 21)
      × ((n ≡ 0 → ds ≡ 48 ∷ []) × (n ≢ 0 → NoZeroFirst ds))
unfolding print_uint put_chars
print_uint_lem v n h = elim (ℕ_discrete n 0) [
  | yes e ↦ (
    48 ∷ [],
    rw (==_eq n 0 e) refl,
    (omega arith, omega arith, _),
    sym e,
    omega arith,
    (λ z. refl, λ ne. absurd (ne e)),
  )
  | no ne ↦ (
    digits_of 20 n [],
    rw (==_ne n 0 ne) refl,
    digits_all 20 n [] _,
    digits_value 20 n [] (omega arith),
    omega (arith, length-digits_of 20 n []),
    (λ e. absurd (ne e), λ z. digits_first 20 n [] ne (omega arith)),
  )
]
