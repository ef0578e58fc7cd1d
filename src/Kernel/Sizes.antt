-- ===== src/Kernel/Sizes.antt =====
-- kernel/kernel.c: the text of a size says its number of whole units.
use native.Mathlib.Decide.{dec_lt}
use matryoshka_os.Prelude.{
  ℕ, ◌+◌, ◌*◌, ◌/◌, ◌%◌, ◌<◌, ◌≤◌, ◌≡◌, refl, arith, true, false, List, [], ◌∷◌, ◌++◌, leb,
}
use matryoshka_os.Shell.Digits.{AllDigits, decimal_value}
use matryoshka_os.Kernel.{format_memory_size}

-- The text is the number in decimal, a space, the unit's letter and a B.
pub record Says (text : List ℕ) (number letter : ℕ) : Type 0 where
  pub digits : List ℕ
  pub text_is : text ≡ digits ++ (32 ∷ letter ∷ 66 ∷ [])
  pub are_digits : AllDigits digits
  pub value : decimal_value 0 digits ≡ number

-- Two, three or four digits.
two :
    (n letter : ℕ) → n < 100 → Says ((48 + n / 10) ∷ (48 + n % 10) ∷ 32 ∷ letter ∷ 66 ∷ []) n letter
two n letter h = record {
  digits = (48 + n / 10) ∷ (48 + n % 10) ∷ [];
  text_is = refl;
  are_digits = (omega arith, omega arith, (omega arith, omega arith, _));
  value = omega arith;
}

three :
    (n letter : ℕ)
    → n < 1000
    → Says ((48 + n / 100) ∷ (48 + n / 10 % 10) ∷ (48 + n % 10) ∷ 32 ∷ letter ∷ 66 ∷ []) n letter
three n letter h = record {
  digits = (48 + n / 100) ∷ (48 + n / 10 % 10) ∷ (48 + n % 10) ∷ [];
  text_is = refl;
  are_digits =
      (omega arith, omega arith, (omega arith, omega arith, (omega arith, omega arith, _)));
  value = omega arith;
}

four :
    (n letter : ℕ)
    → n < 10000
    → Says
        ((48 + n / 1000)
          ∷ (48 + n / 100 % 10)
          ∷ (48 + n / 10 % 10)
          ∷ (48 + n % 10)
          ∷ 32
          ∷ letter
          ∷ 66
          ∷ [])
        n
        letter
four n letter h = record {
  digits = (48 + n / 1000) ∷ (48 + n / 100 % 10) ∷ (48 + n / 10 % 10) ∷ (48 + n % 10) ∷ [];
  text_is = refl;
  are_digits = (
    omega arith,
    omega arith,
    (omega arith, omega arith, (omega arith, omega arith, (omega arith, omega arith, _))),
  );
  value = omega arith;
}

-- `format_memory_size` of less than 100 GB gives the number of whole GB, from 1 GB on; of whole MB,
-- from 1 MB on; and of whole KB below, with a G, M or K for the unit.
pub format_memory_size_lem :
    (bytes : ℕ)
    → bytes < 100 * 1073741824
    → (1073741824 ≤ bytes → Says (format_memory_size bytes) (bytes / 1073741824) 71)
      × ((1048576 ≤ bytes
            → bytes < 1073741824
            → Says (format_memory_size bytes) (bytes / 1048576) 77)
          × (bytes < 1048576 → Says (format_memory_size bytes) (bytes / 1024) 75))
unfolding format_memory_size
format_memory_size_lem bytes h = (
  λ large.
      let test : leb 1073741824 bytes ≡ true = ground arith in
      rw test (two (bytes / 1073741824) 71 (omega arith)),
  (
    λ from to.
        let over : leb 1073741824 bytes ≡ false = ground arith in
        let test : leb 1048576 bytes ≡ true = ground arith in
        let mb : ℕ = bytes / 1048576 in
        rw (over, test)
          (elim (dec_lt mb 100) [
            | yes small ↦
                let a : leb 1000 mb ≡ false = ground arith in
                let b : leb 100 mb ≡ false = ground arith in rw (a, b) (two mb 77 small)
            | no large ↦ elim (dec_lt mb 1000) [
              | yes middle ↦
                  let a : leb 1000 mb ≡ false = ground arith in
                  let b : leb 100 mb ≡ true = ground arith in rw (a, b) (three mb 77 middle)
              | no largest ↦
                  let a : leb 1000 mb ≡ true = ground arith in rw a (four mb 77 (omega arith))
            ]
          ]),
    λ small.
        let over : leb 1073741824 bytes ≡ false = ground arith in
        let under : leb 1048576 bytes ≡ false = ground arith in
        rw (over, under) (four (bytes / 1024) 75 (omega arith)),
  ),
)
