-- ===== src/Strings/Tests.antt =====
-- Runs of the string functions, and their theorems at a concrete memory.
use matryoshka_os.Prelude.{
  ℕ, zero, suc, ◌+◌, ◌≤◌, ◌<◌, ◌≡◌, ◌≢◌, refl, ◌⊎◌, inl, arith, ◌==◌, if◌then◌else◌, some,
}
use matryoshka_os.Strings.{strlen, strlen_from, strcmp, minus, negsuc, memmove, strncpy}
use matryoshka_os.Strings.Move.{memmove_lem}
use matryoshka_os.Strings.Copy.{strncpy_lem}

-- "Hi" at 10 and "Ho" at 20, each with its 0; every other byte is 9.
abbrev sample : ℕ → ℕ
sample a =
    if a == 10
    then 72
    else if a == 11
    then 105
    else if a == 12
    then 0
    else if a == 20
    then 72
    else if a == 21
    then 111
    else if a == 22
    then 0
    else 9

two_chars : strlen 5 sample 10 ≡ some 2
unfolding strlen strlen_from
two_chars = refl

hi_before_ho : strcmp 5 sample 10 20 ≡ some (negsuc 5)
unfolding strcmp minus
hi_before_ho = refl

memmove_lem_example :
    ((i : ℕ) (lt : i < 3) → memmove sample 11 10 3 (11 + i) ≡ sample (10 + i))
    × ((x : ℕ) (out : (x < 11) ⊎ (14 ≤ x)) → memmove sample 11 10 3 x ≡ sample x)
memmove_lem_example = memmove_lem sample 11 10 3

sample_chars : (i : ℕ) → i < 2 → sample (10 + i) ≢ 0
sample_chars zero lt = omega arith
sample_chars (suc zero) lt = omega arith
sample_chars (suc (suc i)) lt = absurd (omega arith)

-- A destination of 4 bytes: the byte 44 behind it is written too.
strncpy_lem_example :
    ((i : ℕ) (lt : i < 2) → strncpy sample 40 10 4 (40 + i) ≡ sample (10 + i))
    × ((i : ℕ) (from : 2 ≤ i) (to : i ≤ 4) → strncpy sample 40 10 4 (40 + i) ≡ 0)
strncpy_lem_example =
    strncpy_lem 4 sample 40 10 2 (omega arith) sample_chars refl (inl (omega arith))
