-- ===== src/Net/Checksum.antt =====
-- kernel/net/net.c: the checksum is the complement of the sum in ones' complement arithmetic, and a
-- header that holds its checksum sums to zero.
use native.Mathlib.Decide.{dec_lt}
use matryoshka_os.Prelude.{
  ◌⊎◌, inl, inr, subst, ℕ, zero, suc, ◌+◌, ◌-◌, ◌*◌, ◌/◌, ◌%◌, ◌^◌, ◌<◌, ◌≤◌, ◌≡◌, refl, sym, ap,
  ◌∙◌, arith, bit_and, ◌==◌, ==_ne, ==_eq, if◌then◌else◌,
}
use matryoshka_os.Prelude.Fields.{bit_and-ones}
use matryoshka_os.Net.{Bytes, word_at, put_word, add_words, fold_carry, checksum}

abbrev pub IsBytes : Bytes → Type 0
IsBytes p = (i : ℕ) → p i < 2 ^ 8

-- The sum of the words, and of a last byte, as a number.
abbrev pub sum_words : Bytes → ℕ → ℕ → ℕ
sum_words p i zero = 0
sum_words p i (suc zero) = p i
sum_words p i (suc (suc len)) = word_at p i + sum_words p (i + 2) len

-- Addition of 16-bit numbers with the carry added at the low end: the value of a sum.
abbrev pub end_around : ℕ → ℕ
end_around n = if n == 0 then 0 else (n - 1) % 65535 + 1

pub sum_words-le : (p : Bytes) (i len : ℕ) → IsBytes p → sum_words p i len ≤ len * 65535
sum_words-le p i zero b = omega arith
sum_words-le p i (suc zero) b = omega (arith, b i)
sum_words-le p i (suc (suc len)) b = omega (arith, b i, b (i + 1), sum_words-le p (i + 2) len b)

add_words_lem :
    (p : Bytes) (i len s : ℕ)
    → IsBytes p
    → s + len * 65535 < 2 ^ 32
    → add_words p i len s ≡ s + sum_words p i len
unfolding add_words
add_words_lem p i zero s b h = omega arith
add_words_lem p i (suc zero) s b h = omega (arith, b i)
add_words_lem p i (suc (suc len)) s b h =
    let whole : (s + word_at p i) % 2 ^ 32 ≡ s + word_at p i = omega (arith, b i, b (i + 1)) in
    rw whole (
      add_words_lem p (i + 2) len (s + word_at p i) b (omega (arith, b i, b (i + 1))) ∙ omega arith)

fold_step :
    (rounds n : ℕ)
    → 2 ^ 16 ≤ n
    → n < 2 ^ 32
    → fold_carry (suc rounds) n ≡ fold_carry rounds (n % 2 ^ 16 + n / 2 ^ 16)
unfolding fold_carry
fold_step rounds n big small =
    let whole : (bit_and n 0xFFFF + n / 2 ^ 16) % 2 ^ 32 ≡ n % 2 ^ 16 + n / 2 ^ 16 =
      omega (arith, bit_and-ones 16 n) in
    rw (==_ne (n / 2 ^ 16) 0 (omega arith), whole) refl

fold_end : (rounds n : ℕ) → n < 2 ^ 16 → fold_carry rounds n ≡ n
unfolding fold_carry
fold_end zero n small = refl
fold_end (suc rounds) n small = rw (==_eq (n / 2 ^ 16) 0 (omega arith)) refl

-- A round keeps the value.
end_around_step : (n : ℕ) → end_around (n % 2 ^ 16 + n / 2 ^ 16) ≡ end_around n
end_around_step n = ground arith

end_around_small : (n : ℕ) → n < 2 ^ 16 → end_around n ≡ n
end_around_small n h = ground arith

fold_two : (m : ℕ) → m < 2 ^ 17 - 1 → fold_carry 2 m ≡ end_around m
fold_two m h = elim (dec_lt m (2 ^ 16)) [
  | yes small ↦ fold_end 2 m small ∙ sym (end_around_small m small)
  | no big ↦
      let k : ℕ = m % 2 ^ 16 + m / 2 ^ 16 in
      let fits : k < 2 ^ 16 = omega arith in
      fold_step 1 m (omega arith) (omega arith)
      ∙ (fold_end 1 k fits ∙ (sym (end_around_small k fits) ∙ end_around_step m))
]

-- Three rounds leave no carry.
pub fold_carry_lem : (n : ℕ) → n < 2 ^ 32 → fold_carry 3 n ≡ end_around n
fold_carry_lem n h = elim (dec_lt n (2 ^ 16)) [
  | yes small ↦ fold_end 3 n small ∙ sym (end_around_small n small)
  | no big ↦
      let m : ℕ = n % 2 ^ 16 + n / 2 ^ 16 in
      fold_step 2 n (omega arith) h ∙ (fold_two m (omega arith) ∙ end_around_step n)
]

-- `ip_checksum` of fewer than 2^16 bytes is the complement of the sum of the words in ones' complement
-- arithmetic: the 32-bit sum does not wrap, and the loop over the carry ends.
pub checksum_lem :
    (p : Bytes) (i len : ℕ)
    → IsBytes p
    → len < 2 ^ 16
    → checksum p i len ≡ 65535 - end_around (sum_words p i len)
unfolding checksum
checksum_lem p i len b h =
    let sum : ℕ = sum_words p i len in
    let bound : sum ≤ len * 65535 = sum_words-le p i len b in
    let added : add_words p i len 0 ≡ sum = add_words_lem p i len 0 b (omega arith) ∙ omega arith in
    let folded : fold_carry 3 (add_words p i len 0) ≡ end_around sum =
      ap (fold_carry 3) added ∙ fold_carry_lem sum (omega arith) in
    rw folded (ground arith)

-- The sum of other bytes.
pub sum_words-same :
    (p q : Bytes) (i len : ℕ)
    → ((k : ℕ) → i ≤ k → k < i + len → p k ≡ q k)
    → sum_words p i len ≡ sum_words q i len
sum_words-same p q i zero same = refl
sum_words-same p q i (suc zero) same = same i (omega arith) (omega arith)
sum_words-same p q i (suc (suc len)) same = omega (
  arith,
  same i (omega arith) (omega arith),
  same (i + 1) (omega arith) (omega arith),
  sum_words-same p q (i + 2) len (λ k from to. same k (omega arith) (omega arith)),
)

pub put_word_low : (p : Bytes) (at v : ℕ) → put_word p at v at ≡ v % 2 ^ 8
put_word_low p at v = ground arith

pub put_word_high : (p : Bytes) (at v : ℕ) → v < 2 ^ 16 → put_word p at v (at + 1) ≡ v / 2 ^ 8
put_word_high p at v h = ground arith

pub put_word_other : (p : Bytes) (at v k : ℕ) → (k < at) ⊎ (at + 2 ≤ k) → put_word p at v k ≡ p k
put_word_other p at v k (inl below) = ground arith
put_word_other p at v k (inr above) = ground arith

-- A word that was 0 is stored `j` words on.
pub sum_words-put_word :
    (p : Bytes) (i len j at v : ℕ)
    → at ≡ i + 2 * j
    → 2 * j + 1 < len
    → v < 2 ^ 16
    → p at ≡ 0
    → p (at + 1) ≡ 0
    → sum_words (put_word p at v) i len ≡ sum_words p i len + v
sum_words-put_word p i zero j at v e h hv low high = absurd (omega arith)
sum_words-put_word p i (suc zero) j at v e h hv low high = absurd (omega arith)
sum_words-put_word p i (suc (suc len)) zero at v e h hv low high =
    let here : at ≡ i = omega arith in
    let first : put_word p at v i ≡ v % 2 ^ 8 =
      subst (λ k. put_word p at v k ≡ v % 2 ^ 8) here (put_word_low p at v) in
    let second : put_word p at v (i + 1) ≡ v / 2 ^ 8 =
      subst (λ k. put_word p at v (k + 1) ≡ v / 2 ^ 8) here (put_word_high p at v hv) in
    let first_was : p i ≡ 0 = subst (λ k. p k ≡ 0) here low in
    let second_was : p (i + 1) ≡ 0 = subst (λ k. p (k + 1) ≡ 0) here high in
    let rest : sum_words (put_word p at v) (i + 2) len ≡ sum_words p (i + 2) len =
      sum_words-same (put_word p at v) p (i + 2) len
        (λ k from to. put_word_other p at v k (inr (omega arith))) in
    rw (first, second, first_was, second_was, rest) (omega arith)
sum_words-put_word p i (suc (suc len)) (suc j) at v e h hv low high =
    let first : put_word p at v i ≡ p i = put_word_other p at v i (inl (omega arith)) in
    let second : put_word p at v (i + 1) ≡ p (i + 1) =
      put_word_other p at v (i + 1) (inl (omega arith)) in
    let rest : sum_words (put_word p at v) (i + 2) len ≡ sum_words p (i + 2) len + v =
      sum_words-put_word p (i + 2) len j at v (omega arith) (omega arith) hv low high in
    rw (first, second, rest) (omega arith)

complement_sums : (n : ℕ) → end_around (n + (65535 - end_around n)) ≡ 65535
complement_sums n = ground arith

pub put_word-IsBytes : (p : Bytes) (at v : ℕ) → IsBytes p → IsBytes (put_word p at v)
put_word-IsBytes p at v b i = ground (arith, b i)

-- A checksum that is stored in a field of two zero bytes, an even number of bytes into the data, makes
-- the checksum of the data 0: so a receiver checks it.
pub checksum-checksum :
    (p : Bytes) (i len j at : ℕ)
    → IsBytes p
    → len < 2 ^ 16
    → at ≡ i + 2 * j
    → 2 * j + 1 < len
    → p at ≡ 0
    → p (at + 1) ≡ 0
    → checksum (put_word p at (checksum p i len)) i len ≡ 0
checksum-checksum p i len j at b h e inside low high =
    let sum : ℕ = sum_words p i len in
    let c_eq : checksum p i len ≡ 65535 - end_around sum = checksum_lem p i len b h in
    let small : checksum p i len < 2 ^ 16 = omega arith in
    let total : sum_words (put_word p at (checksum p i len)) i len
        ≡ sum + (65535 - end_around sum) =
      sum_words-put_word p i len j at (checksum p i len) e inside small low high ∙ omega arith in
    let value : end_around (sum_words (put_word p at (checksum p i len)) i len) ≡ 65535 =
      ap end_around total ∙ complement_sums sum in
    checksum_lem (put_word p at (checksum p i len)) i len
      (put_word-IsBytes p at (checksum p i len) b) h
    ∙ rw value refl
