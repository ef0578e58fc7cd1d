-- ===== src/Keyboard/Handler.antt =====
-- The interrupt handler of kernel/drivers/keyboard.c: modifiers and the case of letters.
use native.Mathlib.Decide.{ℕ_discrete}
use matryoshka_os.Prelude.{
  ℕ, zero, suc, ◌+◌, ◌-◌, ◌%◌, ◌^◌, ◌<◌, ◌≡◌, ◌≢◌, refl, sym, ap, ◌∙◌, inl, inr, Bool, true, false,
  not, ◌&&◌, arith, ◌==◌, ltb, if◌then◌else◌, Bool-cases, subst, ==_ne, List, [], ◌∷◌, ◌++◌, length,
  get_or, bit_and, min, ==_iff,
}
use matryoshka_os.Prelude.Bits.{
  test_bit, test_bit-bit_or, test_bit-bit_and, test_bit-pow_two, test_bit-complement,
  test_bit-le-one, pow_two-lt,
}
use matryoshka_os.Prelude.Fields.{bit_and-ones, bit_and-field}
use matryoshka_os.Keyboard.Ring.{IsValid, queue, buf_put_lem}
use matryoshka_os.Keyboard.{
  Keyboard, irq_handler, set_modifier, type_key, translate, is_alpha, is_lower, toggle_case,
  buf_put, sc_normal, sc_shifted, is_shifted, is_caps,
}

-- A test holds for every number below a bound.
all_below : (ℕ → Bool) → ℕ → Bool
all_below p zero = true
all_below p (suc n) = p n && all_below p n

all_below_lem : (p : ℕ → Bool) (n : ℕ) → all_below p n ≡ true → (i : ℕ) → i < n → p i ≡ true
unfolding all_below
all_below_lem p zero h i lt = absurd (omega arith)
all_below_lem p (suc n) h i lt = elim (ℕ_discrete n i) [
  | yes e ↦ subst (λ (x : ℕ). p x ≡ true) e (ground arith)
  | no ne ↦ all_below_lem p n (ground arith) i (omega arith)
]

-- Whether the key is a letter's.
abbrev pub is_letter : ℕ → Bool
is_letter key = is_lower (get_or sc_normal key 0)

-- What the key of a letter gives: a capital if exactly one of shift and caps lock is on.
abbrev pub letter : Bool → Bool → ℕ → ℕ
letter shift caps key =
    if (if shift then not caps else caps)
    then get_or sc_normal key 0 - 32
    else get_or sc_normal key 0

-- What any other key gives, whatever caps lock is.
abbrev pub other : Bool → ℕ → ℕ
other shift key = if shift then get_or sc_shifted key 0 else get_or sc_normal key 0

abbrev as_expected : Bool → Bool → ℕ → Bool
as_expected shift caps key =
    translate shift caps key == (if is_letter key then letter shift caps key else other shift key)

-- Every key of the table with every state of shift and caps lock.
translate_table : (shift caps : Bool) → all_below (as_expected shift caps) 128 ≡ true
unfolding all_below translate is_alpha toggle_case
translate_table true true = refl
translate_table true false = refl
translate_table false true = refl
translate_table false false = refl

-- The character that a key gives.
abbrev pub expected : Bool → Bool → ℕ → ℕ
expected shift caps key = if is_letter key then letter shift caps key else other shift key

translate_lem :
    (shift caps : Bool) (key : ℕ) → key < 128 → translate shift caps key ≡ expected shift caps key
translate_lem shift caps key lt =
    (==_iff (translate shift caps key) (expected shift caps key)).0
      (all_below_lem (as_expected shift caps) 128 (translate_table shift caps) key lt)

modifiers-buf_put : (s : Keyboard) (c : ℕ) → (buf_put s c).modifiers ≡ s.modifiers
unfolding buf_put
modifiers-buf_put s c = elim (Bool-cases ((s.kb_head + 1) % 256 == s.kb_tail)) [
  | inl full ↦ rw full refl
  | inr room ↦ rw room refl
]

-- A key that is neither a modifier's nor caps lock.
abbrev pub IsPlain : ℕ → Type 0
IsPlain key = (key < 128) × (key ≢ 0x2A) × (key ≢ 0x36) × (key ≢ 0x1D) × (key ≢ 0x38) × (key ≢ 0x3A)

handler-type_key :
    (s : Keyboard) (key : ℕ)
    → s.extended_pending ≡ false
    → IsPlain key
    → irq_handler s key ≡ type_key s key
unfolding irq_handler
handler-type_key s key pending (lt, a, b, c, d, e) =
    let low : bit_and key 0x7F ≡ key = omega (arith, bit_and-ones 7 key) in
    let high : bit_and key 0x80 ≡ 0 = omega (arith, bit_and-field 7 1 key) in
    rw
      (
        low,
        high,
        ==_ne key 0xE0 (omega arith),
        pending,
        ==_ne key 0x2A a,
        ==_ne key 0x36 b,
        ==_ne key 0x1D c,
        ==_ne key 0x38 d,
        ==_ne key 0x3A e,
      )
      refl

abbrev Typed : Keyboard → ℕ → Keyboard → Type 0
Typed s c s' =
    IsValid s'
    × ((s'.modifiers ≡ s.modifiers)
        × (queue s'
            ≡ (if not (c == 0) && ltb (length (queue s)) 255 then queue s ++ c ∷ [] else queue s)))

module _ (s : Keyboard) (key : ℕ) (lt : key < 128) where
  typed_char : ℕ
  typed_char = expected (is_shifted s) (is_caps s) key

  type_key_none : typed_char == 0 ≡ true → type_key s key ≡ s
  unfolding type_key typed_char
  type_key_none e = rw (translate_lem (is_shifted s) (is_caps s) key lt, e) refl

  type_key-buf_put : typed_char == 0 ≡ false → type_key s key ≡ buf_put s typed_char
  unfolding type_key typed_char
  type_key-buf_put e = rw (translate_lem (is_shifted s) (is_caps s) key lt, e) refl

  type_key-Typed : IsValid s → Typed s typed_char (type_key s key)
  type_key-Typed v = elim (Bool-cases (typed_char == 0)) [
    | inl e ↦ subst (Typed s typed_char) (sym (type_key_none e)) (v, (refl, rw e refl))
    | inr e ↦
        let (v', q) = buf_put_lem s v typed_char in
        subst (Typed s typed_char) (sym (type_key-buf_put e))
          (v', (modifiers-buf_put s typed_char, rw e q))
  ]

-- The handler on the code of a pressed key that is neither a modifier's nor caps lock, with no
-- prefix before it, leaves the modifiers and the indices valid, and puts the key's character at the
-- end of the queue: the capital of a letter if exactly one of shift and caps lock is on, for any
-- other key the one of the shifted table with shift. A key without a character adds none, and one is
-- dropped if the queue holds 255.
pub typed_lem :
    (s : Keyboard) (key : ℕ)
    → IsValid s
    → s.extended_pending ≡ false
    → IsPlain key
    → IsValid (irq_handler s key)
      × (((irq_handler s key).modifiers ≡ s.modifiers)
          × (queue (irq_handler s key) ≡ (
              if not (expected (is_shifted s) (is_caps s) key == 0) && ltb (length (queue s)) 255
              then queue s ++ expected (is_shifted s) (is_caps s) key ∷ []
              else queue s)))
typed_lem s key v pending plain =
    subst (Typed s (expected (is_shifted s) (is_caps s) key))
      (sym (handler-type_key s key pending plain))
      (unfold typed_char in type_key-Typed s key plain.0 v)

-- The keys of the modifiers: left shift, right shift, control, alt.
abbrev pub modifier_keys : List ℕ
modifier_keys = 0x2A ∷ 0x36 ∷ 0x1D ∷ 0x38 ∷ []

set_modifier_lem :
    (s : Keyboard) (released : Bool) (b i : ℕ)
    → s.modifiers < 2 ^ 8
    → b < 8
    → i < 8
    → test_bit (set_modifier s released (2 ^ b)).modifiers i
      ≡ (if b == i then (if released then 0 else 1) else test_bit s.modifiers i)
unfolding set_modifier
set_modifier_lem s true b i small lt lt' =
    test_bit-bit_and s.modifiers (2 ^ 8 - 1 - 2 ^ b) i
    ∙ ap (λ (t : ℕ). min (test_bit s.modifiers i) t)
        (test_bit-complement 8 (2 ^ b) i (pow_two-lt b 8 lt) lt')
    ∙ ground (arith, test_bit-pow_two b i, test_bit-le-one s.modifiers i)
set_modifier_lem s false b i small lt lt' =
    rw (test_bit-bit_or s.modifiers (2 ^ b) i, test_bit-pow_two b i)
      (ground (arith, test_bit-le-one s.modifiers i))

queue-set_modifier :
    (s : Keyboard) (released : Bool) (flag : ℕ) → queue (set_modifier s released flag) ≡ queue s
unfolding set_modifier
queue-set_modifier s released flag = refl

abbrev Changed : Keyboard → Bool → ℕ → ℕ → Keyboard → Type 0
Changed s released b i s' =
    (test_bit s'.modifiers i
      ≡ (if b == i then (if released then 0 else 1) else test_bit s.modifiers i))
    × (queue s' ≡ queue s)

handler-set_modifier :
    (s : Keyboard) (released : Bool) (b : ℕ)
    → s.extended_pending ≡ false
    → b < 4
    → irq_handler s (get_or modifier_keys b 0 + (if released then 128 else 0))
      ≡ set_modifier s released (2 ^ b)
unfolding irq_handler
handler-set_modifier s true zero pending lt = simp pending refl
handler-set_modifier s true (suc zero) pending lt = simp pending refl
handler-set_modifier s true (suc (suc zero)) pending lt = simp pending refl
handler-set_modifier s true (suc (suc (suc zero))) pending lt = simp pending refl
handler-set_modifier s true (suc (suc (suc (suc b)))) pending lt = absurd (omega arith)
handler-set_modifier s false zero pending lt = simp pending refl
handler-set_modifier s false (suc zero) pending lt = simp pending refl
handler-set_modifier s false (suc (suc zero)) pending lt = simp pending refl
handler-set_modifier s false (suc (suc (suc zero))) pending lt = simp pending refl
handler-set_modifier s false (suc (suc (suc (suc b)))) pending lt = absurd (omega arith)

-- The handler on a modifier's code, pressed or released (the code and 128), with no prefix before it,
-- sets or clears the modifier's bit, leaves the other bits, and puts nothing into the ring.
pub modifier_lem :
    (s : Keyboard) (released : Bool) (b i : ℕ)
    → s.modifiers < 2 ^ 8
    → s.extended_pending ≡ false
    → b < 4
    → i < 8
    → (test_bit
          (irq_handler s (get_or modifier_keys b 0 + (if released then 128 else 0))).modifiers
          i
        ≡ (if b == i then (if released then 0 else 1) else test_bit s.modifiers i))
      × (queue (irq_handler s (get_or modifier_keys b 0 + (if released then 128 else 0))) ≡ queue s)
modifier_lem s released b i small pending lt lt' =
    subst (Changed s released b i) (sym (handler-set_modifier s released b pending lt)) (
      set_modifier_lem s released b i small (omega arith) lt',
      queue-set_modifier s released (2 ^ b),
    )
