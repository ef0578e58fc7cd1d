-- ===== src/Pmm/Invariant.antt =====
-- The invariant of the statics of kernel/mm/pmm.c: the array covers the frames, its words have 32
-- bits, no counter wraps, and `used_frames` counts the set bits.
use matryoshka_os.Prelude.{
  ℕ, zero, suc, ◌+◌, ◌-◌, ◌*◌, ◌/◌, ◌%◌, ◌^◌, ◌≤◌, ◌<◌, ◌≡◌, ◌≢◌, refl, sym, ◌∙◌, Bool, true, false,
  arith, ◌==◌, if◌then◌else◌, set, length, get_or, length-set, List, [], ◌∷◌, Bool-cases, inl, inr,
}
use matryoshka_os.Prelude.Bits.{pow_two-lt, bit_or-lt, bit_and-le}
use matryoshka_os.Pmm.{Pmm, word_of, bitmap_set, bitmap_clear, bitmap_test, mark_used, mark_free}
use matryoshka_os.Pmm.Bitmap.{bitmap_test-set, bitmap_test-clear}

-- The number of `x < n` with `p x`.
abbrev pub count_below : (ℕ → Bool) → ℕ → ℕ
count_below p zero = 0
count_below p (suc n) = (if p n then 1 else 0) + count_below p n

pub count_below-le : (p : ℕ → Bool) (n : ℕ) → count_below p n ≤ n
count_below-le p zero = omega arith
count_below-le p (suc n) = ground (arith, count_below-le p n)

-- Two predicates that agree below `n` have the same count.
pub count_below_agree :
    (p q : ℕ → Bool) (n : ℕ) → ((x : ℕ) → x < n → q x ≡ p x) → count_below q n ≡ count_below p n
count_below_agree p q zero h = refl
count_below_agree p q (suc n) h =
    ground (arith, h n (omega arith), count_below_agree p q n (λ x k. h x (omega arith)))

-- One more member is one more in the count.
pub count_below_add :
    (p q : ℕ → Bool) (f n : ℕ)
    → f < n
    → p f ≡ false
    → q f ≡ true
    → ((x : ℕ) → f ≢ x → q x ≡ p x)
    → count_below q n ≡ count_below p n + 1
count_below_add p q f zero lt pf qf h = absurd (omega arith)
count_below_add p q f (suc n) lt pf qf h = elim (Bool-cases (f == n)) [
  | inl e ↦
      let same : f ≡ n = ground arith in
      ground (
        arith,
        rw same at pf,
        rw same at qf,
        count_below_agree p q n (λ x k. h x (λ e'. omega arith)),
      )
  | inr ne ↦ ground (arith, h n (ground arith), count_below_add p q f n (ground arith) pf qf h)
]

pub record IsValid (s : Pmm) : Type 0 where
  pub covered : s.total_frames ≤ 32 * length s.frame_bitmap
  pub small : s.total_frames ≤ 2 ^ 52
  pub words : (i : ℕ) → get_or s.frame_bitmap i 0 < 2 ^ 32
  pub counted : s.used_frames ≡ count_below (bitmap_test s) s.total_frames

words-set :
    (xs : List ℕ) (k w : ℕ)
    → w < 2 ^ 32
    → ((i : ℕ) → get_or xs i 0 < 2 ^ 32)
    → (i : ℕ) → get_or (set xs k w) i 0 < 2 ^ 32
words-set [] k w hw h i = h i
words-set (x ∷ xs) zero w hw h zero = hw
words-set (x ∷ xs) zero w hw h (suc i) = h (suc i)
words-set (x ∷ xs) (suc k) w hw h zero = h 0
words-set (x ∷ xs) (suc k) w hw h (suc i) = words-set xs k w hw (λ j. h (suc j)) i

pub total-mark_used : (s : Pmm) (f : ℕ) → (mark_used s f).total_frames ≡ s.total_frames
unfolding mark_used bitmap_set
total-mark_used s f = refl

pub total-mark_free : (s : Pmm) (f : ℕ) → (mark_free s f).total_frames ≡ s.total_frames
unfolding mark_free bitmap_clear
total-mark_free s f = refl

module _ {s : Pmm} (v : IsValid s) (f : ℕ) (lt : f < s.total_frames) where
  in_array : f / 32 < length s.frame_bitmap
  in_array = omega (arith, v.covered)

  pub test-mark_used :
      (g : ℕ) → bitmap_test (mark_used s f) g ≡ (if f == g then true else bitmap_test s g)
  unfolding mark_used bitmap_test bitmap_set
  test-mark_used g = bitmap_test-set s f g in_array

  pub test-mark_free :
      (g : ℕ) → bitmap_test (mark_free s f) g ≡ (if f == g then false else bitmap_test s g)
  unfolding mark_free bitmap_test bitmap_clear
  test-mark_free g = bitmap_test-clear s f g in_array

  used-le : s.used_frames ≤ 2 ^ 52
  used-le = omega (arith, v.small, v.counted, count_below-le (bitmap_test s) s.total_frames)

  -- `used_frames++` does not wrap.
  pub used-mark_used : (mark_used s f).used_frames ≡ s.used_frames + 1
  unfolding mark_used
  used-mark_used = omega (arith, used-le)

  fewer :
      bitmap_test s f ≡ true
      → s.used_frames ≡ count_below (bitmap_test (mark_free s f)) s.total_frames + 1
  fewer busy =
      v.counted
      ∙ count_below_add (bitmap_test (mark_free s f)) (bitmap_test s) f s.total_frames lt
          (test-mark_free f ∙ ground arith) busy (λ x ne. sym (test-mark_free x ∙ ground arith))

  -- `used_frames--` does not wrap.
  pub used-mark_free : bitmap_test s f ≡ true → (mark_free s f).used_frames + 1 ≡ s.used_frames
  unfolding mark_free
  used-mark_free busy = omega (arith, used-le, fewer busy)

  -- Taking a free frame keeps the invariant.
  pub mark_used-IsValid : bitmap_test s f ≡ false → IsValid (mark_used s f)
  mark_used-IsValid free = record {
    covered = unfold mark_used bitmap_set in rw length-set v.covered;
    small = unfold mark_used bitmap_set in v.small;
    words =
        unfold mark_used bitmap_set in
        words-set s.frame_bitmap (f / 32) _
          (bit_or-lt 32 (word_of s f) (2 ^ (f % 32)) (v.words (f / 32))
            (pow_two-lt (f % 32) 32 (omega arith)))
          v.words;
    counted = count;
  }
    where
      more : count_below (bitmap_test (mark_used s f)) s.total_frames ≡ s.used_frames + 1
      more =
          count_below_add (bitmap_test s) (bitmap_test (mark_used s f)) f s.total_frames lt free
            (test-mark_used f ∙ ground arith) (λ x ne. test-mark_used x ∙ ground arith)
          ∙ omega (arith, v.counted)

      count :
          (mark_used s f).used_frames
          ≡ count_below (bitmap_test (mark_used s f)) (mark_used s f).total_frames
      count = simp total-mark_used (used-mark_used ∙ sym more)

  -- Giving back a frame that is in use keeps the invariant.
  pub mark_free-IsValid : bitmap_test s f ≡ true → IsValid (mark_free s f)
  mark_free-IsValid busy = record {
    covered = unfold mark_free bitmap_clear in rw length-set v.covered;
    small = unfold mark_free bitmap_clear in v.small;
    words =
        unfold mark_free bitmap_clear in
        words-set s.frame_bitmap (f / 32) _
          (omega (
            arith,
            v.words (f / 32),
            bit_and-le (word_of s f) (word_of s f) (2 ^ 32 - 1 - 2 ^ (f % 32)) (omega arith),
          ))
          v.words;
    counted = count;
  }
    where
      count :
          (mark_free s f).used_frames
          ≡ count_below (bitmap_test (mark_free s f)) (mark_free s f).total_frames
      count = simp total-mark_free (omega (arith, used-mark_free busy, fewer busy))
