-- ===== src/Pmm/Search.antt =====
-- `find_free_frame` of kernel/mm/pmm.c finds the first free frame of the words that it visits.
use native.Mathlib.Decide.{ℕ_discrete, dec_lt}
use native.Mathlib.Nat.{add-zero}
use matryoshka_os.Prelude.{
  ℕ, zero, suc, ◌+◌, ◌*◌, ◌/◌, ◌%◌, ◌≤◌, ◌<◌, ◌≡◌, refl, true, false, not, arith, ltb, get_or,
  Option, none, some, ◌&&◌, Bool-cases, inl, inr, ==_ne,
}
use matryoshka_os.Prelude.Bits.{test_bit_all_ones}
use matryoshka_os.Pmm.{Pmm, bitmap_test, find_in_word, find_in_words}
use matryoshka_os.Pmm.Bitmap.{bitmap_test-eq-bit_of}

-- All frames from `lo` up to `hi`, `hi` excluded, are in use.
abbrev pub AllUsed : Pmm → ℕ → ℕ → Type 0
AllUsed s lo hi = (g : ℕ) → lo ≤ g → g < hi → g < s.total_frames → bitmap_test s g ≡ true

-- What a search from `lo` up to `hi` may return: the first free frame, or nothing if there is none.
abbrev pub FirstFree : Pmm → ℕ → ℕ → Option ℕ → Type 0
FirstFree s lo hi none = AllUsed s lo hi
FirstFree s lo hi (some f) =
    (lo ≤ f) × (f < hi) × (f < s.total_frames) × (bitmap_test s f ≡ false) × AllUsed s lo f

module _ (s : Pmm) where
  pub AllUsed-append : (lo mid hi : ℕ) → AllUsed s lo mid → AllUsed s mid hi → AllUsed s lo hi
  AllUsed-append lo mid hi a b g p q r = elim (dec_lt g mid) [
    | yes k ↦ a g p k r
    | no k ↦ b g (omega arith) q r
  ]

  -- A search may skip what is in use.
  pub FirstFree-skip :
      (lo mid hi : ℕ) (o : Option ℕ)
      → lo ≤ mid
      → AllUsed s lo mid
      → FirstFree s mid hi o
      → FirstFree s lo hi o
  FirstFree-skip lo mid hi none le a h = AllUsed-append lo mid hi a h
  FirstFree-skip lo mid hi (some f) le a (p, q, r, t, u) =
      (omega arith, q, r, t, AllUsed-append lo mid f a u)

  -- and may go on further than it had to.
  FirstFree-extend :
      (lo mid hi f : ℕ) → mid ≤ hi → FirstFree s lo mid (some f) → FirstFree s lo hi (some f)
  FirstFree-extend lo mid hi f le (p, q, r, t, u) = (p, omega arith, r, t, u)

  FirstFree-or_else :
      (lo mid hi : ℕ) (o r : Option ℕ)
      → lo ≤ mid
      → mid ≤ hi
      → FirstFree s lo mid o
      → FirstFree s mid hi r
      → FirstFree s lo hi (elim o [ some f ↦ some f | none ↦ r ])
  FirstFree-or_else lo mid hi none r p q h k = FirstFree-skip lo mid hi r p h k
  FirstFree-or_else lo mid hi (some f) r p q h k = FirstFree-extend lo mid hi f q h

  find_in_word-FirstFree :
      (i rounds j hi : ℕ)
      → i * 32 + j + rounds ≡ hi
      → FirstFree s (i * 32 + j) hi (find_in_word s i rounds j)
  unfolding find_in_word
  find_in_word-FirstFree i zero j hi e = λ g p q r. absurd (omega arith)
  find_in_word-FirstFree i (suc rounds) j hi e =
      elim (Bool-cases (ltb (i * 32 + j) s.total_frames && not (bitmap_test s (i * 32 + j)))) [
        | inl hit ↦
            rw hit (
              omega arith,
              omega arith,
              ground arith,
              ground arith,
              λ g p q r. absurd (omega arith),
            )
        | inr miss ↦ rw miss (
            FirstFree-skip (i * 32 + j) (i * 32 + (j + 1)) hi _ (omega arith)
              (λ g p q r.
                let here : g ≡ i * 32 + j = omega arith in rw here (ground (arith, rw here at r)))
              (find_in_word-FirstFree i rounds (j + 1) hi (omega arith)))
      ]

  -- All frames of a word of ones are in use.
  ones-AllUsed : (i : ℕ) → get_or s.frame_bitmap i 0 ≡ 0xFFFFFFFF → AllUsed s (i * 32) (i * 32 + 32)
  ones-AllUsed i e g p q r =
      let word : g / 32 ≡ i = omega arith in
      rw (bitmap_test-eq-bit_of, word, e, test_bit_all_ones 32 (g % 32) (omega arith)) refl

  find_in_words-FirstFree :
      (rounds i hi : ℕ)
      → (i + rounds) * 32 ≡ hi
      → FirstFree s (i * 32) hi (find_in_words s rounds i)
  unfolding find_in_words
  find_in_words-FirstFree zero i hi e = λ g p q r. absurd (omega arith)
  find_in_words-FirstFree (suc rounds) i hi e =
      elim (ℕ_discrete (get_or s.frame_bitmap i 0) 0xFFFFFFFF) [
        | yes full ↦ rw full (
            FirstFree-skip (i * 32) ((i + 1) * 32) hi _ (omega arith)
              (λ g p q r. ones-AllUsed i full g p (omega arith) r)
              (find_in_words-FirstFree rounds (i + 1) hi (omega arith)))
        | no some_zero ↦ rw (==_ne (get_or s.frame_bitmap i 0) 0xFFFFFFFF some_zero) (
            FirstFree-or_else (i * 32) ((i + 1) * 32) hi (find_in_word s i 32 0)
              (find_in_words s rounds (i + 1)) (omega arith) (omega arith)
              (rw (add-zero (i * 32)) at
                (find_in_word-FirstFree i 32 0 ((i + 1) * 32) (omega arith)))
              (find_in_words-FirstFree rounds (i + 1) hi (omega arith)))
      ]

  -- `find_free_frame` visits the full words: the frames below `total_frames / 32 * 32`.
  pub search-FirstFree :
      FirstFree s 0 (s.total_frames / 32 * 32) (find_in_words s (s.total_frames / 32) 0)
  search-FirstFree =
      find_in_words-FirstFree (s.total_frames / 32) 0 (s.total_frames / 32 * 32) (omega arith)
