-- ===== src/Keyboard/Ring.antt =====
-- The ring of kernel/drivers/keyboard.c against a queue of at most 255 characters.
use native.Mathlib.Decide.{ℕ_discrete}
use matryoshka_os.Prelude.{
  ℕ, zero, suc, ◌+◌, ◌-◌, ◌%◌, ◌<◌, ◌≡◌, ◌≢◌, refl, sym, ap, ◌∙◌, ◌⊎◌, inl, inr, true, false, arith,
  ltb, if◌then◌else◌, ==_ne, ==_eq, update, none, some, List, [], ◌∷◌, ◌++◌, length,
}
use matryoshka_os.Keyboard.{Keyboard, buf_put, getchar, has_input}

-- The indices are inside the ring.
pub record IsValid (s : Keyboard) : Type 0 where
  pub head_below : s.kb_head < 256
  pub tail_below : s.kb_tail < 256

-- The number of characters in the ring.
abbrev pub held : Keyboard → ℕ
held s = (s.kb_head + 256 - s.kb_tail) % 256

-- `n` characters from `i` on, round the ring.
abbrev pub read : (ℕ → ℕ) → ℕ → ℕ → List ℕ
read buffer i zero = []
read buffer i (suc n) = buffer (i % 256) ∷ read buffer (i + 1) n

-- What the ring holds, the oldest character first.
abbrev pub queue : Keyboard → List ℕ
queue s = read s.kb_buffer s.kb_tail (held s)

length-read : (buffer : ℕ → ℕ) (i n : ℕ) → length (read buffer i n) ≡ n
length-read buffer i zero = refl
length-read buffer i (suc n) = ap suc (length-read buffer (i + 1) n)

-- One character more at the end, in a cell that the others do not use.
read-update :
    (buffer : ℕ → ℕ) (i n k c : ℕ)
    → n < 256
    → k ≡ (i + n) % 256
    → read (update buffer k c) i (suc n) ≡ read buffer i n ++ c ∷ []
read-update buffer i zero k c lt e = rw (==_eq k (i % 256) (omega arith)) refl
read-update buffer i (suc n) k c lt e =
    ap (λ (l : List ℕ). update buffer k c (i % 256) ∷ l)
      (read-update buffer (i + 1) n k c (omega arith) (omega arith))
    ∙ rw (==_ne k (i % 256) (omega arith)) refl

-- An index counts modulo the size of the ring.
read-mod : (buffer : ℕ → ℕ) (i n : ℕ) → read buffer i n ≡ read buffer (i % 256) n
read-mod buffer i zero = refl
read-mod buffer i (suc n) =
    let same : i % 256 ≡ i % 256 % 256 = omega arith in
    let next : (i + 1) % 256 ≡ (i % 256 + 1) % 256 = omega arith in
    ap (λ (x : ℕ). buffer x ∷ read buffer (i + 1) n) same
    ∙ ap (λ (l : List ℕ). buffer (i % 256 % 256) ∷ l)
        (read-mod buffer (i + 1) n
          ∙ ap (λ (x : ℕ). read buffer x n) next
          ∙ sym (read-mod buffer (i % 256 + 1) n))

module _ (s : Keyboard) (v : IsValid s) where
  more :
      (s.kb_head + 1) % 256 ≢ s.kb_tail
      → ((s.kb_head + 1) % 256 + 256 - s.kb_tail) % 256 ≡ suc (held s)
  more room = omega (arith, v.head_below, v.tail_below)

  nothing : s.kb_head ≡ s.kb_tail → held s ≡ 0
  nothing e = omega (arith, v.head_below, v.tail_below)

  fewer : s.kb_head ≢ s.kb_tail → held s ≡ suc ((s.kb_head + 256 - (s.kb_tail + 1) % 256) % 256)
  fewer ne = omega (arith, v.head_below, v.tail_below)

  oldest :
      s.kb_head ≢ s.kb_tail
      → queue s
        ≡ s.kb_buffer s.kb_tail
          ∷ read s.kb_buffer
              ((s.kb_tail + 1) % 256)
              ((s.kb_head + 256 - (s.kb_tail + 1) % 256) % 256)
  oldest ne =
      let n : ℕ = (s.kb_head + 256 - (s.kb_tail + 1) % 256) % 256 in
      let first : s.kb_tail % 256 ≡ s.kb_tail = omega (arith, v.tail_below) in
      ap (λ (n : ℕ). read s.kb_buffer s.kb_tail n) (fewer ne)
      ∙ ap (λ (x : ℕ). s.kb_buffer x ∷ read s.kb_buffer (s.kb_tail + 1) n) first
      ∙ ap (λ (l : List ℕ). s.kb_buffer s.kb_tail ∷ l) (read-mod s.kb_buffer (s.kb_tail + 1) n)

  -- A typed character goes to the end of the queue if it holds fewer than 255, and is dropped if it
  -- holds 255; the indices stay inside the ring either way.
  pub buf_put_lem :
      (c : ℕ)
      → IsValid (buf_put s c)
        × (queue (buf_put s c)
            ≡ (if ltb (length (queue s)) 255 then queue s ++ c ∷ [] else queue s))
  unfolding buf_put
  buf_put_lem c = elim (ℕ_discrete ((s.kb_head + 1) % 256) s.kb_tail) [
    | yes full ↦
        let at_most : ltb (length (queue s)) 255 ≡ false =
          ground (arith, length-read s.kb_buffer s.kb_tail (held s), v.head_below, v.tail_below) in
        rw (==_eq _ _ full, at_most) (v, refl)
    | no room ↦
        let short : ltb (length (queue s)) 255 ≡ true =
          ground (arith, length-read s.kb_buffer s.kb_tail (held s), v.head_below, v.tail_below) in
        rw (==_ne _ _ room, short)
          (
            record { head_below = omega arith; tail_below = v.tail_below },
            ap (λ (n : ℕ). read (update s.kb_buffer s.kb_head c) s.kb_tail n) (more room)
                ∙ read-update s.kb_buffer s.kb_tail (held s) s.kb_head c (omega arith)
                    (omega (arith, v.head_below, v.tail_below)),
          )
  ]

  -- `keyboard_getchar` waits exactly if the queue is empty, and otherwise returns its first character
  -- and leaves the rest, with the indices inside the ring; `keyboard_has_input` tells the two apart.
  pub getchar_lem :
      ((getchar s ≡ none) × ((queue s ≡ []) × (has_input s ≡ false)))
      ⊎ ((c : ℕ) × (s' : Keyboard) × ((getchar s ≡ some (c, s'))
            × ((queue s ≡ c ∷ queue s') × (IsValid s' × (has_input s ≡ true)))))
  unfolding getchar has_input
  getchar_lem = elim (ℕ_discrete s.kb_head s.kb_tail) [
    | yes empty ↦
        rw (==_eq _ _ empty)
          (inl (refl, (ap (λ (n : ℕ). read s.kb_buffer s.kb_tail n) (nothing empty), refl)))
    | no some_held ↦ rw (==_ne _ _ some_held) (
        inr (
          s.kb_buffer s.kb_tail,
          record s { kb_tail = (s.kb_tail + 1) % 256 },
          (
            refl,
            (
              oldest some_held,
              (record { head_below = v.head_below; tail_below = omega arith }, refl),
            ),
          ),
        ))
  ]
