-- ===== src/Strings/Copy.antt =====
-- `strncpy` of kernel/string.c.
use native.Mathlib.Decide.{ℕ_discrete}
use matryoshka_os.Prelude.{
  ℕ, zero, suc, ◌+◌, ◌%◌, ◌^◌, ◌≤◌, ◌<◌, ◌≡◌, ◌≢◌, refl, sym, ap, ◌∙◌, ◌⊎◌, inl, inr, arith, ◌==◌,
  Bool-cases, ==_ne, ==_eq, update,
}
use matryoshka_os.Strings.{strncpy, memset}
use matryoshka_os.Strings.Move.{update_hit, update_miss}

memset_outside : (m : ℕ → ℕ) (p c n x : ℕ) → (x < p) ⊎ (p + n ≤ x) → memset m p c n x ≡ m x
unfolding memset
memset_outside m p c zero x out = refl
memset_outside m p c (suc n) x out =
    memset_outside (update m p (c % 2 ^ 8)) (p + 1) c n x (ground arith)
    ∙ update_miss m p (c % 2 ^ 8) x (ground arith)

memset_inside : (m : ℕ → ℕ) (p c n x : ℕ) → p ≤ x → x < p + n → memset m p c n x ≡ c % 2 ^ 8
unfolding memset
memset_inside m p c zero x le lt = absurd (omega arith)
memset_inside m p c (suc n) x le lt = elim (ℕ_discrete p x) [
  | yes e ↦
      memset_outside (update m p (c % 2 ^ 8)) (p + 1) c n x (inl (omega arith))
      ∙ update_hit m p (c % 2 ^ 8) x e
  | no ne ↦ memset_inside (update m p (c % 2 ^ 8)) (p + 1) c n x (omega arith) (omega arith)
]

-- `memset` sets the `n` bytes from `p` on to the low byte of `c`, and changes no other byte.
pub memset_lem :
    (m : ℕ → ℕ) (p c n : ℕ)
    → ((x : ℕ) (from : p ≤ x) (to : x < p + n) → memset m p c n x ≡ c % 2 ^ 8)
      × ((x : ℕ) (out : (x < p) ⊎ (p + n ≤ x)) → memset m p c n x ≡ m x)
memset_lem m p c n =
    (λ x from to. memset_inside m p c n x from to, λ x out. memset_outside m p c n x out)

strncpy_below : (m : ℕ → ℕ) (d src n x : ℕ) → x < d → strncpy m d src n x ≡ m x
unfolding strncpy
strncpy_below m d src zero x lt = refl
strncpy_below m d src (suc n) x lt = elim (Bool-cases (m src == 0)) [
  | inl last ↦ rw last (
      memset_outside (update m d (m src)) (d + 1) 0 (suc n) x (inl (omega arith))
      ∙ update_miss m d (m src) x (omega arith))
  | inr more ↦ rw more (
      strncpy_below (update m d (m src)) (d + 1) (src + 1) n x (omega arith)
      ∙ update_miss m d (m src) x (omega arith))
]

-- The two ways the first loop goes on.
strncpy_last :
    (m : ℕ → ℕ) (d src n x : ℕ)
    → m src ≡ 0
    → strncpy m d src (suc n) x ≡ memset (update m d (m src)) (d + 1) 0 (suc n) x
unfolding strncpy
strncpy_last m d src n x e = rw (==_eq (m src) 0 e) refl

strncpy_more :
    (m : ℕ → ℕ) (d src n x : ℕ)
    → m src ≢ 0
    → strncpy m d src (suc n) x ≡ strncpy (update m d (m src)) (d + 1) (src + 1) n x
unfolding strncpy
strncpy_more m d src n x ne = rw (==_ne (m src) 0 ne) refl

zeros_from_here :
    (m : ℕ → ℕ) (d src n i : ℕ) → m src ≡ 0 → i ≤ suc n → strncpy m d src (suc n) (d + i) ≡ 0
zeros_from_here m d src n zero e le =
    strncpy_last m d src n (d + 0) e
    ∙ memset_outside (update m d (m src)) (d + 1) 0 (suc n) (d + 0) (inl (omega arith))
    ∙ update_hit m d (m src) (d + 0) (omega arith)
    ∙ e
zeros_from_here m d src n (suc i) e le =
    strncpy_last m d src n (d + suc i) e
    ∙ memset_inside (update m d (m src)) (d + 1) 0 (suc n) (d + suc i) (omega arith) (omega arith)

-- `strncpy` of a string of `len` characters, fewer than `n`, which lies before the destination or
-- behind the byte after it, copies the characters, and then sets to 0 not only the rest of the `n`
-- bytes of the destination but also the byte behind them.
pub strncpy_lem :
    (n : ℕ) (m : ℕ → ℕ) (d src len : ℕ)
    → len < n
    → ((i : ℕ) → i < len → m (src + i) ≢ 0)
    → m (src + len) ≡ 0
    → (src + len < d) ⊎ (d + n < src)
    → ((i : ℕ) (lt : i < len) → strncpy m d src n (d + i) ≡ m (src + i))
      × ((i : ℕ) (from : len ≤ i) (to : i ≤ n) → strncpy m d src n (d + i) ≡ 0)
strncpy_lem zero m d src len lt chars end apart = absurd (omega arith)
strncpy_lem (suc n) m d src zero lt chars end apart =
    let first : src + 0 ≡ src = omega arith in
    (
      λ i below. absurd (omega arith),
      λ i from to. zeros_from_here m d src n i (ap m (sym first) ∙ end) to,
    )
strncpy_lem (suc n) m d src (suc len) lt chars end apart =
    let (copied, zeros) =
      strncpy_lem n next (d + 1) (src + 1) len (omega arith) next_chars next_end (ground arith) in
    (copied_here copied, zeros_here zeros)
  where
    next : ℕ → ℕ
    next = update m d (m src)

    same : (i : ℕ) → i ≤ len → next (src + 1 + i) ≡ m (src + suc i)
    same i le =
        let place : src + 1 + i ≡ src + suc i = omega arith in
        update_miss m d (m src) (src + 1 + i) (ground arith) ∙ ap m place

    next_chars : (i : ℕ) → i < len → next (src + 1 + i) ≢ 0
    next_chars i below e = chars (suc i) (omega arith) (sym (same i (omega arith)) ∙ e)

    next_end : next (src + 1 + len) ≡ 0
    next_end = same len (omega arith) ∙ end

    goes_on : m src ≢ 0
    goes_on e = let first : src + 0 ≡ src = omega arith in chars 0 (omega arith) (ap m first ∙ e)

    copied_here :
        ((i : ℕ) (below : i < len)
          → strncpy next (d + 1) (src + 1) n (d + 1 + i) ≡ next (src + 1 + i))
        → (i : ℕ) (below : i < suc len) → strncpy m d src (suc n) (d + i) ≡ m (src + i)
    copied_here copied zero below =
        let first : src ≡ src + 0 = omega arith in
        strncpy_more m d src n (d + 0) goes_on
        ∙ strncpy_below next (d + 1) (src + 1) n (d + 0) (omega arith)
        ∙ update_hit m d (m src) (d + 0) (omega arith)
        ∙ ap m first
    copied_here copied (suc i) below =
        let place : d + suc i ≡ d + 1 + i = omega arith in
        strncpy_more m d src n (d + suc i) goes_on
        ∙ ap (strncpy next (d + 1) (src + 1) n) place
        ∙ copied i (omega arith)
        ∙ same i (omega arith)

    zeros_here :
        ((i : ℕ) (from : len ≤ i) (to : i ≤ n) → strncpy next (d + 1) (src + 1) n (d + 1 + i) ≡ 0)
        → (i : ℕ) (from : suc len ≤ i) (to : i ≤ suc n) → strncpy m d src (suc n) (d + i) ≡ 0
    zeros_here zeros zero from to = absurd (omega arith)
    zeros_here zeros (suc i) from to =
        let place : d + suc i ≡ d + 1 + i = omega arith in
        strncpy_more m d src n (d + suc i) goes_on
        ∙ ap (strncpy next (d + 1) (src + 1) n) place
        ∙ zeros i (omega arith) (omega arith)
