-- ===== src/Strings/Move.antt =====
-- `memmove` of kernel/string.c, with blocks that may overlap.
use native.Mathlib.Decide.{ℕ_discrete}
use matryoshka_os.Prelude.{
  ℕ, zero, suc, ◌+◌, ◌≤◌, ◌<◌, ◌≡◌, ◌≢◌, refl, ap, ◌∙◌, ◌⊎◌, inl, inr, arith, ltb, Bool-cases,
  ==_ne, ==_eq, update,
}
use matryoshka_os.Strings.{memcpy, memcpy_down, memmove}

pub update_hit : (m : ℕ → ℕ) (p v q : ℕ) → p ≡ q → update m p v q ≡ v
update_hit m p v q e = rw (==_eq p q e) refl

pub update_miss : (m : ℕ → ℕ) (p v q : ℕ) → p ≢ q → update m p v q ≡ m q
update_miss m p v q ne = rw (==_ne p q ne) refl

pub memcpy_outside : (m : ℕ → ℕ) (d s n x : ℕ) → (x < d) ⊎ (d + n ≤ x) → memcpy m d s n x ≡ m x
unfolding memcpy
memcpy_outside m d s zero x out = refl
memcpy_outside m d s (suc n) x out =
    memcpy_outside (update m d (m s)) (d + 1) (s + 1) n x (ground arith)
    ∙ update_miss m d (m s) x (ground arith)

-- Forward, with the source above the destination or behind its end.
pub memcpy_inside :
    (m : ℕ → ℕ) (d s n i : ℕ) → (d < s) ⊎ (s + n ≤ d) → i < n → memcpy m d s n (d + i) ≡ m (s + i)
unfolding memcpy
memcpy_inside m d s zero i apart lt = absurd (omega arith)
memcpy_inside m d s (suc n) zero apart lt =
    memcpy_outside (update m d (m s)) (d + 1) (s + 1) n (d + 0) (inl (omega arith))
    ∙ update_hit m d (m s) (d + 0) (omega arith)
    ∙ ap m (omega arith)
memcpy_inside m d s (suc n) (suc i) apart lt =
    let place : d + suc i ≡ d + 1 + i = omega arith in
    ap (memcpy (update m d (m s)) (d + 1) (s + 1) n) place
    ∙ memcpy_inside (update m d (m s)) (d + 1) (s + 1) n i (ground arith) (omega arith)
    ∙ update_miss m d (m s) (s + 1 + i) (ground arith)
    ∙ ap m (omega arith)

down_outside : (m : ℕ → ℕ) (d s n x : ℕ) → (x < d) ⊎ (d + n ≤ x) → memcpy_down m d s n x ≡ m x
unfolding memcpy_down
down_outside m d s zero x out = refl
down_outside m d s (suc n) x out =
    down_outside (update m (d + n) (m (s + n))) d s n x (ground arith)
    ∙ update_miss m (d + n) (m (s + n)) x (ground arith)

down_inside : (m : ℕ → ℕ) (d s n i : ℕ) → s ≤ d → i < n → memcpy_down m d s n (d + i) ≡ m (s + i)
unfolding memcpy_down
down_inside m d s zero i le lt = absurd (omega arith)
down_inside m d s (suc n) i le lt = elim (ℕ_discrete i n) [
  | yes e ↦
      down_outside (update m (d + n) (m (s + n))) d s n (d + i) (inr (omega arith))
      ∙ update_hit m (d + n) (m (s + n)) (d + i) (omega arith)
      ∙ ap m (omega arith)
  | no ne ↦
      down_inside (update m (d + n) (m (s + n))) d s n i le (omega arith)
      ∙ update_miss m (d + n) (m (s + n)) (s + i) (omega arith)
]

-- `memmove` puts what the source held before into the destination, also where the two overlap, and
-- changes no byte outside the destination.
pub memmove_lem :
    (m : ℕ → ℕ) (d s n : ℕ)
    → ((i : ℕ) (lt : i < n) → memmove m d s n (d + i) ≡ m (s + i))
      × ((x : ℕ) (out : (x < d) ⊎ (d + n ≤ x)) → memmove m d s n x ≡ m x)
unfolding memmove
memmove_lem m d s n = elim (Bool-cases (ltb d s)) [
  | inl up ↦ rw up (
    λ i lt. memcpy_inside m d s n i (inl (ground arith)) lt,
    λ x out. memcpy_outside m d s n x out,
  )
  | inr down ↦
      rw down (λ i lt. down_inside m d s n i (ground arith) lt, λ x out. down_outside m d s n x out)
]
