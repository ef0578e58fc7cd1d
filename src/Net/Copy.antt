-- ===== src/Net/Copy.antt =====
-- kernel/net/net.c: bytes after a copy, comparison of bytes, and the order of the bytes of a word.
use native.Mathlib.Decide.{ℕ_discrete}
use matryoshka_os.Prelude.{
  ℕ, zero, suc, ◌+◌, ◌-◌, ◌*◌, ◌/◌, ◌%◌, ◌^◌, ◌<◌, ◌≤◌, ◌≡◌, refl, ap, ◌∙◌, arith, true, ltb, leb,
  ◌&&◌, ==_ne, ==_eq, if◌then◌else◌, update, inl, inr, ◌⊎◌,
}
use matryoshka_os.Prelude.Bits.{bit_or_comm, bit_or-add}
use matryoshka_os.Net.{Bytes, htons, copy, same_bytes}

-- Inside the destination the source's bytes stand, elsewhere what stood before.
pub copy_lem :
    (dst : Bytes) (d : ℕ) (src : Bytes) (s n i : ℕ)
    → copy dst d src s n i ≡ (if leb d i && ltb i (d + n) then src (s + i - d) else dst i)
unfolding copy
copy_lem dst d src s zero i = ground arith
copy_lem dst d src s (suc n) i =
    copy_lem (update dst d (src s)) (d + 1) src (s + 1) n i ∙ elim (ℕ_discrete d i) [
      | yes e ↦
          let here : s ≡ s + i - d = omega arith in
          let same : src s ≡ src (s + i - d) = ap src here in
          rw (==_eq d i e) (ground (arith, same))
      | no ne ↦
          let shift : s + 1 + i - (d + 1) ≡ s + i - d = omega arith in
          rw (==_ne d i ne, shift) (ground arith)
    ]

pub copy_inside :
    (dst : Bytes) (d : ℕ) (src : Bytes) (s n k : ℕ)
    → k < n
    → copy dst d src s n (d + k) ≡ src (s + k)
copy_inside dst d src s n k h =
    let place : s + (d + k) - d ≡ s + k = omega arith in
    copy_lem dst d src s n (d + k) ∙ (rw place (ground arith))

pub copy_outside :
    (dst : Bytes) (d : ℕ) (src : Bytes) (s n i : ℕ)
    → (i < d) ⊎ (d + n ≤ i)
    → copy dst d src s n i ≡ dst i
copy_outside dst d src s n i (inl below) = copy_lem dst d src s n i ∙ ground arith
copy_outside dst d src s n i (inr above) = copy_lem dst d src s n i ∙ ground arith

pub same_bytes_lem :
    (a : Bytes) (i : ℕ) (b : Bytes) (j n : ℕ)
    → same_bytes a i b j n ≡ true
    → (k : ℕ) → k < n
    → a (i + k) ≡ b (j + k)
unfolding same_bytes
same_bytes_lem a i b j zero h k p = absurd (omega arith)
same_bytes_lem a i b j (suc n) h zero p =
    let both : (a i ≡ b j) × (same_bytes a (i + 1) b (j + 1) n ≡ true) = ground arith in
    let left : i + 0 ≡ i = omega arith in
    let right : j + 0 ≡ j = omega arith in rw (left, right) both.0
same_bytes_lem a i b j (suc n) h (suc k) p =
    let both : (a i ≡ b j) × (same_bytes a (i + 1) b (j + 1) n ≡ true) = ground arith in
    let left : i + suc k ≡ i + 1 + k = omega arith in
    let right : j + suc k ≡ j + 1 + k = omega arith in
    rw (left, right) (same_bytes_lem a (i + 1) b (j + 1) n both.1 k (omega arith))

-- `htons` swaps the two bytes.
pub htons_lem : (v : ℕ) → v < 2 ^ 16 → htons v ≡ v % 2 ^ 8 * 2 ^ 8 + v / 2 ^ 8
unfolding htons
htons_lem v h =
    rw (bit_or_comm (v / 2 ^ 8) (v * 2 ^ 8), bit_or-add 8 v (v / 2 ^ 8) (omega arith)) (omega arith)

pub same_bytes_of :
    (a : Bytes) (i : ℕ) (b : Bytes) (j n : ℕ)
    → ((k : ℕ) → k < n → a (i + k) ≡ b (j + k))
    → same_bytes a i b j n ≡ true
unfolding same_bytes
same_bytes_of a i b j zero same = refl
same_bytes_of a i b j (suc n) same =
    let left : i + 0 ≡ i = omega arith in
    let right : j + 0 ≡ j = omega arith in
    let first : a i ≡ b j = rw (left, right) at (same 0 (omega arith)) in
    let rest : same_bytes a (i + 1) b (j + 1) n ≡ true = same_bytes_of a (i + 1) b (j + 1) n (λ k h.
      let left : i + suc k ≡ i + 1 + k = omega arith in
      let right : j + suc k ≡ j + 1 + k = omega arith in
      rw (left, right) at (same (suc k) (omega arith))) in
    ground (arith, first, rest)

-- A statement about the bytes of an address, one by one.
pub below_six : (P : ℕ → Type 0) → P 0 → P 1 → P 2 → P 3 → P 4 → P 5 → (k : ℕ) → k < 6 → P k
below_six P a b c d e f zero h = a
below_six P a b c d e f (suc zero) h = b
below_six P a b c d e f (suc (suc zero)) h = c
below_six P a b c d e f (suc (suc (suc zero))) h = d
below_six P a b c d e f (suc (suc (suc (suc zero)))) h = e
below_six P a b c d e f (suc (suc (suc (suc (suc zero))))) h = f
below_six P a b c d e f (suc (suc (suc (suc (suc (suc k)))))) h = absurd (omega arith)

pub below_four : (P : ℕ → Type 0) → P 0 → P 1 → P 2 → P 3 → (k : ℕ) → k < 4 → P k
below_four P a b c d zero h = a
below_four P a b c d (suc zero) h = b
below_four P a b c d (suc (suc zero)) h = c
below_four P a b c d (suc (suc (suc zero))) h = d
below_four P a b c d (suc (suc (suc (suc k)))) h = absurd (omega arith)

-- The two addresses at `dst` and `src` of `p` are the address at `from` of `frame` and ours.
abbrev pub Holds : ℕ → Bytes → ℕ → Bytes → ℕ → Type 0
Holds size p at q from = (k : ℕ) → k < size → p (at + k) ≡ q (from + k)
