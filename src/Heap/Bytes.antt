-- ===== src/Heap/Bytes.antt =====
-- The loops over payload bytes in kernel/mm/heap.c, and `kzalloc`.
use native.Mathlib.Decide.{ℕ_discrete}
use matryoshka_os.Prelude.{
  ℕ, zero, suc, ◌+◌, ◌^◌, ◌≤◌, ◌<◌, ◌≡◌, ◌≢◌, refl, ap, ◌∙◌, ◌⊎◌, List, arith, update, ==_ne, ==_eq,
  length, some, inl, inr,
}
use matryoshka_os.Heap.{Heap, heap_base, kzalloc, zeroed, zero_bytes, align8, add32}
use matryoshka_os.Heap.Layout.{Block, Holds}
use matryoshka_os.Heap.Take.{first_fit, take_first}
use matryoshka_os.Heap.Alloc.{kmalloc_any}

zero_bytes-outside :
    (bytes : ℕ → ℕ) (p rounds i x : ℕ)
    → p + i + rounds < 2 ^ 32
    → (x < p + i) ⊎ (p + i + rounds ≤ x)
    → zero_bytes bytes p rounds i x ≡ bytes x
unfolding zero_bytes
zero_bytes-outside bytes p zero i x lt out = refl
zero_bytes-outside bytes p (suc rounds) i x lt out =
    zero_bytes-outside (update bytes (add32 p i) 0) p rounds (i + 1) x (omega arith) (ground arith)
    ∙ rw (==_ne (add32 p i) x (ground arith)) refl

zero_bytes-inside :
    (bytes : ℕ → ℕ) (p rounds i x : ℕ)
    → p + i + rounds < 2 ^ 32
    → (p + i ≤ x) × (x < p + i + rounds)
    → zero_bytes bytes p rounds i x ≡ 0
unfolding zero_bytes
zero_bytes-inside bytes p zero i x lt within = absurd (omega arith)
zero_bytes-inside bytes p (suc rounds) i x lt within = elim (ℕ_discrete (p + i) x) [
  | yes e ↦
      zero_bytes-outside (update bytes (add32 p i) 0) p rounds (i + 1) x (omega arith)
        (inl (omega arith))
      ∙ rw (==_eq (add32 p i) x (omega arith)) refl
  | no ne ↦
      zero_bytes-inside (update bytes (add32 p i) 0) p rounds (i + 1) x (omega arith)
        (omega arith, omega arith)
]

-- `kzalloc` of a size between 1 and 2^32 - 8, on a heap that holds the blocks `bs` of which a free
-- one has room for the size rounded up to a multiple of 8, returns the pointer behind that block's
-- header and a heap in which the block is taken, as `kmalloc` would, every byte from the pointer up
-- to the size reads 0, and every byte outside is the one of before (the fuel is above the number of
-- blocks).
pub kzalloc_lem :
    (fuel : ℕ) (h : Heap) (size : ℕ) (bs : List Block)
    → Holds h bs
    → 0 < size
    → size + 7 < 2 ^ 32
    → first_fit (align8 size) heap_base bs ≢ 0
    → length bs < fuel
    → (h' : Heap) × ((kzalloc fuel h size ≡ some (first_fit (align8 size) heap_base bs + 16, h'))
        × (Holds h' (take_first (align8 size) bs)
            × (((x : ℕ) (from : first_fit (align8 size) heap_base bs + 16 ≤ x)
                    (to : x < first_fit (align8 size) heap_base bs + 16 + size)
                  → h'.byte x ≡ 0)
                × ((x : ℕ)
                      (out : (x < first_fit (align8 size) heap_base bs + 16)
                        ⊎ (first_fit (align8 size) heap_base bs + 16 + size ≤ x))
                    → h'.byte x ≡ h.byte x))))
unfolding kzalloc zeroed
kzalloc_lem fuel h size bs holds pos small ne k = elim (kmalloc_any fuel h size bs holds pos k) [
  | inl (e, same) ↦ absurd (ne e)
  | inr (h', (e, a)) ↦
      let q : ℕ = first_fit (align8 size) heap_base bs in
      let bound : q + 16 + size < 2 ^ 32 = omega (arith, a.below) in
      (
        record h' { byte = zero_bytes h'.byte (q + 16) size 0 },
        (
          rw (e, ==_ne (q + 16) 0 (omega arith)) refl,
          (
            record {
              chain = a.holds.chain;
              aligned = a.holds.aligned;
              start = a.holds.start;
              total = a.holds.total;
              used = a.holds.used;
            },
            (
              λ x from to.
                  zero_bytes-inside h'.byte (q + 16) size 0 x (omega arith)
                    (omega arith, omega arith),
              λ x out.
                  zero_bytes-outside h'.byte (q + 16) size 0 x (omega arith) (ground arith)
                  ∙ ap (λ (m : ℕ → ℕ). m x) a.bytes,
            ),
          ),
        ),
      )
]
