-- ===== src/Heap/Merge.antt =====
-- `merge_free_blocks` of kernel/mm/heap.c, on the list of blocks.
use native.Mathlib.Decide.{ℕ_discrete}
use matryoshka_os.Prelude.{
  ℕ, zero, suc, ◌+◌, ◌≤◌, ◌<◌, ◌≡◌, refl, sym, ap, subst, ◌∙◌, true, false, ◌&&◌, List, [], ◌∷◌,
  arith, if◌then◌else◌, ==_ne, ==_eq, length, some, Bool-cases, inl, inr, ==_self,
}
use matryoshka_os.Heap.{
  Heap, heap_magic, heap_base, header_size, set_header, merge_from, merge_free_blocks, add32,
}
use matryoshka_os.Heap.Layout.{
  Block, addr_of, header_of, Chain, Chain-le, Chain-update, heap_stop, Holds, used_bytes, IsAligned,
}

-- Two neighbours as one free block, with the room of the second header.
abbrev pub glue : Block → Block → Block
glue b c = record { size = b.size + 16 + c.size; free = true }

-- The blocks `b ∷ bs` with each run of free blocks as one block.
abbrev pub merge_runs : Block → List Block → List Block
merge_runs b [] = b ∷ []
merge_runs b (c ∷ cs) = if b.free && c.free then merge_runs (glue b c) cs else b ∷ merge_runs c cs

abbrev pub merge_all : List Block → List Block
merge_all [] = []
merge_all (b ∷ bs) = merge_runs b bs

-- No two neighbours are free.
abbrev pub IsMerged : List Block → Type 0
IsMerged [] = Unit {0}
IsMerged (b ∷ []) = Unit {0}
IsMerged (b ∷ c ∷ cs) = (b.free && c.free ≡ false) × IsMerged (c ∷ cs)

-- What a walk of `merge_free_blocks` from `p` on leaves alone.
pub record Merged (h h' : Heap) (p : ℕ) (bs : List Block) : Type 0 where
  pub chain : Chain h'.header heap_stop p bs
  pub below : (x : ℕ) → x < p → h'.header x ≡ h.header x
  pub stays_free : (x : ℕ) → (h.header x).is_free ≡ true → (h'.header x).is_free ≡ true
  pub start : h'.heap_start ≡ h.heap_start
  pub total : h'.heap_total ≡ h.heap_total
  pub used : h'.heap_used ≡ h.heap_used

addr_of-merge_runs : (p : ℕ) (b : Block) (bs : List Block) → addr_of p (merge_runs b bs) ≡ p
addr_of-merge_runs p b [] = refl
addr_of-merge_runs p b (c ∷ cs) = elim (Bool-cases (b.free && c.free)) [
  | inl both ↦ rw both (addr_of-merge_runs p (glue b c) cs)
  | inr one ↦ rw one refl
]

module _ (h : Heap) (fuel p : ℕ) (b c : Block) (cs : List Block)
    (chain : Chain h.header heap_stop p (b ∷ c ∷ cs)) (pos : 0 < p) where
  glued : Heap
  glued = set_header h p (header_of p (glue b c) cs)

  merge_from-glue : b.free && c.free ≡ true → merge_from (suc fuel) h p ≡ merge_from fuel glued p
  unfolding merge_from glued
  merge_from-glue both =
      let stop : p + 16 + b.size + 16 + c.size ≤ heap_stop =
        Chain-le h.header heap_stop (p + 16 + b.size + 16 + c.size) cs chain.1.1 in
      let total : add32 b.size (add32 header_size c.size) ≡ b.size + 16 + c.size =
        omega (arith, stop) in
      let after : p + 16 + b.size + 16 + c.size ≡ p + 16 + (b.size + 16 + c.size) = omega arith in
      let free : b.free ≡ true = ground arith in
      rw
        (
          chain.0,
          chain.1.0,
          ==_ne p 0 (omega arith),
          ==_ne (p + 16 + b.size) 0 (omega arith),
          both,
          total,
          after,
        )
        (rw free refl)

  merge_from-skip :
      b.free && c.free ≡ false → merge_from (suc fuel) h p ≡ merge_from fuel h (p + 16 + b.size)
  unfolding merge_from
  merge_from-skip one =
      rw (chain.0, chain.1.0, ==_ne p 0 (omega arith), ==_ne (p + 16 + b.size) 0 (omega arith), one)
        refl

  Chain-glue : Chain glued.header heap_stop p (glue b c ∷ cs)
  unfolding set_header glued
  Chain-glue =
      let after : p + 16 + b.size + 16 + c.size ≡ p + 16 + (b.size + 16 + c.size) = omega arith in
      (
        rw (==_self p) refl,
        subst (λ (x : ℕ). Chain glued.header heap_stop x cs) after
            (Chain-update h.header heap_stop (p + 16 + b.size + 16 + c.size) p _ cs (omega arith)
              chain.1.1),
      )

  Merged-glue : (h' : Heap) (bs : List Block) → Merged glued h' p bs → Merged h h' p bs
  unfolding set_header glued
  Merged-glue h' bs m = record {
    chain = m.chain;
    below = λ x lt. m.below x lt ∙ rw (==_ne p x (omega arith)) refl;
    stays_free = λ x e.
        m.stays_free x
          (elim (ℕ_discrete p x) [ yes eq ↦ rw (==_eq p x eq) refl | no ne ↦ rw (==_ne p x ne) e ]);
    start = m.start;
    total = m.total;
    used = m.used;
  }

  Merged-skip :
      (h' : Heap)
      → Merged h h' (p + 16 + b.size) (merge_runs c cs)
      → Merged h h' p (b ∷ merge_runs c cs)
  Merged-skip h' m = record {
    chain = (
      m.below p (omega arith)
          ∙ chain.0
          ∙ ap (λ (x : ℕ). record { magic = heap_magic; size = b.size; is_free = b.free; next = x })
              (sym (addr_of-merge_runs (p + 16 + b.size) c cs)),
      m.chain,
    );
    below = λ x lt. m.below x (omega arith);
    stays_free = m.stays_free;
    start = m.start;
    total = m.total;
    used = m.used;
  }

merge_from-last :
    (h : Heap) (fuel p : ℕ) (b : Block)
    → Chain h.header heap_stop p (b ∷ [])
    → 0 < p
    → merge_from (suc fuel) h p ≡ some h
unfolding merge_from
merge_from-last h fuel p b chain pos = simp (chain.0, ==_ne p 0 (omega arith)) refl

-- The walk ends, with the runs of free blocks joined.
pub merge_from-Merged :
    (bs : List Block) (fuel : ℕ) (h : Heap) (p : ℕ) (b : Block)
    → Chain h.header heap_stop p (b ∷ bs)
    → 0 < p
    → length bs < fuel
    → (h' : Heap) × ((merge_from fuel h p ≡ some h') × Merged h h' p (merge_runs b bs))
merge_from-Merged bs zero h p b chain pos k = absurd (omega arith)
merge_from-Merged [] (suc fuel) h p b chain pos k = (
  h,
  (
    merge_from-last h fuel p b chain pos,
    record {
      chain = chain;
      below = λ x lt. refl;
      stays_free = λ x e. e;
      start = refl;
      total = refl;
      used = refl;
    },
  ),
)
merge_from-Merged (c ∷ cs) (suc fuel) h p b chain pos k = elim (Bool-cases (b.free && c.free)) [
  | inl both ↦
      let (h', (e, m)) =
        merge_from-Merged cs fuel (glued h fuel p b c cs chain pos) p (glue b c)
          (Chain-glue h fuel p b c cs chain pos) pos (omega arith) in
      rw both (
        h',
        (
          merge_from-glue h fuel p b c cs chain pos both ∙ e,
          Merged-glue h fuel p b c cs chain pos h' (merge_runs (glue b c) cs) m,
        ),
      )
  | inr one ↦
      let (h', (e, m)) =
        merge_from-Merged cs fuel h (p + 16 + b.size) c chain.1 (omega arith) (omega arith) in
      rw one (
        h',
        (
          merge_from-skip h fuel p b c cs chain pos one ∙ e,
          Merged-skip h fuel p b c cs chain pos h' m,
        ),
      )
]

pub used_bytes-merge_runs :
    (b : Block) (bs : List Block) → used_bytes (merge_runs b bs) ≡ used_bytes (b ∷ bs)
used_bytes-merge_runs b [] = refl
used_bytes-merge_runs b (c ∷ cs) =
    ground (arith, used_bytes-merge_runs (glue b c) cs, used_bytes-merge_runs c cs)

pub merge_runs-IsAligned :
    (b : Block) (bs : List Block) → IsAligned (b ∷ bs) → IsAligned (merge_runs b bs)
merge_runs-IsAligned b [] a = a
merge_runs-IsAligned b (c ∷ cs) (first, (second, rest)) = elim (Bool-cases (b.free && c.free)) [
  | inl both ↦ rw both (merge_runs-IsAligned (glue b c) cs (omega arith, rest))
  | inr one ↦ rw one (first, merge_runs-IsAligned c cs (second, rest))
]

IsMerged-cons :
    (b c : Block) (cs : List Block)
    → b.free && c.free ≡ false
    → IsMerged (merge_runs c cs)
    → IsMerged (b ∷ merge_runs c cs)
IsMerged-cons b c [] one m = (one, m)
IsMerged-cons b c (d ∷ ds) one m = elim (Bool-cases (c.free && d.free)) [
  | inl both ↦ rw both (IsMerged-cons b (glue c d) ds (ground arith) (subst IsMerged (step both) m))
  | inr apart ↦ rw apart (one, subst IsMerged (stop apart) m)
]
  where
    step : c.free && d.free ≡ true → merge_runs c (d ∷ ds) ≡ merge_runs (glue c d) ds
    step both = rw both refl

    stop : c.free && d.free ≡ false → merge_runs c (d ∷ ds) ≡ c ∷ merge_runs d ds
    stop apart = rw apart refl

pub merge_runs-IsMerged : (b : Block) (bs : List Block) → IsMerged (merge_runs b bs)
merge_runs-IsMerged b [] = tt
merge_runs-IsMerged b (c ∷ cs) = elim (Bool-cases (b.free && c.free)) [
  | inl both ↦ rw both (merge_runs-IsMerged (glue b c) cs)
  | inr one ↦ rw one (IsMerged-cons b c cs one (merge_runs-IsMerged c cs))
]

-- What `merge_free_blocks` does: the walk has fuel for every block.
pub merge_free_blocks-Holds :
    (fuel : ℕ) (h : Heap) (bs : List Block)
    → Holds h bs
    → length bs < fuel
    → (h' : Heap) × ((merge_free_blocks fuel h ≡ some h')
        × (Holds h' (merge_all bs)
            × ((x : ℕ) → (h.header x).is_free ≡ true → (h'.header x).is_free ≡ true)))
unfolding merge_free_blocks
merge_free_blocks-Holds fuel h [] holds k = absurd (omega (arith, holds.chain))
merge_free_blocks-Holds fuel h (b ∷ bs) holds k =
    let (h', (e, m)) =
      merge_from-Merged bs fuel h heap_base b holds.chain (omega arith) (omega arith) in
    (
      h',
      (
        simp (holds.start) e,
        (
          record {
            chain = m.chain;
            aligned = merge_runs-IsAligned b bs holds.aligned;
            start = m.start ∙ holds.start;
            total = m.total ∙ holds.total;
            used = omega (arith, m.used, holds.used, used_bytes-merge_runs b bs);
          },
          m.stays_free,
        ),
      ),
    )
