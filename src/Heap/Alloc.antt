-- ===== src/Heap/Alloc.antt =====
-- `kmalloc` of kernel/mm/heap.c against first fit on the list of blocks.
use native.Mathlib.Decide.{ℕ_discrete}
use matryoshka_os.Prelude.{
  ℕ, ◌+◌, ◌%◌, ◌^◌, ◌≤◌, ◌<◌, ◌≡◌, ◌≢◌, refl, sym, ap, subst, ◌∙◌, ◌⊎◌, Bool, false, List, [], ◌∷◌,
  arith, leb, if◌then◌else◌, ==_ne, ==_eq, length, some, Bool-cases, inl, inr,
}
use matryoshka_os.Heap.{
  Heap, Header, heap_base, header_size, set_header, find_free_block, split_block, take_block,
  kmalloc, align8, add32,
}
use matryoshka_os.Heap.Layout.{
  Block, addr_of, Chain, Chain-le, heap_stop, Holds, used_bytes, used_bytes-le, IsAligned,
}
use matryoshka_os.Heap.Take.{
  fits, first_fit, carve, take_first, find_block-eq-first_fit, take_header, take_used,
}

-- The bytes, with the header, of the block that is taken.
abbrev pub taken_bytes : ℕ → List Block → ℕ
taken_bytes size [] = 0
taken_bytes size (b ∷ bs) =
    if fits size b
    then 16 + (if leb (size + 32) b.size then size else b.size)
    else taken_bytes size bs

used_bytes-take_first :
    (size : ℕ) (bs : List Block)
    → used_bytes (take_first size bs) ≡ used_bytes bs + taken_bytes size bs
used_bytes-take_first size [] = omega arith
used_bytes-take_first size (b ∷ bs) = ground (arith, used_bytes-take_first size bs)

IsAligned-take_first :
    (size : ℕ) (bs : List Block) → size % 8 ≡ 0 → IsAligned bs → IsAligned (take_first size bs)
IsAligned-take_first size [] e a = a
IsAligned-take_first size (b ∷ bs) e (here, rest) = elim (Bool-cases (fits size b)) [
  | inl hit ↦ rw hit (IsAligned-carve size b bs e here rest)
  | inr miss ↦ rw miss (here, IsAligned-take_first size bs e rest)
]
  where
    IsAligned-carve :
        (size : ℕ) (b : Block) (bs : List Block)
        → size % 8 ≡ 0
        → b.size % 8 ≡ 0
        → IsAligned bs
        → IsAligned (carve size b bs)
    IsAligned-carve size b bs e here rest = elim (Bool-cases (leb (size + 32) b.size)) [
      | inl large ↦ rw large (e, (ground arith, rest))
      | inr small ↦ rw small (here, rest)
    ]

addr_of-take_first : (size p : ℕ) (bs : List Block) → addr_of p (take_first size bs) ≡ addr_of p bs
addr_of-take_first size p [] = refl
addr_of-take_first size p (b ∷ bs) = ground arith

first_fit_bounds :
    (m : ℕ → Header) (stop size p : ℕ) (bs : List Block)
    → Chain m stop p bs
    → first_fit size p bs ≢ 0
    → (p ≤ first_fit size p bs) × (first_fit size p bs + 16 + size ≤ stop)
first_fit_bounds m stop size p [] c ne = absurd (ne refl)
first_fit_bounds m stop size p (b ∷ bs) (here, rest) ne = ground (
  arith,
  first_fit_bounds m stop size (p + 16 + b.size) bs rest,
  Chain-le m stop (p + 16 + b.size) bs rest,
)

-- Taking a block writes its header and one behind it, and nothing below.
header-take_block :
    (h : Heap) (q size x : ℕ)
    → x < q
    → q + 16 + size ≤ heap_stop
    → (take_block h q size).1.header x ≡ h.header x
unfolding take_block split_block set_header
header-take_block h q size x lt le =
    elim (Bool-cases (leb (add32 (add32 size header_size) 16) (h.header q).size)) [
      | inl large ↦
          rw (
            large,
            ==_ne q x (omega arith),
            ==_ne (add32 q (add32 header_size size)) x (omega arith),
          )
      | inr small ↦ rw (small, ==_ne q x (omega arith))
    ]

take_first-Chain :
    (bs : List Block) (h : Heap) (size p : ℕ)
    → Chain h.header heap_stop p bs
    → heap_base ≤ p
    → first_fit size p bs ≢ 0
    → Chain (take_block h (first_fit size p bs) size).1.header heap_stop p (take_first size bs)
      × ((take_block h (first_fit size p bs) size).1.heap_used
          ≡ add32 h.heap_used (taken_bytes size bs))
take_first-Chain [] h size p c pos ne = absurd (ne refl)
take_first-Chain (b ∷ bs) h size p c pos ne = elim (Bool-cases (fits size b)) [
  | inl hit ↦ rw hit (take_header h p size b bs c pos hit, take_used h p size b bs c pos hit)
  | inr miss ↦ rw miss (
      skip (later miss)
        (take_first-Chain bs h size (p + 16 + b.size) c.1 (omega arith) (later miss)))
]
  where
    q : ℕ
    q = first_fit size (p + 16 + b.size) bs

    later : fits size b ≡ false → q ≢ 0
    later miss =
        subst (λ (t : Bool). (if t then p else first_fit size (p + 16 + b.size) bs) ≢ 0) miss ne

    skip :
        q ≢ 0
        → Chain (take_block h q size).1.header heap_stop (p + 16 + b.size) (take_first size bs)
          × ((take_block h q size).1.heap_used ≡ add32 h.heap_used (taken_bytes size bs))
        → Chain (take_block h q size).1.header heap_stop p (b ∷ take_first size bs)
          × ((take_block h q size).1.heap_used ≡ add32 h.heap_used (taken_bytes size bs))
    skip some_fit (rest, used) =
        let (above, below) =
          first_fit_bounds h.header heap_stop size (p + 16 + b.size) bs c.1 some_fit in
        (
          (
            rw
                (
                  header-take_block h q size p (omega arith) below,
                  addr_of-take_first size (p + 16 + b.size) bs,
                )
                c.0,
            rest,
          ),
          used,
        )

first_fit-aligned :
    (size p : ℕ) (bs : List Block) → p % 8 ≡ 0 → IsAligned bs → first_fit size p bs % 8 ≡ 0
first_fit-aligned size p [] e a = refl
first_fit-aligned size p (b ∷ bs) e (here, rest) =
    ground (arith, first_fit-aligned size (p + 16 + b.size) bs (omega arith) rest)

-- What a successful `kmalloc` promises: the block at `block` is taken for `size` bytes.
pub record Allocated (old h : Heap) (block size : ℕ) (bs : List Block) : Type 0 where
  pub holds : Holds h (take_first size bs)
  pub aligned : (block + 16) % 8 ≡ 0
  pub above : heap_base ≤ block
  pub below : block + 16 + size ≤ heap_stop
  pub bytes : h.byte ≡ old.byte

statics-take_block :
    (h : Heap) (q size : ℕ)
    → ((take_block h q size).1.heap_start ≡ h.heap_start)
      × ((take_block h q size).1.heap_total ≡ h.heap_total)
      × ((take_block h q size).1.byte ≡ h.byte)
unfolding take_block split_block set_header
statics-take_block h q size =
    elim (Bool-cases (leb (add32 (add32 size header_size) 16) (h.header q).size)) [
      | inl large ↦ rw large (refl, refl, refl)
      | inr small ↦ rw small (refl, refl, refl)
    ]

take_block-Allocated :
    (h : Heap) (size : ℕ) (bs : List Block)
    → Holds h bs
    → size % 8 ≡ 0
    → first_fit size heap_base bs ≢ 0
    → Allocated h
        (take_block h (first_fit size heap_base bs) size).1
        (first_fit size heap_base bs)
        size
        bs
take_block-Allocated h size bs holds e ne =
    let (above, below) = first_fit_bounds h.header heap_stop size heap_base bs holds.chain ne in
    let (chain, used) = take_first-Chain bs h size heap_base holds.chain (omega arith) ne in
    record {
      holds = record {
        chain = chain;
        aligned = IsAligned-take_first size bs e holds.aligned;
        start = (statics-take_block h (first_fit size heap_base bs) size).0 ∙ holds.start;
        total = (statics-take_block h (first_fit size heap_base bs) size).1 ∙ holds.total;
        used = omega (
          arith,
          used,
          holds.used,
          used_bytes-take_first size bs,
          used_bytes-le _ heap_stop heap_base (take_first size bs) chain,
        );
      };
      aligned = omega (arith, first_fit-aligned size heap_base bs refl holds.aligned);
      above = above;
      below = below;
      bytes = (statics-take_block h (first_fit size heap_base bs) size).2;
    }

find_free_block_lem :
    (fuel : ℕ) (h : Heap) (size : ℕ) (bs : List Block)
    → Holds h bs
    → length bs < fuel
    → find_free_block fuel h size ≡ some (first_fit size heap_base bs)
unfolding find_free_block
find_free_block_lem fuel h size [] holds k = absurd (omega (arith, holds.chain))
find_free_block_lem fuel h size (b ∷ bs) holds k =
    simp (holds.start)
      (find_block-eq-first_fit (b ∷ bs) fuel h size heap_stop heap_base holds.chain (omega arith) k)

take_block-pointer :
    (h : Heap) (q size : ℕ)
    → q + 16 + size ≤ heap_stop
    → take_block h q size ≡ (q + 16, (take_block h q size).1)
unfolding take_block
take_block-pointer h q size le = ap (λ (x : ℕ). (x, (take_block h q size).1)) (omega arith)

-- `kmalloc` takes the first block that fits the rounded size, whatever the rounding gave.
pub kmalloc_any :
    (fuel : ℕ) (h : Heap) (size : ℕ) (bs : List Block)
    → Holds h bs
    → 0 < size
    → length bs < fuel
    → ((first_fit (align8 size) heap_base bs ≡ 0) × (kmalloc fuel h size ≡ some (0, h)))
      ⊎ ((h' : Heap) × ((kmalloc fuel h size ≡ some (first_fit (align8 size) heap_base bs + 16, h'))
            × Allocated h h' (first_fit (align8 size) heap_base bs) (align8 size) bs))
unfolding kmalloc find_free_block
kmalloc_any fuel h size bs holds pos k =
    let found : find_free_block fuel h (align8 size) ≡ some q =
      find_free_block_lem fuel h (align8 size) bs holds k in
    rw (==_ne size 0 (omega arith), found)
      (elim (ℕ_discrete q 0) [
        | yes e ↦ inl (e, rw (==_eq q 0 e))
        | no ne ↦
            let (above, below) =
              first_fit_bounds h.header heap_stop (align8 size) heap_base bs holds.chain ne in
            inr (
              (take_block h q (align8 size)).1,
              (
                rw (==_ne q 0 ne) (ap some (take_block-pointer h q (align8 size) below)),
                take_block-Allocated h (align8 size) bs holds (omega arith) ne,
              ),
            )
      ])
  where
    q : ℕ
    q = first_fit (align8 size) heap_base bs

-- `kmalloc` of a size between 1 and 2^32 - 8 bytes, on a heap that holds the blocks `bs`, returns
-- (the fuel is above the number of blocks). If no free block has room for the size, rounded up to
-- a multiple of 8, it returns NULL and the heap as it was. Otherwise the pointer is the address
-- behind the header of the first free block with room, it is a multiple of 8, its bytes up to the
-- rounded size lie inside the heap, no payload byte changes, and the heap then holds the same
-- blocks with that one in use, its rest split off as a free block where the rest has room for a
-- header and 16 bytes. The rounded size is at least the size.
pub kmalloc_lem :
    (fuel : ℕ) (h : Heap) (size : ℕ) (bs : List Block)
    → Holds h bs
    → 0 < size
    → size + 7 < 2 ^ 32
    → length bs < fuel
    → (size ≤ align8 size)
      × (((first_fit (align8 size) heap_base bs ≡ 0) × (kmalloc fuel h size ≡ some (0, h)))
          ⊎ ((h' : Heap) × ((kmalloc fuel h size
                  ≡ some (first_fit (align8 size) heap_base bs + 16, h'))
                × Allocated h h' (first_fit (align8 size) heap_base bs) (align8 size) bs)))
kmalloc_lem fuel h size bs holds pos small k = (omega arith, kmalloc_any fuel h size bs holds pos k)

-- `kmalloc` of a size above 2^32 - 8 rounds it to 0: it takes the first free block, if there is one,
-- splits all but 0 bytes off it where it has 32 bytes, and returns a pointer, not NULL.
pub kmalloc-wraps :
    (fuel : ℕ) (h : Heap) (size : ℕ) (bs : List Block)
    → Holds h bs
    → 2 ^ 32 ≤ size + 7
    → size < 2 ^ 32
    → first_fit 0 heap_base bs ≢ 0
    → length bs < fuel
    → (h' : Heap) × ((kmalloc fuel h size ≡ some (first_fit 0 heap_base bs + 16, h'))
        × Holds h' (take_first 0 bs))
kmalloc-wraps fuel h size bs holds big small ne k =
    subst (λ (s : ℕ). Wraps s) zero_size
      (elim (kmalloc_any fuel h size bs holds (omega arith) k) [
        | inl (e, same) ↦
            absurd (subst (λ (s : ℕ). first_fit s heap_base bs ≢ 0) (sym zero_size) ne e)
        | inr (h', (e, a)) ↦ (h', (e, a.holds))
      ])
  where
    Wraps : ℕ → Type 0
    Wraps s =
        (h' : Heap) × ((kmalloc fuel h size ≡ some (first_fit s heap_base bs + 16, h'))
          × Holds h' (take_first s bs))

    zero_size : align8 size ≡ 0
    zero_size = omega arith
