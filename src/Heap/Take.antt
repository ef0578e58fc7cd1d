-- ===== src/Heap/Take.antt =====
-- First fit and splitting (kernel/mm/heap.c), on the list of blocks.
use matryoshka_os.Prelude.{
  ℕ, zero, suc, ◌+◌, ◌-◌, ◌≤◌, ◌<◌, ◌≡◌, refl, sym, subst, Bool, true, false, ◌&&◌, List, [], ◌∷◌,
  arith, leb, if◌then◌else◌, update, ==_ne, length, some, Bool-cases, inl, inr, ==_self,
}
use matryoshka_os.Heap.{
  Heap, Header, heap_magic, heap_base, heap_initial, header_size, set_header, find_block,
  split_block, take_block, add32, sub32,
}
use matryoshka_os.Heap.Layout.{Block, addr_of, Chain, Chain-le, Chain-update, heap_stop}

-- A free block with room for `size` bytes.
abbrev pub fits : ℕ → Block → Bool
fits size b = b.free && leb size b.size

-- The address of the first block that fits, where the blocks begin at `p`; NULL if none does.
abbrev pub first_fit : ℕ → ℕ → List Block → ℕ
first_fit size p [] = 0
first_fit size p (b ∷ bs) = if fits size b then p else first_fit size (p + 16 + b.size) bs

-- The block `b` in use for `size` bytes: the rest is split off if it has room for a header and 16
-- bytes more.
abbrev pub carve : ℕ → Block → List Block → List Block
carve size b bs =
    if leb (size + 32) b.size
    then record { size = size; free = false }
      ∷ record { size = b.size - size - 16; free = true }
      ∷ bs
    else record { size = b.size; free = false } ∷ bs

-- The blocks after the first one that fits was taken.
abbrev pub take_first : ℕ → List Block → List Block
take_first size [] = []
take_first size (b ∷ bs) = if fits size b then carve size b bs else b ∷ take_first size bs

pub find_block-eq-first_fit :
    (bs : List Block) (fuel : ℕ) (h : Heap) (size stop p : ℕ)
    → Chain h.header stop p bs
    → 0 < p
    → length bs < fuel
    → find_block fuel h size (addr_of p bs) ≡ some (first_fit size p bs)
unfolding find_block
find_block-eq-first_fit bs zero h size stop p c pos k = absurd (omega arith)
find_block-eq-first_fit [] (suc fuel) h size stop p c pos k = refl
find_block-eq-first_fit (b ∷ bs) (suc fuel) h size stop p (here, rest) pos k =
    rw
      (
        here,
        ==_ne p 0 (omega arith),
        find_block-eq-first_fit bs fuel h size stop (p + 16 + b.size) rest (omega arith)
            (omega arith),
      )
      (elim (Bool-cases (fits size b)) [ inl hit ↦ rw hit | inr miss ↦ rw miss ])

module _ (m : ℕ → Header) (p size : ℕ) (b : Block) (bs : List Block)
    (c : Chain m heap_stop p (b ∷ bs)) where
  new_header : Header
  new_header = record {
    magic = heap_magic;
    size = b.size - size - 16;
    is_free = true;
    next = addr_of (p + 16 + b.size) bs;
  }

  split_header : Bool → Header
  split_header free = record {
    magic = heap_magic;
    size = size;
    is_free = free;
    next = p + 16 + size;
  }

  carve_split :
      size + 32 ≤ b.size
      → Chain
          (update
            (update (update m (p + 16 + size) new_header) p (split_header true))
            p
            (split_header false))
          heap_stop
          p
          (record { size = size; free = false }
            ∷ record { size = b.size - size - 16; free = true }
            ∷ bs)
  unfolding new_header split_header
  carve_split le = (
    rw (==_self p) refl,
    rw (end, ==_ne p (p + 16 + size) (omega arith), ==_self (p + 16 + size))
        (
          refl,
          Chain-update _ heap_stop (p + 16 + b.size) p (split_header false) bs (omega arith) (
              Chain-update _ heap_stop (p + 16 + b.size) p (split_header true) bs (omega arith) (
                Chain-update m heap_stop (p + 16 + b.size) (p + 16 + size) new_header bs
                  (omega arith) c.1)),
        ),
  )
    where
      end : p + 16 + size + 16 + (b.size - size - 16) ≡ p + 16 + b.size
      end = omega arith

  carve_whole :
      Chain
        (update m p (record (m p) { is_free = false }))
        heap_stop
        p
        (record { size = b.size; free = false } ∷ bs)
  carve_whole = (
    rw (==_self p, c.0) refl,
    Chain-update m heap_stop (p + 16 + b.size) p _ bs (omega arith) c.1,
  )

module _ (h : Heap) (p size : ℕ) (b : Block) (bs : List Block)
    (c : Chain h.header heap_stop p (b ∷ bs)) (pos : heap_base ≤ p) where
  block_end : p + 16 + b.size ≤ heap_stop
  block_end = Chain-le h.header heap_stop (p + 16 + b.size) bs c.1

  new_addr : fits size b ≡ true → add32 p (add32 header_size size) ≡ p + 16 + size
  new_addr fit = ground (arith, block_end)

  -- Whether `split_block` splits, and what it leaves.
  split_whole : fits size b ≡ true → leb (size + 32) b.size ≡ false → split_block h p size ≡ h
  unfolding split_block
  split_whole fit small = rw (c.0) (ground (arith, block_end))

  split_parts :
      fits size b ≡ true
      → leb (size + 32) b.size ≡ true
      → split_block h p size ≡ record h {
        header =
            update
              (update h.header (p + 16 + size) (new_header h.header p size b bs c))
              p
              (split_header h.header p size b bs c true);
      }
  unfolding split_block set_header new_header split_header
  split_parts fit large =
      let test : leb (add32 (add32 size header_size) 16) b.size ≡ true =
        ground (arith, block_end) in
      let rest : sub32 (sub32 b.size size) header_size ≡ b.size - size - 16 =
        ground (arith, block_end) in
      let free : b.free ≡ true = ground arith in rw (c.0, test, new_addr fit, rest) (rw free refl)

  -- The block that was taken: its payload's size.
  abbrev taken_size : ℕ
  taken_size = if leb (size + 32) b.size then size else b.size

  split_memory : ℕ → Header
  split_memory =
      update (update h.header (p + 16 + size) (new_header h.header p size b bs c)) p
        (split_header h.header p size b bs c true)

  split_memory_self : split_memory p ≡ split_header h.header p size b bs c true
  unfolding split_memory
  split_memory_self = rw (==_self p) refl

  take_split :
      size + 32 ≤ b.size
      → Chain (update split_memory p (record (split_memory p) { is_free = false })) heap_stop p (
          record { size = size; free = false }
          ∷ record { size = b.size - size - 16; free = true }
          ∷ bs)
  take_split le =
      subst
        (λ (x : Header). Chain (update split_memory p (record x { is_free = false })) heap_stop p (
          record { size = size; free = false }
          ∷ record { size = b.size - size - 16; free = true }
          ∷ bs))
        (sym split_memory_self)
        (unfold split_header split_memory in carve_split h.header p size b bs c le)

  -- The memory after the block was taken holds the carved blocks.
  pub take_header :
      fits size b ≡ true → Chain (take_block h p size).1.header heap_stop p (carve size b bs)
  unfolding take_block set_header split_memory
  take_header fit = elim (Bool-cases (leb (size + 32) b.size)) [
    | inl large ↦ rw (split_parts fit large, large) (take_split (ground arith))
    | inr small ↦ rw (split_whole fit small, small) (carve_whole h.header p size b bs c)
  ]

  used_after :
      (x : ℕ) (y : Header)
      → y.size ≡ x
      → x ≤ heap_initial
      → add32 h.heap_used (add32 header_size y.size) ≡ add32 h.heap_used (16 + x)
  used_after x y e le = rw e (omega arith)

  pub take_used :
      fits size b ≡ true → (take_block h p size).1.heap_used ≡ add32 h.heap_used (16 + taken_size)
  unfolding take_block set_header split_memory
  take_used fit = elim (Bool-cases (leb (size + 32) b.size)) [
    | inl large ↦
        rw (split_parts fit large, large)
          (used_after size (split_memory p) (rw split_memory_self (unfold split_header in refl))
            (ground (arith, block_end, pos)))
    | inr small ↦
        rw (split_whole fit small, small)
          (used_after b.size (h.header p) (rw (c.0) refl) (omega (arith, block_end, pos)))
  ]
