-- ===== src/Heap/Layout.antt =====
-- The shape of the heap's block list (kernel/mm/heap.c) as a list of sizes: the blocks lie one after
-- the other from the first address to the end, and the headers in memory say so.
use matryoshka_os.Prelude.{
  ℕ, ◌+◌, ◌-◌, ◌%◌, ◌≤◌, ◌<◌, ◌≡◌, refl, Bool, true, List, [], ◌∷◌, arith, if◌then◌else◌, update,
  ==_ne,
}
use matryoshka_os.Heap.{Heap, Header, heap_base, heap_initial, heap_magic, heap_init}

-- A block: its payload's size, and whether it is free.
pub record Block : Type 0 where
  pub size : ℕ
  pub free : Bool

-- The address of the blocks `bs`, which begin at `p` if there are any, and NULL otherwise.
abbrev pub addr_of : ℕ → List Block → ℕ
addr_of p [] = 0
addr_of p (b ∷ bs) = p

-- What the header of a block at `p` holds, before the blocks `rest`.
abbrev pub header_of : ℕ → Block → List Block → Header
header_of p b rest = record {
  magic = heap_magic;
  size = b.size;
  is_free = b.free;
  next = addr_of (p + 16 + b.size) rest;
}

-- The blocks `bs` lie in memory from `p` up to `stop`.
abbrev pub Chain : (ℕ → Header) → ℕ → ℕ → List Block → Type 0
Chain m stop p [] = p ≡ stop
Chain m stop p (b ∷ bs) = (m p ≡ header_of p b bs) × Chain m stop (p + 16 + b.size) bs

-- The bytes of the used blocks, with their headers.
abbrev pub used_bytes : List Block → ℕ
used_bytes [] = 0
used_bytes (b ∷ bs) = (if b.free then 0 else 16 + b.size) + used_bytes bs

-- Every size is a multiple of 8.
abbrev pub IsAligned : List Block → Type 0
IsAligned [] = Unit {0}
IsAligned (b ∷ bs) = (b.size % 8 ≡ 0) × IsAligned bs

abbrev pub heap_stop : ℕ
heap_stop = heap_base + heap_initial

-- The heap `h` holds the blocks `bs`: they fill it, its statics fit them.
pub record Holds (h : Heap) (bs : List Block) : Type 0 where
  pub chain : Chain h.header heap_stop heap_base bs
  pub aligned : IsAligned bs
  pub start : h.heap_start ≡ heap_base
  pub total : h.heap_total ≡ heap_initial
  pub used : h.heap_used ≡ 16 + used_bytes bs

pub Chain-le : (m : ℕ → Header) (stop p : ℕ) (bs : List Block) → Chain m stop p bs → p ≤ stop
Chain-le m stop p [] h = omega arith
Chain-le m stop p (b ∷ bs) (here, rest) = omega (arith, Chain-le m stop (p + 16 + b.size) bs rest)

-- A write below a chain does not touch it.
pub Chain-update :
    (m : ℕ → Header) (stop p a : ℕ) (v : Header) (bs : List Block)
    → a < p
    → Chain m stop p bs
    → Chain (update m a v) stop p bs
Chain-update m stop p a v [] lt h = h
Chain-update m stop p a v (b ∷ bs) lt (here, rest) = (
  rw (==_ne a p (omega arith)) here,
  Chain-update m stop (p + 16 + b.size) a v bs (omega arith) rest,
)

pub used_bytes-le :
    (m : ℕ → Header) (stop p : ℕ) (bs : List Block) → Chain m stop p bs → p + used_bytes bs ≤ stop
used_bytes-le m stop p [] h = omega arith
used_bytes-le m stop p (b ∷ bs) (here, rest) =
    ground (arith, used_bytes-le m stop (p + 16 + b.size) bs rest)

-- After `heap_init` the heap is one free block, and one header is counted as used.
pub heap_init-Holds :
    (h : Heap) → Holds (heap_init h) (record { size = 0x00100000 - 16; free = true } ∷ [])
unfolding heap_init
heap_init-Holds h = record {
  chain = (refl, refl);
  aligned = (refl, tt);
  start = refl;
  total = refl;
  used = refl;
}
