-- ===== src/Heap/Free.antt =====
-- `kfree` of kernel/mm/heap.c, on the list of blocks.
use native.Mathlib.Decide.{ℕ_discrete}
use matryoshka_os.Prelude.{
  ==_eq, ℕ, ◌+◌, ◌^◌, ◌≤◌, ◌<◌, ◌≡◌, refl, ◌∙◌, true, false, List, [], ◌∷◌, ◌++◌, arith, ◌==◌,
  update, ==_ne, length, some, Bool-cases, inl, inr, ==_self,
}
use matryoshka_os.Heap.{
  Heap, Header, heap_magic, heap_base, header_size, set_header, merge_free_blocks, kfree, add32,
  sub32,
}
use matryoshka_os.Heap.Layout.{
  Block, addr_of, header_of, Chain, Chain-le, Chain-update, heap_stop, Holds, used_bytes,
  used_bytes-le, IsAligned,
}
use matryoshka_os.Heap.Merge.{merge_all, IsMerged, merge_runs-IsMerged, merge_free_blocks-Holds}

-- The address behind the blocks `bs`, which begin at `p`.
abbrev pub end_of : ℕ → List Block → ℕ
end_of p [] = p
end_of p (b ∷ bs) = end_of (p + 16 + b.size) bs

abbrev pub freed : Block → Block
freed b = record { size = b.size; free = true }

end_of-le : (p : ℕ) (bs : List Block) → p ≤ end_of p bs
end_of-le p [] = omega arith
end_of-le p (b ∷ bs) = omega (arith, end_of-le (p + 16 + b.size) bs)

Chain-at :
    (m : ℕ → Header) (stop p : ℕ) (xs : List Block) (b : Block) (ys : List Block)
    → Chain m stop p (xs ++ b ∷ ys)
    → Chain m stop (end_of p xs) (b ∷ ys)
Chain-at m stop p [] b ys c = c
Chain-at m stop p (x ∷ xs) b ys c = Chain-at m stop (p + 16 + x.size) xs b ys c.1

addr_of-append :
    (p : ℕ) (xs : List Block) (b c : Block) (ys : List Block)
    → addr_of p (xs ++ b ∷ ys) ≡ addr_of p (xs ++ c ∷ ys)
addr_of-append p [] b c ys = refl
addr_of-append p (x ∷ xs) b c ys = refl

-- Marking a block free in its header marks it free in the list.
Chain-freed :
    (m : ℕ → Header) (stop p : ℕ) (xs : List Block) (b : Block) (ys : List Block)
    → Chain m stop p (xs ++ b ∷ ys)
    → Chain
        (update m (end_of p xs) (header_of (end_of p xs) (freed b) ys))
        stop
        p
        (xs ++ freed b ∷ ys)
Chain-freed m stop p [] b ys c =
    (rw (==_self p) refl, Chain-update m stop (p + 16 + b.size) p _ ys (omega arith) c.1)
Chain-freed m stop p (x ∷ xs) b ys c = (
  rw
      (
        ==_ne (end_of (p + 16 + x.size) xs) p (omega (arith, end_of-le (p + 16 + x.size) xs)),
        addr_of-append (p + 16 + x.size) xs (freed b) b ys,
      )
      c.0,
  Chain-freed m stop (p + 16 + x.size) xs b ys c.1,
)

used_bytes-freed :
    (xs : List Block) (b : Block) (ys : List Block)
    → b.free ≡ false
    → used_bytes (xs ++ b ∷ ys) ≡ used_bytes (xs ++ freed b ∷ ys) + (16 + b.size)
used_bytes-freed [] b ys e = ground arith
used_bytes-freed (x ∷ xs) b ys e = ground (arith, used_bytes-freed xs b ys e)

IsAligned-freed :
    (xs : List Block) (b : Block) (ys : List Block)
    → IsAligned (xs ++ b ∷ ys)
    → IsAligned (xs ++ freed b ∷ ys)
IsAligned-freed [] b ys a = a
IsAligned-freed (x ∷ xs) b ys (here, rest) = (here, IsAligned-freed xs b ys rest)

length-freed :
    (xs : List Block) (b : Block) (ys : List Block)
    → length (xs ++ freed b ∷ ys) ≡ length (xs ++ b ∷ ys)
length-freed [] b ys = refl
length-freed (x ∷ xs) b ys = omega (arith, length-freed xs b ys)

-- The heap before `merge_free_blocks` runs.
released : Heap → ℕ → Heap
unfolding set_header
released h q =
    let b = h.header q in
    let t = set_header h q (record b { is_free = true }) in
    record t { heap_used = sub32 t.heap_used (add32 header_size b.size) }

released-Holds :
    (h : Heap) (xs : List Block) (b : Block) (ys : List Block)
    → Holds h (xs ++ b ∷ ys)
    → b.free ≡ false
    → Holds (released h (end_of heap_base xs)) (xs ++ freed b ∷ ys)
unfolding released set_header
released-Holds h xs b ys holds e =
    let q : ℕ = end_of heap_base xs in
    let at : Chain h.header heap_stop q (b ∷ ys) =
      Chain-at h.header heap_stop heap_base xs b ys holds.chain in
    record {
      chain = rw (at.0) (Chain-freed h.header heap_stop heap_base xs b ys holds.chain);
      aligned = IsAligned-freed xs b ys holds.aligned;
      start = holds.start;
      total = holds.total;
      used = rw (at.0) (
          omega (
            arith,
            holds.used,
            used_bytes-freed xs b ys e,
            used_bytes-le _ heap_stop heap_base (xs ++ b ∷ ys) holds.chain,
          ));
    }

module _ (fuel : ℕ) (h : Heap) (q : ℕ) (small : q + 16 < 2 ^ 32) where
  block_of : sub32 (q + 16) header_size ≡ q
  block_of = omega arith

  kfree-used :
      (h.header q).magic ≡ heap_magic
      → (h.header q).is_free ≡ false
      → kfree fuel h (q + 16) ≡ merge_free_blocks fuel (released h q)
  unfolding kfree released set_header
  kfree-used valid used = rw (block_of, ==_ne (q + 16) 0 (omega arith), valid, used) refl

  kfree-free : (h.header q).is_free ≡ true → kfree fuel h (q + 16) ≡ some h
  unfolding kfree
  kfree-free free = elim (Bool-cases ((h.header q).magic == heap_magic)) [
    | inl valid ↦ rw (block_of, ==_ne (q + 16) 0 (omega arith), valid, free) refl
    | inr bad ↦ rw (block_of, ==_ne (q + 16) 0 (omega arith), bad) refl
  ]

released-IsFree : (h : Heap) (q : ℕ) → ((released h q).header q).is_free ≡ true
unfolding released set_header
released-IsFree h q = rw (==_self q) refl

released-keeps :
    (h : Heap) (q x : ℕ) → (h.header x).is_free ≡ true → ((released h q).header x).is_free ≡ true
unfolding released set_header
released-keeps h q x free = elim (ℕ_discrete q x) [
  | yes e ↦ rw (==_eq q x e) refl
  | no ne ↦ rw (==_ne q x ne) free
]

merge_all-IsMerged : (bs : List Block) → IsMerged (merge_all bs)
merge_all-IsMerged [] = tt
merge_all-IsMerged (b ∷ bs) = merge_runs-IsMerged b bs

-- `kfree` of a pointer to a used block, the one behind the blocks `xs` and before the blocks `ys`,
-- returns (the fuel is above the number of blocks). The heap then holds the same blocks with that
-- one free and each run of free blocks joined to one block, so no two neighbours are free. Every
-- header that was marked free before is so after it, and the one that was freed is too: a second `kfree`
-- of the same pointer returns and changes nothing in the heap (the source then prints an error, which is
-- not modelled).
pub kfree_lem :
    (fuel : ℕ) (h : Heap) (xs : List Block) (b : Block) (ys : List Block)
    → Holds h (xs ++ b ∷ ys)
    → b.free ≡ false
    → length (xs ++ b ∷ ys) < fuel
    → (h' : Heap) × ((kfree fuel h (end_of heap_base xs + 16) ≡ some h')
        × (Holds h' (merge_all (xs ++ freed b ∷ ys))
            × (IsMerged (merge_all (xs ++ freed b ∷ ys))
                × (((x : ℕ) → (h.header x).is_free ≡ true → (h'.header x).is_free ≡ true)
                    × (kfree fuel h' (end_of heap_base xs + 16) ≡ some h')))))
kfree_lem fuel h xs b ys holds e k =
    let q : ℕ = end_of heap_base xs in
    let at : Chain h.header heap_stop q (b ∷ ys) =
      Chain-at h.header heap_stop heap_base xs b ys holds.chain in
    let stop : q + 16 + b.size ≤ heap_stop =
      Chain-le h.header heap_stop (q + 16 + b.size) ys at.1 in
    let (h', (merged, (holds', stays))) =
      merge_free_blocks-Holds fuel (released h q) (xs ++ freed b ∷ ys)
        (released-Holds h xs b ys holds e) (omega (arith, k, length-freed xs b ys)) in
    (
      h',
      (
        kfree-used fuel h q (omega arith) (rw (at.0) refl) (rw (at.0) e) ∙ merged,
        (
          holds',
          (
            merge_all-IsMerged (xs ++ freed b ∷ ys),
            (
              λ x free. stays x (released-keeps h q x free),
              kfree-free fuel h' q (omega arith) (stays q (released-IsFree h q)),
            ),
          ),
        ),
      ),
    )
