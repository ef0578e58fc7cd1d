-- ===== src/Heap/Tests.antt =====
-- Runs of the heap on a small state, and the theorems at that state.
use matryoshka_os.Prelude.{
  ℕ, ◌+◌, ◌≤◌, ◌≡◌, refl, ◌⊎◌, Bool, true, false, List, [], ◌∷◌, arith, if◌then◌else◌, ◌==◌, Option,
  some, none,
}
use matryoshka_os.Heap.{
  Heap, Header, heap_base, heap_magic, kmalloc, kfree, krealloc, find_free_block, find_block,
  take_block, split_block, set_header, merge_free_blocks, merge_from, move_block,
}
use matryoshka_os.Heap.Layout.{Block, Holds}
use matryoshka_os.Heap.Take.{first_fit, take_first}
use matryoshka_os.Heap.Alloc.{Allocated, kmalloc_lem, kmalloc-wraps}
use matryoshka_os.Heap.Merge.{merge_all, IsMerged}
use matryoshka_os.Heap.Free.{freed, kfree_lem}
use matryoshka_os.Heap.Roundtrip.{kfree-kmalloc}

-- A used block of 64 bytes, a free one of 104, a used one of 32, and the rest, free.
abbrev used_64 : Block
used_64 = record { size = 64; free = false }

abbrev free_104 : Block
free_104 = record { size = 104; free = true }

abbrev used_32 : Block
used_32 = record { size = 32; free = false }

abbrev free_rest : Block
free_rest = record { size = 1048312; free = true }

abbrev blocks : List Block
blocks = used_64 ∷ free_104 ∷ used_32 ∷ free_rest ∷ []

abbrev block_header : ℕ → Bool → ℕ → Header
block_header size free next = record {
  magic = heap_magic;
  size = size;
  is_free = free;
  next = next;
}

abbrev sample : Heap
sample = record {
  header = λ p.
      if p == 0x200000
      then block_header 64 false 0x200050
      else if p == 0x200050
      then block_header 104 true 0x2000C8
      else if p == 0x2000C8
      then block_header 32 false 0x2000F8
      else block_header 1048312 true 0;
  byte = λ p. 7;
  heap_start = heap_base;
  heap_total = 0x100000;
  heap_used = 144;
}

sample-Holds : Holds sample blocks
sample-Holds = record {
  chain = (refl, (refl, (refl, (refl, refl))));
  aligned = (refl, (refl, (refl, (refl, tt))));
  start = refl;
  total = refl;
  used = refl;
}

blocks-IsMerged : IsMerged blocks
blocks-IsMerged = (refl, (refl, (refl, tt)))

pointer : Option (ℕ × Heap) → ℕ
pointer none = 0
pointer (some (p, h)) = p

alloc_50 : pointer (kmalloc 5 sample 50) ≡ 0x200060
unfolding kmalloc find_free_block find_block pointer
alloc_50 = refl

realloc_grows : pointer (krealloc 5 sample 0x200010 200) ≡ 0x200108
unfolding krealloc kmalloc kfree move_block find_free_block find_block pointer merge_free_blocks
    merge_from take_block split_block set_header
realloc_grows = refl

kmalloc_lem_example :
    (50 ≤ 56)
    × (((first_fit 56 heap_base blocks ≡ 0) × (kmalloc 5 sample 50 ≡ some (0, sample)))
        ⊎ ((h' : Heap) × ((kmalloc 5 sample 50 ≡ some (first_fit 56 heap_base blocks + 16, h'))
              × Allocated sample h' (first_fit 56 heap_base blocks) 56 blocks)))
kmalloc_lem_example =
    kmalloc_lem 5 sample 50 blocks sample-Holds (omega arith) (omega arith) (omega arith)

kfree_lem_example :
    (h' : Heap) × ((kfree 5 sample 0x2000D8 ≡ some h')
      × (Holds h' (merge_all (used_64 ∷ free_104 ∷ freed used_32 ∷ free_rest ∷ []))
          × (IsMerged (merge_all (used_64 ∷ free_104 ∷ freed used_32 ∷ free_rest ∷ []))
              × (((x : ℕ) → (sample.header x).is_free ≡ true → (h'.header x).is_free ≡ true)
                  × (kfree 5 h' 0x2000D8 ≡ some h')))))
kfree_lem_example =
    kfree_lem 5 sample (used_64 ∷ free_104 ∷ []) used_32 (free_rest ∷ []) sample-Holds refl
      (omega arith)

kfree-kmalloc_example :
    (h' : Heap) × (h'' : Heap) × ((kmalloc 6 sample 50 ≡ some (0x200060, h'))
      × ((kfree 6 h' 0x200060 ≡ some h'') × Holds h'' blocks))
kfree-kmalloc_example =
    kfree-kmalloc 6 sample 50 blocks sample-Holds blocks-IsMerged (omega arith) (omega arith)
      (omega arith) (omega arith)

kmalloc-wraps_example :
    (h' : Heap) × ((kmalloc 5 sample 0xFFFFFFFF ≡ some (0x200060, h'))
      × Holds h' (take_first 0 blocks))
kmalloc-wraps_example =
    kmalloc-wraps 5 sample 0xFFFFFFFF blocks sample-Holds (omega arith) (omega arith) (omega arith)
      (omega arith)
