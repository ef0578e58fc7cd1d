-- ===== src/Vfs/Tests.antt =====
-- Runs of the file system, and its theorems at a concrete state.
use matryoshka_os.Prelude.{
  ◌≢◌, ◌-◌, List, Option, none, ℕ, ◌+◌, ◌<◌, ◌≡◌, refl, inr, true, false, arith, ◌==◌,
  if◌then◌else◌, some, List, [], ◌∷◌,
}
use matryoshka_os.Vfs.{Fs, next_component, component_of, split_component, skip_slashes}
use matryoshka_os.Vfs.Ramfs.{read, write}
use matryoshka_os.Vfs.Ramfs.{
  node_size, create, lookup, find_child, alloc_node, fill_node, link_child,
}
use matryoshka_os.Vfs.Ramfs.Create.{CreatedAt, lookup-create}
use matryoshka_os.Heap.Layout.{Block, heap_init-Holds}
use matryoshka_os.Heap.Take.{first_fit}
use matryoshka_os.Heap.{
  heap_base, align8, heap_init, kmalloc, find_free_block, find_block, take_block, split_block,
}
use matryoshka_os.Vfs.Data.{HasData, read-write}

-- The descriptors 0 and 1 are in use; the node at 500 is a file of 10 bytes at 1000, of 64 at most.
abbrev sample : Fs
sample = record {
  node = λ p. record {
    name = 97 ∷ [];
    flags = 1;
    size = 10;
    inode = 1;
    has_ops = true;
    fs_data = 600;
    parent = 0;
    children = 0;
    next = 0;
  };
  file = λ p. record { data_at = 1000; capacity = 64 };
  heap = record {
    header = λ p. record { magic = 0; size = 0; is_free = false; next = 0 };
    byte = λ a. a;
    heap_start = 0;
    heap_total = 0;
    heap_used = 0;
  };
  next_inode = 2;
  fd_table = λ i. record {
    fd_node = 500;
    fd_offset = 0;
    fd_flags = 0;
    used = if i == 0 then true else i == 1;
  };
  root_node = 500;
}

abbrev path : List ℕ
path = 47 ∷ 47 ∷ 101 ∷ 116 ∷ 99 ∷ 47 ∷ 109 ∷ []

etc_first : next_component 64 path ≡ some (101 ∷ 116 ∷ 99 ∷ [], 47 ∷ 109 ∷ [])
unfolding next_component component_of split_component skip_slashes
etc_first = refl

sample-HasData : HasData sample 500
sample-HasData = record { is_file = refl; payload = omega arith; some_data = omega arith }

read-write_example :
    (s' : Fs) × ((write 1 sample 500 4 20 2000 ≡ some (20, s'))
      × (((read s' 500 4 20 3000).0 ≡ 20)
          × ((i : ℕ) (lt : i < 20) → (read s' 500 4 20 3000).1.heap.byte (3000 + i) ≡ 2000 + i)))
read-write_example =
    read-write 1 sample 500 4 20 2000 3000 sample-HasData (omega arith) (omega arith) (omega arith)
      (inr (omega arith)) (inr (omega arith))

-- The root, at 64, on a heap of one free block.
abbrev with_root : Fs
with_root = record sample {
  node = λ p. record {
    name = 47 ∷ [];
    flags = 2;
    size = 0;
    inode = 1;
    has_ops = true;
    fs_data = 0;
    parent = 0;
    children = 0;
    next = 0;
  };
  heap = heap_init sample.heap;
  root_node = 64;
}

abbrev made : Option (ℕ × Fs)
made = create 2 with_root 64 (97 ∷ []) 2

abbrev made_state : Option (ℕ × Fs) → Fs
made_state none = with_root
made_state (some r) = r.1

made_at : made ≡ some (heap_base + 16, made_state made)
unfolding create lookup find_child alloc_node fill_node link_child kmalloc find_free_block
    find_block take_block split_block heap_init
made_at = refl

abbrev whole : List Block
whole = record { size = 0x00100000 - 16; free = true } ∷ []

lookup-create_example :
    (◌≢◌ {A = ℕ} 0 0 → create 3 with_root 64 (97 ∷ []) 2 ≡ some (0, with_root))
    × (◌≡◌ {A = ℕ} 0 0
        → first_fit (align8 node_size) heap_base whole ≡ 0
        → create 3 with_root 64 (97 ∷ []) 2 ≡ some (0, with_root))
    × (◌≡◌ {A = ℕ} 0 0
        → first_fit (align8 node_size) heap_base whole ≢ 0
        → (r : ℕ × Fs) × ((create 3 with_root 64 (97 ∷ []) 2 ≡ some r)
            × CreatedAt 3 with_root 64
                (97 ∷ [])
                (first_fit (align8 node_size) heap_base whole + 16)
                r))
lookup-create_example =
    lookup-create 3 with_root 64 (97 ∷ []) 2 [] whole refl (omega arith) refl (omega arith)
      (heap_init-Holds sample.heap) (omega arith)
