-- ===== src/Vfs/Ramfs/Create.antt =====
-- `ramfs_create` and `ramfs_lookup` of kernel/fs/ramfs.c, on a directory with a list of children.
use matryoshka_os.Prelude.{
  ℕ, zero, suc, ◌+◌, ◌<◌, ◌≡◌, ◌≢◌, refl, ap, ◌∙◌, inl, inr, arith, true, some, List, [], ◌∷◌,
  length, ◌==◌, ==_eq, ==_ne, if◌then◌else◌, Bool-cases, ◌>>=◌,
}
use matryoshka_os.Heap.{Heap, heap_base, align8, kmalloc}
use matryoshka_os.Heap.Layout.{Block, Holds}
use matryoshka_os.Heap.Take.{first_fit, take_first}
use matryoshka_os.Heap.Alloc.{Allocated, kmalloc_any}
use matryoshka_os.Heap.Roundtrip.{length-take_first}
use matryoshka_os.Vfs.{Fs, is_directory, has_flag, vfs_file}
use matryoshka_os.Vfs.Ramfs.{
  node_size, file_size, add_file, fill_node, alloc_node, same_name, find_child, lookup, link_child,
  create,
}
use matryoshka_os.Vfs.Ramfs.Directory.{Linked, create-Linked}

-- The nodes of the list that begins at `c` and goes on by `next`.
abbrev pub Children : Fs → ℕ → List ℕ → Type 0
Children s c [] = c ≡ 0
Children s c (x ∷ xs) = (c ≡ x) × (x ≢ 0) × Children s (s.node x).next xs

-- The first of the nodes that has the name, or NULL.
abbrev pub child_named : Fs → List ℕ → List ℕ → ℕ
child_named s name [] = 0
child_named s name (x ∷ xs) = if same_name (s.node x).name name then x else child_named s name xs

find_child_lem :
    (fuel : ℕ) (s : Fs) (c : ℕ) (name xs : List ℕ)
    → Children s c xs
    → length xs < fuel
    → find_child fuel s c name ≡ some (child_named s name xs)
unfolding find_child
find_child_lem zero s c name xs chain k = absurd (omega arith)
find_child_lem (suc fuel) s c name [] chain k = rw (==_eq c 0 chain) refl
find_child_lem (suc fuel) s c name (x ∷ xs) (at, some_node, chain) k =
    let rest : find_child fuel s (s.node x).next name ≡ some (child_named s name xs) =
      find_child_lem fuel s (s.node x).next name xs chain (omega arith) in
    rw (at, ==_ne x 0 some_node, rest)
      (elim (Bool-cases (same_name (s.node x).name name)) [
        | inl same ↦ rw same refl
        | inr other ↦ rw other refl
      ])

add_file-returns :
    (fuel : ℕ) (s : Fs) (p : ℕ) (bs : List Block)
    → Holds s.heap bs
    → length bs < fuel
    → (t : Fs) × (add_file fuel s p ≡ some (p, t))
unfolding add_file
add_file-returns fuel s p bs holds k =
    elim (kmalloc_any fuel s.heap file_size bs holds (omega arith) k) [
      | inl (full, e) ↦ rw e (_, refl)
      | inr (h, (e, allocated)) ↦ rw e (_, refl)
    ]

fill_node-returns :
    (fuel : ℕ) (s : Fs) (p : ℕ) (name : List ℕ) (flags : ℕ) (bs : List Block)
    → Holds s.heap bs
    → length bs < fuel
    → (t : Fs) × (fill_node fuel s p name flags ≡ some (p, t))
unfolding fill_node
fill_node-returns fuel s p name flags bs holds k = elim (Bool-cases (has_flag flags vfs_file)) [
  | inl file ↦ rw file (add_file-returns fuel _ p bs holds k)
  | inr directory ↦ rw directory (_, refl)
]

link_child-node : (parent p : ℕ) (t : Fs) → (link_child parent (p, t)).0 ≡ p
unfolding link_child
link_child-node parent p t = elim (Bool-cases (p == 0)) [
  | inl null ↦ rw null refl
  | inr some_node ↦ rw some_node refl
]

module _ (fuel : ℕ) (s : Fs) (parent : ℕ) (name : List ℕ) (flags : ℕ)
    (directory : is_directory s parent ≡ true) where
  -- `ramfs_create` of a name that is there, and of one that is not.
  create-taken :
      (q : ℕ)
      → lookup fuel s parent name ≡ some q
      → q ≢ 0
      → create fuel s parent name flags ≡ some (0, s)
  unfolding create
  create-taken q found some_node = rw (directory, found, ==_ne q 0 some_node) refl

  create-new :
      lookup fuel s parent name ≡ some 0
      → create fuel s parent name flags
        ≡ (alloc_node fuel s name flags >>= λ r. some (link_child parent r))
  unfolding create
  create-new absent = rw (directory, absent) refl

-- A name that is looked up to a node is not created again.
create-again :
    (fuel : ℕ) (t : Fs) (parent : ℕ) (name : List ℕ) (flags p : ℕ)
    → lookup fuel t parent name ≡ some p
    → p ≢ 0
    → create fuel t parent name flags ≡ some (0, t)
create-again fuel t parent name flags p found some_node =
    elim (Bool-cases (is_directory t parent)) [
      | inl directory ↦ create-taken fuel t parent name flags directory p found some_node
      | inr file ↦ unfold create in rw file refl
    ]

-- What creating a name made of `s`, when kmalloc gave the node's memory at `p`.
abbrev pub CreatedAt : ℕ → Fs → ℕ → List ℕ → ℕ → ℕ × Fs → Type 0
CreatedAt fuel s parent name p r =
    (r.0 ≡ p)
    × (p ≢ parent
        → Linked s parent name r
          × ((fuel' flags' : ℕ) → create (suc fuel') r.1 parent name flags' ≡ some (0, r.1)))

module _ (fuel : ℕ) (s : Fs) (parent : ℕ) (name : List ℕ) (flags : ℕ) (xs : List ℕ)
    (bs : List Block) (directory : is_directory s parent ≡ true) (short : length name < 64)
    (absent : lookup fuel s parent name ≡ some 0) (holds : Holds s.heap bs)
    (enough : length bs + 1 < fuel) where
  create-full :
      kmalloc fuel s.heap node_size ≡ some (0, s.heap)
      → create fuel s parent name flags ≡ some (0, s)
  unfolding alloc_node link_child
  create-full full = rw (create-new fuel s parent name flags directory absent, full) refl

  linked :
      (p : ℕ) (t : Fs)
      → create fuel s parent name flags ≡ some (p, t)
      → p ≢ 0
      → CreatedAt fuel s parent name p (p, t)
  linked p t made some_node = (
    refl,
    λ apart.
        let links = create-Linked fuel s parent name flags p t short made some_node apart in
        (
          links,
          λ fuel' flags'. create-again (suc fuel') t parent name flags' p (links.0 fuel') some_node,
        ),
  )

  alloc_node-returns :
      (q : ℕ) (h : Heap)
      → kmalloc fuel s.heap node_size ≡ some (q + 16, h)
      → Allocated s.heap h q (align8 node_size) bs
      → (t : Fs) × (alloc_node fuel s name flags ≡ some (q + 16, t))
  unfolding alloc_node
  alloc_node-returns q h got allocated =
      rw (got, ==_ne (q + 16) 0 (omega arith))
        (fill_node-returns fuel (record s { heap = h }) (q + 16) name flags
          (take_first (align8 node_size) bs) allocated.holds
          (omega (arith, enough, length-take_first (align8 node_size) bs)))

  create-returns :
      (q : ℕ) (h : Heap)
      → kmalloc fuel s.heap node_size ≡ some (q + 16, h)
      → Allocated s.heap h q (align8 node_size) bs
      → (t : Fs) × (create fuel s parent name flags ≡ some (q + 16, t))
  create-returns q h got allocated =
      let (t, e) = alloc_node-returns q h got allocated in
      (
        (link_child parent (q + 16, t)).1,
        create-new fuel s parent name flags directory absent
            ∙ (ap (λ o. o >>= λ r. some (link_child parent r)) e
                ∙ ap (λ (n : ℕ). some (n, (link_child parent (q + 16, t)).1))
                    (link_child-node parent (q + 16) t)),
      )

-- `ramfs_create` of a name of at most 63 characters in a directory whose children are the nodes `xs`,
-- on a heap that holds the blocks `bs`, with more fuel than there are children, and than blocks by 2,
-- returns. If a child has the name, or if no free block of the heap has room for a node, it returns
-- NULL and changes nothing. Otherwise it returns the address behind the header of the first block that
-- has room. If that is not the address of the directory itself, it is the node that `ramfs_lookup` then
-- finds by the name; its parent is the directory, it stands before the children that there were, and no
-- node but it and the directory has changed; and creating the name once more returns NULL and changes
-- nothing.
pub lookup-create :
    (fuel : ℕ) (s : Fs) (parent : ℕ) (name : List ℕ) (flags : ℕ) (xs : List ℕ) (bs : List Block)
    → is_directory s parent ≡ true
    → length name < 64
    → Children s (s.node parent).children xs
    → length xs < fuel
    → Holds s.heap bs
    → length bs + 1 < fuel
    → (child_named s name xs ≢ 0 → create fuel s parent name flags ≡ some (0, s))
      × (child_named s name xs ≡ 0
          → first_fit (align8 node_size) heap_base bs ≡ 0
          → create fuel s parent name flags ≡ some (0, s))
      × (child_named s name xs ≡ 0
          → first_fit (align8 node_size) heap_base bs ≢ 0
          → (r : ℕ × Fs) × ((create fuel s parent name flags ≡ some r)
              × CreatedAt fuel s parent name (first_fit (align8 node_size) heap_base bs + 16) r))
lookup-create fuel s parent name flags xs bs directory short chain k holds enough =
    let q : ℕ = first_fit (align8 node_size) heap_base bs in
    let found : lookup fuel s parent name ≡ some (child_named s name xs) =
      unfold lookup in
      rw directory (find_child_lem fuel s (s.node parent).children name xs chain k) in
    let node = kmalloc_any fuel s.heap node_size bs holds (omega arith) (omega arith) in
    (
      λ taken. create-taken fuel s parent name flags directory (child_named s name xs) found taken,
      λ absent full. elim node [
        | inl (none_fits, e) ↦
            create-full fuel s parent name flags xs bs directory short (found ∙ ap some absent)
              holds enough e
        | inr (h, (e, allocated)) ↦ absurd (omega (arith, full, allocated.above))
      ],
      λ absent fits. elim node [
        | inl (none_fits, e) ↦ absurd (fits none_fits)
        | inr (h, (e, allocated)) ↦
            let here : lookup fuel s parent name ≡ some 0 = found ∙ ap some absent in
            let (t, made) =
              create-returns fuel s parent name flags xs bs directory short here holds enough q h e
                allocated in
            (
              (q + 16, t),
              (
                made,
                linked fuel s parent name flags xs bs directory short here holds enough (q + 16) t
                    made (omega arith),
              ),
            )
      ],
    )
