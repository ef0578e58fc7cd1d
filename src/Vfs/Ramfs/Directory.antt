-- ===== src/Vfs/Ramfs/Directory.antt =====
-- kernel/fs/ramfs.c: what `ramfs_create` links, where it gives a node.
use native.Mathlib.Decide.{ℕ_discrete}
use matryoshka_os.Prelude.{
  if_keeps, ℕ, zero, suc, ◌<◌, ◌≤◌, ◌≡◌, ◌≢◌, refl, sym, ap, ◌∙◌, ◌⊎◌, inl, inr, subst, arith, true,
  not, Option, none, some, List, [], ◌∷◌, length, take, ◌==◌, ==_eq, ==_ne, ==_self, if◌then◌else◌,
  ◌>>=◌, update, Bool-cases,
}
use matryoshka_os.Heap.{Heap, kmalloc}
use matryoshka_os.Vfs.{Fs, Node, set_node, is_directory, has_flag, vfs_file}
use matryoshka_os.Vfs.Ramfs.{
  node_size, file_size, add_file, fill_node, alloc_node, same_name, find_child, lookup, link_child,
  create,
}

module _ {A : Type 0} (P : A → Type 0) where
  -- The result, where there is one, has the property.
  abbrev pub Result : Option A → Type 0
  Result none = Unit
  Result (some a) = P a

  bound :
      {B : Type 0} (o : Option B) (f : B → Option A) → ((b : B) → Result (f b)) → Result (o >>= f)
  bound none f h = _
  bound (some b) f h = h b

take_whole : (n : ℕ) (l : List ℕ) → length l ≤ n → take n l ≡ l
take_whole zero [] h = refl
take_whole zero (x ∷ l) h = absurd (omega arith)
take_whole (suc n) [] h = refl
take_whole (suc n) (x ∷ l) h = ap (λ (r : List ℕ). x ∷ r) (take_whole n l (omega arith))

same_name_self : (l : List ℕ) → same_name l l ≡ true
unfolding same_name
same_name_self [] = refl
same_name_self (x ∷ l) = rw (==_self x) (same_name_self l)

-- A new node has the name, and no other node has changed.
abbrev Made : Fs → List ℕ → ℕ × Fs → Type 0
Made s name r =
    (r.0 ≡ 0) ⊎ (((r.1.node r.0).name ≡ take 63 name) × ((q : ℕ) → q ≢ r.0 → r.1.node q ≡ s.node q))

add_file-Made :
    (fuel : ℕ) (s t : Fs) (p : ℕ) (name : List ℕ)
    → ((t.node p).name ≡ take 63 name)
    → ((q : ℕ) → q ≢ p → t.node q ≡ s.node q)
    → Result (Made s name) (add_file fuel t p)
unfolding add_file
add_file-Made fuel s t p name named others =
    bound (Made s name) (kmalloc fuel t.heap file_size)
      (λ (r : ℕ × Heap). some (
        p,
        record (set_node t p (record (t.node p) { fs_data = r.0 })) {
          heap = r.1;
          file =
              if r.0 == 0 then t.file else update t.file r.0 (record { data_at = 0; capacity = 0 });
        },
      ))
      (λ (r : ℕ × Heap).
        inr (rw (==_self p) named, λ q apart. rw (==_ne p q (λ e. apart (sym e))) (others q apart)))

fill_node-Made :
    (fuel : ℕ) (s : Fs) (p : ℕ) (name : List ℕ) (flags : ℕ)
    → Result (Made s name) (fill_node fuel s p name flags)
unfolding fill_node
fill_node-Made fuel s p name flags =
    if_keeps (Result (Made s name)) (has_flag flags vfs_file) _ _
      (add_file-Made fuel s _ p name (rw (==_self p) refl)
        (λ q apart. rw (==_ne p q (λ e. apart (sym e))) refl))
      (inr (rw (==_self p) refl, λ q apart. rw (==_ne p q (λ e. apart (sym e))) refl))

alloc_node-Made :
    (fuel : ℕ) (s : Fs) (name : List ℕ) (flags : ℕ)
    → Result (Made s name) (alloc_node fuel s name flags)
unfolding alloc_node
alloc_node-Made fuel s name flags =
    bound (Made s name) (kmalloc fuel s.heap node_size)
      (λ (r : ℕ × Heap).
        if r.0 == 0
        then some (0, record s { heap = r.1 })
        else fill_node fuel (record s { heap = r.1 }) r.0 name flags)
      (λ (r : ℕ × Heap).
        if_keeps (Result (Made s name)) (r.0 == 0) _ _ (inl refl)
          (fill_node-Made fuel (record s { heap = r.1 }) r.0 name flags))

-- The node is the first child of its parent, and is found there.
abbrev pub Linked : Fs → ℕ → List ℕ → ℕ × Fs → Type 0
Linked s parent name r =
    ((fuel : ℕ) → lookup (suc fuel) r.1 parent name ≡ some r.0)
    × ((r.1.node r.0).parent ≡ parent)
    × ((r.1.node r.0).next ≡ (s.node parent).children)
    × ((q : ℕ) → q ≢ r.0 → q ≢ parent → r.1.node q ≡ s.node q)

abbrev Added : Fs → ℕ → List ℕ → ℕ × Fs → Type 0
Added s parent name r = (r.0 ≡ 0) ⊎ ((r.0 ≡ parent) ⊎ Linked s parent name r)

module _ (s t : Fs) (parent p : ℕ) (name : List ℕ) (directory : is_directory s parent ≡ true)
    (short : length name < 64) (some_node : p ≢ 0) (apart : p ≢ parent)
    (named : (t.node p).name ≡ take 63 name) (others : (q : ℕ) → q ≢ p → t.node q ≡ s.node q) where
  with_parent : ℕ → Node
  with_parent =
      update t.node p (record (t.node p) { parent = parent; next = (t.node parent).children })

  -- The state after the links were set.
  linked : Fs
  linked = record t {
    node = update with_parent parent (record (with_parent parent) { children = p });
  }

  link_child-linked : link_child parent (p, t) ≡ (p, linked)
  unfolding linked with_parent link_child
  link_child-linked = rw (==_ne p 0 some_node) refl

  node-linked :
      (linked.node p ≡ record (t.node p) { parent = parent; next = (t.node parent).children })
      × (linked.node parent ≡ record (t.node parent) { children = p })
      × ((q : ℕ) → q ≢ p → q ≢ parent → linked.node q ≡ t.node q)
  unfolding linked with_parent
  node-linked =
      let other : parent ≢ p = λ e. apart (sym e) in
      (
        rw (==_ne parent p other, ==_self p) refl,
        rw (==_self parent, ==_ne p parent apart) refl,
        λ q a b. rw (==_ne parent q (λ e. b (sym e)), ==_ne p q (λ e. a (sym e))) refl,
      )

  found : (fuel : ℕ) → lookup (suc fuel) linked parent name ≡ some p
  unfolding lookup find_child
  found fuel =
      let same_parent : t.node parent ≡ s.node parent = others parent (λ e. apart (sym e)) in
      let still : is_directory linked parent ≡ true =
        ap (λ (n : Node). has_flag n.flags 2) (node-linked.1)
        ∙ (ap (λ (n : Node). has_flag n.flags 2) same_parent ∙ directory) in
      let first : (linked.node parent).children ≡ p = ap (λ (n : Node). n.children) node-linked.1 in
      let its_name : (linked.node p).name ≡ name =
        ap (λ (n : Node). n.name) node-linked.0 ∙ (named ∙ take_whole 63 name (omega arith)) in
      let same : same_name (linked.node p).name name ≡ true =
        ap (λ (l : List ℕ). same_name l name) its_name ∙ same_name_self name in
      rw (still, first, ==_ne p 0 some_node, same) refl

  link_child-Linked : Linked s parent name (link_child parent (p, t))
  link_child-Linked =
      let same_parent : t.node parent ≡ s.node parent = others parent (λ e. apart (sym e)) in
      subst (Linked s parent name) (sym link_child-linked) (
        found,
        ap (λ (n : Node). n.parent) node-linked.0,
        ap (λ (n : Node). n.next) node-linked.0 ∙ ap (λ (n : Node). n.children) same_parent,
        λ q a b. node-linked.2 q a b ∙ others q a,
      )

link_child-Added :
    (s : Fs) (parent : ℕ) (name : List ℕ) (r : ℕ × Fs)
    → is_directory s parent ≡ true
    → length name < 64
    → Made s name r
    → Added s parent name (link_child parent r)
unfolding link_child
link_child-Added s parent name (p, t) directory short made = elim (ℕ_discrete p 0) [
  | yes null ↦ inl (rw (==_eq p 0 null) null)
  | no some_node ↦ elim (ℕ_discrete p parent) [
    | yes same ↦ inr (inl (rw (==_ne p 0 some_node) same))
    | no apart ↦ elim made [
      | inl null ↦ absurd (some_node null)
      | inr (named, others) ↦
          inr
            (inr (link_child-Linked s t parent p name directory short some_node apart named others))
    ]
  ]
]

map-Added :
    (s : Fs) (parent : ℕ) (name : List ℕ) (o : Option (ℕ × Fs))
    → is_directory s parent ≡ true
    → length name < 64
    → Result (Made s name) o
    → Result (Added s parent name) (o >>= λ r. some (link_child parent r))
map-Added s parent name none directory short made = _
map-Added s parent name (some r) directory short made =
    link_child-Added s parent name r directory short made

create-Added :
    (fuel : ℕ) (s : Fs) (parent : ℕ) (name : List ℕ) (flags : ℕ)
    → length name < 64
    → Result (Added s parent name) (create fuel s parent name flags)
unfolding create
create-Added fuel s parent name flags short = elim (Bool-cases (is_directory s parent)) [
  | inr file ↦ rw file (inl refl)
  | inl directory ↦ rw directory (
      bound (Added s parent name) (lookup fuel s parent name)
        (λ (found : ℕ).
          if not (found == 0)
          then some (0, s)
          else (alloc_node fuel s name flags >>= λ r. some (link_child parent r)))
        (λ (found : ℕ). if_keeps (Result (Added s parent name)) (not (found == 0)) _ _ (inl refl) (
          map-Added s parent name (alloc_node fuel s name flags) directory short
            (alloc_node-Made fuel s name flags))))
]

-- `ramfs_create` of a name of at most 63 characters, where it gives a node that is not the parent: the
-- name is then looked up to the node, whose parent is the directory and which stands before the
-- children that there were, and no other node changes.
pub create-Linked :
    (fuel : ℕ) (s : Fs) (parent : ℕ) (name : List ℕ) (flags p : ℕ) (t : Fs)
    → length name < 64
    → create fuel s parent name flags ≡ some (p, t)
    → p ≢ 0
    → p ≢ parent
    → Linked s parent name (p, t)
create-Linked fuel s parent name flags p t short made some_node apart =
    elim (subst (Result (Added s parent name)) made (create-Added fuel s parent name flags short)) [
      | inl null ↦ absurd (some_node null)
      | inr (inl same) ↦ absurd (apart same)
      | inr (inr linked) ↦ linked
    ]
