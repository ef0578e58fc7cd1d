-- ===== src/Heap/Roundtrip.antt =====
-- `kfree` after `kmalloc` (kernel/mm/heap.c).
use matryoshka_os.Prelude.{
  ℕ, ◌+◌, ◌-◌, ◌^◌, ◌≤◌, ◌<◌, ◌≡◌, ◌≢◌, refl, sym, ap, subst, ◌∙◌, Bool, true, false, ◌&&◌, List,
  [], ◌∷◌, ◌++◌, arith, leb, if◌then◌else◌, length, some, Bool-cases, inl, inr,
}
use matryoshka_os.Heap.{Heap, heap_base, kmalloc, kfree, align8}
use matryoshka_os.Heap.Layout.{Block, Holds}
use matryoshka_os.Heap.Take.{fits, first_fit, take_first}
use matryoshka_os.Heap.Alloc.{kmalloc_any}
use matryoshka_os.Heap.Merge.{merge_all, merge_runs, IsMerged, glue}
use matryoshka_os.Heap.Free.{freed, end_of, kfree_lem}

head_free : List Block → Bool
head_free [] = false
head_free (b ∷ bs) = b.free

head_free-merge_runs : (b : Block) (bs : List Block) → head_free (merge_runs b bs) ≡ b.free
unfolding head_free
head_free-merge_runs b [] = refl
head_free-merge_runs b (c ∷ cs) = elim (Bool-cases (b.free && c.free)) [
  | inl both ↦ rw both (head_free-merge_runs (glue b c) cs ∙ ground arith)
  | inr apart ↦ rw apart refl
]

IsMerged-head : (b : Block) (bs : List Block) → IsMerged (b ∷ bs) → b.free && head_free bs ≡ false
unfolding head_free
IsMerged-head b [] m = ground arith
IsMerged-head b (c ∷ cs) m = m.0

IsMerged-tail : (b : Block) (bs : List Block) → IsMerged (b ∷ bs) → IsMerged bs
IsMerged-tail b [] m = tt
IsMerged-tail b (c ∷ cs) m = m.1

merge_all-cons :
    (b : Block) (bs cs : List Block)
    → merge_all cs ≡ bs
    → IsMerged (b ∷ bs)
    → merge_all (b ∷ cs) ≡ b ∷ bs
merge_all-cons b bs [] e m = ap (λ (l : List Block). b ∷ l) e
merge_all-cons b bs (c ∷ cs) e m =
    let head : head_free bs ≡ c.free = ap head_free (sym e) ∙ head_free-merge_runs c cs in
    let apart : b.free && c.free ≡ false =
      subst (λ (x : Bool). b.free && x ≡ false) head (IsMerged-head b bs m) in
    rw apart (ap (λ (l : List Block). b ∷ l) e)

merge_all-id : (bs : List Block) → IsMerged bs → merge_all bs ≡ bs
merge_all-id [] m = refl
merge_all-id (b ∷ bs) m = merge_all-cons b bs bs (merge_all-id bs (IsMerged-tail b bs m)) m

-- Where the block that was taken stands.
record Taken (size p : ℕ) (bs : List Block) : Type 0 where
  before : List Block
  block : Block
  after : List Block
  split : take_first size bs ≡ before ++ block ∷ after
  place : end_of p before ≡ first_fit size p bs
  in_use : block.free ≡ false
  undone : IsMerged bs → merge_all (before ++ freed block ∷ after) ≡ bs

block_eq : (b : Block) (s : ℕ) → s ≡ b.size → b.free ≡ true → record { size = s; free = true } ≡ b
block_eq b s e free =
    ap (λ (x : ℕ). record { size = x; free = true }) e
    ∙ ap (λ (x : Bool). record { size = b.size; free = x }) (sym free)

carve-Taken :
    (size p : ℕ) (b : Block) (bs : List Block) → fits size b ≡ true → Taken size p (b ∷ bs)
carve-Taken size p b bs hit = elim (Bool-cases (leb (size + 32) b.size)) [
  | inl large ↦ record {
    before = [];
    block = record { size = size; free = false };
    after = record { size = b.size - size - 16; free = true } ∷ bs;
    split = rw (hit, large) refl;
    place = rw hit refl;
    in_use = refl;
    undone = λ m.
        ap (λ (x : Block). merge_runs x bs)
          (block_eq b (size + 16 + (b.size - size - 16)) (ground arith) free)
        ∙ merge_all-id (b ∷ bs) m;
  }
  | inr small ↦ record {
    before = [];
    block = record { size = b.size; free = false };
    after = bs;
    split = rw (hit, small) refl;
    place = rw hit refl;
    in_use = refl;
    undone = λ m.
        ap (λ (x : Block). merge_runs x bs) (block_eq b b.size refl free) ∙ merge_all-id (b ∷ bs) m;
  }
]
  where
    free : b.free ≡ true
    free = ground arith

take_first-Taken : (size p : ℕ) (bs : List Block) → first_fit size p bs ≢ 0 → Taken size p bs
take_first-Taken size p [] ne = absurd (ne refl)
take_first-Taken size p (b ∷ bs) ne = elim (Bool-cases (fits size b)) [
  | inl hit ↦ carve-Taken size p b bs hit
  | inr miss ↦
      let t : Taken size (p + 16 + b.size) bs =
        take_first-Taken size (p + 16 + b.size) bs (later miss) in
      record {
        before = b ∷ t.before;
        block = t.block;
        after = t.after;
        split = rw miss (ap (λ (l : List Block). b ∷ l) t.split);
        place = rw miss t.place;
        in_use = t.in_use;
        undone = λ m.
            merge_all-cons b bs (t.before ++ freed t.block ∷ t.after)
              (t.undone (IsMerged-tail b bs m)) m;
      }
]
  where
    later : fits size b ≡ false → first_fit size (p + 16 + b.size) bs ≢ 0
    later miss =
        subst (λ (t : Bool). (if t then p else first_fit size (p + 16 + b.size) bs) ≢ 0) miss ne

pub length-take_first : (size : ℕ) (bs : List Block) → length (take_first size bs) ≤ length bs + 1
length-take_first size [] = omega arith
length-take_first size (b ∷ bs) = ground (arith, length-take_first size bs)

-- If no two neighbours of the blocks are free, and a free block has room for a size between 1 and
-- 2^32 - 8, then `kfree` of the pointer that `kmalloc` returns for it brings back a heap that holds
-- the blocks as they were before: the split is undone, no byte is lost (the fuel is above the number
-- of blocks by 2).
pub kfree-kmalloc :
    (fuel : ℕ) (h : Heap) (size : ℕ) (bs : List Block)
    → Holds h bs
    → IsMerged bs
    → 0 < size
    → size + 7 < 2 ^ 32
    → first_fit (align8 size) heap_base bs ≢ 0
    → length bs + 1 < fuel
    → (h' : Heap) × (h'' : Heap) × ((kmalloc fuel h size
          ≡ some (first_fit (align8 size) heap_base bs + 16, h'))
        × ((kfree fuel h' (first_fit (align8 size) heap_base bs + 16) ≡ some h'') × Holds h'' bs))
kfree-kmalloc fuel h size bs holds merged pos small ne k =
    elim (kmalloc_any fuel h size bs holds pos (omega arith)) [
      | inl (e, same) ↦ absurd (ne e)
      | inr (h', (e, allocated)) ↦
          let t : Taken (align8 size) heap_base bs =
            take_first-Taken (align8 size) heap_base bs ne in
          let (h'', (freed_eq, (holds'', (is_merged, (stays, twice))))) =
            kfree_lem fuel h' t.before t.block t.after (subst (Holds h') t.split allocated.holds)
              t.in_use
              (subst (λ (l : List Block). length l < fuel) t.split
                (omega (arith, k, length-take_first (align8 size) bs))) in
          (
            h',
            h'',
            (
              e,
              (
                subst (λ (q : ℕ). kfree fuel h' (q + 16) ≡ some h'') t.place freed_eq,
                subst (Holds h'') (t.undone merged) holds'',
              ),
            ),
          )
    ]
