-- ===== src/Pmm/Boot/Result.antt =====
-- The state that `pmm_init` (kernel/mm/pmm.c) leaves.
use matryoshka_os.Prelude.{
  ℕ, zero, suc, ◌+◌, ◌*◌, ◌/◌, ◌%◌, ◌^◌, ◌≤◌, ◌<◌, ◌≡◌, refl, sym, ap, ◌∙◌, Bool, true, not, ◌&&◌,
  ◌||◌, arith, List, [], ◌∷◌, leb, get_or, replicate, length, length-replicate, get_or-replicate,
  get_or_beyond, inl, inr, some, ==_ne, ==_eq, ◌≢◌, ◌⊎◌,
}
use native.Mathlib.Decide.{dec_lt, ℕ_discrete}
use matryoshka_os.Prelude.Bits.{test_bit, test_bit_all_ones}
use matryoshka_os.Multiboot.{MmapEntry, Memory, mmap_entries, type_mmap}
use matryoshka_os.Multiboot.Tags.{TagsAt, first_of, find_tag_lem}
use matryoshka_os.Pmm.{Pmm, bitmap_test, reserve_region}
use matryoshka_os.Pmm.Bitmap.{bit_of, bitmap_test-eq-bit_of}
use matryoshka_os.Pmm.Invariant.{IsValid, count_below}
use matryoshka_os.Pmm.Reserve.{reserve_region_lem, end_frame}
use matryoshka_os.Pmm.Boot.{
  measure, frames_up_to, bitmap_bytes, all_used, free_available, init_from, init,
}
use matryoshka_os.Pmm.Boot.Regions.{Separate, in_available, Freed, free_available-Freed}

highest-measure :
    (es : List MmapEntry) (s : Pmm)
    → s.highest_address < 2 ^ 64
    → (measure s es).highest_address < 2 ^ 64
unfolding measure
highest-measure [] s h = h
highest-measure (e ∷ es) s h = highest-measure es _ (ground arith)

count_below_all : (p : ℕ → Bool) (n : ℕ) → ((x : ℕ) → x < n → p x ≡ true) → count_below p n ≡ n
count_below_all p zero h = refl
count_below_all p (suc n) h =
    ground (arith, h n (omega arith), count_below_all p n (λ x k. h x (omega arith)))

-- The bitmap has a bit for each frame.
bitmap_bytes-covers : (total : ℕ) → total ≤ 32 * (bitmap_bytes total / 4)
unfolding bitmap_bytes
bitmap_bytes-covers total = ground arith

frames_up_to-small : (h : ℕ) → h < 2 ^ 64 → frames_up_to h ≤ 2 ^ 52
unfolding frames_up_to
frames_up_to-small h lt = ground arith

-- The word of ones, 0xFFFFFFFF.
abbrev ones : ℕ
ones = 0xFFFFFFFF

words-replicate : (n i : ℕ) → get_or (replicate n ones) i 0 < 2 ^ 32
words-replicate n i = elim (dec_lt i n) [
  | yes lt ↦ rw (get_or-replicate n i ones 0 lt) (omega arith)
  | no ge ↦
      rw (get_or_beyond (replicate n ones) i 0 (λ p. ge (omega (arith, length-replicate n ones))))
        (omega arith)
]

bit_of_ones : (n i b : ℕ) → i < n → b < 32 → test_bit (get_or (replicate n ones) i 0) b ≡ 1
bit_of_ones n i b lt k = rw (get_or-replicate n i ones 0 lt) (test_bit_all_ones 32 b k)

module _ (s : Pmm) where
  total-all_used : (all_used s).total_frames ≡ frames_up_to s.highest_address
  unfolding all_used
  total-all_used = refl

  all_used-busy : (g : ℕ) → g < frames_up_to s.highest_address → bitmap_test (all_used s) g ≡ true
  all_used-busy g lt =
      let bit : bit_of (all_used s) g ≡ 1 =
        unfold all_used in
        bit_of_ones (bitmap_bytes (frames_up_to s.highest_address) / 4) (g / 32) (g % 32)
          (omega (arith, bitmap_bytes-covers (frames_up_to s.highest_address))) (omega arith) in
      rw (bitmap_test-eq-bit_of, bit) refl

  all_used-IsValid : s.highest_address < 2 ^ 64 → IsValid (all_used s)
  unfolding all_used
  all_used-IsValid h = record {
    covered = rw length-replicate (bitmap_bytes-covers (frames_up_to s.highest_address));
    small = frames_up_to-small s.highest_address h;
    words = words-replicate (bitmap_bytes (frames_up_to s.highest_address) / 4);
    counted =
        sym (
          count_below_all (bitmap_test (all_used s)) (frames_up_to s.highest_address)
            all_used-busy);
  }

-- What the frames of a valid state with `total` frames are after `pmm_init`: in use are those of no
-- available region, and those from 0 to the one at the end of the bitmap, that one included.
pub record Initialised (entries : List MmapEntry) (bitmap_end total : ℕ) (s : Pmm) : Type 0 where
  pub valid : IsValid s
  pub total_frames : s.total_frames ≡ total
  pub tests :
      (g : ℕ)
      → g < total
      → bitmap_test s g ≡ (not (in_available entries g) || leb g (end_frame bitmap_end))
  pub first_used : 0 < total → bitmap_test s 0 ≡ true

reserved_frame :
    (a u c r : Bool) (g e : ℕ)
    → u ≡ true
    → c ≡ (not a && u)
    → r ≡ (leb (0 / 4096) g && leb g e || c)
    → r ≡ (not a || leb g e)
reserved_frame a u c r g e p q h = ground arith

module _ (entries : List MmapEntry) (kernel_end : ℕ) (s : Pmm)
    (h : s.highest_address < 2 ^ 64) where
  total : ℕ
  total = frames_up_to (measure s entries).highest_address

  init_end : ℕ
  init_end = (kernel_end + bitmap_bytes total) % 2 ^ 64

  cleared : Pmm
  cleared = free_available (all_used (measure s entries)) entries

  freed : Separate entries → Freed (all_used (measure s entries)) (in_available entries) cleared
  unfolding cleared total
  freed sep =
      free_available-Freed entries (all_used (measure s entries))
        (all_used-IsValid (measure s entries) (highest-measure entries s h)) sep
        (λ g lt _.
          all_used-busy (measure s entries) g (rw (← total-all_used (measure s entries)) lt))

  reserved-Initialised :
      Freed (all_used (measure s entries)) (in_available entries) cleared
      → Initialised entries init_end total (reserve_region cleared 0 init_end)
  unfolding total
  reserved-Initialised f =
      let r = reserve_region_lem 0 init_end f.valid in
      let all : cleared.total_frames ≡ total = f.total ∙ total-all_used (measure s entries) in
      let tests : (g : ℕ)
          → g < total
          → bitmap_test (reserve_region cleared 0 init_end) g
            ≡ (not (in_available entries g) || leb g (end_frame init_end)) =
        λ g lt.
          reserved_frame (in_available entries g) (bitmap_test (all_used (measure s entries)) g)
            (bitmap_test cleared g) _ g (end_frame init_end)
            (all_used-busy (measure s entries) g lt) (f.tests g (rw total-all_used lt))
            (r.2 g (rw all lt)) in
      record {
        valid = r.0;
        total_frames = r.1 ∙ all;
        tests = tests;
        first_used = λ pos. tests 0 pos ∙ ground arith;
      }

  init_from-Initialised :
      Separate entries → Initialised entries init_end total (init_from entries kernel_end s)
  unfolding init_from cleared total
  init_from-Initialised sep =
      let f = freed sep in
      let all : cleared.total_frames ≡ total = f.total ∙ total-all_used (measure s entries) in
      let end : (kernel_end + bitmap_bytes cleared.total_frames) % 2 ^ 64 ≡ init_end =
        unfold init_end in ap (λ t. (kernel_end + bitmap_bytes t) % 2 ^ 64) all in
      rw end (reserved-Initialised f)

-- `total_frames` and the end of the bitmap, as `pmm_init` computes them.
abbrev pub frames_of : Pmm → List MmapEntry → ℕ
frames_of s entries = frames_up_to (measure s entries).highest_address

abbrev pub bitmap_end : Pmm → List MmapEntry → ℕ → ℕ
bitmap_end s entries kernel_end = (kernel_end + bitmap_bytes (frames_of s entries)) % 2 ^ 64

-- On boot information whose tags end with the end tag and hold a memory map, with more fuel than
-- tags, and if no frame lies in two available regions of that map and `highest_address` is a
-- `uint64_t`, `pmm_init` ends with a valid state. The frames that are then in use are those of no
-- available region, and those from 0 to the end of the bitmap divided by 4096 and rounded up, that
-- number included: the frame behind the one of the last byte before the end is in use too. So frame 0,
-- whose address is the error value of `pmm_alloc_frame`, is never free.
pub init_lem :
    (ts : List (ℕ × ℕ)) (fuel : ℕ) (m : Memory) (mbi kernel_end : ℕ) (s : Pmm)
    (entries : List MmapEntry)
    → mbi ≢ 0
    → TagsAt m ((mbi + 8) % 2 ^ 32) ts
    → length ts < fuel
    → first_of type_mmap ts ≢ 0
    → mmap_entries m (first_of type_mmap ts) ≡ some entries
    → s.highest_address < 2 ^ 64
    → Separate entries
    → (s' : Pmm) × (init fuel m mbi kernel_end s ≡ some s')
      × Initialised entries (bitmap_end s entries kernel_end) (frames_of s entries) s'
unfolding init init_end total
init_lem ts fuel m mbi kernel_end s entries ne tags k map read h sep = (
  init_from entries kernel_end s,
  rw (==_ne mbi 0 ne, (find_tag_lem ts fuel m mbi type_mmap ne tags k).1)
      (rw (==_ne (first_of type_mmap ts) 0 map, read) refl),
  init_from-Initialised entries kernel_end s h sep,
)

-- Without boot information, or on tags that end with the end tag, fewer than the fuel, and hold no
-- memory map, `pmm_init` changes nothing.
pub init_unchanged :
    (ts : List (ℕ × ℕ)) (fuel : ℕ) (m : Memory) (mbi kernel_end : ℕ) (s : Pmm)
    → (mbi ≡ 0)
      ⊎ (TagsAt m ((mbi + 8) % 2 ^ 32) ts × (length ts < fuel) × (first_of type_mmap ts ≡ 0))
    → init fuel m mbi kernel_end s ≡ some s
unfolding init
init_unchanged ts fuel m mbi kernel_end s (inl null) = rw (==_eq mbi 0 null)
init_unchanged ts fuel m mbi kernel_end s (inr (tags, k, no_map)) = elim (ℕ_discrete mbi 0) [
  | yes null ↦ rw (==_eq mbi 0 null)
  | no ne ↦ rw (==_ne mbi 0 ne, (find_tag_lem ts fuel m mbi type_mmap ne tags k).1) (rw no_map refl)
]
