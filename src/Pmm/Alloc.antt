-- ===== src/Pmm/Alloc.antt =====
-- `pmm_alloc_frame` and `pmm_free_frame` of kernel/mm/pmm.c, on every branch.
use mathlib.Core.Path.{ap₂}
use native.Mathlib.Decide.{dec_lt}
use matryoshka_os.Prelude.{
  ℕ, ◌+◌, ◌*◌, ◌/◌, ◌^◌, ◌≤◌, ◌<◌, ◌≡◌, ◌≢◌, refl, ◌∙◌, ◌⊎◌, true, false, arith, ◌==◌,
  if◌then◌else◌, Option, none, some, Bool-cases, inl, inr, ==_ne,
}
use matryoshka_os.Pmm.{
  Pmm, bitmap_test, find_in_words, find_free_frame, alloc_frame, free_frame, is_frame_allocated,
}
use matryoshka_os.Pmm.{mark_used, mark_free, frame_to_addr, addr_to_frame, no_frame}
use matryoshka_os.Pmm.Invariant.{IsValid, mark_used-IsValid, mark_free-IsValid}
use matryoshka_os.Pmm.Invariant.{
  used-mark_used, used-mark_free, test-mark_used, test-mark_free, total-mark_used, total-mark_free,
}
use matryoshka_os.Pmm.Search.{AllUsed, FirstFree, search-FirstFree}

-- A frame number survives the way to its address and back.
pub frame_of_addr : (f : ℕ) → f < 2 ^ 52 → addr_to_frame (frame_to_addr f) ≡ f
frame_of_addr f h = omega arith

-- No free frame was found, and nothing changed.
abbrev pub OutOfMemory : Pmm → ℕ × Pmm → Type 0
OutOfMemory s r = (r.0 ≡ 0) × (r.1 ≡ s) × AllUsed s 0 (s.total_frames / 32 * 32)

-- Frame `f`, the first free one, was marked, and its address returned.
abbrev pub Took : Pmm → ℕ → ℕ × Pmm → Type 0
Took s f r =
    (r.0 ≡ f * 4096)
    × (f < s.total_frames / 32 * 32)
    × (bitmap_test s f ≡ false)
    × AllUsed s 0 f
    × (r.1 ≡ mark_used s f)

-- The three outcomes of `pmm_free_frame`.
pub free_busy :
    (s : Pmm) (addr f : ℕ)
    → addr_to_frame addr ≡ f
    → f < s.total_frames
    → bitmap_test s f ≡ true
    → free_frame s addr ≡ mark_free s f
unfolding free_frame
free_busy s addr f e lt busy = rw e (ground arith)

pub free_ignored : (s : Pmm) (addr : ℕ) → is_frame_allocated s addr ≡ false → free_frame s addr ≡ s
unfolding free_frame is_frame_allocated
free_ignored s addr h = ground arith

pub free_out_of_range :
    (s : Pmm) (addr : ℕ) → s.total_frames ≤ addr_to_frame addr → free_frame s addr ≡ s
unfolding free_frame
free_out_of_range s addr h = ground arith

module _ {s : Pmm} (v : IsValid s) where
  alloc_from :
      (o : Option ℕ)
      → find_in_words s (s.total_frames / 32) 0 ≡ o
      → FirstFree s 0 (s.total_frames / 32 * 32) o
      → OutOfMemory s (alloc_frame s) ⊎ ((f : ℕ) × Took s f (alloc_frame s))
  unfolding alloc_frame find_free_frame
  alloc_from none e h = rw (e, alloc_frame, find_free_frame) (inl (refl, refl, h))
  alloc_from (some f) e (p, q, r, t, u) =
      let ne : (f == no_frame) ≡ false = ==_ne f no_frame (omega (arith, v.small)) in
      rw (e, alloc_frame, find_free_frame)
        (rw ne (inr (f, (omega (arith, v.small), q, t, u, refl))))

  -- `pmm_alloc_frame` takes the first free frame of the full words, or changes nothing.
  alloc_cases : OutOfMemory s (alloc_frame s) ⊎ ((f : ℕ) × Took s f (alloc_frame s))
  alloc_cases = alloc_from (find_in_words s (s.total_frames / 32) 0) refl (search-FirstFree s)

  -- `pmm_alloc_frame` keeps the invariant.
  pub alloc_frame-IsValid : IsValid (alloc_frame s).1
  alloc_frame-IsValid = elim alloc_cases [
    | inl oom ↦ rw (oom.1) v
    | inr (f, took) ↦ rw (took.4) (mark_used-IsValid v f (omega (arith, took.1)) took.2)
  ]

  -- On a valid state `pmm_alloc_frame` either returns 0, leaves the state as it is, and every frame
  -- below `total_frames / 32 * 32` is in use; or it returns the address of the first free frame, and
  -- the bit of that frame, which was clear, is the one bit that it changes, and one more frame is
  -- counted as used.
  pub alloc_frame_lem :
      OutOfMemory s (alloc_frame s)
      ⊎ ((f : ℕ) × ((alloc_frame s).0 ≡ f * 4096)
          × (f < s.total_frames / 32 * 32)
          × (bitmap_test s f ≡ false)
          × AllUsed s 0 f
          × ((g : ℕ) → bitmap_test (alloc_frame s).1 g ≡ (if f == g then true else bitmap_test s g))
          × ((alloc_frame s).1.used_frames ≡ s.used_frames + 1))
  alloc_frame_lem = elim alloc_cases [
    | inl oom ↦ inl oom
    | inr (f, (addr, lt, free, low, out)) ↦ inr (
      f,
      addr,
      lt,
      free,
      low,
      λ g. rw out (test-mark_used v f (omega arith) g),
      rw out (used-mark_used v f (omega arith)),
    )
  ]

  -- On a valid state whose full words are all in use, `pmm_alloc_frame` returns 0 and changes
  -- nothing, also where a frame of the last, partial word is free: that frame is never found.
  pub alloc_frame-misses_last_word :
      (f : ℕ)
      → AllUsed s 0 (s.total_frames / 32 * 32)
      → f < s.total_frames
      → bitmap_test s f ≡ false
      → (alloc_frame s ≡ (0, s)) × (is_frame_allocated s (frame_to_addr f) ≡ false)
  unfolding is_frame_allocated
  alloc_frame-misses_last_word f full lt free = (
    elim alloc_cases [
      | inl (addr, out, _) ↦ ap₂ (λ a t. (a, t)) addr out
      | inr (g, (addr, glt, gfree, low, out)) ↦ cc (full g (omega arith) glt (omega arith), gfree)
    ],
    rw (frame_of_addr f (omega (arith, v.small))) (ground arith),
  )

  -- `pmm_free_frame` keeps the invariant, whatever the address.
  pub free_frame-IsValid : (addr : ℕ) → IsValid (free_frame s addr)
  free_frame-IsValid addr = elim (dec_lt (addr_to_frame addr) s.total_frames) [
    | yes lt ↦ elim (Bool-cases (bitmap_test s (addr_to_frame addr))) [
      | inl busy ↦
          rw (free_busy s addr (addr_to_frame addr) refl lt busy) (mark_free-IsValid v _ lt busy)
      | inr free ↦ rw (free_ignored s addr (unfold is_frame_allocated in ground arith)) v
    ]
    | no ge ↦ rw (free_out_of_range s addr (omega arith)) v
  ]

  -- Freeing one frame that is in use clears its bit and no other, and uncounts it. A second free of
  -- the same address changes nothing.
  pub free_frame_lem :
      (addr : ℕ)
      → addr_to_frame addr < s.total_frames
      → bitmap_test s (addr_to_frame addr) ≡ true
      → let s' = free_frame s addr in
        ((g : ℕ) → bitmap_test s' g ≡ (if addr_to_frame addr == g then false else bitmap_test s g))
        × (s'.used_frames + 1 ≡ s.used_frames)
        × (free_frame s' addr ≡ s')
  free_frame_lem addr lt busy =
      rw (free_busy s addr (addr_to_frame addr) refl lt busy)
        (test-mark_free v _ lt, used-mark_free v _ lt busy, free_ignored _ addr twice)
    where
      twice : is_frame_allocated (mark_free s (addr_to_frame addr)) addr ≡ false
      twice =
          unfold is_frame_allocated in
          simp total-mark_free (ground (arith, test-mark_free v _ lt (addr_to_frame addr)))

freed_again :
    (s t : Pmm) (f addr : ℕ)
    → f < s.total_frames
    → addr_to_frame addr ≡ f
    → t ≡ mark_used s f
    → IsValid s
    → bitmap_test s f ≡ false
    → ((g : ℕ) → bitmap_test (free_frame t addr) g ≡ bitmap_test s g)
      × ((free_frame t addr).used_frames ≡ s.used_frames)
freed_again s t f addr lt at e v free =
    rw (e, free_busy (mark_used s f) addr f at lt' busy)
      (
        λ g. test-mark_free v' f lt' g ∙ restored g,
        omega (arith, used-mark_free v' f lt' busy, used-mark_used v f lt),
      )
  where
    lt' : f < (mark_used s f).total_frames
    lt' = rw total-mark_used lt

    busy : bitmap_test (mark_used s f) f ≡ true
    busy = test-mark_used v f lt f ∙ ground arith

    same : (g : ℕ) → f ≡ g → bitmap_test s g ≡ false
    same g e = rw (← e) free

    restored : (g : ℕ) → (if f == g then false else bitmap_test (mark_used s f) g) ≡ bitmap_test s g
    restored g = ground (arith, test-mark_used v f lt g, same g)

    v' : IsValid (mark_used s f)
    v' = mark_used-IsValid v f lt free

-- On a valid state, freeing the frame that was just allocated gives back the same bits and count.
pub free_frame-alloc_frame :
    {s : Pmm}
    → IsValid s
    → (alloc_frame s).0 ≢ 0
    → let s' = free_frame (alloc_frame s).1 (alloc_frame s).0 in
      ((g : ℕ) → bitmap_test s' g ≡ bitmap_test s g) × (s'.used_frames ≡ s.used_frames)
free_frame-alloc_frame {s} v ne = elim (alloc_cases v) [
  | inl oom ↦ absurd (ne oom.0)
  | inr (f, (addr, lt, free, low, out)) ↦
      freed_again s (alloc_frame s).1 f (alloc_frame s).0 (omega arith) (omega (arith, addr)) out v
        free
]
