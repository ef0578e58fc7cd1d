-- ===== src/Pmm/Contiguous.antt =====
-- `pmm_alloc_frames` of kernel/mm/pmm.c: the first run of free frames that is long enough.
use native.Mathlib.Decide.{dec_lt, ℕ_discrete}
use matryoshka_os.Prelude.{
  ℕ, zero, suc, ◌+◌, ◌*◌, ◌≤◌, ◌<◌, ◌≡◌, ◌≢◌, refl, ◌∙◌, ◌⊎◌, Bool, true, false, arith, ltb, leb,
  ◌==◌, if◌then◌else◌, Option, none, some, ◌&&◌, Bool-cases, inl, inr, ==_ne, ==_eq,
}
use matryoshka_os.Pmm.{Pmm, bitmap_test, find_run, mark_frames, alloc_frames, mark_used}
use matryoshka_os.Pmm.Invariant.{
  IsValid, mark_used-IsValid, test-mark_used, used-mark_used, total-mark_used,
}

-- A frame from `a` up to `a + count` is in use.
abbrev pub Blocked : Pmm → ℕ → ℕ → Type 0
Blocked s count a = (g : ℕ) × (a ≤ g) × (g < a + count) × (bitmap_test s g ≡ true)

-- All frames from `a` up to `b`, `b` excluded, are free.
abbrev pub AllFree : Pmm → ℕ → ℕ → Type 0
AllFree s a b = (g : ℕ) → a ≤ g → g < b → bitmap_test s g ≡ false

-- The first run of `count` free frames, or nothing where every run is blocked.
abbrev pub FirstRun : Pmm → ℕ → Option ℕ → Type 0
FirstRun s count none = (a : ℕ) → a + count ≤ s.total_frames → Blocked s count a
FirstRun s count (some start) =
    (start + count ≤ s.total_frames)
    × AllFree s start (start + count)
    × ((a : ℕ) → a < start → Blocked s count a)

module _ (s : Pmm) (count : ℕ) where
  Blocked-step :
      (base frame : ℕ)
      → bitmap_test s frame ≡ true
      → frame < base + count
      → ((a : ℕ) → a < base → Blocked s count a)
      → (a : ℕ) → a < frame + 1
      → Blocked s count a
  Blocked-step base frame busy lt h a k = elim (dec_lt a base) [
    | yes p ↦ h a p
    | no p ↦ (frame, omega arith, omega arith, busy)
  ]

  AllFree-step :
      (base frame : ℕ)
      → bitmap_test s frame ≡ false
      → AllFree s base frame
      → AllFree s base (frame + 1)
  AllFree-step base frame free h g p q = elim (ℕ_discrete g frame) [
    | yes e ↦ rw e free
    | no ne ↦ h g p (omega arith)
  ]

  -- `base` is the first frame of the run that ends before `frame`.
  find_run-FirstRun :
      (rounds frame start run base : ℕ)
      → frame + rounds ≡ s.total_frames
      → base + run ≡ frame
      → run < count
      → (run ≢ 0 → start ≡ base)
      → AllFree s base frame
      → ((a : ℕ) → a < base → Blocked s count a)
      → FirstRun s count (find_run s count rounds frame start run)
  unfolding find_run
  find_run-FirstRun zero frame start run base e b lt st free blocked =
      λ a h. blocked a (omega arith)
  find_run-FirstRun (suc rounds) frame start run base e b lt st free blocked =
      elim (Bool-cases (bitmap_test s frame)) [
        | inl busy ↦ rw busy (
            find_run-FirstRun rounds (frame + 1) start 0 (frame + 1) (omega arith) (omega arith)
              (omega arith) (λ ne. absurd (ne refl)) (λ g p q. absurd (omega arith))
              (Blocked-step base frame busy (omega arith) blocked))
        | inr idle ↦
            let first : (if run == 0 then frame else start) ≡ base = ground (arith, st) in
            rw (idle, first)
              (elim (ℕ_discrete (run + 1) count) [
                | yes last ↦
                    let end : frame + 1 ≡ base + count = omega arith in
                    rw (==_eq (run + 1) count last) (
                      omega arith,
                      λ g p q. AllFree-step base frame idle free g p (omega arith),
                      blocked,
                    )
                | no more ↦ rw (==_ne (run + 1) count more) (
                    find_run-FirstRun rounds (frame + 1) base (run + 1) base (omega arith)
                      (omega arith) (omega arith) (λ _. refl) (AllFree-step base frame idle free)
                      blocked)
              ])
      ]

  -- The search of `pmm_alloc_frames` finds the first run of `count` free frames.
  run-FirstRun : 0 < count → FirstRun s count (find_run s count s.total_frames 0 0 0)
  run-FirstRun pos =
      find_run-FirstRun s.total_frames 0 0 0 0 (omega arith) (omega arith) pos (λ _. refl)
        (λ g p q. absurd (omega arith)) (λ a k. absurd (omega arith))

-- `g` is one of the `count` frames from `f` on.
abbrev pub in_run : ℕ → ℕ → ℕ → Bool
in_run f count g = leb f g && ltb g (f + count)

-- What marking `count` free frames from `f` on does.
pub record Marked (s : Pmm) (f count : ℕ) (s' : Pmm) : Type 0 where
  pub valid : IsValid s'
  pub tests : (g : ℕ) → bitmap_test s' g ≡ (if in_run f count g then true else bitmap_test s g)
  pub total : s'.total_frames ≡ s.total_frames
  pub used : s'.used_frames ≡ s.used_frames + count

module _ (s : Pmm) (v : IsValid s) (f count : ℕ) (le : f + suc count ≤ s.total_frames) where
  Marked-cons : (s' : Pmm) → Marked (mark_used s f) (f + 1) count s' → Marked s f (suc count) s'
  Marked-cons s' rest = record {
    valid = rest.valid;
    tests = λ g. ground (arith, rest.tests g, test-mark_used v f (omega arith) g);
    total = rest.total ∙ total-mark_used s f;
    used = omega (arith, rest.used, used-mark_used v f (omega arith));
  }

  AllFree-rest : AllFree s f (f + suc count) → AllFree (mark_used s f) (f + 1) (f + 1 + count)
  AllFree-rest free g p q =
      ground (arith, test-mark_used v f (omega arith) g, free g (omega arith) (omega arith))

mark_frames-Marked :
    (s : Pmm) (count f : ℕ)
    → IsValid s
    → f + count ≤ s.total_frames
    → AllFree s f (f + count)
    → Marked s f count (mark_frames s count f)
unfolding mark_frames
mark_frames-Marked s zero f v le free = record {
  valid = v;
  tests = λ g. ground arith;
  total = refl;
  used = omega arith;
}
mark_frames-Marked s (suc count) f v le free =
    Marked-cons s v f count le (mark_frames (mark_used s f) count (f + 1)) (
      mark_frames-Marked (mark_used s f) count (f + 1)
        (mark_used-IsValid v f (omega arith) (free f (omega arith) (omega arith)))
        (rw total-mark_used (omega arith)) (AllFree-rest s v f count le free))

-- `pmm_alloc_frames` found no run, and changed nothing.
abbrev pub NoRun : Pmm → ℕ → ℕ × Pmm → Type 0
NoRun s count r = (r.0 ≡ 0) × (r.1 ≡ s) × ((a : ℕ) → a + count ≤ s.total_frames → Blocked s count a)

-- It marked the first run, which starts at `f`.
abbrev pub TookRun : Pmm → ℕ → ℕ → ℕ × Pmm → Type 0
TookRun s count f r =
    (r.0 ≡ f * 4096)
    × (f + count ≤ s.total_frames)
    × AllFree s f (f + count)
    × ((a : ℕ) → a < f → Blocked s count a)
    × Marked s f count r.1

module _ {s : Pmm} (v : IsValid s) (count : ℕ) (pos : 0 < count) where
  alloc_run :
      (o : Option ℕ)
      → find_run s count s.total_frames 0 0 0 ≡ o
      → FirstRun s count o
      → NoRun s count (alloc_frames s count) ⊎ ((f : ℕ) × TookRun s count f (alloc_frames s count))
  unfolding alloc_frames
  alloc_run none e h = rw (==_ne count 0 (omega arith), e) (inl (refl, refl, h))
  alloc_run (some f) e (le, free, first) =
      rw (==_ne count 0 (omega arith), e)
        (inr (f, (omega (arith, v.small), le, free, first, mark_frames-Marked s count f v le free)))

  -- On a valid state `pmm_alloc_frames` of at least one frame either returns 0 and changes nothing,
  -- and then every run of `count` frames has one that is in use; or it returns the address of the
  -- first run of free frames, within range, and has marked and counted those frames and no other,
  -- and the new state is valid.
  pub alloc_frames_lem :
      NoRun s count (alloc_frames s count) ⊎ ((f : ℕ) × TookRun s count f (alloc_frames s count))
  alloc_frames_lem = alloc_run _ refl (run-FirstRun s count pos)
