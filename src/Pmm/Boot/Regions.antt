-- ===== src/Pmm/Boot/Regions.antt =====
-- The second loop of `pmm_init` (kernel/mm/pmm.c): the available regions become free.
use native.Mathlib.Decide.{dec_lt}
use matryoshka_os.Prelude.{
  ℕ, zero, suc, ◌+◌, ◌-◌, ◌<◌, ◌≡◌, refl, ◌∙◌, Bool, true, false, not, ◌&&◌, ◌||◌, arith, List, [],
  ◌∷◌, ltb, leb, ◌==◌, if◌then◌else◌, lt→ltb, Bool-cases, inl, inr,
}
use matryoshka_os.Multiboot.{MmapEntry, memory_available}
use matryoshka_os.Pmm.{Pmm, bitmap_test, mark_free}
use matryoshka_os.Pmm.Invariant.{IsValid, mark_free-IsValid, test-mark_free, total-mark_free}
use matryoshka_os.Pmm.Contiguous.{in_run}
use matryoshka_os.Pmm.Boot.{first_frame, last_frame, free_run, free_available}

-- `g` is a frame of the region `e`, and `e` is available.
abbrev pub in_region : MmapEntry → ℕ → Bool
in_region e g = e.kind == memory_available && (leb (first_frame e) g && ltb g (last_frame e))

-- `g` is a frame of some available region.
abbrev pub in_available : List MmapEntry → ℕ → Bool
in_available [] g = false
in_available (e ∷ es) g = in_region e g || in_available es g

-- No frame lies in two available regions.
abbrev pub Separate : List MmapEntry → Type 0
Separate [] = Unit {0}
Separate (e ∷ es) = ((g : ℕ) → (in_region e g && in_available es g) ≡ false) × Separate es

-- What freeing the frames of a set does: they are free, the others as before.
pub record Freed (s : Pmm) (member : ℕ → Bool) (s' : Pmm) : Type 0 where
  pub valid : IsValid s'
  pub total : s'.total_frames ≡ s.total_frames
  pub tests : (g : ℕ) → g < s.total_frames → bitmap_test s' g ≡ (not (member g) && bitmap_test s g)

-- The frames of the set that are in range are in use.
abbrev pub InUse : Pmm → (ℕ → Bool) → Type 0
InUse s member = (g : ℕ) → g < s.total_frames → member g ≡ true → bitmap_test s g ≡ true

module _ (s : Pmm) (v : IsValid s) where
  Freed-nothing :
      (member : ℕ → Bool) → ((g : ℕ) → g < s.total_frames → member g ≡ false) → Freed s member s
  Freed-nothing member none_in = record {
    valid = v;
    total = refl;
    tests = λ g lt. ground (arith, none_in g lt);
  }

  module _ (f rounds : ℕ) (lt : f < s.total_frames) where
    Freed-cons :
        (s' : Pmm)
        → bitmap_test s f ≡ true
        → Freed (mark_free s f) (in_run (f + 1) rounds) s'
        → Freed s (in_run f (suc rounds)) s'
    Freed-cons s' busy rest = record {
      valid = rest.valid;
      total = rest.total ∙ total-mark_free s f;
      tests = λ g k.
          ground
            (arith, rest.tests g (omega (arith, total-mark_free s f)), test-mark_free v f lt g);
    }

    InUse-rest : InUse s (in_run f (suc rounds)) → InUse (mark_free s f) (in_run (f + 1) rounds)
    InUse-rest use_all g k h = ground (
      arith,
      test-mark_free v f lt g,
      use_all g (omega (arith, total-mark_free s f)) (ground arith),
    )

free_run-Freed :
    (s : Pmm) (rounds f : ℕ)
    → IsValid s
    → InUse s (in_run f rounds)
    → Freed s (in_run f rounds) (free_run s rounds f)
unfolding free_run
free_run-Freed s zero f v use_all = Freed-nothing s v (in_run f 0) (λ g lt. ground arith)
free_run-Freed s (suc rounds) f v use_all = elim (dec_lt f s.total_frames) [
  | yes lt ↦
      let busy : bitmap_test s f ≡ true = use_all f lt (ground arith) in
      rw (lt→ltb f s.total_frames lt) (
        Freed-cons s v f rounds lt _ busy (
          free_run-Freed (mark_free s f) rounds (f + 1) (mark_free-IsValid v f lt busy)
            (InUse-rest s v f rounds lt use_all)))
  | no ge ↦
      let out : ltb f s.total_frames ≡ false = ground arith in
      rw out (Freed-nothing s v (in_run f (suc rounds)) (λ g lt. ground arith))
]

-- One round of the loop over the map.
free_region : Pmm → MmapEntry → Pmm
free_region s e =
    if e.kind == memory_available
    then free_run s (last_frame e - first_frame e) (first_frame e)
    else s

Freed-agree : (s s' : Pmm) (p q : ℕ → Bool) → ((g : ℕ) → p g ≡ q g) → Freed s p s' → Freed s q s'
Freed-agree s s' p q same r = record {
  valid = r.valid;
  total = r.total;
  tests = λ g lt. ground (arith, r.tests g lt, same g);
}

free_region-Freed :
    (s : Pmm) (e : MmapEntry)
    → IsValid s
    → InUse s (in_region e)
    → Freed s (in_region e) (free_region s e)
unfolding free_region
free_region-Freed s e v use_all = elim (Bool-cases (e.kind == memory_available)) [
  | inl is ↦ rw is (
      Freed-agree s _ (in_run (first_frame e) (last_frame e - first_frame e)) (in_region e)
        (λ g. ground (arith, is))
        (free_run-Freed s (last_frame e - first_frame e) (first_frame e) v
          (λ g lt h. use_all g lt (ground arith))))
  | inr other ↦ rw other (Freed-nothing s v (in_region e) (λ g lt. rw other refl))
]

module _ (s s' : Pmm) (e : MmapEntry) (es : List MmapEntry) (one : Freed s (in_region e) s') where
  -- A region that is apart from `e` is still in use after `e` was freed.
  InUse-others :
      ((g : ℕ) → (in_region e g && in_available es g) ≡ false)
      → InUse s (in_available (e ∷ es))
      → InUse s' (in_available es)
  InUse-others apart use_all g lt h =
      let lt' : g < s.total_frames = omega (arith, one.total) in
      apart_case (in_region e g) (in_available es g) (bitmap_test s g) (bitmap_test s' g) (apart g)
        (one.tests g lt') h (use_all g lt')
    where
      apart_case :
          (r a t t' : Bool)
          → (r && a) ≡ false
          → t' ≡ (not r && t)
          → a ≡ true
          → ((r || a) ≡ true → t ≡ true)
          → t' ≡ true
      apart_case r a t t' p q h k = ground arith

  Freed-append : (s'' : Pmm) → Freed s' (in_available es) s'' → Freed s (in_available (e ∷ es)) s''
  Freed-append s'' rest = record {
    valid = rest.valid;
    total = rest.total ∙ one.total;
    tests = λ g lt.
        both_case (in_region e g) (in_available es g) (bitmap_test s g) (bitmap_test s' g)
          (bitmap_test s'' g) (one.tests g lt) (rest.tests g (omega (arith, one.total)));
  }
    where
      both_case :
          (r a t t' t'' : Bool)
          → t' ≡ (not r && t)
          → t'' ≡ (not a && t')
          → t'' ≡ (not (r || a) && t)
      both_case r a t t' t'' p q = ground arith

pub free_available-Freed :
    (es : List MmapEntry) (s : Pmm)
    → IsValid s
    → Separate es
    → InUse s (in_available es)
    → Freed s (in_available es) (free_available s es)
unfolding free_available free_region
free_available-Freed [] s v sep use_all = Freed-nothing s v (in_available []) (λ g lt. refl)
free_available-Freed (e ∷ es) s v (apart, sep) use_all =
    let one : Freed s (in_region e) (free_region s e) =
      free_region-Freed s e v (λ g lt h. use_all g lt (rw h refl)) in
    Freed-append s (free_region s e) e es one (free_available (free_region s e) es) (
      free_available-Freed es (free_region s e) one.valid sep
        (InUse-others s (free_region s e) e es one apart use_all))
