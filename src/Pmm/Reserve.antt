-- ===== src/Pmm/Reserve.antt =====
-- `pmm_reserve_frame`, `pmm_reserve_region` and `pmm_free_frames` of kernel/mm/pmm.c.
use native.Mathlib.Decide.{dec_lt}
use matryoshka_os.Prelude.{
  ℕ, zero, suc, ◌+◌, ◌-◌, ◌%◌, ◌≤◌, ◌<◌, ◌≡◌, refl, ◌∙◌, true, false, arith, ltb, leb, ◌==◌,
  if◌then◌else◌, lt→ltb, ◌&&◌, ◌||◌, Bool-cases, inl, inr,
}
use matryoshka_os.Pmm.{Pmm, bitmap_test, mark_used, frame_to_addr, addr_to_frame}
use matryoshka_os.Pmm.{reserve_frame, reserve_frames, reserve_region}
use matryoshka_os.Pmm.Invariant.{IsValid, mark_used-IsValid, test-mark_used, total-mark_used}
use matryoshka_os.Pmm.Alloc.{frame_of_addr}
use matryoshka_os.Pmm.Contiguous.{in_run}

-- What reserving `rounds` frames from `f` on does: those in range are in use, the others are as
-- they were, and the state is valid.
pub record Reserved (s : Pmm) (f rounds : ℕ) (s' : Pmm) : Type 0 where
  pub valid : IsValid s'
  pub total : s'.total_frames ≡ s.total_frames
  pub tests :
      (g : ℕ) → g < s.total_frames → bitmap_test s' g ≡ (in_run f rounds g || bitmap_test s g)

module _ (s : Pmm) (v : IsValid s) where
  reserve_busy : (f : ℕ) → bitmap_test s f ≡ true → Reserved s f 1 s
  reserve_busy f busy = record { valid = v; total = refl; tests = λ g lt. ground (arith, here g) }
    where
      here : (g : ℕ) → f ≡ g → bitmap_test s g ≡ true
      here g e = rw (← e) busy

  reserve_idle :
      (f : ℕ) → f < s.total_frames → bitmap_test s f ≡ false → Reserved s f 1 (mark_used s f)
  reserve_idle f lt free = record {
    valid = mark_used-IsValid v f lt free;
    total = total-mark_used s f;
    tests = λ g _. ground (arith, test-mark_used v f lt g);
  }

  reserve_one : (f : ℕ) → f < s.total_frames → Reserved s f 1 (reserve_frame s (frame_to_addr f))
  unfolding reserve_frame
  reserve_one f lt =
      rw (frame_of_addr f (omega (arith, v.small)), leb_false)
        (elim (Bool-cases (bitmap_test s f)) [
          | inl busy ↦ rw busy (reserve_busy f busy)
          | inr free ↦ rw free (reserve_idle f lt free)
        ])
    where
      leb_false : leb s.total_frames f ≡ false
      leb_false = ground arith

  Reserved-cons :
      (f rounds : ℕ) (s' s'' : Pmm)
      → Reserved s f 1 s'
      → Reserved s' (f + 1) rounds s''
      → Reserved s f (suc rounds) s''
  Reserved-cons f rounds s' s'' one rest = record {
    valid = rest.valid;
    total = rest.total ∙ one.total;
    tests = λ g lt. ground (arith, rest.tests g (omega (arith, one.total)), one.tests g lt);
  }

  -- Past the last frame there is nothing to reserve.
  Reserved-beyond : (f rounds : ℕ) → s.total_frames ≤ f → Reserved s f rounds s
  Reserved-beyond f rounds le = record { valid = v; total = refl; tests = λ g lt. ground arith }

reserve_frames-Reserved :
    (s : Pmm) (rounds f : ℕ) → IsValid s → Reserved s f rounds (reserve_frames s rounds f)
unfolding reserve_frames
reserve_frames-Reserved s zero f v = record {
  valid = v;
  total = refl;
  tests = λ g lt. ground arith;
}
reserve_frames-Reserved s (suc rounds) f v = elim (dec_lt f s.total_frames) [
  | yes lt ↦
      let one = reserve_one s v f lt in
      rw (lt→ltb f s.total_frames lt) (
        Reserved-cons s v f rounds (reserve_frame s (frame_to_addr f)) _ one
          (reserve_frames-Reserved (reserve_frame s (frame_to_addr f)) rounds (f + 1) one.valid))
  | no ge ↦
      let out : ltb f s.total_frames ≡ false = ground arith in
      rw out (Reserved-beyond s v f (suc rounds) (omega arith))
]

-- The frame after the last one that the region up to `end` touches.
abbrev pub end_frame : ℕ → ℕ
end_frame end = addr_to_frame end + (if end % 4096 == 0 then 0 else 1)

-- On a valid state `pmm_reserve_region` keeps the invariant, and leaves in use, among the frames in
-- range, those that were in use and those from the region's first frame up to `end_frame end`, that
-- one included: one frame more than the region touches.
pub reserve_region_lem :
    {s : Pmm} (start end : ℕ)
    → IsValid s
    → let s' = reserve_region s start end in
      IsValid s'
      × (s'.total_frames ≡ s.total_frames)
      × ((g : ℕ)
          → g < s.total_frames
          → bitmap_test s' g
            ≡ (leb (addr_to_frame start) g && leb g (end_frame end) || bitmap_test s g))
unfolding reserve_region
reserve_region_lem {s} start end v = (r.valid, r.total, λ g lt. r.tests g lt ∙ ground arith)
  where
    first : ℕ
    first = addr_to_frame start

    r :
        Reserved s first
          (end_frame end + 1 - first)
          (reserve_frames s (end_frame end + 1 - first) first)
    r = reserve_frames-Reserved s (end_frame end + 1 - first) first v
