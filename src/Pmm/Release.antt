-- ===== src/Pmm/Release.antt =====
-- `pmm_free_frames` of kernel/mm/pmm.c gives back what `pmm_alloc_frames` took.
use matryoshka_os.Prelude.{
  ℕ, zero, suc, ◌+◌, ◌*◌, ◌%◌, ◌^◌, ◌≤◌, ◌<◌, ◌≡◌, ◌≢◌, ◌∙◌, true, false, arith, if◌then◌else◌, inl,
  inr,
}
use matryoshka_os.Pmm.{Pmm, bitmap_test, mark_free, alloc_frames, addr_to_frame, frame_size}
use matryoshka_os.Pmm.{free_frames, free_frames_from}
use matryoshka_os.Pmm.Invariant.{
  IsValid, mark_free-IsValid, test-mark_free, used-mark_free, total-mark_free,
}
use matryoshka_os.Pmm.Alloc.{free_busy}
use matryoshka_os.Pmm.Contiguous.{in_run, AllFree, Marked, alloc_frames_lem}

-- All frames from `a` up to `b`, `b` excluded, are in use.
abbrev pub AllBusy : Pmm → ℕ → ℕ → Type 0
AllBusy s a b = (g : ℕ) → a ≤ g → g < b → bitmap_test s g ≡ true

-- What freeing `count` frames in use from `f` on does.
pub record Released (s : Pmm) (f count : ℕ) (s' : Pmm) : Type 0 where
  pub valid : IsValid s'
  pub tests : (g : ℕ) → bitmap_test s' g ≡ (if in_run f count g then false else bitmap_test s g)
  pub used : s'.used_frames + count ≡ s.used_frames

module _ (s : Pmm) (v : IsValid s) (f count : ℕ) (le : f + suc count ≤ s.total_frames) where
  Released-cons :
      (s' : Pmm)
      → bitmap_test s f ≡ true
      → Released (mark_free s f) (f + 1) count s'
      → Released s f (suc count) s'
  Released-cons s' busy rest = record {
    valid = rest.valid;
    tests = λ g. ground (arith, rest.tests g, test-mark_free v f (omega arith) g);
    used = omega (arith, rest.used, used-mark_free v f (omega arith) busy);
  }

  AllBusy-rest : AllBusy s f (f + suc count) → AllBusy (mark_free s f) (f + 1) (f + 1 + count)
  AllBusy-rest busy g p q =
      ground (arith, test-mark_free v f (omega arith) g, busy g (omega arith) (omega arith))

-- The address that round `i` frees, as long as `i * 4096` does not wrap at 32 bits.
round_addr :
    (a i : ℕ)
    → a + i < 2 ^ 52
    → i < 2 ^ 20
    → addr_to_frame ((a * 4096 + i * frame_size % 2 ^ 32) % 2 ^ 64) ≡ a + i
round_addr a i h k = omega arith

free_frames_from-Released :
    (s : Pmm) (count a i f : ℕ)
    → a + i ≡ f
    → IsValid s
    → f + count ≤ s.total_frames
    → i + count ≤ 2 ^ 20
    → AllBusy s f (f + count)
    → Released s f count (free_frames_from s (a * 4096) count i)
unfolding free_frames_from
free_frames_from-Released s zero a i f at v le small busy = record {
  valid = v;
  tests = λ g. ground arith;
  used = omega arith;
}
free_frames_from-Released s (suc count) a i f at v le small busy =
    let here = busy f (omega arith) (omega arith) in
    let addr : addr_to_frame ((a * 4096 + i * frame_size % 2 ^ 32) % 2 ^ 64) ≡ f =
      round_addr a i (omega (arith, v.small)) (omega arith) ∙ at in
    rw (free_busy s ((a * 4096 + i * frame_size % 2 ^ 32) % 2 ^ 64) f addr (omega arith) here) (
      Released-cons s v f count le _ here (
        free_frames_from-Released (mark_free s f) count a (i + 1) (f + 1) (omega arith)
          (mark_free-IsValid v f (omega arith) here) (rw total-mark_free (omega arith))
          (omega arith) (AllBusy-rest s v f count le busy)))

-- On a valid state, freeing `count` frames in use from frame `f` on, all in range, clears their bits
-- and no other, uncounts them and keeps the invariant, if `count` is at most 2 ^ 20: beyond that the
-- code's `i * PMM_FRAME_SIZE` wraps.
pub free_frames_lem :
    {s : Pmm} (f count : ℕ)
    → IsValid s
    → f + count ≤ s.total_frames
    → count ≤ 2 ^ 20
    → AllBusy s f (f + count)
    → Released s f count (free_frames s (f * 4096) count)
unfolding free_frames
free_frames_lem {s} f count v le small busy =
    free_frames_from-Released s count f 0 f (omega arith) v le (omega arith) busy

module _ {s : Pmm} (v : IsValid s) (f count : ℕ) (small : count ≤ 2 ^ 20) where
  restored_run :
      (s' s'' : Pmm)
      → AllFree s f (f + count)
      → f + count ≤ s.total_frames
      → Marked s f count s'
      → Released s' f count s''
      → IsValid s''
        × ((g : ℕ) → bitmap_test s'' g ≡ bitmap_test s g)
        × (s''.used_frames ≡ s.used_frames)
  restored_run s' s'' free le m r =
      (r.valid, λ g. ground (arith, r.tests g, m.tests g, free g), omega (arith, r.used, m.used))

-- On a valid state, freeing the frames that were just allocated together, at most 2 ^ 20 of them,
-- gives back a valid state with the same bits and the same count.
pub free_frames-alloc_frames :
    {s : Pmm} (count : ℕ)
    → IsValid s
    → 0 < count
    → count ≤ 2 ^ 20
    → (alloc_frames s count).0 ≢ 0
    → let s' = free_frames (alloc_frames s count).1 (alloc_frames s count).0 count in
      IsValid s' × ((g : ℕ) → bitmap_test s' g ≡ bitmap_test s g) × (s'.used_frames ≡ s.used_frames)
free_frames-alloc_frames {s} count v pos small ne = elim (alloc_frames_lem v count pos) [
  | inl (zero_addr, _, _) ↦ absurd (ne zero_addr)
  | inr (f, (addr, le, free, _, m)) ↦ rw addr (
      restored_run v f count small _ _ free le m
        (free_frames_lem f count m.valid (rw m.total le) small (λ g p q. m.tests g ∙ ground arith)))
]
