-- ===== src/Pmm/Tests.antt =====
-- Runs of the frame allocator on small states, and the theorems at those states.
use native.Mathlib.Decide.{ℕ_discrete}
use matryoshka_os.Prelude.{
  ℕ, zero, suc, ◌*◌, ◌^◌, ◌<◌, ◌≡◌, ◌≢◌, refl, Bool, true, false, ◌&&◌, ◌⊎◌, [], ◌∷◌, some, arith,
  ◌==◌, if◌then◌else◌, get_or,
}
use matryoshka_os.Pmm.{
  Pmm, bitmap_test, find_in_word, find_in_words, find_free_frame, find_run, alloc_frame,
  alloc_frames, free_frames, is_frame_allocated,
}
use matryoshka_os.Pmm.Invariant.{IsValid}
use matryoshka_os.Pmm.Search.{AllUsed}
use matryoshka_os.Pmm.Alloc.{OutOfMemory, alloc_frame_lem, alloc_frame-misses_last_word}
use matryoshka_os.Pmm.Contiguous.{NoRun, TookRun, alloc_frames_lem}
use matryoshka_os.Pmm.Release.{free_frames-alloc_frames}
use matryoshka_os.Pmm.Boot.{init}
use matryoshka_os.Pmm.Boot.Regions.{Separate}
use matryoshka_os.Pmm.Boot.Result.{Initialised, bitmap_end, frames_of, init_lem}
use matryoshka_os.Multiboot.Tests.{
  boot_memory, boot_tags, boot_tags-TagsAt, boot_entries, read_boot_entries,
}

-- 70 frames in three words; the frames 34, 35, 38 and 67 to 69 are free.
abbrev sample : Pmm
sample = record {
  frame_bitmap = 0xFFFFFFFF ∷ 0xFFFFFFB3 ∷ 0xFFFFFFC7 ∷ [];
  total_frames = 70;
  used_frames = 64;
  total_memory = 0x46000;
  highest_address = 0x46000;
}

sample_words : (i : ℕ) → get_or sample.frame_bitmap i 0 < 2 ^ 32
sample_words zero = omega arith
sample_words (suc zero) = omega arith
sample_words (suc (suc zero)) = omega arith
sample_words (suc (suc (suc i))) = omega arith

sample-IsValid : IsValid sample
unfolding bitmap_test
sample-IsValid = record {
  covered = omega arith;
  small = omega arith;
  words = sample_words;
  counted = refl;
}

alloc_sample : (alloc_frame sample).0 ≡ 34 * 4096
unfolding alloc_frame find_free_frame find_in_words find_in_word bitmap_test
alloc_sample = refl

alloc_two : (alloc_frames sample 3).0 ≡ 67 * 4096
unfolding alloc_frames find_run bitmap_test
alloc_two = refl

-- The same with the second word full: only the last, partial word has free frames.
abbrev partial : Pmm
partial = record sample {
  frame_bitmap = 0xFFFFFFFF ∷ 0xFFFFFFFF ∷ 0xFFFFFFC7 ∷ [];
  used_frames = 67;
}

partial_words : (i : ℕ) → get_or partial.frame_bitmap i 0 < 2 ^ 32
partial_words zero = omega arith
partial_words (suc zero) = omega arith
partial_words (suc (suc zero)) = omega arith
partial_words (suc (suc (suc i))) = omega arith

partial-IsValid : IsValid partial
unfolding bitmap_test
partial-IsValid = record {
  covered = omega arith;
  small = omega arith;
  words = partial_words;
  counted = refl;
}

-- `bitmap_test` below a bound, checked frame by frame.
test_all : Pmm → ℕ → Bool
test_all s zero = true
test_all s (suc n) = bitmap_test s n && test_all s n

test_all-AllUsed :
    (s : Pmm) (n : ℕ) → test_all s n ≡ true → (g : ℕ) → g < n → bitmap_test s g ≡ true
unfolding test_all
test_all-AllUsed s zero h g lt = absurd (omega arith)
test_all-AllUsed s (suc n) h g lt = elim (ℕ_discrete g n) [
  | yes e ↦ rw e (ground arith)
  | no ne ↦ test_all-AllUsed s n (ground arith) g (omega arith)
]

partial_full : AllUsed partial 0 64
unfolding test_all bitmap_test
partial_full g p q r = test_all-AllUsed partial 64 refl g q

alloc_frame_lem_example :
    OutOfMemory sample (alloc_frame sample)
    ⊎ ((f : ℕ) × ((alloc_frame sample).0 ≡ f * 4096)
        × (f < 64)
        × (bitmap_test sample f ≡ false)
        × AllUsed sample 0 f
        × ((g : ℕ)
            → bitmap_test (alloc_frame sample).1 g
              ≡ (if f == g then true else bitmap_test sample g))
        × ((alloc_frame sample).1.used_frames ≡ 65))
alloc_frame_lem_example = alloc_frame_lem sample-IsValid

alloc_frame-misses_last_word_example :
    (alloc_frame partial ≡ (0, partial)) × (is_frame_allocated partial 0x44000 ≡ false)
unfolding bitmap_test
alloc_frame-misses_last_word_example =
    alloc_frame-misses_last_word partial-IsValid 68 partial_full (omega arith) refl

alloc_sample_ne : (alloc_frame sample).0 ≢ 0
alloc_sample_ne e = omega (arith, alloc_sample)

alloc_frames_lem_example :
    NoRun sample 3 (alloc_frames sample 3) ⊎ ((f : ℕ) × TookRun sample 3 f (alloc_frames sample 3))
alloc_frames_lem_example = alloc_frames_lem sample-IsValid 3 (omega arith)

alloc_run_ne : (alloc_frames sample 3).0 ≢ 0
alloc_run_ne e = omega (arith, alloc_two)

free_frames-alloc_frames_example :
    let s' = free_frames (alloc_frames sample 3).1 (alloc_frames sample 3).0 3 in
    IsValid s'
    × ((g : ℕ) → bitmap_test s' g ≡ bitmap_test sample g)
    × (s'.used_frames ≡ sample.used_frames)
free_frames-alloc_frames_example =
    free_frames-alloc_frames 3 sample-IsValid (omega arith) (omega arith) alloc_run_ne

abbrev unset : Pmm
unset = record {
  frame_bitmap = [];
  total_frames = 0;
  used_frames = 0;
  total_memory = 0;
  highest_address = 0;
}

boot_entries-Separate : Separate boot_entries
boot_entries-Separate = (λ g. ground arith, (λ g. ground arith, tt))

init_lem_example :
    (s' : Pmm) × (init 3 boot_memory 0x9000 0x2000 unset ≡ some s')
    × Initialised boot_entries
        (bitmap_end unset boot_entries 0x2000)
        (frames_of unset boot_entries)
        s'
init_lem_example =
    init_lem boot_tags 3 boot_memory 0x9000 0x2000 unset boot_entries (omega arith) boot_tags-TagsAt
      (omega arith) (omega arith) read_boot_entries (omega arith) boot_entries-Separate
