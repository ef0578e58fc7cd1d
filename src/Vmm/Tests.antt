-- ===== src/Vmm/Tests.antt =====
-- The theorems on paging at a small state.
use matryoshka_os.Prelude.{
  ℕ, ◌+◌, ◌*◌, ◌/◌, ◌%◌, ◌^◌, ◌<◌, ◌≡◌, refl, sym, ◌∙◌, true, arith, ◌==◌, if◌then◌else◌, [],
}
use matryoshka_os.Vmm.{Vmm, get_physical, map, unmap, pte_of}
use matryoshka_os.Vmm.Walk.{HasWords}
use matryoshka_os.Vmm.Map.{AreApart}
use matryoshka_os.Vmm.Result.{map_lem, unmap_lem}

-- One page table, at 0x5000, in which the page at 0x1000 is mapped to the frame at 0x8000.
abbrev sample : Vmm
sample = record {
  page_directory = λ i. if i == 0 then 0x5003 else 0;
  word = λ a. if a == 0x5004 then 0x8003 else 0;
  mapped_pages = 1;
  page_tables = 1;
  identity_end = 0;
  pmm = record {
    frame_bitmap = [];
    total_frames = 0;
    used_frames = 0;
    total_memory = 0;
    highest_address = 0;
  };
}

sample-HasWords : HasWords sample
sample-HasWords = record { entries = λ i. ground arith; words = λ a. ground arith }

zero_if_present : (i : ℕ) → sample.page_directory i % 2 ≡ 1 → i ≡ 0
zero_if_present i p = ground arith

sample-AreApart : AreApart sample
sample-AreApart i j p q e = zero_if_present i p ∙ sym (zero_if_present j q)

translates : get_physical sample 0x1234 ≡ 0x8234
unfolding get_physical pte_of
translates = refl

map_lem_example :
    (s' : Vmm) × ((map sample 0x2000 0x9000 3 ≡ (true, s'))
      × (HasWords s'
          × (AreApart s'
              × ((x : ℕ) (lt : x < 2 ^ 32)
                  → get_physical s' x
                    ≡ (if x / 4096 == 2 then 9 * 4096 + x % 4096 else get_physical sample x)))))
map_lem_example =
    map_lem sample 0x2000 0x9000 3 sample-HasWords sample-AreApart (omega arith) (omega arith) refl
      refl

unmap_lem_example :
    (s' : Vmm) × ((unmap sample 0x1000 ≡ (true, s'))
      × (HasWords s'
          × (AreApart s'
              × ((x : ℕ) (lt : x < 2 ^ 32)
                  → get_physical s' x ≡ (if x / 4096 == 1 then 0 else get_physical sample x)))))
unmap_lem_example = unmap_lem sample 0x1000 sample-HasWords sample-AreApart (omega arith) refl refl
