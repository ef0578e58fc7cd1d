-- ===== src/Pmm/Report.antt =====
-- `pmm_get_stats` of kernel/mm/pmm.c.
use matryoshka_os.Prelude.{◌+◌, ◌*◌, ◌≡◌, ◌<◌, ◌^◌, arith}
use matryoshka_os.Pmm.{Pmm, get_stats, bitmap_test}
use matryoshka_os.Pmm.Invariant.{IsValid, count_below, count_below-le}

-- On a valid state with fewer than 2 ^ 52 frames no subtraction or product of `pmm_get_stats` wraps:
-- used and free frames add up to all frames, `used_frames` is the number of set bits, and the memory figures are the frame figures
-- times 4096.
pub get_stats_lem :
    {s : Pmm}
    → IsValid s
    → s.total_frames < 2 ^ 52
    → let t = get_stats s in
      (t.used_frames + t.free_frames ≡ t.total_frames)
      × (t.used_frames ≡ count_below (bitmap_test s) s.total_frames)
      × (t.used_memory ≡ t.used_frames * 4096)
      × (t.free_memory ≡ t.free_frames * 4096)
      × (t.total_frames ≡ s.total_frames)
      × (t.total_memory ≡ s.total_memory)
unfolding get_stats
get_stats_lem {s} v small =
    omega (arith, v.small, v.counted, count_below-le (bitmap_test s) s.total_frames)
