-- ===== src/Timer/Tests.antt =====
-- Runs of the timer.
use matryoshka_os.Prelude.{◌+◌, ◌≡◌, refl, [], ◌∷◌}
use matryoshka_os.Timer.{freq_text, get_uptime_ms, get_uptime_sec, tick}

hundred : freq_text 100 ≡ (49 ∷ 48 ∷ 48 ∷ [])
unfolding freq_text
hundred = refl

uptime : get_uptime_ms 250 + get_uptime_sec 250 ≡ 2502
unfolding get_uptime_ms get_uptime_sec
uptime = refl

wraps_to_zero : tick 0xFFFF_FFFF_FFFF_FFFF ≡ 0
unfolding tick
wraps_to_zero = refl
