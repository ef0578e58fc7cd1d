-- ===== src/Timer/Sleep.antt =====
-- kernel/drivers/timer.c: how long the waits are.
use native.Mathlib.Decide.{dec_lt, ℕ_discrete}
use matryoshka_os.Prelude.{
  false, refl, ap, subst, lt→ltb, ℕ, zero, suc, ◌+◌, ◌*◌, ◌/◌, ◌%◌, ◌^◌, ◌<◌, ◌≤◌, ◌≡◌, arith, some,
  ltb,
}
use matryoshka_os.Timer.{sleep_until, sleep, ticks_of_ms}

-- If a test from `i` on, before the fuel runs out, sees the end, the first such test ends the loop.
sleep_until_lem :
    (fuel : ℕ) (seen : ℕ → ℕ) (end_tick i k : ℕ)
    → i ≤ k
    → k < i + fuel
    → end_tick ≤ seen k
    → (n : ℕ) × (sleep_until fuel seen end_tick i ≡ some n)
      × (end_tick ≤ seen n)
      × ((j : ℕ) → i ≤ j → j < n → seen j < end_tick)
unfolding sleep_until
sleep_until_lem zero seen end_tick i k from to reached = absurd (omega arith)
sleep_until_lem (suc fuel) seen end_tick i k from to reached = elim (dec_lt (seen i) end_tick) [
  | yes early ↦
      let apart : i < k = elim (ℕ_discrete i k) [
        | yes e ↦ let here : seen i ≡ seen k = ap seen e in absurd (omega arith)
        | no ne ↦ omega arith
      ] in
      let (n, e, late, before) =
        sleep_until_lem fuel seen end_tick (i + 1) k (omega arith) (omega arith) reached in
      (
        n,
        rw (lt→ltb (seen i) end_tick early) e,
        late,
        λ j start end. elim (ℕ_discrete i j) [
          | yes same ↦ subst (λ q. seen q < end_tick) same early
          | no other ↦ before j (omega arith) end
        ],
      )
  | no late ↦
      let test : ltb (seen i) end_tick ≡ false = ground arith in
      (i, rw test refl, omega arith, λ j start end. absurd (omega arith))
]

-- `timer_sleep` of `ticks` ticks from the count `start` on, as long as the counter does not wrap: if
-- some test that the fuel reaches sees `start + ticks`, it returns after the first test that does, and
-- every test before saw a smaller count.
pub sleep_lem :
    (fuel : ℕ) (seen : ℕ → ℕ) (start ticks k : ℕ)
    → start + ticks < 2 ^ 64
    → k < fuel
    → start + ticks ≤ seen k
    → (n : ℕ) × (sleep fuel seen start ticks ≡ some n)
      × (start + ticks ≤ seen n)
      × ((j : ℕ) → j < n → seen j < start + ticks)
unfolding sleep
sleep_lem fuel seen start ticks k small enough reached =
    let whole : (start + ticks) % 2 ^ 64 ≡ start + ticks = omega arith in
    let (n, e, late, before) =
      sleep_until_lem fuel seen (start + ticks) 0 k (omega arith) (omega arith) reached in
    (n, rw whole e, late, λ j end. before j (omega arith) end)

-- `timer_sleep_ms` waits a tick for each 10 milliseconds, rounded down, up to 42949672 milliseconds.
-- From there on the product wraps, and it waits at least 42949670 milliseconds less than was asked for.
pub ticks_of_ms_lem :
    (ms : ℕ)
    → ms < 2 ^ 32
    → (ms < 42949673 → ticks_of_ms ms ≡ ms / 10)
      × (42949673 ≤ ms → ticks_of_ms ms * 10 + 42949670 ≤ ms)
unfolding ticks_of_ms
ticks_of_ms_lem ms h = (λ small. omega arith, λ large. omega arith)
