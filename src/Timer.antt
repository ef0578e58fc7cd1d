-- ===== src/Timer.antt =====
-- kernel/drivers/timer.c: the tick counter, its conversions and the waits. The counter is an argument,
-- since the interrupt handler alone changes it; the ports are those of the machine `m`.
pub mod Sleep
mod Tests
use matryoshka_os.Prelude.{
  ℕ, zero, suc, ◌+◌, ◌-◌, ◌*◌, ◌/◌, ◌%◌, ◌^◌, bit_and, Bool, Option, none, some, List, [], ◌∷◌,
  ◌++◌, ltb, leb, ◌||◌, if◌then◌else◌,
}
use matryoshka_os.Io.{Machine}
use matryoshka_os.Pic.{enable_irq}

-- PIT_FREQUENCY, TIMER_FREQUENCY, PIT_CHANNEL0, PIT_COMMAND
abbrev pub pit_frequency : ℕ
pit_frequency = 1193182

abbrev pub frequency : ℕ
frequency = 100

abbrev pub pit_channel0 : ℕ
pit_channel0 = 0x40

abbrev pub pit_command : ℕ
pit_command = 0x43

abbrev pub divisor : ℕ
divisor = pit_frequency / frequency

-- The decimal digits of the frequency, below 1000, as `timer_init` prints them: `rest` is what is left
-- of `freq` behind the digits that are written.
pub freq_text : ℕ → List ℕ
freq_text freq =
    let hundreds : List ℕ = if leb 100 freq then (48 + freq / 100) ∷ [] else [] in
    let rest : ℕ = if leb 100 freq then freq % 100 else freq in
    let tens : List ℕ = if leb 100 freq || leb 10 rest then (48 + rest / 10) ∷ [] else [] in
    let rest' : ℕ = if leb 100 freq || leb 10 rest then rest % 10 else rest in
    hundreds ++ (tens ++ (48 + rest') ∷ [])

module _ (m : Machine) where
  open m use {State, outb}

  -- The command is channel 0, low byte and then high byte, square wave, binary: 0x36.
  pub program_pit : State → State
  program_pit s =
      outb (outb (outb s pit_command 0x36) pit_channel0 (bit_and divisor 0xFF)) pit_channel0
        (bit_and (divisor / 2 ^ 8) 0xFF)

  -- `timer_init`; the handler's registration stands in the model of the interrupts.
  pub timer_init : State → State
  unfolding program_pit
  timer_init s = enable_irq m (program_pit s) 0

-- `timer_ticks++`
unfoldable pub tick : ℕ → ℕ
tick ticks = (ticks + 1) % 2 ^ 64

pub get_uptime_ms : ℕ → ℕ
get_uptime_ms ticks = ticks * 1000 % 2 ^ 64 / frequency

pub get_uptime_sec : ℕ → ℕ
get_uptime_sec ticks = ticks / frequency % 2 ^ 32

-- The loop of `timer_sleep`: `seen i` is the counter at the `i`th test, and the result is the number
-- of times the processor was halted.
pub sleep_until : ℕ → (ℕ → ℕ) → ℕ → ℕ → Option ℕ
sleep_until zero seen end_tick i = none
sleep_until (suc fuel) seen end_tick i =
    let rest = sleep_until fuel seen end_tick (i + 1) in
    if ltb (seen i) end_tick then rest else some i

pub sleep : ℕ → (ℕ → ℕ) → ℕ → ℕ → Option ℕ
sleep fuel seen start ticks = sleep_until fuel seen ((start + ticks) % 2 ^ 64) 0

-- The ticks of `timer_sleep_ms`, with 32 bits.
pub ticks_of_ms : ℕ → ℕ
ticks_of_ms ms = ms * frequency % 2 ^ 32 / 1000

pub sleep_ms : ℕ → (ℕ → ℕ) → ℕ → ℕ → Option ℕ
unfolding ticks_of_ms
sleep_ms fuel seen start ms = sleep fuel seen start (ticks_of_ms ms)
