-- ===== src/Serial/Output.antt =====
-- kernel/drivers/serial.c: what goes out on the line, given how the transmitter answers.
use mathlib.Core.List.{append_assoc, append-nil}
use native.Mathlib.Decide.{ℕ_discrete}
use matryoshka_os.Prelude.{
  ==_eq, ==_ne, leb, length, ℕ, zero, suc, ◌+◌, ◌-◌, ◌*◌, ◌/◌, ◌%◌, ◌^◌, ◌<◌, ◌≤◌, ◌≡◌, ◌≢◌, refl,
  sym, ap, ◌∙◌, arith, bit_and, Bool-cases, inl, inr, some, Option, List, [], ◌∷◌, ◌++◌,
  if◌then◌else◌, ◌==◌, ◌>>=◌,
}
use matryoshka_os.Prelude.Fields.{bit_and-ones}
use matryoshka_os.Io.{Machine}
use matryoshka_os.Serial.{
  com1, carriage_return, newline, hex_digit, klog_prefix, is_transmit_empty, wait_empty, putc, puts,
  put_digits, put_hex32, klog,
}

-- A transmitter: `sent` is what went out on the line so far, `busy` the polls of the status register
-- that will find the transmitter full; each poll brings that nearer to 0. A byte written to the data
-- port of an idle transmitter goes out after the others, and keeps it busy for at most `longest` polls.
pub record Transmitter (m : Machine) : Type 1 where
  pub sent : m.State → List ℕ
  pub busy : m.State → ℕ
  pub longest : ℕ
  pub poll_sent : (s : m.State) → sent (m.inb s (com1 + 5)).1 ≡ sent s
  pub poll_busy : (s : m.State) → busy (m.inb s (com1 + 5)).1 ≡ busy s - 1
  pub poll_full : (s : m.State) → busy s ≢ 0 → bit_and (m.inb s (com1 + 5)).0 0x20 ≡ 0
  pub poll_empty : (s : m.State) → busy s ≡ 0 → bit_and (m.inb s (com1 + 5)).0 0x20 ≢ 0
  pub write_sent : (s : m.State) (c : ℕ) → busy s ≡ 0 → sent (m.outb s com1 c) ≡ sent s ++ c ∷ []
  pub write_busy : (s : m.State) (c : ℕ) → busy s ≡ 0 → busy (m.outb s com1 c) ≤ longest

-- The characters that go out for a string: a carriage return before each newline.
abbrev pub with_returns : List ℕ → List ℕ
with_returns [] = []
with_returns (c ∷ cs) =
    if c == newline then carriage_return ∷ c ∷ with_returns cs else c ∷ with_returns cs

-- The last `rounds` hexadecimal digits of `v`, and the number that digits stand for.
abbrev pub hex_digits : ℕ → ℕ → List ℕ
hex_digits v zero = []
hex_digits v (suc rounds) = hex_digit (v / 2 ^ (rounds * 4) % 16) ∷ hex_digits v rounds

abbrev pub digit_value : ℕ → ℕ
digit_value d = if leb d 57 then d - 48 else d - 55

abbrev pub hex_value : ℕ → List ℕ → ℕ
hex_value acc [] = acc
hex_value acc (d ∷ ds) = hex_value (acc * 16 + digit_value d) ds

digit_value-hex_digit : (d : ℕ) → d < 16 → digit_value (hex_digit d) ≡ d
digit_value-hex_digit d h = ground arith

-- Eight digits are enough for 32 bits.
hex_value-hex_digits : (v : ℕ) → v < 2 ^ 32 → hex_value 0 (hex_digits v 8) ≡ v
hex_value-hex_digits v h =
    rw
      (
        digit_value-hex_digit (v / 2 ^ 28 % 16) (omega arith),
        digit_value-hex_digit (v / 2 ^ 24 % 16) (omega arith),
        digit_value-hex_digit (v / 2 ^ 20 % 16) (omega arith),
        digit_value-hex_digit (v / 2 ^ 16 % 16) (omega arith),
        digit_value-hex_digit (v / 2 ^ 12 % 16) (omega arith),
        digit_value-hex_digit (v / 2 ^ 8 % 16) (omega arith),
        digit_value-hex_digit (v / 2 ^ 4 % 16) (omega arith),
        digit_value-hex_digit (v / 2 ^ 0 % 16) (omega arith),
      )
      (omega arith)

module _ (m : Machine) (c : Transmitter m) where
  -- The operation ends, and what it puts on the line is `out`.
  abbrev pub Sends : m.State → Option m.State → List ℕ → Type 0
  Sends s result out =
      (t : m.State) × (result ≡ some t) × (c.sent t ≡ c.sent s ++ out) × (c.busy t ≤ c.longest)

  Sends-bind :
      (s : m.State) (first : Option m.State) (next : m.State → Option m.State) (out out' : List ℕ)
      → Sends s first out
      → ((t : m.State) → c.busy t ≤ c.longest → Sends t (next t) out')
      → Sends s (first >>= next) (out ++ out')
  Sends-bind s first next out out' (t, e, sent, free) rest =
      let (u, e', sent', free') = rest t free in
      (
        u,
        ap (λ r. r >>= next) e ∙ e',
        sent' ∙ (ap (λ l. l ++ out') sent ∙ append_assoc (c.sent s) out out'),
        free',
      )

  wait_empty_lem :
      (fuel : ℕ) (s : m.State)
      → c.busy s < fuel
      → (t : m.State) × (wait_empty m fuel s ≡ some t) × (c.sent t ≡ c.sent s) × (c.busy t ≡ 0)
  unfolding wait_empty is_transmit_empty
  wait_empty_lem zero s h = absurd (omega arith)
  wait_empty_lem (suc fuel) s h = elim (ℕ_discrete (c.busy s) 0) [
    | yes idle ↦ (
      (m.inb s (com1 + 5)).1,
      rw (==_ne (bit_and (m.inb s (com1 + 5)).0 0x20) 0 (c.poll_empty s idle)) refl,
      c.poll_sent s,
      c.poll_busy s ∙ omega arith,
    )
    | no full ↦
        let (t, e, sent, free) =
          wait_empty_lem fuel (m.inb s (com1 + 5)).1 (omega (arith, c.poll_busy s)) in
        (
          t,
          rw (==_eq (bit_and (m.inb s (com1 + 5)).0 0x20) 0 (c.poll_full s full)) e,
          sent ∙ c.poll_sent s,
          free,
        )
  ]

  module _ (fuel : ℕ) (enough : c.longest < fuel) where
    pub putc-Sends :
        (s : m.State) (ch : ℕ) → c.busy s ≤ c.longest → Sends s (putc m fuel s ch) (ch ∷ [])
    unfolding putc
    putc-Sends s ch h =
        let (t, e, sent, idle) = wait_empty_lem fuel s (omega arith) in
        (
          m.outb t com1 ch,
          ap (λ r. r >>= λ u. some (m.outb u com1 ch)) e,
          c.write_sent t ch idle ∙ ap (λ l. l ++ ch ∷ []) sent,
          c.write_busy t ch idle,
        )

    -- `serial_puts`, with more fuel than the transmitter can stay busy, ends, and sends the string
    -- with a carriage return before each newline.
    pub puts-Sends :
        (cs : List ℕ) (s : m.State)
        → c.busy s ≤ c.longest
        → Sends s (puts m fuel s cs) (with_returns cs)
    unfolding puts
    puts-Sends [] s h = (s, refl, sym (append-nil (c.sent s)), h)
    puts-Sends (ch ∷ cs) s h = elim (Bool-cases (ch == newline)) [
      | inl line ↦ rw line (
          Sends-bind s (putc m fuel s carriage_return)
            (λ t. putc m fuel t ch >>= λ u. puts m fuel u cs) (carriage_return ∷ [])
            (ch ∷ with_returns cs) (putc-Sends s carriage_return h)
            (λ t free.
              Sends-bind t (putc m fuel t ch) (λ u. puts m fuel u cs) (ch ∷ []) (with_returns cs)
                (putc-Sends t ch free) (puts-Sends cs)))
      | inr other ↦ rw other (
          Sends-bind s (putc m fuel s ch) (λ u. puts m fuel u cs) (ch ∷ []) (with_returns cs)
            (putc-Sends s ch h) (puts-Sends cs))
    ]

    -- `klog` of a message sends "[klog] ", the message with its carriage returns, and a line end.
    pub klog-Sends :
        (s : m.State) (msg : List ℕ)
        → c.busy s ≤ c.longest
        → Sends s
            (klog m fuel s msg)
            (klog_prefix ++ (with_returns msg ++ carriage_return ∷ newline ∷ []))
    unfolding klog
    klog-Sends s msg h =
        Sends-bind s (puts m fuel s klog_prefix)
          (λ t.
            puts m fuel t msg >>= λ u. putc m fuel u carriage_return >>= λ v. putc m fuel v newline)
          (with_returns klog_prefix) (with_returns msg ++ carriage_return ∷ newline ∷ [])
          (puts-Sends klog_prefix s h)
          (λ t free.
            Sends-bind t (puts m fuel t msg)
              (λ u. putc m fuel u carriage_return >>= λ v. putc m fuel v newline) (with_returns msg)
              (carriage_return ∷ newline ∷ []) (puts-Sends msg t free)
              (λ u free'.
                Sends-bind u (putc m fuel u carriage_return) (λ v. putc m fuel v newline)
                  (carriage_return ∷ []) (newline ∷ []) (putc-Sends u carriage_return free')
                  (λ v free''. putc-Sends v newline free'')))

    put_digits-Sends :
        (rounds : ℕ) (s : m.State) (v : ℕ)
        → c.busy s ≤ c.longest
        → Sends s (put_digits m fuel s v rounds) (hex_digits v rounds)
    unfolding put_digits
    put_digits-Sends zero s v h = (s, refl, sym (append-nil (c.sent s)), h)
    put_digits-Sends (suc rounds) s v h = rw (bit_and-ones 4 (v / 2 ^ (rounds * 4))) (
        Sends-bind s (putc m fuel s (hex_digit (v / 2 ^ (rounds * 4) % 16)))
          (λ t. put_digits m fuel t v rounds) (hex_digit (v / 2 ^ (rounds * 4) % 16) ∷ [])
          (hex_digits v rounds) (putc-Sends s (hex_digit (v / 2 ^ (rounds * 4) % 16)) h)
          (λ t. put_digits-Sends rounds t v))

    -- `serial_put_hex32` of a word ends, and sends "0x" and eight digits, which stand for the word.
    pub put_hex32-Sends :
        (s : m.State) (v : ℕ)
        → c.busy s ≤ c.longest
        → v < 2 ^ 32
        → (ds : List ℕ) × Sends s (put_hex32 m fuel s v) (48 ∷ 120 ∷ ds)
          × (length ds ≡ 8)
          × (hex_value 0 ds ≡ v)
    unfolding put_hex32
    put_hex32-Sends s v h small = (
      hex_digits v 8,
      Sends-bind s (puts m fuel s (48 ∷ 120 ∷ [])) (λ t. put_digits m fuel t v 8) (48 ∷ 120 ∷ [])
          (hex_digits v 8) (puts-Sends (48 ∷ 120 ∷ []) s h) (λ t. put_digits-Sends 8 t v),
      refl,
      hex_value-hex_digits v small,
    )
