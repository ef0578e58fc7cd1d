-- ===== src/Vga/Cursor.antt =====
-- The cursor of kernel/drivers/vga.c and what `vga_putchar` writes.
use native.Mathlib.Decide.{dec_lt}
use matryoshka_os.Prelude.{
  ℕ, ◌+◌, ◌*◌, ◌%◌, ◌^◌, ◌≤◌, ◌<◌, ◌≡◌, ◌≢◌, refl, sym, ap, ◌∙◌, ◌⊎◌, inl, inr, true, false, arith,
  ◌==◌, leb, Bool-cases, subst, ==_ne, update, List, [], ◌∷◌,
}
use matryoshka_os.Vga.{Vga, scroll, entry, place_char, wrap_line, wrap_screen, putchar, puts}
use matryoshka_os.Vga.Scroll.{scroll_lem, scrolled}

-- The cursor is on the screen.
pub record IsValid (s : Vga) : Type 0 where
  pub column : s.cursor_x < 80
  pub line : s.cursor_y < 25

-- The cells behind the screen.
abbrev pub KeepsMemory : Vga → Vga → Type 0
KeepsMemory s s' = (a : ℕ) → 2000 ≤ a → s'.vga_buffer a ≡ s.vga_buffer a

place_char_bounds :
    (s : Vga) (c : ℕ)
    → IsValid s
    → ((place_char s c).cursor_x ≤ 80)
      × ((place_char s c).cursor_y ≤ 25)
      × KeepsMemory s (place_char s c)
unfolding place_char
place_char_bounds s c v = elim (Bool-cases (c == 10)) [
  | inl e ↦ rw e (omega arith, omega (arith, v.line), λ a le. refl)
  | inr newline ↦ elim (Bool-cases (c == 13)) [
    | inl e ↦ rw (newline, e) (omega arith, omega (arith, v.line), λ a le. refl)
    | inr return ↦ elim (Bool-cases (c == 9)) [
      | inl e ↦
          rw (newline, return, e) (omega (arith, v.column), omega (arith, v.line), λ a le. refl)
      | inr tab ↦ elim (Bool-cases (c == 8)) [
        | inl e ↦
            rw (newline, return, tab, e)
              (ground (arith, v.column), omega (arith, v.line), λ a le. refl)
        | inr back ↦
            rw (newline, return, tab, back)
              (
                omega (arith, v.column),
                omega (arith, v.line),
                λ a le.
                    rw (==_ne (s.cursor_y * 80 + s.cursor_x) a (omega (arith, v.line, v.column)))
                      refl,
              )
      ]
    ]
  ]
]

wrap_line_bounds :
    (s : Vga)
    → s.cursor_x ≤ 80
    → s.cursor_y ≤ 25
    → ((wrap_line s).cursor_x < 80) × ((wrap_line s).cursor_y ≤ 26) × KeepsMemory s (wrap_line s)
unfolding wrap_line
wrap_line_bounds s x y = elim (Bool-cases (leb 80 s.cursor_x)) [
  | inl wrap ↦ rw wrap (omega arith, omega arith, λ a le. refl)
  | inr fits ↦ rw fits (ground arith, omega arith, λ a le. refl)
]

wrap_screen_bounds :
    (s : Vga) → s.cursor_x < 80 → IsValid (wrap_screen s) × KeepsMemory s (wrap_screen s)
unfolding wrap_screen
wrap_screen_bounds s x = elim (Bool-cases (leb 25 s.cursor_y)) [
  | inl down ↦ rw down (
    record { column = omega (arith, (scroll_lem s).1.0, x); line = omega arith },
    λ a le. (scroll_lem s).0 a ∙ ground arith,
  )
  | inr fits ↦ rw fits (record { column = x; line = ground arith }, λ a le. refl)
]

-- `vga_putchar`, with the cursor on the screen, leaves it on the screen, and writes no memory
-- behind the screen, whatever the character.
pub putchar-IsValid :
    (s : Vga) (c : ℕ) → IsValid s → IsValid (putchar s c) × KeepsMemory s (putchar s c)
unfolding putchar
putchar-IsValid s c v =
    let (x, y, kept) = place_char_bounds s c v in
    let (x', y', kept') = wrap_line_bounds (place_char s c) x y in
    let (v', kept'') = wrap_screen_bounds (wrap_line (place_char s c)) x' in
    (v', λ a le. kept'' a le ∙ kept' a le ∙ kept a le)

-- `vga_puts` of any string, with the cursor on the screen, leaves it on the screen, and writes no
-- memory behind the screen.
pub puts-IsValid :
    (cs : List ℕ) (s : Vga) → IsValid s → IsValid (puts s cs) × KeepsMemory s (puts s cs)
unfolding puts
puts-IsValid [] s v = (v, λ a le. refl)
puts-IsValid (c ∷ cs) s v =
    let (v', kept) = putchar-IsValid s c v in
    let (v'', kept') = puts-IsValid cs (putchar s c) v' in
    elim (Bool-cases (c == 0)) [
      | inl ended ↦ rw ended (v, λ a le. refl)
      | inr more ↦ rw more (v'', λ a le. kept' a le ∙ kept a le)
    ]

-- A character that is printed: neither a newline, a return, a tab nor a backspace.
abbrev pub IsPrinted : ℕ → Type 0
IsPrinted c = (c ≢ 10) × (c ≢ 13) × (c ≢ 9) × (c ≢ 8)

-- The place of the cursor on the screen.
abbrev pub place : Vga → ℕ
place s = s.cursor_y * 80 + s.cursor_x

-- The screen with the character `c` at the cursor.
abbrev pub written : Vga → ℕ → Vga
written s c = record s { vga_buffer = update s.vga_buffer (place s) (entry c s.current_color) }

place_char-written :
    (s : Vga) (c : ℕ)
    → IsPrinted c
    → place_char s c ≡ record (written s c) { cursor_x = (s.cursor_x + 1) % 2 ^ 8 }
unfolding place_char
place_char-written s c (a, b, d, e) = rw (==_ne c 10 a, ==_ne c 13 b, ==_ne c 9 d, ==_ne c 8 e) refl

module _ (s : Vga) (c : ℕ) (v : IsValid s) (printed : IsPrinted c) where
  advanced : Vga
  advanced = record (written s c) { cursor_x = (s.cursor_x + 1) % 2 ^ 8 }

  putchar-advanced : putchar s c ≡ wrap_screen (wrap_line advanced)
  unfolding putchar advanced
  putchar-advanced = ap (λ (t : Vga). wrap_screen (wrap_line t)) (place_char-written s c printed)

  same_line : s.cursor_x < 79 → wrap_screen (wrap_line advanced) ≡ advanced
  unfolding wrap_screen wrap_line advanced
  same_line lt =
      let fits : leb 80 ((s.cursor_x + 1) % 2 ^ 8) ≡ false = ground arith in
      let line : leb 25 s.cursor_y ≡ false = ground (arith, v.line) in rw (fits, line) refl

  next_line :
      s.cursor_x ≡ 79
      → s.cursor_y < 24
      → wrap_screen (wrap_line advanced)
        ≡ record (written s c) { cursor_x = 0; cursor_y = (s.cursor_y + 1) % 2 ^ 8 }
  unfolding wrap_screen wrap_line advanced
  next_line e lt =
      let full : leb 80 ((s.cursor_x + 1) % 2 ^ 8) ≡ true = ground arith in
      let line : leb 25 ((s.cursor_y + 1) % 2 ^ 8) ≡ false = ground arith in rw (full, line) refl

  last_line :
      s.cursor_x ≡ 79
      → s.cursor_y ≡ 24
      → wrap_screen (wrap_line advanced)
        ≡ record (scroll
            (record (written s c) { cursor_x = 0; cursor_y = (s.cursor_y + 1) % 2 ^ 8 })) {
              cursor_y = 24;
            }
  unfolding wrap_screen wrap_line advanced
  last_line e e' =
      let full : leb 80 ((s.cursor_x + 1) % 2 ^ 8) ≡ true = ground arith in
      let below : leb 25 ((s.cursor_y + 1) % 2 ^ 8) ≡ true = ground arith in rw (full, below) refl

  abbrev Printed : Vga → Type 0
  Printed s' =
      ((place s < 1999)
        × (((a : ℕ) → s'.vga_buffer a ≡ (written s c).vga_buffer a) × (place s' ≡ place s + 1)))
      ⊎ ((place s ≡ 1999)
          × (((a : ℕ) → s'.vga_buffer a ≡ scrolled (written s c) a) × (place s' ≡ 1920)))

  advanced-Printed : Printed (wrap_screen (wrap_line advanced))
  unfolding advanced
  advanced-Printed = elim (dec_lt s.cursor_x 79) [
    | yes lt ↦
        subst Printed (sym (same_line lt)) (inl (omega (arith, v.line), (λ a. refl, omega arith)))
    | no ge ↦ elim (dec_lt s.cursor_y 24) [
      | yes lt ↦
          subst Printed (sym (next_line (omega (arith, v.column)) lt))
            (inl (omega (arith, v.column), (λ a. refl, omega (arith, v.column))))
      | no ge' ↦
          let t : Vga = record (written s c) {
            cursor_x = 0;
            cursor_y = (s.cursor_y + 1) % 2 ^ 8;
          } in
          subst Printed (sym (last_line (omega (arith, v.column)) (omega (arith, v.line)))) (
            inr (
              omega (arith, v.column, v.line),
              ((scroll_lem t).0, omega (arith, (scroll_lem t).1.0)),
            ))
    ]
  ]

-- `vga_putchar` of a printed character, with the cursor on the screen: before the last cell, it
-- writes the character with the current color at the cursor, changes no other cell, and the cursor
-- goes to the next cell, the first of the next line after the last of a line; in the last cell
-- the screen is scrolled after the character is written, and the cursor goes to the first cell of the
-- last line.
pub putchar_lem :
    (s : Vga) (c : ℕ)
    → IsValid s
    → IsPrinted c
    → ((place s < 1999)
        × (((a : ℕ) → (putchar s c).vga_buffer a ≡ (written s c).vga_buffer a)
            × (place (putchar s c) ≡ place s + 1)))
      ⊎ ((place s ≡ 1999)
          × (((a : ℕ) → (putchar s c).vga_buffer a ≡ scrolled (written s c) a)
              × (place (putchar s c) ≡ 1920)))
putchar_lem s c v printed =
    subst (Printed s c v printed) (sym (putchar-advanced s c v printed))
      (advanced-Printed s c v printed)
