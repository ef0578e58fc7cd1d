-- ===== src/Vga/Scroll.antt =====
-- `vga_scroll` of kernel/drivers/vga.c, cell by cell.
use native.Mathlib.Decide.{ℕ_discrete, dec_lt}
use matryoshka_os.Prelude.{
  ℕ, zero, suc, ◌+◌, ◌*◌, ◌≤◌, ◌≡◌, refl, ap, ◌∙◌, arith, ltb, leb, if◌then◌else◌, subst, ==_ne,
  ==_eq, update,
}
use matryoshka_os.Vga.{Vga, fill, move_line, move_lines, scroll, entry}

-- A cell outside the run keeps its value, one inside has the new one.
pub fill_lem :
    (buffer : ℕ → ℕ) (blank rounds i a : ℕ)
    → fill buffer blank rounds i a
      ≡ (if leb i a then (if ltb a (i + rounds) then blank else buffer a) else buffer a)
unfolding fill
fill_lem buffer blank zero i a = ground arith
fill_lem buffer blank (suc rounds) i a =
    fill_lem (update buffer i blank) blank rounds (i + 1) a ∙ ground arith

-- The columns of line `y` from `x` on have what line `y + 1` had; no other cell changes.
move_line_lem :
    (buffer : ℕ → ℕ) (y rounds x a : ℕ)
    → x + rounds ≤ 80
    → move_line buffer y rounds x a ≡ (
        if leb (y * 80 + x) a
        then (if ltb a (y * 80 + x + rounds) then buffer (a + 80) else buffer a)
        else buffer a)
unfolding move_line
move_line_lem buffer y zero x a small = ground arith
move_line_lem buffer y (suc rounds) x a small = elim (ℕ_discrete (y * 80 + x) a) [
  | yes e ↦
      let cell : next a ≡ buffer (a + 80) = rw (==_eq (y * 80 + x) a e) (ap buffer (omega arith)) in
      move_line_lem next y rounds (x + 1) a (omega arith) ∙ ground (arith, cell)
  | no ne ↦ elim (dec_lt (y * 80 + x) a) [
    | yes lt ↦
        let cell : next a ≡ buffer a = rw (==_ne (y * 80 + x) a ne) refl in
        let under : next (a + 80) ≡ buffer (a + 80) =
          rw (==_ne (y * 80 + x) (a + 80) (omega arith)) refl in
        move_line_lem next y rounds (x + 1) a (omega arith) ∙ ground (arith, cell, under)
    | no ge ↦
        let cell : next a ≡ buffer a = rw (==_ne (y * 80 + x) a ne) refl in
        move_line_lem next y rounds (x + 1) a (omega arith) ∙ ground (arith, cell)
  ]
]
  where
    next : ℕ → ℕ
    next = update buffer (y * 80 + x) (buffer ((y + 1) * 80 + x))

-- The cells from `low` up to `high` hold what `later` says, the others what `now` says.
abbrev between : ℕ → ℕ → ℕ → ℕ → ℕ → ℕ
between low high a later now = if leb low a then (if ltb a high then later else now) else now

-- One line more, on the values of the cells.
one_line_more :
    (y rounds a here under : ℕ) (here' under' : ℕ) (further : ℕ)
    → here' ≡ between (y * 80) (y * 80 + 80) a under here
    → under' ≡ between (y * 80) (y * 80 + 80) (a + 80) further under
    → between ((y + 1) * 80) ((y + 1 + rounds) * 80) a under' here'
      ≡ between (y * 80) ((y + suc rounds) * 80) a under here
one_line_more y rounds a here under here' under' further e f = ground (arith, e, f)

-- The lines from `y` on have what the line below had.
move_lines_lem :
    (buffer : ℕ → ℕ) (rounds y a : ℕ)
    → move_lines buffer rounds y a
      ≡ between (y * 80) ((y + rounds) * 80) a (buffer (a + 80)) (buffer a)
unfolding move_lines
move_lines_lem buffer zero y a = ground arith
move_lines_lem buffer (suc rounds) y a =
    move_lines_lem (move_line buffer y 80 0) rounds (y + 1) a
    ∙ one_line_more y rounds a (buffer a) (buffer (a + 80)) (move_line buffer y 80 0 a)
        (move_line buffer y 80 0 (a + 80)) (buffer (a + 80 + 80)) (moved a) (moved (a + 80))
  where
    moved :
        (x : ℕ)
        → move_line buffer y 80 0 x ≡ between (y * 80) (y * 80 + 80) x (buffer (x + 80)) (buffer x)
    moved x =
        subst
          (λ (low : ℕ).
            move_line buffer y 80 0 x ≡ between low (low + 80) x (buffer (x + 80)) (buffer x))
          (omega arith) (move_line_lem buffer y 80 0 x (omega arith))

-- What a cell of the screen holds after a scroll.
abbrev pub scrolled : Vga → ℕ → ℕ
scrolled s a =
    if ltb a 1920
    then s.vga_buffer (a + 80)
    else if ltb a 2000
    then entry 32 s.current_color
    else s.vga_buffer a

-- The two loops of `vga_scroll`, for any number of lines and columns.
scroll_cell :
    (buffer : ℕ → ℕ) (blank lines columns start a : ℕ)
    → lines * 80 ≡ start
    → fill (move_lines buffer lines 0) blank columns start a ≡ (
        if ltb a start
        then buffer (a + 80)
        else if ltb a (start + columns)
        then blank
        else buffer a)
scroll_cell buffer blank lines columns start a e =
    fill_lem (move_lines buffer lines 0) blank columns start a
    ∙ ground (arith, move_lines_lem buffer lines 0 a)

-- `vga_scroll` moves each of the lines 1 to 24 up by one, fills line 24 with blanks of the current
-- color, changes no cell behind the screen, and leaves the cursor and the color.
pub scroll_lem :
    (s : Vga)
    → ((a : ℕ) → (scroll s).vga_buffer a ≡ scrolled s a)
      × (((scroll s).cursor_x ≡ s.cursor_x)
          × (((scroll s).cursor_y ≡ s.cursor_y) × ((scroll s).current_color ≡ s.current_color)))
scroll_lem s = (
  λ a. unfold scroll in scroll_cell s.vga_buffer (entry 32 s.current_color) 24 80 1920 a refl,
  unfold scroll in (refl, (refl, refl)),
)
