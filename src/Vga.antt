-- ===== src/Vga.antt =====
-- kernel/drivers/vga.c: the text screen. `Vga` holds the statics of the file and the memory of the
-- screen, `vga_buffer`, 16 bits a cell. A character is its byte. The functions give the
-- screen; the port writes that move the hardware's cursor and show it are in the module Port.
pub mod Scroll
pub mod Cursor
pub mod Port
mod Tests
use matryoshka_os.Prelude.{
  ℕ, zero, suc, ◌+◌, ◌-◌, ◌*◌, ◌/◌, ◌%◌, ◌^◌, bit_or, Bool, true, false, not, ◌&&◌, ◌||◌, List, [],
  ◌∷◌, ltb, leb, ◌==◌, if◌then◌else◌, update,
}

pub record Vga : Type 0 where
  pub vga_buffer : ℕ → ℕ
  pub cursor_x : ℕ
  pub cursor_y : ℕ
  pub current_color : ℕ

-- VGA_WIDTH and VGA_HEIGHT
abbrev pub width : ℕ
width = 80

abbrev pub height : ℕ
height = 25

-- `char` is signed: a byte above 127 fills the high byte of the cell.
pub entry : ℕ → ℕ → ℕ
entry c color = bit_or (if ltb c 128 then c else c + 0xFF00) (color * 2 ^ 8 % 2 ^ 16)

pub color_of : ℕ → ℕ → ℕ
color_of fg bg = bit_or fg (bg * 2 ^ 4) % 2 ^ 8

-- `for (i...) vga_buffer[i] = blank`, with `rounds` left.
pub fill : (ℕ → ℕ) → ℕ → ℕ → ℕ → ℕ → ℕ
fill buffer blank zero i = buffer
fill buffer blank (suc rounds) i = fill (update buffer i blank) blank rounds (i + 1)

pub clear : Vga → ℕ → ℕ → Vga
clear s fg bg = record s {
  vga_buffer = fill s.vga_buffer (entry 32 (color_of fg bg)) (width * height) 0;
  cursor_x = 0;
  cursor_y = 0;
}

-- VGA_COLOR_LIGHT_GREY is 7 and VGA_COLOR_BLACK is 0.
pub init : Vga → Vga
init s = clear (record s { cursor_x = 0; cursor_y = 0; current_color = color_of 7 0 }) 7 0

pub set_color : Vga → ℕ → ℕ → Vga
set_color s fg bg = record s { current_color = color_of fg bg }

-- The inner loop of `vga_scroll`: line `y`, with `rounds` columns left.
pub move_line : (ℕ → ℕ) → ℕ → ℕ → ℕ → ℕ → ℕ
move_line buffer y zero x = buffer
move_line buffer y (suc rounds) x =
    move_line (update buffer (y * width + x) (buffer ((y + 1) * width + x))) y rounds (x + 1)

-- The outer loop, with `rounds` lines left.
pub move_lines : (ℕ → ℕ) → ℕ → ℕ → ℕ → ℕ
move_lines buffer zero y = buffer
move_lines buffer (suc rounds) y = move_lines (move_line buffer y width 0) rounds (y + 1)

pub scroll : Vga → Vga
scroll s = record s {
  vga_buffer =
      fill (move_lines s.vga_buffer (height - 1) 0) (entry 32 s.current_color) width
        ((height - 1) * width);
}

-- The first part of `vga_putchar`: the character and the cursor after it. '\n', '\r', '\t' and '\b'
-- are 10, 13, 9 and 8; the cursor's coordinates have 8 bits.
pub place_char : Vga → ℕ → Vga
place_char s c =
    if c == 10
    then record s { cursor_x = 0; cursor_y = (s.cursor_y + 1) % 2 ^ 8 }
    else if c == 13
    then record s { cursor_x = 0 }
    else if c == 9
    then record s { cursor_x = (s.cursor_x + 8) / 8 * 8 % 2 ^ 8 }
    else if c == 8
    then record s { cursor_x = if ltb 0 s.cursor_x then s.cursor_x - 1 else s.cursor_x }
    else record s {
      vga_buffer = update s.vga_buffer (s.cursor_y * width + s.cursor_x) (entry c s.current_color);
      cursor_x = (s.cursor_x + 1) % 2 ^ 8;
    }

pub wrap_line : Vga → Vga
wrap_line s =
    if leb width s.cursor_x
    then record s { cursor_x = 0; cursor_y = (s.cursor_y + 1) % 2 ^ 8 }
    else s

pub wrap_screen : Vga → Vga
wrap_screen s = if leb height s.cursor_y then record (scroll s) { cursor_y = height - 1 } else s

pub putchar : Vga → ℕ → Vga
putchar s c = wrap_screen (wrap_line (place_char s c))

-- `vga_putchar` of each character in turn, whatever it is.
unfoldable pub put_chars : Vga → List ℕ → Vga
put_chars s [] = s
put_chars s (c ∷ cs) = put_chars (putchar s c) cs

-- The characters of the string, up to its first 0.
unfoldable pub puts : Vga → List ℕ → Vga
puts s [] = s
puts s (c ∷ cs) = let rest = puts (putchar s c) cs in if c == 0 then s else rest

pub putchar_at : Vga → ℕ → ℕ → ℕ → ℕ → ℕ → Vga
putchar_at s c x y fg bg =
    if leb width x || leb height y
    then s
    else record s { vga_buffer = update s.vga_buffer (y * width + x) (entry c (color_of fg bg)) }

pub set_cursor_pos : Vga → ℕ → ℕ → Vga
set_cursor_pos s x y = record s { cursor_x = x; cursor_y = y }
