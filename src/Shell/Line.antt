-- ===== src/Shell/Line.antt =====
-- kernel/shell.c: reading a line. The characters that `keyboard_getchar` gives are a list; when it is
-- used up the shell waits.
pub mod Editing
use matryoshka_os.Prelude.{
  ℕ, ◌+◌, ◌-◌, Option, none, some, List, [], ◌∷◌, ltb, leb, ◌&&◌, ◌==◌, if◌then◌else◌, update,
}
use matryoshka_os.Vga.{Vga, putchar}

-- CMD_MAX
abbrev pub cmd_max : ℕ
cmd_max = 256

-- `line_buf` and `line_len`
pub record LineBuffer : Type 0 where
  pub line_buf : ℕ → ℕ
  pub line_len : ℕ

-- One turn of the loop for a character that is no newline.
pub type_char : LineBuffer → Vga → ℕ → LineBuffer × Vga
type_char l v c =
    let erased = putchar (putchar (putchar v 8) 32) 8 in
    if c == 8
    then (if ltb 0 l.line_len then (record l { line_len = l.line_len - 1 }, erased) else (l, v))
    else if leb 32 c && leb c 126 && ltb l.line_len (cmd_max - 1)
    then (
      record l { line_buf = update l.line_buf l.line_len c; line_len = l.line_len + 1 },
      putchar v c,
    )
    else (l, v)

-- The end of a line.
pub end_line : LineBuffer → Vga → LineBuffer × Vga
end_line l v = (record l { line_buf = update l.line_buf l.line_len 0 }, putchar v 10)

-- The loop of `shell_readline`: the line, the screen, and the characters that are left, or `none` if
-- it still waits.
pub read_keys : LineBuffer → Vga → List ℕ → Option ((LineBuffer × Vga) × List ℕ)
unfolding type_char end_line
read_keys l v [] = none
read_keys l v (c ∷ cs) =
    let r = type_char l v c in
    let rest = read_keys r.0 r.1 cs in if c == 10 then some (end_line l v, cs) else rest

pub shell_readline : LineBuffer → Vga → List ℕ → Option ((LineBuffer × Vga) × List ℕ)
unfolding read_keys
shell_readline l v keys = read_keys (record l { line_len = 0 }) v keys
