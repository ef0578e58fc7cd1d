-- ===== src/Vga/Port.antt =====
-- kernel/drivers/vga.c: the bytes the text screen's driver writes to the ports of the controller,
-- each with its port, in the order of the writes. 0x3D4 selects a register and 0x3D5 holds it.
use matryoshka_os.Prelude.{
  ℕ, ◌+◌, ◌*◌, ◌/◌, ◌%◌, ◌^◌, bit_and, bit_or, Bool, List, [], ◌∷◌, if◌then◌else◌,
}
use matryoshka_os.Vga.{width}

unfoldable pub update_cursor : ℕ → ℕ → List (ℕ × ℕ)
update_cursor x y =
    let pos : ℕ = (y * width + x) % 2 ^ 16 in
    (0x3D4, 0x0F)
    ∷ (0x3D5, bit_and pos 0xFF)
    ∷ (0x3D4, 0x0E)
    ∷ (0x3D5, bit_and (pos / 2 ^ 8) 0xFF)
    ∷ []

-- `start` and `end_line` are what the two `inb(0x3D5)` return.
unfoldable pub enable_cursor : Bool → ℕ → ℕ → List (ℕ × ℕ)
enable_cursor enable start end_line =
    if enable
    then (0x3D4, 0x0A)
      ∷ (0x3D5, bit_or (bit_and start 0xC0) 0)
      ∷ (0x3D4, 0x0B)
      ∷ (0x3D5, bit_or (bit_and end_line 0xE0) 15)
      ∷ []
    else (0x3D4, 0x0A) ∷ (0x3D5, 0x20) ∷ []
