-- ===== src/Vga/Tests.antt =====
-- Runs of the text screen, and its theorems at a concrete state.
use matryoshka_os.Prelude.{ℕ, true, ◌<◌, ◌≡◌, refl, ◌⊎◌, arith, [], ◌∷◌}
use matryoshka_os.Vga.{Vga, putchar, puts, place_char, wrap_line, wrap_screen, entry}
use matryoshka_os.Vga.Port.{update_cursor, enable_cursor}
use matryoshka_os.Vga.Scroll.{scrolled}
use matryoshka_os.Vga.Cursor.{IsValid, place, written, putchar_lem}

-- The cursor is in the last cell but one.
abbrev sample : Vga
sample = record { vga_buffer = λ a. a; cursor_x = 78; cursor_y = 24; current_color = 7 }

sample-IsValid : IsValid sample
sample-IsValid = record { column = omega arith; line = omega arith }

prints_A : (putchar sample 65).vga_buffer 1998 ≡ 0x0741
unfolding putchar place_char wrap_line wrap_screen entry
prints_A = refl

-- A string ends at its first 0.
stops_at_zero : puts sample (65 ∷ 0 ∷ 66 ∷ []) ≡ putchar sample 65
unfolding puts
stops_at_zero = refl

moves_cursor :
    update_cursor 78 24 ≡ ((0x3D4, 0x0F) ∷ (0x3D5, 0xCE) ∷ (0x3D4, 0x0E) ∷ (0x3D5, 0x07) ∷ [])
unfolding update_cursor
moves_cursor = refl

shows_cursor :
    enable_cursor true 0xFF 0x20
    ≡ ((0x3D4, 0x0A) ∷ (0x3D5, 0xC0) ∷ (0x3D4, 0x0B) ∷ (0x3D5, 0x2F) ∷ [])
unfolding enable_cursor
shows_cursor = refl

putchar_lem_example :
    ((1998 < 1999)
      × (((a : ℕ) → (putchar sample 65).vga_buffer a ≡ (written sample 65).vga_buffer a)
          × (place (putchar sample 65) ≡ 1999)))
    ⊎ ((place sample ≡ 1999)
        × (((a : ℕ) → (putchar sample 65).vga_buffer a ≡ scrolled (written sample 65) a)
            × (place (putchar sample 65) ≡ 1920)))
putchar_lem_example =
    putchar_lem sample 65 sample-IsValid (omega arith, omega arith, omega arith, omega arith)
