-- ===== src/Syscall/Write.antt =====
-- kernel/syscall/syscall.c: `sys_write` on every branch.
use mathlib.Core.List.{append_assoc, append-nil}
use matryoshka_os.Prelude.{
  ℕ, zero, suc, ◌+◌, ◌<◌, ◌≤◌, ◌≡◌, ◌≢◌, ◌⊎◌, inl, inr, refl, sym, ap, ◌∙◌, arith, List, [], ◌∷◌,
  ◌++◌, ==_ne,
}
use matryoshka_os.Io.{Machine}
use matryoshka_os.Vga
use matryoshka_os.Serial.Output.{Transmitter, putc-Sends}
use matryoshka_os.System.{System, Frame}
use matryoshka_os.Syscall.{
  sys_write_no, failed, returned, write_chars, sys_write, call, syscall_handler,
}

-- The `n` bytes from `p` on.
abbrev pub bytes_at : (ℕ → ℕ) → ℕ → ℕ → List ℕ
bytes_at byte p zero = []
bytes_at byte p (suc n) = byte p ∷ bytes_at byte (p + 1) n

module _ (m : Machine) (fuel : ℕ) where
  write_screen :
      (s : System m) (p len n : ℕ)
      → write_chars m fuel s 1 p len n
        ≡ returned len (record s { vga = Vga.put_chars s.vga (bytes_at s.kernel.heap.byte p n) })
  unfolding write_chars Vga.put_chars
  write_screen s p len zero = refl
  write_screen s p len (suc n) =
      write_screen (record s { vga = Vga.putchar s.vga (s.kernel.heap.byte p) }) (p + 1) len n

  write_line :
      (c : Transmitter m) (s : System m) (p len n : ℕ)
      → c.longest < fuel
      → c.busy s.ports ≤ c.longest
      → (t : m.State) × (write_chars m fuel s 2 p len n ≡ returned len (record s { ports = t }))
        × (c.sent t ≡ c.sent s.ports ++ bytes_at s.kernel.heap.byte p n)
        × (c.busy t ≤ c.longest)
  unfolding write_chars
  write_line c s p len zero enough free = (s.ports, refl, sym (append-nil (c.sent s.ports)), free)
  write_line c s p len (suc n) enough free =
      let (t, e, sent, free') = putc-Sends m c fuel enough s.ports (s.kernel.heap.byte p) free in
      let (u, e', sent', free'') =
        write_line c (record s { ports = t }) (p + 1) len n enough free' in
      (
        u,
        rw e e',
        sent'
            ∙ (ap (λ l. l ++ bytes_at s.kernel.heap.byte (p + 1) n) sent
                ∙ append_assoc (c.sent s.ports) (s.kernel.heap.byte p ∷ [])
                    (bytes_at s.kernel.heap.byte (p + 1) n)),
        free'',
      )

  called_write :
      (s : System m) (f : Frame) (inner : ℕ)
      → f.eax ≡ sys_write_no
      → syscall_handler m fuel s f inner ≡ sys_write m fuel s f
  unfolding syscall_handler call
  called_write s f inner number = rw number refl

  write_nothing :
      (s : System m) (f : Frame) → (f.ecx ≡ 0) ⊎ (f.edx ≡ 0) → sys_write m fuel s f ≡ returned 0 s
  unfolding sys_write
  write_nothing s f (inl buf) = ground (arith, buf)
  write_nothing s f (inr len) = ground (arith, len)

  write_loops :
      (s : System m) (f : Frame)
      → f.ecx ≢ 0
      → f.edx ≢ 0
      → sys_write m fuel s f ≡ write_chars m fuel s f.ebx f.ecx f.edx f.edx
  unfolding sys_write
  write_loops s f buf len = rw (==_ne f.ecx 0 buf, ==_ne f.edx 0 len) refl

  write_refused :
      (s : System m) (fd p len n : ℕ)
      → n ≢ 0
      → fd ≢ 1
      → fd ≢ 2
      → write_chars m fuel s fd p len n ≡ returned failed s
  unfolding write_chars
  write_refused s fd p len zero some_left not_screen not_line = absurd (some_left refl)
  write_refused s fd p len (suc n) some_left not_screen not_line =
      rw (==_ne fd 1 not_screen, ==_ne fd 2 not_line) refl

  -- `sys_write`, called by number 1. Without a buffer or a length it returns 0 and changes nothing. To
  -- descriptor 1 it returns the length, and the screen is what `vga_putchar` makes of
  -- every byte in turn, a 0 too. To descriptor 2, with more fuel than the transmitter stays busy, it returns the length and the bytes
  -- go out on the serial line. To any other it returns -1 and changes nothing.
  pub sys_write_lem :
      (c : Transmitter m) (s : System m) (f : Frame) (inner : ℕ)
      → f.eax ≡ sys_write_no
      → c.longest < fuel
      → c.busy s.ports ≤ c.longest
      → (((f.ecx ≡ 0) ⊎ (f.edx ≡ 0)) → syscall_handler m fuel s f inner ≡ returned 0 s)
        × (f.ecx ≢ 0
            → f.edx ≢ 0
            → ((f.ebx ≡ 1
                  → syscall_handler m fuel s f inner
                    ≡ returned f.edx (record s {
                      vga = Vga.put_chars s.vga (bytes_at s.kernel.heap.byte f.ecx f.edx);
                    }))
                × (f.ebx ≡ 2
                    → (t : m.State) × (syscall_handler m fuel s f inner
                        ≡ returned f.edx (record s { ports = t }))
                      × (c.sent t ≡ c.sent s.ports ++ bytes_at s.kernel.heap.byte f.ecx f.edx))
                × (f.ebx ≢ 1 → f.ebx ≢ 2 → syscall_handler m fuel s f inner ≡ returned failed s)))
  sys_write_lem c s f inner number enough free =
      let called : syscall_handler m fuel s f inner ≡ sys_write m fuel s f =
        called_write s f inner number in
      (
        λ nothing. called ∙ write_nothing s f nothing,
        λ buf len.
            let looped : syscall_handler m fuel s f inner
                ≡ write_chars m fuel s f.ebx f.ecx f.edx f.edx =
              called ∙ write_loops s f buf len in
            (
              λ screen.
                  looped
                  ∙ (ap (λ (fd : ℕ). write_chars m fuel s fd f.ecx f.edx f.edx) screen
                      ∙ write_screen s f.ecx f.edx f.edx),
              λ line.
                  let (t, e, sent, free') = write_line c s f.ecx f.edx f.edx enough free in
                  (
                    t,
                    looped ∙ (ap (λ (fd : ℕ). write_chars m fuel s fd f.ecx f.edx f.edx) line ∙ e),
                    sent,
                  ),
              λ not_screen not_line.
                  looped ∙ write_refused s f.ebx f.ecx f.edx f.edx len not_screen not_line,
            ),
      )
