-- ===== src/Syscall/Read.antt =====
-- kernel/syscall/syscall.c: `sys_read` on every branch.
use matryoshka_os.Prelude.{
  ℕ, ◌≡◌, ◌≢◌, ◌⊎◌, inl, inr, refl, ◌∙◌, arith, Bool, true, false, not, ◌||◌, none, some, [], ◌∷◌,
  ◌==◌, ==_eq, ==_ne, update,
}
use matryoshka_os.Io.{Machine}
use matryoshka_os.Keyboard
use matryoshka_os.Keyboard.Ring
use matryoshka_os.System.{System, Frame}
use matryoshka_os.Syscall.{
  sys_read_no, failed, returned, waiting, store_key, sys_read, call, syscall_handler,
}

module _ (m : Machine) (fuel : ℕ) where
  called_read :
      (s : System m) (f : Frame) (inner : ℕ)
      → f.eax ≡ sys_read_no
      → syscall_handler m fuel s f inner ≡ sys_read m s f
  unfolding syscall_handler call
  called_read s f inner number = rw number refl

  -- The guard of `sys_read`.
  abbrev refuses : Frame → Bool
  refuses f = not (f.ebx == 0) || f.ecx == 0 || f.edx == 0

  -- The state after a character was read to the buffer of the call.
  abbrev pub after_read : System m → Frame → ℕ → Keyboard.Keyboard → System m
  after_read s f c k = record s {
    keyboard = k;
    kernel = record s.kernel {
      heap = record s.kernel.heap { byte = update s.kernel.heap.byte f.ecx c };
    };
  }

  refuses-bad : (f : Frame) → (((f.ebx ≢ 0) ⊎ (f.ecx ≡ 0)) ⊎ (f.edx ≡ 0)) → refuses f ≡ true
  refuses-bad f (inl (inl fd)) = ground (arith, fd)
  refuses-bad f (inl (inr buf)) = ground (arith, buf)
  refuses-bad f (inr len) = ground (arith, len)

  refuses-good : (f : Frame) → f.ebx ≡ 0 → f.ecx ≢ 0 → f.edx ≢ 0 → refuses f ≡ false
  refuses-good f fd buf len = ground (arith, fd, buf, len)

  read_refused :
      (s : System m) (f : Frame)
      → (((f.ebx ≢ 0) ⊎ (f.ecx ≡ 0)) ⊎ (f.edx ≡ 0))
      → sys_read m s f ≡ returned failed s
  unfolding sys_read store_key
  read_refused s f bad = rw (refuses-bad f bad) refl

  read_waits :
      (s : System m) (f : Frame)
      → f.ebx ≡ 0
      → f.ecx ≢ 0
      → f.edx ≢ 0
      → Keyboard.getchar s.keyboard ≡ none
      → sys_read m s f ≡ waiting
  unfolding sys_read store_key
  read_waits s f fd buf len e = rw (refuses-good f fd buf len, e) refl

  read_takes :
      (s : System m) (f : Frame) (c : ℕ) (k : Keyboard.Keyboard)
      → f.ebx ≡ 0
      → f.ecx ≢ 0
      → f.edx ≢ 0
      → Keyboard.getchar s.keyboard ≡ some (c, k)
      → c ≢ 0
      → sys_read m s f ≡ returned 1 (after_read s f c k)
  unfolding sys_read store_key
  read_takes s f c k fd buf len e char = rw (refuses-good f fd buf len, e, ==_ne c 0 char) refl

  read_nul :
      (s : System m) (f : Frame) (c : ℕ) (k : Keyboard.Keyboard)
      → f.ebx ≡ 0
      → f.ecx ≢ 0
      → f.edx ≢ 0
      → Keyboard.getchar s.keyboard ≡ some (c, k)
      → c ≡ 0
      → sys_read m s f ≡ returned 0 (record s { keyboard = k })
  unfolding sys_read store_key
  read_nul s f c k fd buf len e nul = rw (refuses-good f fd buf len, e, ==_eq c 0 nul) refl

  -- `sys_read`, called by number 2 with a valid ring of keys. For another descriptor than 0, without a
  -- buffer or with length 0, it returns -1 and changes nothing. Otherwise it waits while the
  -- queue of characters is empty; if it is not, it takes the first character, whatever the
  -- length: a character other than 0 goes to the first byte of the buffer and the result is 1, and for
  -- a 0 the result is 0 and no memory changes.
  pub sys_read_lem :
      (s : System m) (f : Frame) (inner : ℕ)
      → Keyboard.Ring.IsValid s.keyboard
      → f.eax ≡ sys_read_no
      → ((((f.ebx ≢ 0) ⊎ (f.ecx ≡ 0)) ⊎ (f.edx ≡ 0))
          → syscall_handler m fuel s f inner ≡ returned failed s)
        × (f.ebx ≡ 0
            → f.ecx ≢ 0
            → f.edx ≢ 0
            → ((Keyboard.Ring.queue s.keyboard ≡ []) × (syscall_handler m fuel s f inner ≡ waiting))
              ⊎ ((c : ℕ) × (k : Keyboard.Keyboard) × (Keyboard.Ring.queue s.keyboard
                    ≡ c ∷ Keyboard.Ring.queue k)
                  × Keyboard.Ring.IsValid k
                  × (c ≢ 0 → syscall_handler m fuel s f inner ≡ returned 1 (after_read s f c k))
                  × (c ≡ 0
                      → syscall_handler m fuel s f inner ≡ returned 0 (record s { keyboard = k }))))
  sys_read_lem s f inner v number =
      let called : syscall_handler m fuel s f inner ≡ sys_read m s f =
        called_read s f inner number in
      (
        λ bad. called ∙ read_refused s f bad,
        λ fd buf len. elim (Keyboard.Ring.getchar_lem s.keyboard v) [
          | inl (none_yet, (empty, _)) ↦ inl (empty, called ∙ read_waits s f fd buf len none_yet)
          | inr (c, k, (got, (queue, (k_valid, _)))) ↦ inr (
            c,
            k,
            queue,
            k_valid,
            λ char. called ∙ read_takes s f c k fd buf len got char,
            λ nul. called ∙ read_nul s f c k fd buf len got nul,
          )
        ],
      )
