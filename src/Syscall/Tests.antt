-- ===== src/Syscall/Tests.antt =====
-- Runs of system calls, and their theorems at a concrete state.
use matryoshka_os.Prelude.{ℕ, ◌≤◌, ◌≡◌, ◌≢◌, ◌⊎◌, refl, arith, [], ◌∷◌, ◌++◌}
use matryoshka_os.Vga
use matryoshka_os.Serial.Line.{Line, line_machine, line_transmitter}
use matryoshka_os.Keyboard
use matryoshka_os.Keyboard.Ring
use matryoshka_os.Task
use matryoshka_os.System.{Frame}
use matryoshka_os.System.Sample.{system}
use matryoshka_os.Syscall.{
  failed, Outcome, returned, waiting, sys_getpid_no, sys_uptime_no, sys_yield_no, sys_max,
  syscall_handler,
}
use matryoshka_os.Syscall.Write.{bytes_at, sys_write_lem}
use matryoshka_os.Syscall.Read.{after_read, sys_read_lem}
use matryoshka_os.Syscall.Calls.{syscall_handler_lem}

-- EAX, EBX, ECX and EDX at the call.
abbrev frame : ℕ → ℕ → ℕ → ℕ → Frame
frame a b c d = record { eax = a; ebx = b; ecx = c; edx = d; int_no = 0x80; err_code = 0; eip = 0 }

abbrev write_hi : Frame
write_hi = frame 1 2 500 2

abbrev read_key : Frame
read_key = frame 2 0 600 9

abbrev result : Frame → Outcome line_machine
result f = syscall_handler line_machine 3 system f 0

holds_hi : bytes_at system.kernel.heap.byte 500 2 ≡ 72 ∷ 105 ∷ []
holds_hi = refl

sys_write_lem_example :
    (((write_hi.ecx ≡ 0) ⊎ (write_hi.edx ≡ 0)) → result write_hi ≡ returned 0 system)
    × (write_hi.ecx ≢ 0
        → write_hi.edx ≢ 0
        → (write_hi.ebx ≡ 1
            → result write_hi
              ≡ returned 2 (record system {
                vga = Vga.put_chars system.vga (bytes_at system.kernel.heap.byte 500 2);
              }))
          × (write_hi.ebx ≡ 2
              → (t : Line) × (result write_hi ≡ returned 2 (record system { ports = t }))
                × (t.out ≡ [] ++ bytes_at system.kernel.heap.byte 500 2))
          × (write_hi.ebx ≢ 1 → write_hi.ebx ≢ 2 → result write_hi ≡ returned failed system))
unfolding line_transmitter
sys_write_lem_example =
    sys_write_lem line_machine 3 line_transmitter system write_hi 0 refl (omega arith) (omega arith)

sys_read_lem_example :
    ((((read_key.ebx ≢ 0) ⊎ (read_key.ecx ≡ 0)) ⊎ (read_key.edx ≡ 0))
      → result read_key ≡ returned failed system)
    × (read_key.ebx ≡ 0
        → read_key.ecx ≢ 0
        → read_key.edx ≢ 0
        → ((Keyboard.Ring.queue system.keyboard ≡ []) × (result read_key ≡ waiting))
          ⊎ ((c : ℕ) × (k : Keyboard.Keyboard) × (Keyboard.Ring.queue system.keyboard
                ≡ c ∷ Keyboard.Ring.queue k)
              × Keyboard.Ring.IsValid k
              × (c ≢ 0
                  → result read_key ≡ returned 1 (after_read line_machine 3 system read_key c k))
              × (c ≡ 0 → result read_key ≡ returned 0 (record system { keyboard = k }))))
sys_read_lem_example =
    sys_read_lem line_machine 3 system read_key 0
      (record { head_below = omega arith; tail_below = omega arith }) refl

syscall_handler_lem_example :
    (9 ≡ sys_getpid_no → result (frame 9 0 0 0) ≡ returned 0 system)
    × (9 ≡ sys_uptime_no → result (frame 9 0 0 0) ≡ returned 5 system)
    × (9 ≡ sys_yield_no
        → result (frame 9 0 0 0)
          ≡ returned 0 (record system {
            kernel = record system.kernel {
              scheduler = Task.request_reschedule system.kernel.scheduler;
            };
          }))
    × (sys_max ≤ 9 → result (frame 9 0 0 0) ≡ returned failed system)
syscall_handler_lem_example = syscall_handler_lem line_machine 3 system (frame 9 0 0 0) 0
