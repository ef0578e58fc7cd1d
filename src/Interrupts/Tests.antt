-- ===== src/Interrupts/Tests.antt =====
-- Runs of the dispatch of interrupts, and its theorems at a concrete state.
use matryoshka_os.Prelude.{ℕ, ◌≡◌, refl, arith}
use matryoshka_os.Prelude.Text.{codes}
use matryoshka_os.Serial.Line.{line_machine}
use matryoshka_os.Task
use matryoshka_os.System.{System, Frame, Handler}
use matryoshka_os.System.Sample.{system, scheduler-IsValid}
use matryoshka_os.Syscall.Safety.{IsSafe}
use matryoshka_os.Interrupts.{hex_text, fault_flags, register_handler}
use matryoshka_os.Interrupts.Dispatch.{with_scheduler, isr_handler-yield}
use matryoshka_os.Interrupts.Safety.{Run, here, next, registers, resumes, Run-IsSafe}

-- An interrupt `n` with `a` in EAX.
abbrev frame : ℕ → ℕ → Frame
frame n a = record { eax = a; ebx = 0; ecx = 0; edx = 0; int_no = n; err_code = 0; eip = 0 }

hex_text_test : hex_text 0xC0DE 6 ≡ codes "00C0DE"
unfolding hex_text
hex_text_test = refl

fault_flags_test : fault_flags 6 ≡ codes "not-present write user "
unfolding fault_flags
fault_flags_test = refl

abbrev switched : System line_machine
switched = with_scheduler line_machine 3 system (Task.yield system.kernel.scheduler 700).1

system-IsSafe : IsSafe line_machine system
system-IsSafe = record {
  tasks = record { valid = scheduler-IsValid; on = refl };
  keys = record { head_below = omega arith; tail_below = omega arith };
  cursor = record { column = omega arith; line = omega arith };
}

-- A yield, and then a handler is registered.
sample-Run : Run line_machine 3 system (register_handler line_machine switched 40 Handler.timer)
sample-Run =
    next
      (next here (
        resumes 700 (frame 0x81 0) 0 0 _ (frame 0x81 0)
          ((isr_handler-yield line_machine 3 system (frame 0x81 0) 700 0 0).0 refl)))
      (registers switched 40 Handler.timer)

Run-IsSafe_example : IsSafe line_machine (register_handler line_machine switched 40 Handler.timer)
Run-IsSafe_example = Run-IsSafe line_machine 3 system-IsSafe sample-Run
