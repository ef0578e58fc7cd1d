-- ===== src/Interrupts.antt =====
-- kernel/arch/x86_64/idt.c: what `isr_handler` does with an interrupt; the handlers that are registered
-- with it in timer.c, keyboard.c, vmm.c, syscall.c and task.c; and what the ones that halt print.
pub mod Dispatch
pub mod Safety
mod Tests
use matryoshka_os.Prelude.{
  ℕ, zero, suc, ◌+◌, ◌-◌, ◌*◌, ◌/◌, ◌%◌, ◌^◌, bit_and, Bool, not, ◌&&◌, Option, none, some, List,
  [], ◌∷◌, ◌++◌, update, get_or, ltb, leb, ◌==◌, if◌then◌else◌,
}
use matryoshka_os.Prelude.Text.{codes}
use matryoshka_os.Io.{Machine}
use matryoshka_os.Vga
use matryoshka_os.Keyboard
use matryoshka_os.Timer
use matryoshka_os.Task
use matryoshka_os.Pic.{send_eoi}
use matryoshka_os.System.{System, Frame, Handler}
use matryoshka_os.Syscall.{Outcome, returned, ended, waiting, syscall_handler}

-- `exception_messages`
abbrev pub exception_messages : List (List ℕ)
exception_messages =
    codes "Division By Zero"
    ∷ codes "Debug"
    ∷ codes "Non Maskable Interrupt"
    ∷ codes "Breakpoint"
    ∷ codes "Overflow"
    ∷ codes "Bound Range Exceeded"
    ∷ codes "Invalid Opcode"
    ∷ codes "Device Not Available"
    ∷ codes "Double Fault"
    ∷ codes "Coprocessor Segment Overrun"
    ∷ codes "Invalid TSS"
    ∷ codes "Segment Not Present"
    ∷ codes "Stack-Segment Fault"
    ∷ codes "General Protection Fault"
    ∷ codes "Page Fault"
    ∷ codes "Reserved"
    ∷ codes "x87 FPU Error"
    ∷ codes "Alignment Check"
    ∷ codes "Machine Check"
    ∷ codes "SIMD Floating-Point Exception"
    ∷ codes "Virtualization Exception"
    ∷ codes "Reserved"
    ∷ codes "Reserved"
    ∷ codes "Reserved"
    ∷ codes "Reserved"
    ∷ codes "Reserved"
    ∷ codes "Reserved"
    ∷ codes "Reserved"
    ∷ codes "Reserved"
    ∷ codes "Reserved"
    ∷ codes "Security Exception"
    ∷ codes "Reserved"
    ∷ []

-- The hexadecimal digit of a nibble.
abbrev pub nibble_char : ℕ → ℕ
nibble_char n = if ltb n 10 then 48 + n else 65 + (n - 10)

-- The last `rounds` hexadecimal digits of `v`, the highest first.
pub hex_text : ℕ → ℕ → List ℕ
hex_text v zero = []
hex_text v (suc rounds) = nibble_char (bit_and (v / 2 ^ (rounds * 4)) 0xF) ∷ hex_text v rounds

-- A line end, as a text.
abbrev pub eol : List ℕ
eol = 10 ∷ []

-- The name of the interrupt in `default_exception_handler`.
pub exception_text : ℕ → List ℕ
exception_text int_no =
    if ltb int_no 32
    then codes "Exception: " ++ (get_or exception_messages int_no [] ++ eol)
    else codes "Unknown exception: "
      ++ ((48 + int_no / 100) ∷ (48 + int_no / 10 % 10) ∷ (48 + int_no % 10) ∷ eol)

-- The screen when `default_exception_handler` halts. White is 15, red 4, light red 12, black 0.
pub default_exception_handler : Vga.Vga → Frame → Vga.Vga
unfolding exception_text hex_text
default_exception_handler v f =
    let title =
      Vga.puts (Vga.set_color v 15 4)
        (eol ++ (eol ++ (codes "!!! KERNEL PANIC - CPU EXCEPTION !!!" ++ (eol ++ eol)))) in
    let named = Vga.puts (Vga.set_color title 12 0) (exception_text f.int_no) in
    let coded = Vga.puts named (codes "Error code: 0x" ++ (hex_text f.err_code 8 ++ eol)) in
    let placed = Vga.puts coded (codes "EIP: 0x" ++ (hex_text f.eip 8 ++ eol)) in
    Vga.puts placed (eol ++ (codes "System halted." ++ eol))

-- The words of `page_fault_handler` (mm/vmm.c) for the bits of the error code.
pub fault_flags : ℕ → List ℕ
fault_flags code =
    let absent : List ℕ = if bit_and code 1 == 0 then codes "not-present " else [] in
    let write : List ℕ = if not (bit_and code 2 == 0) then codes "write " else [] in
    let user : List ℕ = if not (bit_and code 4 == 0) then codes "user " else [] in
    let reserved : List ℕ = if not (bit_and code 8 == 0) then codes "reserved-bit " else [] in
    let fetch : List ℕ = if not (bit_and code 16 == 0) then codes "instruction-fetch" else [] in
    absent ++ (write ++ (user ++ (reserved ++ fetch)))

-- The screen when `page_fault_handler` halts, for the address in CR2.
pub page_fault_handler : Vga.Vga → Frame → ℕ → Vga.Vga
unfolding fault_flags hex_text
page_fault_handler v f fault_addr =
    let title =
      Vga.puts (Vga.set_color v 15 4)
        (eol ++ (eol ++ (codes "!!! PAGE FAULT !!!" ++ (eol ++ eol)))) in
    let placed =
      Vga.puts (Vga.set_color title 12 0) (codes "Address: 0x" ++ (hex_text fault_addr 8 ++ eol)) in
    let coded = Vga.puts placed (codes "Error:   0x" ++ (hex_text f.err_code 8 ++ codes "  [")) in
    let flagged = Vga.puts (Vga.puts coded (fault_flags f.err_code)) (codes "]" ++ eol) in
    Vga.puts flagged (
      codes "EIP:     0x"
      ++ (hex_text f.eip 8 ++ (eol ++ (eol ++ (codes "System halted." ++ eol)))))

-- What the loop of `idt_init` does to `interrupt_handlers`, with `rounds` left.
pub clear_handlers : (ℕ → Option Handler) → ℕ → ℕ → ℕ → Option Handler
clear_handlers h zero i = h
clear_handlers h (suc rounds) i = clear_handlers (update h i none) rounds (i + 1)

module _ (m : Machine) where
  -- How an interrupt ends: the stack that is resumed, with the frame that was passed in; a task has
  -- ended and the stack at `esp` is resumed; the processor is halted; or a system call waits.
  pub data Resumption : Type 0 where
    resumed : ℕ → Frame → System m → Resumption
    left : ℕ → System m → Resumption
    halted : Vga.Vga → Resumption
    waits : Resumption

  -- `idt_register_handler`
  pub register_handler : System m → ℕ → Handler → System m
  register_handler s num h = record s {
    interrupt_handlers = update s.interrupt_handlers num (some h);
  }

  -- `timer_irq_handler`
  pub timer_irq_handler : System m → System m
  timer_irq_handler s = record s {
    ticks = Timer.tick s.ticks;
    ports = send_eoi m s.ports 0;
    kernel = record s.kernel { scheduler = Task.request_reschedule s.kernel.scheduler };
  }

  -- `keyboard_irq_handler`: the byte of port 0x60, the ring, and the end of the interrupt on every path.
  pub keyboard_irq_handler : System m → System m
  keyboard_irq_handler s =
      let r = m.inb s.ports 0x60 in
      record s { ports = send_eoi m r.1 1; keyboard = Keyboard.irq_handler s.keyboard r.0 }

  -- `yield_isr_handler`
  pub yield_isr_handler : System m → System m
  yield_isr_handler s = record s {
    kernel = record s.kernel { scheduler = Task.request_reschedule s.kernel.scheduler };
  }

  -- `return task_schedule_if_needed(esp)`
  pub finish : ℕ → Frame → System m → Resumption
  finish esp f s =
      let r = Task.schedule_if_needed s.kernel.scheduler esp in
      resumed r.0 f (record s { kernel = record s.kernel { scheduler = r.1 } })

  -- The end of the interrupt of a system call, whose result is in EAX.
  pub finish_call : ℕ → Frame → Outcome m → Resumption
  unfolding finish
  finish_call esp f (returned value s) = finish esp (record f { eax = value }) s
  finish_call esp f (ended esp' s) = left esp' s
  finish_call esp f waiting = waits

  -- `interrupt_handlers[frame->int_no](frame)`
  pub run_handler : ℕ → Handler → ℕ → Frame → System m → ℕ → ℕ → Resumption
  unfolding finish finish_call timer_irq_handler keyboard_irq_handler yield_isr_handler
  run_handler fuel Handler.page_fault esp f s inner cr2 = halted (page_fault_handler s.vga f cr2)
  run_handler fuel Handler.timer esp f s inner cr2 = finish esp f (timer_irq_handler s)
  run_handler fuel Handler.keyboard esp f s inner cr2 = finish esp f (keyboard_irq_handler s)
  run_handler fuel Handler.syscall esp f s inner cr2 =
      finish_call esp f (syscall_handler m fuel s f inner)
  run_handler fuel Handler.yield esp f s inner cr2 = finish esp f (yield_isr_handler s)

  -- An interrupt that no handler is registered for.
  pub unhandled : ℕ → Frame → System m → Resumption
  unfolding finish
  unhandled esp f s =
      let acknowledged = record s { ports = send_eoi m s.ports (f.int_no - 32) } in
      if ltb f.int_no 32
      then halted (default_exception_handler s.vga f)
      else if leb 32 f.int_no && ltb f.int_no 48
      then finish esp f acknowledged
      else finish esp f s

  -- The handler of the number, or what stands in its place.
  pub dispatch : ℕ → Option Handler → ℕ → Frame → System m → ℕ → ℕ → Resumption
  unfolding run_handler unhandled
  dispatch fuel none esp f s inner cr2 = unhandled esp f s
  dispatch fuel (some h) esp f s inner cr2 = run_handler fuel h esp f s inner cr2

  -- `inner` and `cr2` are for a call that ends the task and for a page fault.
  pub isr_handler : ℕ → ℕ → Frame → System m → ℕ → ℕ → Resumption
  unfolding dispatch
  isr_handler fuel esp f s inner cr2 =
      dispatch fuel (s.interrupt_handlers f.int_no) esp f s inner cr2
