-- ===== src/Interrupts/Dispatch.antt =====
-- kernel/arch/x86_64/idt.c: which handler runs, and what follows it.
use matryoshka_os.Prelude.{
  ℕ, ◌+◌, ◌-◌, ◌%◌, ◌^◌, ◌<◌, ◌≤◌, ◌≡◌, refl, ap, ◌∙◌, arith, true, false, ◌&&◌, none, some, ltb,
  leb,
}
use matryoshka_os.Io.{Machine}
use matryoshka_os.Pic.{send_eoi}
use matryoshka_os.Timer
use matryoshka_os.Task
use matryoshka_os.System.{System, Frame, Handler}
use matryoshka_os.Syscall.{sys_yield_no}
use matryoshka_os.Syscall.Calls.{syscall_handler_lem}
use matryoshka_os.Interrupts.{
  default_exception_handler, resumed, halted, timer_irq_handler, yield_isr_handler, finish,
  finish_call, run_handler, unhandled, dispatch, isr_handler,
}

module _ (m : Machine) (fuel : ℕ) where
  -- The kernel after a switch.
  abbrev pub with_scheduler : System m → Task.Scheduler → System m
  with_scheduler s t = record s { kernel = record s.kernel { scheduler = t } }

  handled :
      (s : System m) (f : Frame) (esp inner cr2 : ℕ) {h : Handler}
      → s.interrupt_handlers f.int_no ≡ some h
      → isr_handler m fuel esp f s inner cr2 ≡ run_handler m fuel h esp f s inner cr2
  unfolding isr_handler dispatch
  handled s f esp inner cr2 e = rw e refl

  -- The dispatch of interrupt 0x81 is what `Task.yield_interrupt` says, and changes nothing else. Two
  -- others do the same to the scheduler and resume the same stack: a timer interrupt, which also counts
  -- the tick (modulo 2^64) and acknowledges line 0; and system call 6, which also leaves 0 in EAX.
  pub isr_handler-yield :
      (s : System m) (f : Frame) (esp inner cr2 : ℕ)
      → (s.interrupt_handlers f.int_no ≡ some Handler.yield
          → isr_handler m fuel esp f s inner cr2
            ≡ resumed
                (Task.yield s.kernel.scheduler esp).0
                f
                (with_scheduler s (Task.yield s.kernel.scheduler esp).1))
        × (s.interrupt_handlers f.int_no ≡ some Handler.timer
            → isr_handler m fuel esp f s inner cr2
              ≡ resumed
                  (Task.yield s.kernel.scheduler esp).0
                  f
                  (record (with_scheduler s (Task.yield s.kernel.scheduler esp).1) {
                    ticks = (s.ticks + 1) % 2 ^ 64;
                    ports = send_eoi m s.ports 0;
                  }))
        × (s.interrupt_handlers f.int_no ≡ some Handler.syscall
            → f.eax ≡ sys_yield_no
            → isr_handler m fuel esp f s inner cr2
              ≡ resumed
                  (Task.yield s.kernel.scheduler esp).0
                  (record f { eax = 0 })
                  (with_scheduler s (Task.yield s.kernel.scheduler esp).1))
  unfolding run_handler timer_irq_handler yield_isr_handler finish finish_call Task.yield
      Task.yield_interrupt Timer.tick
  isr_handler-yield s f esp inner cr2 = (
    λ e. handled s f esp inner cr2 e,
    λ e. handled s f esp inner cr2 e,
    λ e number.
        handled s f esp inner cr2 e
        ∙ ap (finish_call m esp f) ((syscall_handler_lem m fuel s f inner).2 number),
  )

  -- An interrupt without a handler: an exception (below 32) prints and halts; a line (32 to 47) is
  -- acknowledged, by its number on the controllers, and is no more than that; of any other number
  -- nothing is done. The last two then switch tasks if a switch was asked for.
  pub isr_handler-unhandled :
      (s : System m) (f : Frame) (esp inner cr2 : ℕ)
      → s.interrupt_handlers f.int_no ≡ none
      → (f.int_no < 32
          → isr_handler m fuel esp f s inner cr2 ≡ halted (default_exception_handler s.vga f))
        × (32 ≤ f.int_no
            → f.int_no < 48
            → isr_handler m fuel esp f s inner cr2
              ≡ resumed
                  (Task.schedule_if_needed s.kernel.scheduler esp).0
                  f
                  (record (with_scheduler s (Task.schedule_if_needed s.kernel.scheduler esp).1) {
                    ports = send_eoi m s.ports (f.int_no - 32);
                  }))
        × (48 ≤ f.int_no
            → isr_handler m fuel esp f s inner cr2
              ≡ resumed
                  (Task.schedule_if_needed s.kernel.scheduler esp).0
                  f
                  (with_scheduler s (Task.schedule_if_needed s.kernel.scheduler esp).1))
  unfolding isr_handler dispatch unhandled finish
  isr_handler-unhandled s f esp inner cr2 e = (
    λ exception. let test : ltb f.int_no 32 ≡ true = ground arith in rw (e, test) refl,
    λ from to.
        let above : ltb f.int_no 32 ≡ false = ground arith in
        let line : (leb 32 f.int_no && ltb f.int_no 48) ≡ true = ground arith in
        rw (e, above, line) refl,
    λ beyond.
        let above : ltb f.int_no 32 ≡ false = ground arith in
        let line : (leb 32 f.int_no && ltb f.int_no 48) ≡ false = ground arith in
        rw (e, above, line) refl,
  )
