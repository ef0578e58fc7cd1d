-- ===== src/Interrupts/Safety.antt =====
-- kernel/arch/x86_64/idt.c: any sequence of interrupts keeps the table of tasks, the ring of keys and
-- the cursor valid.
use matryoshka_os.Prelude.{if_keeps, ℕ, ◌-◌, ◌≡◌, subst, Option, none, some, ltb, leb, ◌&&◌}
use matryoshka_os.Io.{Machine}
use matryoshka_os.Pic.{send_eoi}
use matryoshka_os.Keyboard.Keep.{irq_handler-IsValid}
use matryoshka_os.Task.Live.{schedule_if_needed-IsLive, request_reschedule-IsLive}
use matryoshka_os.System.{System, Frame, Handler}
use matryoshka_os.Syscall.{Outcome, returned, ended, waiting}
use matryoshka_os.Syscall.Safety.{IsSafe, Kept, rescheduled, syscall_handler-Kept}
use matryoshka_os.Interrupts.{
  Resumption, resumed, left, halted, waits, register_handler, timer_irq_handler,
  keyboard_irq_handler, yield_isr_handler, finish, finish_call, run_handler, unhandled, dispatch,
  isr_handler,
}

module _ (m : Machine) (fuel : ℕ) where
  -- What an interrupt leaves behind is safe, if it leaves a state at all.
  abbrev pub Keeps : Resumption m → Type 0
  Keeps (resumed esp f s) = IsSafe m s
  Keeps (left esp s) = IsSafe m s
  Keeps (halted v) = Unit
  Keeps waits = Unit

  finish-Keeps : (esp : ℕ) (f : Frame) (s : System m) → IsSafe m s → Keeps (finish m esp f s)
  unfolding finish
  finish-Keeps esp f s v =
      rescheduled m fuel s _ v (schedule_if_needed-IsLive s.kernel.scheduler esp v.tasks)

  finish_call-Keeps :
      (esp : ℕ) (f : Frame) (o : Outcome m) → Kept m fuel o → Keeps (finish_call m esp f o)
  unfolding finish_call
  finish_call-Keeps esp f (returned value s) k = finish-Keeps esp (record f { eax = value }) s k
  finish_call-Keeps esp f (ended esp' s) k = k
  finish_call-Keeps esp f waiting k = _

  asked : (s : System m) → IsSafe m s → IsSafe m (yield_isr_handler m s)
  unfolding yield_isr_handler
  asked s v = rescheduled m fuel s _ v (request_reschedule-IsLive s.kernel.scheduler v.tasks)

  run_handler-Keeps :
      (h : Handler) (esp : ℕ) (f : Frame) (s : System m) (inner cr2 : ℕ)
      → IsSafe m s
      → Keeps (run_handler m fuel h esp f s inner cr2)
  unfolding run_handler timer_irq_handler keyboard_irq_handler
  run_handler-Keeps Handler.page_fault esp f s inner cr2 v = _
  run_handler-Keeps Handler.timer esp f s inner cr2 v = finish-Keeps esp f _ (record {
    tasks = request_reschedule-IsLive s.kernel.scheduler v.tasks;
    keys = v.keys;
    cursor = v.cursor;
  })
  run_handler-Keeps Handler.keyboard esp f s inner cr2 v = finish-Keeps esp f _ (record {
    tasks = v.tasks;
    keys = irq_handler-IsValid s.keyboard _ v.keys;
    cursor = v.cursor;
  })
  run_handler-Keeps Handler.syscall esp f s inner cr2 v =
      finish_call-Keeps esp f _ (syscall_handler-Kept m fuel s f inner v)
  run_handler-Keeps Handler.yield esp f s inner cr2 v = finish-Keeps esp f _ (asked s v)

  unhandled-Keeps : (esp : ℕ) (f : Frame) (s : System m) → IsSafe m s → Keeps (unhandled m esp f s)
  unfolding unhandled
  unhandled-Keeps esp f s v =
      let acknowledged : System m = record s { ports = send_eoi m s.ports (f.int_no - 32) } in
      if_keeps Keeps (ltb f.int_no 32) _ _ _ (
        if_keeps Keeps (leb 32 f.int_no && ltb f.int_no 48) _ _
          (finish-Keeps esp f acknowledged
            (record { tasks = v.tasks; keys = v.keys; cursor = v.cursor }))
          (finish-Keeps esp f s v))

  dispatch-Keeps :
      (o : Option Handler) (esp : ℕ) (f : Frame) (s : System m) (inner cr2 : ℕ)
      → IsSafe m s
      → Keeps (dispatch m fuel o esp f s inner cr2)
  unfolding dispatch
  dispatch-Keeps none esp f s inner cr2 v = unhandled-Keeps esp f s v
  dispatch-Keeps (some h) esp f s inner cr2 v = run_handler-Keeps h esp f s inner cr2 v

  isr_handler-Keeps :
      (esp : ℕ) (f : Frame) (s : System m) (inner cr2 : ℕ)
      → IsSafe m s
      → Keeps (isr_handler m fuel esp f s inner cr2)
  unfolding isr_handler
  isr_handler-Keeps esp f s inner cr2 v =
      dispatch-Keeps (s.interrupt_handlers f.int_no) esp f s inner cr2 v

  -- One step of the kernel: a handler is registered, or an interrupt with any frame comes and is
  -- left again, to a task or from one that has ended.
  pub data Step : System m → System m → Type 0 where
    registers : (s : System m) (num : ℕ) (h : Handler) → Step s (register_handler m s num h)
    resumes :
        {s t : System m} (esp : ℕ) (f : Frame) (inner cr2 esp' : ℕ) (f' : Frame)
        → isr_handler m fuel esp f s inner cr2 ≡ resumed esp' f' t
        → Step s t
    leaves :
        {s t : System m} (esp : ℕ) (f : Frame) (inner cr2 esp' : ℕ)
        → isr_handler m fuel esp f s inner cr2 ≡ left esp' t
        → Step s t

  pub data Run (s : System m) : System m → Type 0 where
    here : Run s s
    next : {t u : System m} → Run s t → Step t u → Run s u

  Step-IsSafe : {s t : System m} → Step s t → IsSafe m s → IsSafe m t
  unfolding register_handler
  Step-IsSafe (registers s num h) v = record { tasks = v.tasks; keys = v.keys; cursor = v.cursor }
  Step-IsSafe (resumes esp f inner cr2 esp' f' e) v =
      subst Keeps e (isr_handler-Keeps esp f _ inner cr2 v)
  Step-IsSafe (leaves esp f inner cr2 esp' e) v =
      subst Keeps e (isr_handler-Keeps esp f _ inner cr2 v)

  -- From a safe state, in which the scheduler was started and the table of tasks, the ring of keys
  -- and the cursor are valid, every state that a run of interrupts reaches is safe: timer ticks,
  -- keys, system calls with any arguments, yields and interrupts without a handler, in any order, and
  -- with handlers registered in between. (A page fault or another exception halts, and ends the run.)
  pub Run-IsSafe : {s t : System m} → IsSafe m s → Run s t → IsSafe m t
  Run-IsSafe v here = v
  Run-IsSafe v (next r st) = Step-IsSafe st (Run-IsSafe v r)
