-- ===== src/Syscall/Calls.antt =====
-- kernel/syscall/syscall.c: the calls that only look at the kernel, and the numbers of no call.
use matryoshka_os.Prelude.{ℕ, ◌%◌, ◌^◌, ◌≤◌, ◌≡◌, refl, arith, true, leb}
use matryoshka_os.Io.{Machine}
use matryoshka_os.Task
use matryoshka_os.System.{System, Frame}
use matryoshka_os.Syscall.{
  sys_getpid_no, sys_uptime_no, sys_yield_no, sys_max, failed, returned, sys_getpid, sys_uptime,
  sys_yield, call, syscall_handler,
}

module _ (m : Machine) (fuel : ℕ) where
  -- The other calls, by the number in EAX: 3 returns the index of the current task and 4 the low 32 bits
  -- of the tick counter, both without a change; 6 asks for a switch and returns 0; a number from 7 on
  -- returns -1 and changes nothing.
  pub syscall_handler_lem :
      (s : System m) (f : Frame) (inner : ℕ)
      → (f.eax ≡ sys_getpid_no
          → syscall_handler m fuel s f inner ≡ returned s.kernel.scheduler.current s)
        × (f.eax ≡ sys_uptime_no → syscall_handler m fuel s f inner ≡ returned (s.ticks % 2 ^ 32) s)
        × (f.eax ≡ sys_yield_no
            → syscall_handler m fuel s f inner
              ≡ returned 0 (record s {
                kernel = record s.kernel { scheduler = Task.request_reschedule s.kernel.scheduler };
              }))
        × (sys_max ≤ f.eax → syscall_handler m fuel s f inner ≡ returned failed s)
  unfolding syscall_handler call sys_getpid sys_uptime sys_yield
  syscall_handler_lem s f inner = (
    λ number. rw number refl,
    λ number. rw number refl,
    λ number. rw number refl,
    λ high. let test : leb sys_max f.eax ≡ true = ground arith in rw test refl,
  )
