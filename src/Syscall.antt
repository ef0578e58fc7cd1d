-- ===== src/Syscall.antt =====
-- kernel/syscall/syscall.c: the system calls, on the whole of the kernel's state. The serial port's
-- waits and the search of the heap take fuel.
pub mod Write
pub mod Read
pub mod Calls
pub mod Safety
mod Tests
use matryoshka_os.Prelude.{
  ℕ, zero, suc, ◌+◌, ◌-◌, ◌%◌, ◌^◌, Bool, true, false, not, ◌&&◌, ◌||◌, Option, none, some, List,
  [], ◌∷◌, ltb, leb, ◌==◌, if◌then◌else◌, ◌>>=◌, update,
}
use matryoshka_os.Prelude.Text.{codes}
use matryoshka_os.Io.{Machine}
use matryoshka_os.Vga
use matryoshka_os.Serial
use matryoshka_os.Keyboard
use matryoshka_os.Heap.{kmalloc}
use matryoshka_os.Task
use matryoshka_os.System.{System, Frame}

-- SYS_EXIT and the other numbers, up to SYS_MAX
abbrev pub sys_exit_no : ℕ
sys_exit_no = 0

abbrev pub sys_write_no : ℕ
sys_write_no = 1

abbrev pub sys_read_no : ℕ
sys_read_no = 2

abbrev pub sys_getpid_no : ℕ
sys_getpid_no = 3

abbrev pub sys_uptime_no : ℕ
sys_uptime_no = 4

abbrev pub sys_sbrk_no : ℕ
sys_sbrk_no = 5

abbrev pub sys_yield_no : ℕ
sys_yield_no = 6

abbrev pub sys_max : ℕ
sys_max = 7

-- (uint32_t)-1
abbrev pub failed : ℕ
failed = 2 ^ 32 - 1

module _ (m : Machine) where
  -- How a call ends: it returns a value; the task has ended, and the stack at `esp` goes on; or it
  -- waits, for a key or for the serial port.
  pub data Outcome : Type 0 where
    returned : ℕ → System m → Outcome
    ended : ℕ → System m → Outcome
    waiting : Outcome

  -- `task_exit` raises an interrupt, whose stack pointer is `inner`.
  pub sys_exit : ℕ → System m → ℕ → Outcome
  sys_exit fuel s inner = elim (Serial.klog m fuel s.ports (codes "syscall: exit")) [
    | none ↦ waiting
    | some t ↦
        let r = Task.exit s.kernel.scheduler inner in
        ended r.0 (record s { ports = t; kernel = record s.kernel { scheduler = r.1 } })
  ]

  -- The loop of `sys_write`, with `rounds` characters left from `p` on; `len` is the result.
  pub write_chars : ℕ → System m → ℕ → ℕ → ℕ → ℕ → Outcome
  write_chars fuel s fd p len zero = returned len s
  write_chars fuel s fd p len (suc rounds) =
      let c = s.kernel.heap.byte p in
      let on_screen =
        write_chars fuel (record s { vga = Vga.putchar s.vga c }) fd (p + 1) len rounds in
      let on_line =
        λ (t : m.State). write_chars fuel (record s { ports = t }) fd (p + 1) len rounds in
      if fd == 1
      then on_screen
      else if fd == 2
      then elim (Serial.putc m fuel s.ports c) [ none ↦ waiting | some t ↦ on_line t ]
      else returned failed s

  pub sys_write : ℕ → System m → Frame → Outcome
  unfolding write_chars
  sys_write fuel s f =
      if f.ecx == 0 || f.edx == 0 then returned 0 s else write_chars fuel s f.ebx f.ecx f.edx f.edx

  -- The end of `sys_read`, with what `keyboard_getchar` gives: it waits for a key.
  pub store_key : System m → Frame → Option (ℕ × Keyboard.Keyboard) → Outcome
  store_key s f none = waiting
  store_key s f (some (c, k)) =
      let t = record s { keyboard = k } in
      let stored = record s.kernel.heap { byte = update s.kernel.heap.byte f.ecx c } in
      if c == 0
      then returned 0 t
      else returned 1 (record t { kernel = record s.kernel { heap = stored } })

  pub sys_read : System m → Frame → Outcome
  unfolding store_key
  sys_read s f =
      if not (f.ebx == 0) || f.ecx == 0 || f.edx == 0
      then returned failed s
      else store_key s f (Keyboard.getchar s.keyboard)

  pub sys_getpid : System m → Outcome
  sys_getpid s = returned s.kernel.scheduler.current s

  pub sys_uptime : System m → Outcome
  sys_uptime s = returned (s.ticks % 2 ^ 32) s

  pub sys_sbrk : ℕ → System m → Frame → Outcome
  sys_sbrk fuel s f = elim (kmalloc fuel s.kernel.heap f.ebx) [
    | none ↦ waiting
    | some (ptr, h) ↦
        returned (if ptr == 0 then failed else ptr)
          (record s { kernel = record s.kernel { heap = h } })
  ]

  pub sys_yield : System m → Outcome
  sys_yield s = returned 0 (record s {
    kernel = record s.kernel { scheduler = Task.request_reschedule s.kernel.scheduler };
  })

  -- `syscall_table[num](frame)`
  pub call : ℕ → System m → Frame → ℕ → Outcome
  unfolding sys_exit sys_write sys_read sys_getpid sys_uptime sys_sbrk sys_yield
  call fuel s f inner =
      if f.eax == sys_exit_no
      then sys_exit fuel s inner
      else if f.eax == sys_write_no
      then sys_write fuel s f
      else if f.eax == sys_read_no
      then sys_read s f
      else if f.eax == sys_getpid_no
      then sys_getpid s
      else if f.eax == sys_uptime_no
      then sys_uptime s
      else if f.eax == sys_sbrk_no
      then sys_sbrk fuel s f
      else sys_yield s

  -- The result of the call is left in `frame->eax` by the caller of this function.
  pub syscall_handler : ℕ → System m → Frame → ℕ → Outcome
  syscall_handler fuel s f inner =
      if leb sys_max f.eax then returned failed s else call fuel s f inner
