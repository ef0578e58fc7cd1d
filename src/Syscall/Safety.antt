-- ===== src/Syscall/Safety.antt =====
-- kernel/syscall/syscall.c: every system call keeps the table of tasks, the ring of keys and the cursor
-- valid.
use matryoshka_os.Prelude.{
  if_keeps, ℕ, zero, suc, ◌+◌, Option, none, some, if◌then◌else◌, ◌==◌, leb, not, ◌||◌,
}
use matryoshka_os.Prelude.Text.{codes}
use matryoshka_os.Io.{Machine}
use matryoshka_os.Vga
use matryoshka_os.Vga.Cursor
use matryoshka_os.Serial
use matryoshka_os.Keyboard
use matryoshka_os.Keyboard.Ring
use matryoshka_os.Keyboard.Keep.{Taken, getchar-Taken}
use matryoshka_os.Heap.{kmalloc}
use matryoshka_os.Task
use matryoshka_os.Task.Live.{IsLive, request_reschedule-IsLive, exit-IsLive}
use matryoshka_os.System.{System, Frame}
use matryoshka_os.Syscall.{
  Outcome, returned, ended, waiting, write_chars, sys_exit, sys_write, store_key, sys_read,
  sys_getpid, sys_uptime, sys_sbrk, sys_yield, call, syscall_handler, failed, sys_exit_no,
  sys_write_no, sys_read_no, sys_getpid_no, sys_uptime_no, sys_sbrk_no, sys_max,
}

-- The scheduler was started and its table is valid, and so are the ring of keys and the cursor.
pub record IsSafe (m : Machine) (s : System m) : Type 0 where
  pub tasks : IsLive s.kernel.scheduler
  pub keys : Keyboard.Ring.IsValid s.keyboard
  pub cursor : Vga.Cursor.IsValid s.vga

module _ (m : Machine) (fuel : ℕ) where
  -- What a call leaves behind is safe, if it leaves a state at all.
  abbrev pub Kept : Outcome m → Type 0
  Kept (returned value s) = IsSafe m s
  Kept (ended esp s) = IsSafe m s
  Kept waiting = Unit

  pub rescheduled :
      (s : System m) (t : Task.Scheduler)
      → IsSafe m s
      → IsLive t
      → IsSafe m (record s { kernel = record s.kernel { scheduler = t } })
  rescheduled s t v live = record { tasks = live; keys = v.keys; cursor = v.cursor }

  sys_exit-Kept : (s : System m) (inner : ℕ) → IsSafe m s → Kept (sys_exit m fuel s inner)
  unfolding sys_exit
  sys_exit-Kept s inner v =
      elim (Serial.klog m fuel s.ports (codes "syscall: exit"))
        as (λ o. Kept (elim o [
          | none ↦ waiting
          | some t ↦ ended (Task.exit s.kernel.scheduler inner).0 (record s {
            ports = t;
            kernel = record s.kernel { scheduler = (Task.exit s.kernel.scheduler inner).1 };
          })
        ])) [
          | none ↦ _
          | some t ↦ record {
            tasks = exit-IsLive s.kernel.scheduler inner v.tasks;
            keys = v.keys;
            cursor = v.cursor;
          }
        ]

  write_chars-Kept :
      (s : System m) (fd p len n : ℕ) → IsSafe m s → Kept (write_chars m fuel s fd p len n)
  unfolding write_chars
  write_chars-Kept s fd p len zero v = v
  write_chars-Kept s fd p len (suc n) v =
      let c : ℕ = s.kernel.heap.byte p in
      let seen : IsSafe m (record s { vga = Vga.putchar s.vga c }) = record {
        tasks = v.tasks;
        keys = v.keys;
        cursor = (Vga.Cursor.putchar-IsValid s.vga c v.cursor).0;
      } in
      let on_screen = write_chars-Kept _ fd (p + 1) len n seen in
      let on_line = λ (t : m.State).
        write_chars-Kept (record s { ports = t }) fd (p + 1) len n
          (record { tasks = v.tasks; keys = v.keys; cursor = v.cursor }) in
      if_keeps Kept (fd == 1) _ _ on_screen (
        if_keeps Kept (fd == 2) _ _
          (elim (Serial.putc m fuel s.ports c)
            as (λ o. Kept (elim o [
              | none ↦ waiting
              | some t ↦ write_chars m fuel (record s { ports = t }) fd (p + 1) len n
            ])) [ none ↦ _ | some t ↦ on_line t ])
          v)

  sys_write-Kept : (s : System m) (f : Frame) → IsSafe m s → Kept (sys_write m fuel s f)
  unfolding sys_write
  sys_write-Kept s f v =
      if_keeps Kept (f.ecx == 0 || f.edx == 0) _ _ v (write_chars-Kept s f.ebx f.ecx f.edx f.edx v)

  store_key-Kept :
      (s : System m) (f : Frame) (r : Option (ℕ × Keyboard.Keyboard))
      → IsSafe m s
      → Taken r
      → Kept (store_key m s f r)
  unfolding store_key
  store_key-Kept s f none v t = _
  store_key-Kept s f (some (c, k)) v t =
      if_keeps Kept (c == 0) _ _ (record { tasks = v.tasks; keys = t; cursor = v.cursor })
        (record { tasks = v.tasks; keys = t; cursor = v.cursor })

  sys_read-Kept : (s : System m) (f : Frame) → IsSafe m s → Kept (sys_read m s f)
  unfolding sys_read
  sys_read-Kept s f v =
      if_keeps Kept (not (f.ebx == 0) || f.ecx == 0 || f.edx == 0) _ _ v
        (store_key-Kept s f (Keyboard.getchar s.keyboard) v (getchar-Taken s.keyboard v.keys))

  sys_sbrk-Kept : (s : System m) (f : Frame) → IsSafe m s → Kept (sys_sbrk m fuel s f)
  unfolding sys_sbrk
  sys_sbrk-Kept s f v =
      elim (kmalloc fuel s.kernel.heap f.ebx)
        as (λ o. Kept (elim o [
          | none ↦ waiting
          | some (ptr, h) ↦
              returned (if ptr == 0 then failed else ptr)
                (record s { kernel = record s.kernel { heap = h } })
        ])) [
          | none ↦ _
          | some (ptr, h) ↦ record { tasks = v.tasks; keys = v.keys; cursor = v.cursor }
        ]

  call-Kept : (s : System m) (f : Frame) (inner : ℕ) → IsSafe m s → Kept (call m fuel s f inner)
  unfolding call sys_getpid sys_uptime sys_yield
  call-Kept s f inner v = if_keeps Kept (f.eax == sys_exit_no) _ _ (sys_exit-Kept s inner v) (
      if_keeps Kept (f.eax == sys_write_no) _ _ (sys_write-Kept s f v) (
        if_keeps Kept (f.eax == sys_read_no) _ _ (sys_read-Kept s f v) (
          if_keeps Kept (f.eax == sys_getpid_no) _ _ v (
            if_keeps Kept (f.eax == sys_uptime_no) _ _ v (
              if_keeps Kept (f.eax == sys_sbrk_no) _ _ (sys_sbrk-Kept s f v)
                (rescheduled s _ v (request_reschedule-IsLive s.kernel.scheduler v.tasks)))))))

  pub syscall_handler-Kept :
      (s : System m) (f : Frame) (inner : ℕ) → IsSafe m s → Kept (syscall_handler m fuel s f inner)
  unfolding syscall_handler
  syscall_handler-Kept s f inner v = if_keeps Kept (leb sys_max f.eax) _ _ v (call-Kept s f inner v)
