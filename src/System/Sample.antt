-- ===== src/System/Sample.antt =====
-- A state of the kernel for runs of the handlers: two tasks, "Hi" in memory at address 500, a key in
-- the ring, and the handlers that kernel/kernel.c and its parts register.
use matryoshka_os.Prelude.{
  ℕ, zero, suc, ◌+◌, ◌^◌, ◌<◌, ◌≡◌, ◌≢◌, refl, true, false, arith, Option, none, some, [], ◌==◌,
  if◌then◌else◌, ==_ne,
}
use matryoshka_os.Heap.{Heap}
use matryoshka_os.Vmm.{Vmm}
use matryoshka_os.Serial.Line.{line_machine, idle_line}
use matryoshka_os.Task.{Scheduler, Task, TaskState, ready, running, is_running}
use matryoshka_os.Task.Switch.{IsValid}
use matryoshka_os.System.{System, Handler}

abbrev pub task : ℕ → TaskState → ℕ → Task
task id state esp = record {
  id = id;
  esp = esp;
  stack_base = 0;
  user_stack_base = 0;
  kernel_stack_top = esp + 60;
  state = state;
  name = 0;
  is_user = false;
}

abbrev pub scheduler : Scheduler
scheduler = record {
  tasks = λ i. if i == 0 then task 0 running 1000 else task 1 ready 2000;
  current = 0;
  count = 2;
  scheduler_ready = true;
  need_reschedule = false;
  tss_esp0 = 0;
}

alone : (i : ℕ) → i < 2 → i ≢ 0 → is_running (scheduler.tasks i).state ≡ false
alone zero lt other = absurd (other refl)
alone (suc i) lt other = rw (==_ne (suc i) 0 other) refl

pub scheduler-IsValid : IsValid scheduler
scheduler-IsValid = record {
  current_below = omega arith;
  count_small = omega arith;
  alone = alone;
  active = refl;
}

abbrev pub heap : Heap
heap = record {
  header = λ p. record { magic = 0; size = 0; is_free = false; next = 0 };
  byte = λ p. if p == 500 then 72 else if p == 501 then 105 else 0;
  heap_start = 0;
  heap_total = 0;
  heap_used = 0;
}

abbrev pub vmm : Vmm
vmm = record {
  page_directory = λ i. 0;
  word = λ a. 0;
  mapped_pages = 0;
  page_tables = 0;
  identity_end = 0;
  pmm = record {
    frame_bitmap = [];
    total_frames = 0;
    used_frames = 0;
    total_memory = 0;
    highest_address = 0;
  };
}

-- Interrupts 14, 32, 33, 128 and 129.
abbrev pub handlers : ℕ → Option Handler
handlers n =
    if n == 14
    then some Handler.page_fault
    else if n == 32
    then some Handler.timer
    else if n == 33
    then some Handler.keyboard
    else if n == 0x80
    then some Handler.syscall
    else if n == 0x81
    then some Handler.yield
    else none

abbrev pub system : System line_machine
system = record {
  ports = idle_line;
  vga = record { vga_buffer = λ a. 0; cursor_x = 0; cursor_y = 0; current_color = 7 };
  keyboard = record {
    modifiers = 0;
    extended_pending = false;
    kb_buffer = λ i. 97;
    kb_head = 1;
    kb_tail = 0;
    wait_func = 0;
  };
  kernel = record { scheduler = scheduler; heap = heap; vmm = vmm };
  ticks = 2 ^ 32 + 5;
  interrupt_handlers = handlers;
}
