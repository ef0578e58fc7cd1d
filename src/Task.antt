-- ===== src/Task.antt =====
-- kernel/proc/task.c: the round-robin scheduler. `Scheduler` holds the statics of the file and
-- `tss_esp0`, the stack that gdt.c puts into the task state segment; a pointer to a name or to a
-- function is its address. The creating functions also use the heap, and write a first stack frame
-- into `word`, the 32-bit words of memory (`Vmm`). The state of the processor is not modelled: a
-- function that ends in an interrupt takes the stack pointer of the interrupted code and returns the
-- one that `isr_handler` goes back to: task_yield, which is that one instruction, is modelled by what the
-- interrupt does, and task_exit up to the switch. The messages of task_init on the screen and of
-- task_create_user on the serial line (klog) are left out.
pub mod Search
pub mod Switch
pub mod Fair
pub mod Create
pub mod Exit
pub mod Live
mod Tests
use matryoshka_os.Prelude.{
  ℕ, zero, suc, ◌+◌, ◌-◌, ◌*◌, ◌/◌, ◌%◌, ◌^◌, Bool, true, false, not, ◌&&◌, Option, none, some,
  List, [], ◌∷◌, ltb, leb, ◌==◌, if◌then◌else◌, ◌>>=◌, update,
}
use matryoshka_os.Heap.{Heap, kmalloc, kfree}
use matryoshka_os.Vmm.{Vmm, set_user}

-- `task_state_t`
pub data TaskState : Type 0 where
  ready : TaskState
  running : TaskState
  terminated : TaskState

pub record Task : Type 0 where
  pub id : ℕ
  pub esp : ℕ
  pub stack_base : ℕ
  pub user_stack_base : ℕ
  pub kernel_stack_top : ℕ
  pub state : TaskState
  pub name : ℕ
  pub is_user : Bool

pub record Scheduler : Type 0 where
  pub tasks : ℕ → Task
  pub current : ℕ
  pub count : ℕ
  pub scheduler_ready : Bool
  pub need_reschedule : Bool
  pub tss_esp0 : ℕ

-- MAX_TASKS and TASK_STACK_SIZE
abbrev pub max_tasks : ℕ
max_tasks = 64

abbrev pub stack_size : ℕ
stack_size = 4096

-- (uint32_t)-1
abbrev pub no_task : ℕ
no_task = 2 ^ 32 - 1

-- The index after `id`, with wrap-around at `count`.
abbrev pub next_index : Scheduler → ℕ → ℕ
next_index s id = (id + 1) % 2 ^ 32 % s.count

-- `state == TASK_READY || state == TASK_RUNNING`
abbrev pub is_runnable : TaskState → Bool
is_runnable ready = true
is_runnable running = true
is_runnable terminated = false

abbrev pub is_running : TaskState → Bool
is_running ready = false
is_running running = true
is_running terminated = false

-- The loop of `find_next_ready`, with `rounds` left.
pub find_next : Scheduler → ℕ → ℕ → ℕ
find_next s zero id = s.current
find_next s (suc rounds) id =
    let rest = find_next s rounds (next_index s id) in
    if not (id == s.current) && is_runnable (s.tasks id).state then id else rest

pub find_next_ready : Scheduler → ℕ
unfolding find_next
find_next_ready s = find_next s s.count (next_index s s.current)

pub set_state : Scheduler → ℕ → TaskState → Scheduler
set_state s i state = record s { tasks = update s.tasks i (record (s.tasks i) { state = state }) }

-- `memset(tasks, 0, sizeof(tasks))`: TASK_READY is 0.
abbrev pub zero_task : Task
zero_task = record {
  id = 0;
  esp = 0;
  stack_base = 0;
  user_stack_base = 0;
  kernel_stack_top = 0;
  state = ready;
  name = 0;
  is_user = false;
}

-- `kernel_name` is the address of the string "kernel".
pub init : Scheduler → ℕ → Scheduler
init s kernel_name = record {
  tasks = update (λ i. zero_task) 0 (record zero_task { state = running; name = kernel_name });
  current = 0;
  count = 1;
  scheduler_ready = true;
  need_reschedule = false;
  tss_esp0 = s.tss_esp0;
}

-- `task_request_reschedule`, and `yield_isr_handler`, which does the same.
pub request_reschedule : Scheduler → Scheduler
request_reschedule s = record s { need_reschedule = true }

-- The parts of the switch to another task: the current task is left, the next one is entered, and
-- the stack for interrupts from ring 3 is set.
pub leave : Scheduler → ℕ → Scheduler
leave s esp =
    let task = s.tasks s.current in
    record s {
      tasks =
          update s.tasks s.current (record task {
            esp = esp;
            state = if is_running task.state then ready else task.state;
          });
    }

pub enter : Scheduler → ℕ → Scheduler
unfolding set_state
enter s next = record (set_state s next running) { current = next }

pub load_stack : Scheduler → Scheduler
load_stack s =
    let top = (s.tasks s.current).kernel_stack_top in
    record s { tss_esp0 = if not (top == 0) then top else s.tss_esp0 }

pub switch_to : Scheduler → ℕ → ℕ → ℕ × Scheduler
unfolding leave enter load_stack
switch_to s esp next = let t = load_stack (enter (leave s esp) next) in ((t.tasks t.current).esp, t)

pub schedule_if_needed : Scheduler → ℕ → ℕ × Scheduler
unfolding find_next_ready switch_to
schedule_if_needed s esp =
    let t = record s { need_reschedule = false } in
    let next = find_next_ready t in
    if not (s.scheduler_ready && s.need_reschedule)
    then (esp, s)
    else if next == s.current
    then (esp, t)
    else switch_to t esp next

-- What interrupt 0x81 does to the statics of this file: `isr_handler` (arch/x86_64/idt.c) runs the handler
-- that `task_init` registers, `yield_isr_handler`, which asks for a switch, and ends with
-- `task_schedule_if_needed`. (In the module Interrupts, `isr_handler` is modelled on the whole state.)
unfoldable pub yield_interrupt : Scheduler → ℕ → ℕ × Scheduler
unfolding request_reschedule schedule_if_needed
yield_interrupt s esp = schedule_if_needed (request_reschedule s) esp

-- `int $0x81`, with the stack pointer of the interrupted code; the one that is resumed.
unfoldable pub yield : Scheduler → ℕ → ℕ × Scheduler
unfolding yield_interrupt
yield s esp = yield_interrupt s esp

pub exit : Scheduler → ℕ → ℕ × Scheduler
unfolding yield set_state
exit s esp = yield (set_state s s.current terminated) esp

-- `*(--sp) = value` for each value in turn: the words and the stack pointer.
pub push_all : (ℕ → ℕ) → ℕ → List ℕ → (ℕ → ℕ) × ℕ
push_all word sp [] = (word, sp)
push_all word sp (value ∷ values) =
    let sp' = (sp + 2 ^ 32 - 4) % 2 ^ 32 in push_all (update word sp' value) sp' values

-- GDT_KERNEL_CODE_SEL and its kin
abbrev pub kernel_code : ℕ
kernel_code = 0x08

abbrev pub kernel_data : ℕ
kernel_data = 0x10

abbrev pub user_code : ℕ
user_code = 0x1B

abbrev pub user_data : ℕ
user_data = 0x23

-- The frame of a new kernel task, `task_exit` first.
abbrev pub kernel_frame : ℕ → ℕ → List ℕ
kernel_frame task_exit entry =
    task_exit ∷ 0x202 ∷ kernel_code ∷ entry ∷ 0 ∷ 0 ∷ 0 ∷ 0 ∷ 0 ∷ 0 ∷ 0 ∷ 0 ∷ 0 ∷ 0 ∷ kernel_data
    ∷ []

-- The frame of a new user task.
abbrev pub user_frame : ℕ → ℕ → List ℕ
user_frame user_esp entry =
    user_data ∷ user_esp ∷ 0x202 ∷ user_code ∷ entry ∷ 0 ∷ 0 ∷ 0 ∷ 0 ∷ 0 ∷ 0 ∷ 0 ∷ 0 ∷ 0 ∷ 0
    ∷ user_data ∷ []

-- The parts of the kernel that a new task touches.
pub record Kernel : Type 0 where
  pub scheduler : Scheduler
  pub heap : Heap
  pub vmm : Vmm

-- The task's entry, once its stack is there, and its frame's words.
pub add_task : Kernel → Task → List ℕ → Kernel
unfolding push_all
add_task k task frame =
    let s = k.scheduler in
    let (word, sp) = push_all k.vmm.word task.kernel_stack_top frame in
    record k {
      scheduler = record s {
        tasks = update s.tasks s.count (record task { esp = sp });
        count = s.count + 1;
      };
      vmm = record k.vmm { word = word };
    }

-- `task_create`: the id of the new task, or -1, and the kernel.
pub create : ℕ → Kernel → ℕ → ℕ → ℕ → Option (ℕ × Kernel)
unfolding add_task
create fuel k task_exit entry name =
    let id = k.scheduler.count in
    if leb max_tasks k.scheduler.count then some (no_task, k) else do
      r ← kmalloc fuel k.heap stack_size
      some (
          if r.0 == 0 then (no_task, record k { heap = r.1 }) else (
            id,
            add_task (record k { heap = r.1 })
                (record {
                  id = id;
                  esp = 0;
                  stack_base = r.0;
                  user_stack_base = 0;
                  kernel_stack_top = (r.0 + stack_size) % 2 ^ 32;
                  state = ready;
                  name = name;
                  is_user = false;
                })
                (kernel_frame task_exit entry),
          ))

-- The frees of `task_create_user` when a stack is missing.
pub free_stack : ℕ → Heap → ℕ → Option Heap
free_stack fuel h stack = if stack == 0 then some h else kfree fuel h stack

-- The pages that ring 3 may use: the user stack's (it has the size of a page) and two of the code.
pub open_pages : Vmm → ℕ → ℕ → Vmm
open_pages v ustack entry =
    let page = entry / 4096 * 4096 in
    let a = (set_user v ustack).1 in
    let b = (set_user a page).1 in (set_user b ((page + 4096) % 2 ^ 32)).1

-- The rest of `task_create_user`, with both results of `kmalloc`.
pub start_user : ℕ → Kernel → ℕ → ℕ → ℕ → ℕ → Heap → Option (ℕ × Kernel)
unfolding free_stack open_pages add_task
start_user fuel k entry name kstack ustack h =
    let id = k.scheduler.count in
    if kstack == 0
    then (free_stack fuel h ustack >>= λ h'. some (no_task, record k { heap = h' }))
    else if ustack == 0
    then (free_stack fuel h kstack >>= λ h'. some (no_task, record k { heap = h' }))
    else some (
      id,
      add_task (record k { heap = h; vmm = open_pages k.vmm ustack entry })
          (record {
            id = id;
            esp = 0;
            stack_base = kstack;
            user_stack_base = ustack;
            kernel_stack_top = (kstack + stack_size) % 2 ^ 32;
            state = ready;
            name = name;
            is_user = true;
          })
          (user_frame ((ustack + stack_size) % 2 ^ 32) entry),
    )

-- `task_create_user`, less its line on the serial line.
pub create_user : ℕ → Kernel → ℕ → ℕ → Option (ℕ × Kernel)
unfolding start_user
create_user fuel k entry name = if leb max_tasks k.scheduler.count then some (no_task, k) else do
  a ← kmalloc fuel k.heap stack_size
  b ← kmalloc fuel a.1 stack_size
  start_user fuel k entry name a.0 b.0 b.1

-- `task_get_info`: the id, the name and the state, if the index is below the count.
pub get_info : Scheduler → ℕ → Option (ℕ × ℕ × TaskState)
get_info s index =
    if leb s.count index
    then none
    else some ((s.tasks index).id, (s.tasks index).name, (s.tasks index).state)
