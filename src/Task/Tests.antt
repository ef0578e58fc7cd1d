-- ===== src/Task/Tests.antt =====
-- Runs of the scheduler on a small table, and the theorems at that table.
use matryoshka_os.Prelude.{
  ℕ, zero, suc, ◌+◌, ◌-◌, ◌^◌, ◌<◌, ◌≡◌, ◌≢◌, refl, ◌⊎◌, true, false, arith, ◌==◌, if◌then◌else◌,
  some, List, [], ◌∷◌, ==_ne,
}
use matryoshka_os.Heap.{Heap, heap_base, heap_init}
use matryoshka_os.Heap.Layout.{Block, Holds, heap_init-Holds}
use matryoshka_os.Heap.Take.{first_fit, take_first}
use matryoshka_os.Vmm.{Vmm}
use matryoshka_os.Pmm.{Pmm}
use matryoshka_os.Task.{
  Scheduler, Task, TaskState, ready, running, terminated, is_runnable, is_running, Kernel, create,
  exit, schedule_if_needed, find_next_ready, find_next, switch_to, leave, enter, load_stack,
  set_state, init,
}
use matryoshka_os.Task.Switch.{IsValid, Scheduled, schedule_if_needed_lem}
use matryoshka_os.Task.Fair.{Reaches, task_gets_turn}
use matryoshka_os.Task.Create.{Created, create_lem, init-IsValid}
use matryoshka_os.Task.Exit.{exit_lem}

-- Task 0 is ready, task 1 has ended, task 2 is running, task 3 is ready.
abbrev sample_task : ℕ → TaskState → ℕ → Task
sample_task id state esp = record {
  id = id;
  esp = esp;
  stack_base = 0;
  user_stack_base = 0;
  kernel_stack_top = esp + 60;
  state = state;
  name = 0;
  is_user = false;
}

abbrev sample : Scheduler
sample = record {
  tasks = λ i.
      if i == 0
      then sample_task 0 ready 1000
      else if i == 1
      then sample_task 1 terminated 2000
      else if i == 2
      then sample_task 2 running 3000
      else sample_task 3 ready 4000;
  current = 2;
  count = 4;
  scheduler_ready = true;
  need_reschedule = true;
  tss_esp0 = 0;
}

sample_alone : (i : ℕ) → i < 4 → i ≢ 2 → is_running (sample.tasks i).state ≡ false
sample_alone zero lt ne = refl
sample_alone (suc zero) lt ne = refl
sample_alone (suc (suc zero)) lt ne = absurd (omega arith)
sample_alone (suc (suc (suc i))) lt ne =
    rw
      (
        ==_ne (suc (suc (suc i))) 0 (omega arith),
        ==_ne (suc (suc (suc i))) 1 (omega arith),
        ==_ne (suc (suc (suc i))) 2 (omega arith),
      )
      refl

sample-IsValid : IsValid sample
sample-IsValid = record {
  current_below = omega arith;
  count_small = omega arith;
  alone = sample_alone;
  active = refl;
}

switches : (schedule_if_needed sample 3500).0 ≡ 4000
unfolding schedule_if_needed find_next_ready find_next switch_to leave enter load_stack set_state
switches = refl

schedule_if_needed_lem_example :
    IsValid (schedule_if_needed sample 3500).1
    × Scheduled sample 3500 (schedule_if_needed sample 3500)
schedule_if_needed_lem_example = schedule_if_needed_lem sample 3500 sample-IsValid

task_gets_turn_example : Reaches sample (3500 ∷ 4500 ∷ 1500 ∷ 3600 ∷ []) 0
task_gets_turn_example =
    task_gets_turn sample 0 (3500 ∷ 4500 ∷ 1500 ∷ 3600 ∷ []) sample-IsValid refl (omega arith) refl
      (omega arith)

exit_lem_example :
    IsValid (exit sample 3500).1
    × ((((exit sample 3500).1.tasks 2).state ≡ terminated)
        × ((((exit sample 3500).1.current ≡ 2)
              × ((exit sample 3500).0 ≡ 3500)
              × ((i : ℕ) → i < 4 → i ≢ 2 → is_runnable (sample.tasks i).state ≡ false))
            ⊎ (((exit sample 3500).1.current ≢ 2)
                × ((exit sample 3500).1.current < 4)
                × (is_runnable (sample.tasks (exit sample 3500).1.current).state ≡ true)
                × ((exit sample 3500).0 ≡ (sample.tasks (exit sample 3500).1.current).esp))))
exit_lem_example = exit_lem sample 3500 sample-IsValid refl

abbrev empty_heap : Heap
empty_heap = record {
  header = λ p. record { magic = 0; size = 0; is_free = false; next = 0 };
  byte = λ p. 0;
  heap_start = 0;
  heap_total = 0;
  heap_used = 0;
}

abbrev empty_pmm : Pmm
empty_pmm = record {
  frame_bitmap = [];
  total_frames = 0;
  used_frames = 0;
  total_memory = 0;
  highest_address = 0;
}

abbrev empty_vmm : Vmm
empty_vmm = record {
  page_directory = λ i. 0;
  word = λ a. 0;
  mapped_pages = 0;
  page_tables = 0;
  identity_end = 0;
  pmm = empty_pmm;
}

abbrev kernel : Kernel
kernel = record { scheduler = init sample 77; heap = heap_init empty_heap; vmm = empty_vmm }

abbrev whole : List Block
whole = record { size = 0x00100000 - 16; free = true } ∷ []

one_task : (init sample 77).count ≡ 1
unfolding init
one_task = refl

create_lem_example :
    ((first_fit 4096 heap_base whole ≡ 0)
      × (create 2 kernel 0x100100 0x100200 88 ≡ some (2 ^ 32 - 1, kernel)))
    ⊎ ((k' : Kernel) × ((create 2 kernel 0x100100 0x100200 88 ≡ some ((init sample 77).count, k'))
          × (Holds k'.heap (take_first 4096 whole)
              × Created
                  (init sample 77)
                  k'
                  (first_fit 4096 heap_base whole + 16)
                  0x100100
                  0x100200)))
create_lem_example =
    create_lem 2 kernel 0x100100 0x100200 88 whole (heap_init-Holds empty_heap)
      (init-IsValid sample 77) (omega (arith, one_task)) (omega arith)
