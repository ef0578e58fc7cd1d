-- ===== src/Task/Create.antt =====
-- The first stack frame of a task, `task_create` and `task_init` (kernel/proc/task.c).
use native.Mathlib.Decide.{ℕ_discrete}
use matryoshka_os.Prelude.{
  ℕ, zero, suc, ◌+◌, ◌-◌, ◌*◌, ◌%◌, ◌^◌, ◌≤◌, ◌<◌, ◌≡◌, refl, sym, ap, ◌∙◌, ◌⊎◌, inl, inr, false,
  arith, leb, subst, ==_ne, ==_eq, ==_self, update, some, List, [], ◌∷◌, length, get_or,
}
use matryoshka_os.Heap.{Heap, heap_base}
use matryoshka_os.Heap.Layout.{Block, Holds}
use matryoshka_os.Heap.Take.{first_fit, take_first}
use matryoshka_os.Heap.Alloc.{kmalloc_lem}
use matryoshka_os.Task.{
  Scheduler, Task, ready, Kernel, create, add_task, push_all, kernel_frame, init,
}
use matryoshka_os.Task.Switch.{IsValid}

push_all-cons :
    (v : ℕ) (vs : List ℕ) (word : ℕ → ℕ) (sp : ℕ)
    → 4 ≤ sp
    → sp < 2 ^ 32
    → push_all word sp (v ∷ vs) ≡ push_all (update word (sp - 4) v) (sp - 4) vs
unfolding push_all
push_all-cons v vs word sp room small =
    let lower : (sp + 2 ^ 32 - 4) % 2 ^ 32 ≡ sp - 4 = omega arith in
    ap (λ (q : ℕ). push_all (update word q v) q vs) lower

-- Pushing writes below the stack pointer only.
push_all-above :
    (values : List ℕ) (word : ℕ → ℕ) (sp a : ℕ)
    → 4 * length values ≤ sp
    → sp < 2 ^ 32
    → sp ≤ a
    → (push_all word sp values).0 a ≡ word a
unfolding push_all
push_all-above [] word sp a room small le = refl
push_all-above (v ∷ vs) word sp a room small le =
    ap (λ (r : (ℕ → ℕ) × ℕ). r.0 a) (push_all-cons v vs word sp (omega arith) small)
    ∙ push_all-above vs (update word (sp - 4) v) (sp - 4) a (omega arith) (omega arith)
        (omega arith)
    ∙ rw (==_ne (sp - 4) a (omega arith)) refl

-- The value at place `i` of the list is `i + 1` words below the first stack pointer.
push_all_lem :
    (values : List ℕ) (word : ℕ → ℕ) (sp i : ℕ)
    → 4 * length values ≤ sp
    → sp < 2 ^ 32
    → i < length values
    → (push_all word sp values).0 (sp - 4 * (i + 1)) ≡ get_or values i 0
push_all_lem [] word sp i room small lt = absurd (omega arith)
push_all_lem (v ∷ vs) word sp zero room small lt =
    ap (λ (r : (ℕ → ℕ) × ℕ). r.0 (sp - 4)) (push_all-cons v vs word sp (omega arith) small)
    ∙ push_all-above vs (update word (sp - 4) v) (sp - 4) (sp - 4) (omega arith) (omega arith)
        (omega arith)
    ∙ rw (==_self (sp - 4)) refl
push_all_lem (v ∷ vs) word sp (suc i) room small lt =
    let place : sp - 4 * (suc i + 1) ≡ sp - 4 - 4 * (i + 1) = omega arith in
    ap (λ (r : (ℕ → ℕ) × ℕ). r.0 (sp - 4 * (suc i + 1)))
      (push_all-cons v vs word sp (omega arith) small)
    ∙ ap (λ (a : ℕ). (push_all (update word (sp - 4) v) (sp - 4) vs).0 a) place
    ∙ push_all_lem vs (update word (sp - 4) v) (sp - 4) i (omega arith) (omega arith) (omega arith)

push_all-pointer :
    (values : List ℕ) (word : ℕ → ℕ) (sp : ℕ)
    → 4 * length values ≤ sp
    → sp < 2 ^ 32
    → (push_all word sp values).1 ≡ sp - 4 * length values
unfolding push_all
push_all-pointer [] word sp room small = omega arith
push_all-pointer (v ∷ vs) word sp room small =
    ap (λ (r : (ℕ → ℕ) × ℕ). r.1) (push_all-cons v vs word sp (omega arith) small)
    ∙ push_all-pointer vs (update word (sp - 4) v) (sp - 4) (omega arith) (omega arith)
    ∙ omega arith

-- After `task_init` the table is valid: the kernel's task is the one task, and the running one.
pub init-IsValid : (s : Scheduler) (kernel_name : ℕ) → IsValid (init s kernel_name)
unfolding init
init-IsValid s kernel_name = record {
  current_below = omega arith;
  count_small = omega arith;
  alone = λ i lt ne. absurd (omega arith);
  active = refl;
}

-- The new task of `task_create`: its entry in the table and what its stack holds.
pub record Created (s : Scheduler) (k' : Kernel) (stack task_exit entry : ℕ) : Type 0 where
  pub valid : IsValid k'.scheduler
  pub one_more : k'.scheduler.count ≡ s.count + 1
  pub is_ready : (k'.scheduler.tasks s.count).state ≡ ready
  pub pointer : (k'.scheduler.tasks s.count).esp ≡ stack + 4096 - 60
  pub eip : k'.vmm.word (stack + 4096 - 60 + 44) ≡ entry
  pub code_segment : k'.vmm.word (stack + 4096 - 60 + 48) ≡ 0x08
  pub flags : k'.vmm.word (stack + 4096 - 60 + 52) ≡ 0x202
  pub return_to : k'.vmm.word (stack + 4096 - 60 + 56) ≡ task_exit
  pub data_segment : k'.vmm.word (stack + 4096 - 60) ≡ 0x10
  pub old_tasks : (i : ℕ) → i < s.count → k'.scheduler.tasks i ≡ s.tasks i

add_task-IsValid :
    (k : Kernel) (task : Task) (frame : List ℕ)
    → IsValid k.scheduler
    → k.scheduler.count < 64
    → task.state ≡ ready
    → IsValid (add_task k task frame).scheduler
unfolding add_task
add_task-IsValid k task frame v room is_ready =
    let s : Scheduler = k.scheduler in
    record {
      current_below = omega (arith, v.current_below);
      count_small = omega (arith, room);
      alone = λ i lt ne. elim (ℕ_discrete s.count i) [
        | yes e ↦ rw (==_eq s.count i e, is_ready) refl
        | no other ↦ rw (==_ne s.count i other) (v.alone i (omega arith) ne)
      ];
      active = rw (==_ne s.count s.current (omega (arith, v.current_below))) v.active;
    }

add_task-Created :
    (k : Kernel) (task : Task) (stack task_exit entry : ℕ)
    → IsValid k.scheduler
    → k.scheduler.count < 64
    → task.state ≡ ready
    → task.kernel_stack_top ≡ stack + 4096
    → stack + 4096 < 2 ^ 32
    → Created k.scheduler (add_task k task (kernel_frame task_exit entry)) stack task_exit entry
unfolding add_task
add_task-Created k task stack task_exit entry v room is_ready top small =
    let s : Scheduler = k.scheduler in
    let frame : List ℕ = kernel_frame task_exit entry in
    record {
      valid = add_task-IsValid k task frame v room is_ready;
      one_more = refl;
      is_ready = rw (==_self s.count) is_ready;
      pointer =
          rw (==_self s.count, top)
            (push_all-pointer frame k.vmm.word (stack + 4096) (omega arith) small);
      eip = rw top (in_frame 3 (stack + 4096 - 60 + 44) (omega arith) (omega arith));
      code_segment = rw top (in_frame 2 (stack + 4096 - 60 + 48) (omega arith) (omega arith));
      flags = rw top (in_frame 1 (stack + 4096 - 60 + 52) (omega arith) (omega arith));
      return_to = rw top (in_frame 0 (stack + 4096 - 60 + 56) (omega arith) (omega arith));
      data_segment = rw top (in_frame 14 (stack + 4096 - 60) (omega arith) (omega arith));
      old_tasks = λ i lt. rw (==_ne s.count i (omega arith)) refl;
    }
  where
    in_frame :
        (i a : ℕ)
        → i < 15
        → stack + 4096 - 4 * (i + 1) ≡ a
        → (push_all k.vmm.word (stack + 4096) (kernel_frame task_exit entry)).0 a
          ≡ get_or (kernel_frame task_exit entry) i 0
    in_frame i a lt place =
        subst
          (λ (x : ℕ).
            (push_all k.vmm.word (stack + 4096) (kernel_frame task_exit entry)).0 x
            ≡ get_or (kernel_frame task_exit entry) i 0)
          place
          (push_all_lem (kernel_frame task_exit entry) k.vmm.word (stack + 4096) i (omega arith)
            small lt)

heap-add_task : (k : Kernel) (task : Task) (frame : List ℕ) → (add_task k task frame).heap ≡ k.heap
unfolding add_task
heap-add_task k task frame = refl

-- `task_create` on a valid table with fewer than 64 tasks, and a heap that holds the blocks `bs`,
-- returns (the fuel is above the number of blocks). If no free block has room for a stack it
-- returns -1 and neither the table nor the heap changes. Otherwise it returns the old count: the
-- table stays valid and has one task more, which is ready; every older entry is as it was; the heap
-- holds the blocks with the stack's taken; and the saved stack pointer names a frame that starts the
-- task in the kernel's segments at `entry`, with interrupts on and `task_exit` to return to.
pub create_lem :
    (fuel : ℕ) (k : Kernel) (task_exit entry name : ℕ) (bs : List Block)
    → Holds k.heap bs
    → IsValid k.scheduler
    → k.scheduler.count < 64
    → length bs < fuel
    → ((first_fit 4096 heap_base bs ≡ 0)
        × (create fuel k task_exit entry name ≡ some (2 ^ 32 - 1, k)))
      ⊎ ((k' : Kernel) × ((create fuel k task_exit entry name ≡ some (k.scheduler.count, k'))
            × (Holds k'.heap (take_first 4096 bs)
                × Created k.scheduler k' (first_fit 4096 heap_base bs + 16) task_exit entry)))
unfolding create
create_lem fuel k task_exit entry name bs holds v room enough =
    elim (kmalloc_lem fuel k.heap 4096 bs holds (omega arith) (omega arith) enough).1 [
      | inl (e, failed) ↦ inl (e, rw (some_room, failed) refl)
      | inr (h', (ok, a)) ↦
          let q : ℕ = first_fit 4096 heap_base bs in
          inr (
            added h',
            (
              rw (some_room, ok, ==_ne (q + 16) 0 (omega arith)) refl,
              (
                subst (λ (x : Heap). Holds x (take_first 4096 bs))
                    (sym (
                      heap-add_task (record k { heap = h' }) (new_task (q + 16))
                        (kernel_frame task_exit entry)))
                    a.holds,
                add_task-Created (record k { heap = h' }) (new_task (q + 16)) (q + 16) task_exit
                    entry v room refl (omega (arith, a.below)) (omega (arith, a.below)),
              ),
            ),
          )
    ]
  where
    some_room : leb 64 k.scheduler.count ≡ false
    some_room = ground arith

    new_task : ℕ → Task
    new_task stack = record {
      id = k.scheduler.count;
      esp = 0;
      stack_base = stack;
      user_stack_base = 0;
      kernel_stack_top = (stack + 4096) % 2 ^ 32;
      state = ready;
      name = name;
      is_user = false;
    }

    added : Heap → Kernel
    added h' =
        add_task (record k { heap = h' }) (new_task (first_fit 4096 heap_base bs + 16))
          (kernel_frame task_exit entry)
