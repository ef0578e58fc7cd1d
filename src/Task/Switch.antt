-- ===== src/Task/Switch.antt =====
-- `task_schedule_if_needed` of kernel/proc/task.c.
use native.Mathlib.Decide.{ℕ_discrete}
use matryoshka_os.Prelude.{
  ℕ, ◌+◌, ◌≤◌, ◌<◌, ◌≡◌, ◌≢◌, refl, sym, ◌∙◌, ◌⊎◌, inl, inr, Bool, true, false, not, ◌&&◌, arith,
  ◌==◌, if◌then◌else◌, Bool-cases, subst, ==_ne, ==_eq, ==_self,
}
use matryoshka_os.Task.{
  Scheduler, TaskState, ready, running, terminated, is_running, find_next_ready, switch_to, leave,
  enter, load_stack, set_state, schedule_if_needed,
}
use native.Mathlib.Nat.{mod-lt}
use matryoshka_os.Task.Search.{FirstFrom, NoneFrom, find_next_ready_lem}

abbrev pub is_ready : TaskState → Bool
is_ready ready = true
is_ready running = false
is_ready terminated = false

-- The table's invariant: `current` is a task; no other task is TASK_RUNNING, and it is not
-- TASK_READY.
pub record IsValid (s : Scheduler) : Type 0 where
  pub current_below : s.current < s.count
  pub count_small : s.count ≤ 64
  pub alone : (i : ℕ) → i < s.count → i ≢ s.current → is_running (s.tasks i).state ≡ false
  pub active : is_ready (s.tasks s.current).state ≡ false

-- What becomes of the state of the task that is switched away from.
abbrev pub preempted : TaskState → TaskState
preempted state = if is_running state then ready else state

module _ (s : Scheduler) (esp next : ℕ) (other : next ≢ s.current) where
  next-switch_to : ((switch_to s esp next).1.tasks next) ≡ record (s.tasks next) { state = running }
  unfolding switch_to leave enter load_stack set_state
  next-switch_to = rw (==_self next, ==_ne s.current next (λ e. other (sym e))) refl

  current-switch_to :
      ((switch_to s esp next).1.tasks s.current)
      ≡ record (s.tasks s.current) { esp = esp; state = preempted (s.tasks s.current).state }
  unfolding switch_to leave enter load_stack set_state
  current-switch_to = rw (==_self s.current, ==_ne next s.current other) refl

  other-switch_to :
      (i : ℕ) → i ≢ next → i ≢ s.current → (switch_to s esp next).1.tasks i ≡ s.tasks i
  unfolding switch_to leave enter load_stack set_state
  other-switch_to i a b =
      rw (==_ne next i (λ e. a (sym e)), ==_ne s.current i (λ e. b (sym e))) refl

-- `s'` is `s` after a switch from `current`, whose stack pointer was `esp`, to `next`.
pub record Switched (s : Scheduler) (esp next : ℕ) (s' : Scheduler) : Type 0 where
  pub moved : s'.current ≡ next
  pub entered : s'.tasks next ≡ record (s.tasks next) { state = running }
  pub left :
      s'.tasks s.current
      ≡ record (s.tasks s.current) { esp = esp; state = preempted (s.tasks s.current).state }
  pub others : (i : ℕ) → i ≢ next → i ≢ s.current → s'.tasks i ≡ s.tasks i
  pub same_count : s'.count ≡ s.count
  pub still_ready : s'.scheduler_ready ≡ s.scheduler_ready
  pub stack_loaded : s'.tss_esp0 ≡ (
      if not ((s.tasks next).kernel_stack_top == 0)
      then (s.tasks next).kernel_stack_top
      else s.tss_esp0)

-- The index that was found is another task's.
chosen_index :
    {s : Scheduler} {rounds r : ℕ}
    → FirstFrom s s.current 1 rounds r
    → 0 < s.count
    → (r < s.count) × (r ≢ s.current)
chosen_index {s} {rounds} {r} f pos = (
  subst (λ (x : ℕ). x < s.count) (sym f.at) (mod-lt (s.current + f.place) pos),
  λ e. ground (arith, f.chosen, ==_eq r s.current e),
)

switch_to-Switched :
    (s : Scheduler) (esp next : ℕ)
    → next ≢ s.current
    → ((switch_to s esp next).0 ≡ (s.tasks next).esp) × Switched s esp next (switch_to s esp next).1
unfolding switch_to leave enter load_stack set_state
switch_to-Switched s esp next other = (
  rw (==_self next, ==_ne s.current next (λ e. other (sym e))) refl,
  record {
    moved = refl;
    entered = next-switch_to s esp next other;
    left = current-switch_to s esp next other;
    others = other-switch_to s esp next other;
    same_count = refl;
    still_ready = refl;
    stack_loaded = rw (==_self next, ==_ne s.current next (λ e. other (sym e))) refl;
  },
)

preempted_idle : (state : TaskState) → is_running (preempted state) ≡ false
preempted_idle ready = refl
preempted_idle running = refl
preempted_idle terminated = refl

Switched-IsValid :
    (s : Scheduler) (esp next : ℕ) (s' : Scheduler)
    → IsValid s
    → next < s.count
    → next ≢ s.current
    → Switched s esp next s'
    → IsValid s'
Switched-IsValid s esp next s' v lt other w = record {
  current_below = omega (arith, w.moved, w.same_count, lt);
  count_small = omega (arith, w.same_count, v.count_small);
  alone = λ i below apart. elim (ℕ_discrete i s.current) [
    | yes e ↦ rw (e, w.left) (preempted_idle (s.tasks s.current).state)
    | no ne ↦
        rw (w.others i (λ e. apart (e ∙ sym w.moved)) ne)
          (v.alone i (omega (arith, w.same_count)) ne)
  ];
  active = rw (w.moved, w.entered) refl;
}

-- What `task_schedule_if_needed` did to `s`, for each of its ways out.
abbrev pub Scheduled : Scheduler → ℕ → ℕ × Scheduler → Type 0
Scheduled s esp r =
    ((s.scheduler_ready && s.need_reschedule ≡ false) × (r ≡ (esp, s)))
    ⊎ ((s.scheduler_ready && s.need_reschedule ≡ true)
        × ((r ≡ (esp, record s { need_reschedule = false })) × NoneFrom s s.current 1 s.count))
    ⊎ ((s.scheduler_ready && s.need_reschedule ≡ true)
        × ((r.1.need_reschedule ≡ false)
            × ((next : ℕ) × (FirstFrom s s.current 1 s.count next
                  × ((r.0 ≡ (s.tasks next).esp) × Switched s esp next r.1)))))

module _ (s : Scheduler) (esp : ℕ) where
  unrequested : Scheduler
  unrequested = record s { need_reschedule = false }

  schedule-off :
      s.scheduler_ready && s.need_reschedule ≡ false → schedule_if_needed s esp ≡ (esp, s)
  unfolding schedule_if_needed
  schedule-off off = rw off refl

  schedule-stay :
      s.scheduler_ready && s.need_reschedule ≡ true
      → find_next_ready unrequested ≡ s.current
      → schedule_if_needed s esp ≡ (esp, unrequested)
  unfolding schedule_if_needed unrequested
  schedule-stay on same = rw (on, ==_eq _ _ same) refl

  schedule-switch :
      s.scheduler_ready && s.need_reschedule ≡ true
      → find_next_ready unrequested ≢ s.current
      → schedule_if_needed s esp ≡ switch_to unrequested esp (find_next_ready unrequested)
  unfolding schedule_if_needed unrequested
  schedule-switch on other = rw (on, ==_ne _ _ other) refl

  -- The request is no part of the table.
  FirstFrom-unrequested :
      (next : ℕ)
      → FirstFrom unrequested s.current 1 s.count next
      → FirstFrom s s.current 1 s.count next
  unfolding unrequested
  FirstFrom-unrequested next f = record {
    place = f.place;
    from = f.from;
    below = f.below;
    at = f.at;
    chosen = f.chosen;
    earlier = f.earlier;
  }

  Switched-unrequested :
      (next : ℕ) (s' : Scheduler) → Switched unrequested esp next s' → Switched s esp next s'
  unfolding unrequested
  Switched-unrequested next s' w = record {
    moved = w.moved;
    entered = w.entered;
    left = w.left;
    others = w.others;
    same_count = w.same_count;
    still_ready = w.still_ready;
    stack_loaded = w.stack_loaded;
  }

  IsValid-unrequested : IsValid s → IsValid unrequested
  unfolding unrequested
  IsValid-unrequested v = record {
    current_below = v.current_below;
    count_small = v.count_small;
    alone = v.alone;
    active = v.active;
  }

  dropped_on_switch : (next : ℕ) → (switch_to unrequested esp next).1.need_reschedule ≡ false
  unfolding switch_to leave enter load_stack set_state unrequested
  dropped_on_switch next = refl

  Outcome : ℕ × Scheduler → Type 0
  Outcome r = IsValid r.1 × Scheduled s esp r

  search :
      IsValid s
      → FirstFrom unrequested s.current 1 s.count (find_next_ready unrequested)
        ⊎ ((find_next_ready unrequested ≡ s.current) × NoneFrom unrequested s.current 1 s.count)
  unfolding unrequested
  search v = find_next_ready_lem unrequested v.current_below v.count_small

  schedule-Outcome :
      s.scheduler_ready && s.need_reschedule ≡ true → IsValid s → Outcome (schedule_if_needed s esp)
  unfolding Outcome unrequested
  schedule-Outcome on v = elim (search v) [
    | inl f ↦
        let next : ℕ = find_next_ready unrequested in
        let (lt, other) = chosen_index f (omega (arith, v.current_below)) in
        let (esp_eq, w) = switch_to-Switched unrequested esp next other in
        subst Outcome (sym (schedule-switch on other)) (
          Switched-IsValid unrequested esp next _ (IsValid-unrequested v) lt other w,
          inr (
              inr (
                on,
                (
                  dropped_on_switch next,
                  (next, (FirstFrom-unrequested next f, (esp_eq, Switched-unrequested next _ w))),
                ),
              )),
        )
    | inr (same, nothing) ↦
        subst Outcome (sym (schedule-stay on same))
          (IsValid-unrequested v, inr (inl (on, (refl, nothing))))
  ]

-- `task_schedule_if_needed`, on a valid table, leaves a valid table: no two tasks are running. It
-- changes nothing before `task_init` or if no switch was asked for, and does one of the following
-- only if it is after `task_init` and a switch was asked for. If no other task is runnable it
-- returns the stack pointer that it got and only drops the request; else it drops the request and switches
-- to the next runnable task in cyclic order: it returns the stack pointer that was saved for it,
-- makes it the running one, saves the old task's stack pointer, turns the old task from running to
-- ready (a terminated one stays terminated), sets the interrupt stack if the new task has one, and
-- leaves every other task as it was.
pub schedule_if_needed_lem :
    (s : Scheduler) (esp : ℕ)
    → IsValid s
    → IsValid (schedule_if_needed s esp).1 × Scheduled s esp (schedule_if_needed s esp)
unfolding Outcome
schedule_if_needed_lem s esp v = elim (Bool-cases (s.scheduler_ready && s.need_reschedule)) [
  | inl on ↦ schedule-Outcome s esp on v
  | inr off ↦ subst (Outcome s esp) (sym (schedule-off s esp off)) (v, inl (off, refl))
]
