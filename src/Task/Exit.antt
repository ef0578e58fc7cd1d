-- ===== src/Task/Exit.antt =====
-- `task_exit` (kernel/proc/task.c).
use native.Mathlib.Decide.{dec_lt}
use native.Mathlib.Nat.{mod-eq_of_lt, add-mod_right, mod-lt}
use matryoshka_os.Prelude.{
  ℕ, ◌+◌, ◌-◌, ◌%◌, ◌≤◌, ◌<◌, ◌≡◌, ◌≢◌, refl, sym, ap, ◌∙◌, ◌⊎◌, inl, inr, true, false, arith,
  subst, ==_ne, ==_eq, ==_self,
}
use matryoshka_os.Task.{
  Scheduler, terminated, is_runnable, exit, yield, yield_interrupt, set_state, request_reschedule,
  schedule_if_needed,
}
use matryoshka_os.Task.Search.{NoneFrom}
use matryoshka_os.Task.Switch.{IsValid, Scheduled, schedule_if_needed_lem}

-- The table when `task_exit` asks for a switch.
unfoldable pub stopped : Scheduler → Scheduler
stopped s = request_reschedule (set_state s s.current terminated)

-- Every other index of a table is between 1 and its length places after `a`.
around_reaches :
    (a i n : ℕ) → a < n → i < n → i ≢ a → (k : ℕ) × ((1 ≤ k) × ((k < 1 + n) × ((a + k) % n ≡ i)))
around_reaches a i n ha hi other = elim (dec_lt i a) [
  | yes before ↦
      let turn : a + (i + n - a) ≡ i + n = omega arith in
      (
        i + n - a,
        (
          omega arith,
          (omega arith, ap (λ (x : ℕ). x % n) turn ∙ add-mod_right i n ∙ mod-eq_of_lt hi),
        ),
      )
  | no after ↦
      let ahead : a + (i - a) ≡ i = omega arith in
      (i - a, (omega arith, (omega arith, ap (λ (x : ℕ). x % n) ahead ∙ mod-eq_of_lt hi)))
]

module _ (s : Scheduler) (esp : ℕ) (v : IsValid s) (on : s.scheduler_ready ≡ true) where
  pub stopped-IsValid : IsValid (stopped s)
  unfolding stopped request_reschedule set_state
  stopped-IsValid = record {
    current_below = v.current_below;
    count_small = v.count_small;
    alone = λ i lt ne. rw (==_ne s.current i (λ e. ne (sym e))) (v.alone i lt ne);
    active = rw (==_self s.current) refl;
  }

  -- No task but the one that ends can run.
  abbrev NoOther : Type 0
  NoOther = (i : ℕ) → i < s.count → i ≢ s.current → is_runnable (s.tasks i).state ≡ false

  abbrev Ended : ℕ × Scheduler → Type 0
  Ended r =
      ((r.1.tasks s.current).state ≡ terminated)
      × (((r.1.current ≡ s.current) × (r.0 ≡ esp) × NoOther)
          ⊎ ((r.1.current ≢ s.current)
              × (r.1.current < s.count)
              × (is_runnable (s.tasks r.1.current).state ≡ true)
              × (r.0 ≡ (s.tasks r.1.current).esp)))

  -- The search looks at every other task.
  no_other : NoneFrom (stopped s) s.current 1 s.count → NoOther
  unfolding stopped request_reschedule set_state
  no_other nothing i lt other =
      let (k, (from, (to, at))) = around_reaches s.current i s.count v.current_below lt other in
      let unchosen = nothing k from to in
      rw (at, ==_ne i s.current other, ==_ne s.current i (λ e. other (sym e))) at unchosen

  ended : (r : ℕ × Scheduler) → Scheduled (stopped s) esp r → Ended r
  unfolding stopped request_reschedule set_state
  ended r (inl (off, e)) = absurd (ground (arith, on, off))
  ended r (inr (inl (asked_for, (e, nothing)))) =
      rw e (rw (==_self s.current) refl, inl (refl, refl, no_other nothing))
  ended r (inr (inr (asked_for, (dropped, (next, (f, (esp_eq, w))))))) =
      let other : next ≢ s.current = λ e. ground (arith, f.chosen, ==_eq next s.current e) in
      let below : next < s.count =
        subst (λ (x : ℕ). x < s.count) (sym f.at)
          (mod-lt (s.current + f.place) (omega (arith, v.current_below))) in
      (
        rw (w.left) (rw (==_self s.current) refl),
        inr (
          rw (w.moved) other,
          rw (w.moved) below,
          rw (w.moved) (
              rw (==_ne next s.current other, ==_ne s.current next (λ e. other (sym e))) at
                f.chosen),
          rw (w.moved) (esp_eq ∙ rw (==_ne s.current next (λ e. other (sym e))) refl),
        ),
      )

-- `task_exit`, on a valid table after `task_init`, leaves a valid table in which the task that called
-- it is terminated. If another task can run, the current task is then one of those, and its saved
-- stack pointer is returned. Only if no other task can run does the terminated task stay the current
-- one, with the stack pointer that it had.
pub exit_lem :
    (s : Scheduler) (esp : ℕ)
    → IsValid s
    → s.scheduler_ready ≡ true
    → IsValid (exit s esp).1
      × ((((exit s esp).1.tasks s.current).state ≡ terminated)
          × ((((exit s esp).1.current ≡ s.current)
                × ((exit s esp).0 ≡ esp)
                × ((i : ℕ) → i < s.count → i ≢ s.current → is_runnable (s.tasks i).state ≡ false))
              ⊎ (((exit s esp).1.current ≢ s.current)
                  × ((exit s esp).1.current < s.count)
                  × (is_runnable (s.tasks (exit s esp).1.current).state ≡ true)
                  × ((exit s esp).0 ≡ (s.tasks (exit s esp).1.current).esp))))
unfolding exit yield yield_interrupt stopped
exit_lem s esp v on =
    let (v', o) = schedule_if_needed_lem (stopped s) esp (stopped-IsValid s esp v on) in
    (v', ended s esp v on (schedule_if_needed (stopped s) esp) o)
