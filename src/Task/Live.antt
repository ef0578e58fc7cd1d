-- ===== src/Task/Live.antt =====
-- kernel/proc/task.c: the table of a scheduler that was started stays valid, and stays started.
use matryoshka_os.Prelude.{ℕ, ◌≡◌, refl, ap, ◌∙◌, inl, inr, true}
use matryoshka_os.Task.{
  Scheduler, exit, yield, yield_interrupt, request_reschedule, schedule_if_needed, set_state,
}
use matryoshka_os.Task.Switch.{IsValid, Scheduled, schedule_if_needed_lem}
use matryoshka_os.Task.Exit.{stopped, stopped-IsValid}

pub record IsLive (s : Scheduler) : Type 0 where
  pub valid : IsValid s
  pub on : s.scheduler_ready ≡ true

same_on :
    (s : Scheduler) (esp : ℕ) (r : ℕ × Scheduler)
    → Scheduled s esp r
    → r.1.scheduler_ready ≡ s.scheduler_ready
same_on s esp r (inl (off, e)) = ap (λ (x : ℕ × Scheduler). x.1.scheduler_ready) e
same_on s esp r (inr (inl (asked_for, (e, nothing)))) =
    ap (λ (x : ℕ × Scheduler). x.1.scheduler_ready) e
same_on s esp r (inr (inr (asked_for, (dropped, (next, (f, (esp_eq, w))))))) = w.still_ready

pub schedule_if_needed-IsLive :
    (s : Scheduler) (esp : ℕ) → IsLive s → IsLive (schedule_if_needed s esp).1
schedule_if_needed-IsLive s esp v =
    let (valid, o) = schedule_if_needed_lem s esp v.valid in
    record { valid = valid; on = same_on s esp (schedule_if_needed s esp) o ∙ v.on }

pub request_reschedule-IsLive : (s : Scheduler) → IsLive s → IsLive (request_reschedule s)
unfolding request_reschedule
request_reschedule-IsLive s v = record {
  valid = record {
    current_below = v.valid.current_below;
    count_small = v.valid.count_small;
    alone = v.valid.alone;
    active = v.valid.active;
  };
  on = v.on;
}

stopped_on : (s : Scheduler) → (stopped s).scheduler_ready ≡ s.scheduler_ready
unfolding stopped request_reschedule set_state
stopped_on s = refl

pub exit-IsLive : (s : Scheduler) (esp : ℕ) → IsLive s → IsLive (exit s esp).1
unfolding exit yield yield_interrupt stopped
exit-IsLive s esp v =
    schedule_if_needed-IsLive (stopped s) esp
      (record { valid = stopped-IsValid s esp v.valid v.on; on = stopped_on s ∙ v.on })
