-- ===== src/Task/Fair.antt =====
-- The order in which the scheduler of kernel/proc/task.c runs the tasks.
use native.Mathlib.Decide.{ℕ_discrete, dec_lt}
use native.Mathlib.Nat.{mod-add-mod, mod-eq_of_lt, add-mod_right}
use matryoshka_os.Prelude.{
  ℕ, ◌+◌, ◌-◌, ◌%◌, ◌≤◌, ◌<◌, ◌≡◌, ◌≢◌, refl, sym, ap, ◌∙◌, inl, inr, true, arith, subst, ==_ne,
  List, [], ◌∷◌, ◌++◌, length,
}
use matryoshka_os.Task.{
  Scheduler, is_runnable, yield, yield_interrupt, request_reschedule, schedule_if_needed,
}
use matryoshka_os.Task.Search.{FirstFrom, choosable, around}
use matryoshka_os.Task.Switch.{IsValid, Switched, Scheduled, schedule_if_needed_lem}

-- The scheduler after a timer tick or a yield for each stack pointer of the list.
pub run : Scheduler → List ℕ → Scheduler
run s [] = s
run s (esp ∷ esps) = run (yield s esp).1 esps

-- One switch on the way to task `t`.
record Step (s : Scheduler) (d t : ℕ) (s' : Scheduler) : Type 0 where
  place : ℕ
  positive : 1 ≤ place
  within : place ≤ d
  now : s'.current ≡ around s s.current place
  valid : IsValid s'
  still_on : s'.scheduler_ready ≡ true
  same_count : s'.count ≡ s.count
  waiting : is_runnable (s'.tasks t).state ≡ true

module _ (s : Scheduler) (esp d t : ℕ) (v : IsValid s) (on : s.scheduler_ready ≡ true)
    (wait : is_runnable (s.tasks t).state ≡ true) (other : t ≢ s.current)
    (at : t ≡ around s s.current d) (pos : 0 < d) (near : d ≤ s.count) where
  asked : Scheduler
  asked = request_reschedule s

  choosable_here : choosable s (around s s.current d) ≡ true
  choosable_here =
      subst (λ (x : ℕ). choosable s x ≡ true) at (rw (==_ne t s.current other, wait) refl)

  runnable_after :
      (next : ℕ) (s' : Scheduler)
      → Switched asked esp next s'
      → is_runnable (s'.tasks t).state ≡ true
  unfolding asked request_reschedule
  runnable_after next s' w = elim (ℕ_discrete t next) [
    | yes e ↦ rw (e, w.entered) refl
    | no ne ↦ rw (w.others t ne other) wait
  ]

  asked-IsValid : IsValid asked
  unfolding asked request_reschedule
  asked-IsValid = record {
    current_below = v.current_below;
    count_small = v.count_small;
    alone = v.alone;
    active = v.active;
  }

  -- The task that was found is not behind `t`.
  not_behind :
      (next : ℕ)
      → FirstFrom asked s.current 1 s.count next
      → (p : ℕ) × ((1 ≤ p) × ((p ≤ d) × (next ≡ around s s.current p)))
  unfolding asked request_reschedule
  not_behind next f = elim (dec_lt d f.place) [
    | yes lt ↦ absurd (ground (arith, f.earlier d (omega arith) lt, choosable_here))
    | no le ↦ (f.place, (f.from, (omega arith, f.at)))
  ]

  Step-from : (r : ℕ × Scheduler) → IsValid r.1 → Scheduled asked esp r → Step s d t r.1
  unfolding asked request_reschedule
  Step-from r v' (inl (off, e)) = absurd (ground (arith, on, off))
  Step-from r v' (inr (inl (asked_for, (e, nothing)))) =
      absurd (ground (arith, nothing d (omega arith) (omega arith), choosable_here))
  Step-from r v' (inr (inr (asked_for, (dropped, (next, (f, (esp_eq, w))))))) =
      let (p, (from, (within, at_p))) = not_behind next f in
      record {
        place = p;
        positive = from;
        within = within;
        now = w.moved ∙ at_p;
        valid = v';
        still_on = w.still_ready ∙ on;
        same_count = w.same_count;
        waiting = runnable_after next r.1 w;
      }

  step : Step s d t (yield s esp).1
  unfolding yield yield_interrupt asked
  step =
      let (v', o) = schedule_if_needed_lem asked esp asked-IsValid in
      Step-from (schedule_if_needed asked esp) v' o

-- A run that reaches task `t`.
abbrev pub Reaches : Scheduler → List ℕ → ℕ → Type 0
Reaches s esps t =
    (first : List ℕ) × (rest : List ℕ) × ((esps ≡ first ++ rest) × ((run s first).current ≡ t))

around_zero : (s : Scheduler) → IsValid s → around s s.current 0 ≡ s.current
around_zero s v = ap (λ (x : ℕ). x % s.count) (omega arith) ∙ mod-eq_of_lt v.current_below

-- After a step the task is closer.
around-Step :
    {s s' : Scheduler} {d t : ℕ}
    → (st : Step s d t s') → t ≡ around s s.current d
    → t ≡ around s' s'.current (d - st.place)
around-Step {s} {s'} {d} {t} st at =
    let together : s.current + st.place + (d - st.place) ≡ s.current + d =
      omega (arith, st.within) in
    rw (st.same_count, st.now)
      (at
        ∙ ap (λ (x : ℕ). x % s.count) (sym together)
        ∙ sym (mod-add-mod (s.current + st.place) s.count (d - st.place)))

reach :
    (esps : List ℕ) (s : Scheduler) (d t : ℕ)
    → IsValid s
    → s.scheduler_ready ≡ true
    → is_runnable (s.tasks t).state ≡ true
    → t ≡ around s s.current d
    → d ≤ s.count
    → d ≤ length esps
    → Reaches s esps t
unfolding run
reach [] s d t v on wait at near long =
    let none_left : d ≡ 0 = omega arith in
    ([], [], (refl, sym (at ∙ ap (λ (x : ℕ). around s s.current x) none_left ∙ around_zero s v)))
reach (esp ∷ esps) s d t v on wait at near long = elim (ℕ_discrete t s.current) [
  | yes e ↦ ([], esp ∷ esps, (refl, sym e))
  | no other ↦ elim (ℕ_discrete d 0) [
    | yes e ↦ absurd (other (at ∙ ap (λ (x : ℕ). around s s.current x) e ∙ around_zero s v))
    | no ne ↦
        let st : Step s d t (yield s esp).1 =
          step s esp d t v on wait other at (omega arith) near in
        let (first, rest, (e, here)) =
          reach esps (yield s esp).1 (d - st.place) t st.valid st.still_on st.waiting
            (around-Step st at) (omega (arith, st.same_count, near))
            (omega (arith, st.positive, long)) in
        (esp ∷ first, rest, (ap (λ (l : List ℕ). esp ∷ l) e, here))
  ]
]

-- No task starves: on a valid table, once the scheduler is set up, a task that can run is the current
-- one after at most as many switches (timer ticks or yields, whatever the stack pointers) as there
-- are tasks, if no task ends in between.
pub task_gets_turn :
    (s : Scheduler) (t : ℕ) (esps : List ℕ)
    → IsValid s
    → s.scheduler_ready ≡ true
    → t < s.count
    → is_runnable (s.tasks t).state ≡ true
    → s.count ≤ length esps
    → Reaches s esps t
task_gets_turn s t esps v on lt wait long = elim (dec_lt t s.current) [
  | yes before ↦
      reach esps s (t + s.count - s.current) t v on wait (wrapped before)
        (omega (arith, v.current_below)) (omega (arith, v.current_below))
  | no after ↦ reach esps s (t - s.current) t v on wait (ahead after) (omega arith) (omega arith)
]
  where
    wrapped : t < s.current → t ≡ around s s.current (t + s.count - s.current)
    wrapped before = sym (
        ap (λ (x : ℕ). x % s.count) (omega (arith, v.current_below))
        ∙ add-mod_right t s.count
        ∙ mod-eq_of_lt lt)

    ahead : ¬ (t < s.current) → t ≡ around s s.current (t - s.current)
    ahead after = sym (ap (λ (x : ℕ). x % s.count) (omega arith) ∙ mod-eq_of_lt lt)
