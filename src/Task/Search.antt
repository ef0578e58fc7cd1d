-- ===== src/Task/Search.antt =====
-- `find_next_ready` of kernel/proc/task.c: the search in cyclic order.
use native.Mathlib.Decide.{ℕ_discrete}
use matryoshka_os.Prelude.{
  ℕ, zero, suc, ◌+◌, ◌%◌, ◌^◌, ◌≤◌, ◌<◌, ◌≡◌, refl, sym, ap, ◌∙◌, ◌⊎◌, inl, inr, Bool, true, false,
  not, ◌&&◌, arith, ◌==◌, Bool-cases, subst,
}
use matryoshka_os.Task.{Scheduler, is_runnable, find_next, find_next_ready, next_index}
use native.Mathlib.Nat.{mod-add-mod, mod-eq_of_lt, mod-lt}

-- A task that `find_next_ready` may pick.
abbrev pub choosable : Scheduler → ℕ → Bool
choosable s i = not (i == s.current) && is_runnable (s.tasks i).state

-- The index `k` places after `a`, round the table.
abbrev pub around : Scheduler → ℕ → ℕ → ℕ
around s a k = (a + k) % s.count

-- `r` is the first choosable index of the ones from `k` to `k + rounds` places after `a`.
pub record FirstFrom (s : Scheduler) (a k rounds r : ℕ) : Type 0 where
  pub place : ℕ
  pub from : k ≤ place
  pub below : place < k + rounds
  pub at : r ≡ around s a place
  pub chosen : choosable s r ≡ true
  pub earlier : (i : ℕ) → k ≤ i → i < place → choosable s (around s a i) ≡ false

-- No index of those is choosable.
abbrev pub NoneFrom : Scheduler → ℕ → ℕ → ℕ → Type 0
NoneFrom s a k rounds = (i : ℕ) → k ≤ i → i < k + rounds → choosable s (around s a i) ≡ false

next_index_lem :
    (s : Scheduler) (a k : ℕ)
    → 0 < s.count
    → s.count ≤ 64
    → next_index s (around s a k) ≡ around s a (k + 1)
next_index_lem s a k pos small =
    let below : (a + k) % s.count < s.count = mod-lt (a + k) pos in
    let no_wrap : ((a + k) % s.count + 1) % 2 ^ 32 ≡ (a + k) % s.count + 1 = omega arith in
    rw no_wrap (mod-add-mod (a + k) s.count 1 ∙ ap (λ (t : ℕ). t % s.count) (omega arith))

find_next-FirstFrom :
    (s : Scheduler) (a rounds k : ℕ)
    → 0 < s.count
    → s.count ≤ 64
    → FirstFrom s a k rounds (find_next s rounds (around s a k))
      ⊎ ((find_next s rounds (around s a k) ≡ s.current) × NoneFrom s a k rounds)
unfolding find_next
find_next-FirstFrom s a zero k pos small = inr (refl, λ i from to. absurd (omega arith))
find_next-FirstFrom s a (suc rounds) k pos small = elim (Bool-cases (choosable s (around s a k))) [
  | inl hit ↦ inl (
      rw hit (record {
        place = k;
        from = omega arith;
        below = omega arith;
        at = refl;
        chosen = hit;
        earlier = λ i from to. absurd (omega arith);
      }))
  | inr miss ↦
      rw (miss, next_index_lem s a k pos small)
        (widen miss (find_next-FirstFrom s a rounds (k + 1) pos small))
]
  where
    widen :
        {r : ℕ}
        → choosable s (around s a k) ≡ false
        → FirstFrom s a (k + 1) rounds r ⊎ ((r ≡ s.current) × NoneFrom s a (k + 1) rounds)
        → FirstFrom s a k (suc rounds) r ⊎ ((r ≡ s.current) × NoneFrom s a k (suc rounds))
    widen {r} miss (inl f) = inl (record {
      place = f.place;
      from = omega (arith, f.from);
      below = omega (arith, f.below);
      at = f.at;
      chosen = f.chosen;
      earlier = λ i from to. elim (ℕ_discrete k i) [
        | yes e ↦ subst (λ (x : ℕ). choosable s (around s a x) ≡ false) e miss
        | no ne ↦ f.earlier i (omega arith) to
      ];
    })
    widen {r} miss (inr (e, nothing)) = inr (
      e,
      λ i from to. elim (ℕ_discrete k i) [
        | yes eq ↦ subst (λ (x : ℕ). choosable s (around s a x) ≡ false) eq miss
        | no ne ↦ nothing i (omega arith) (omega arith)
      ],
    )

-- `find_next_ready`, with between 1 and 64 tasks of which `current` is one, picks the first index
-- after `current`, in cyclic order, that is another task's and has a runnable task (and no index
-- before it is such); if there is none it returns `current`, and no other task is runnable.
pub find_next_ready_lem :
    (s : Scheduler)
    → s.current < s.count
    → s.count ≤ 64
    → FirstFrom s s.current 1 s.count (find_next_ready s)
      ⊎ ((find_next_ready s ≡ s.current) × NoneFrom s s.current 1 s.count)
unfolding find_next_ready
find_next_ready_lem s lt small =
    let start : next_index s s.current ≡ around s s.current 1 =
      ap (λ (t : ℕ). next_index s t)
        (sym (mod-eq_of_lt lt) ∙ ap (λ (t : ℕ). t % s.count) (omega arith))
      ∙ next_index_lem s s.current 0 (omega arith) small in
    rw start (find_next-FirstFrom s s.current s.count 1 (omega arith) small)
