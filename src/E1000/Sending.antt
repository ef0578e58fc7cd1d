-- ===== src/E1000/Sending.antt =====
-- kernel/drivers/e1000.c: a frame to send goes into the next descriptor.
use native.Mathlib.Decide.{ℕ_discrete}
use matryoshka_os.Prelude.{
  ℕ, zero, suc, ◌+◌, ◌%◌, ◌^◌, ◌<◌, ◌≤◌, ◌≡◌, ◌≢◌, inl, inr, refl, sym, subst, arith, Bool-cases,
  bit_and, true, false, none, some, ◌∷◌, ==_eq, ==_ne, ==_self,
}
use matryoshka_os.E1000.{
  Nic, num_tx_desc, status_dd, tx_command, reg_tdt, wait_done, queue_frame, send,
}
use matryoshka_os.E1000.Rings.{IsDone, not_done}

wait_done-true :
    (rounds : ℕ) (polled : ℕ → ℕ) (i k : ℕ)
    → i ≤ k
    → k < i + rounds
    → IsDone (polled k)
    → wait_done rounds polled i ≡ true
unfolding wait_done
wait_done-true zero polled i k from to finished = absurd (omega arith)
wait_done-true (suc rounds) polled i k from to finished = elim (ℕ_discrete i k) [
  | yes e ↦
      let here : bit_and (polled i) status_dd ≢ 0 =
        subst (λ j. IsDone (polled j)) (sym e) finished in
      rw (==_ne (bit_and (polled i) status_dd) 0 here) refl
  | no ne ↦
      let rest : wait_done rounds polled (i + 1) ≡ true =
        wait_done-true rounds polled (i + 1) k (omega arith) (omega arith) finished in
      ground (arith, rest)
]

wait_done-false :
    (rounds : ℕ) (polled : ℕ → ℕ) (i : ℕ)
    → ((k : ℕ) → i ≤ k → k < i + rounds → ¬ IsDone (polled k))
    → wait_done rounds polled i ≡ false
unfolding wait_done
wait_done-false zero polled i never = refl
wait_done-false (suc rounds) polled i never =
    let here : bit_and (polled i) status_dd ≡ 0 =
      not_done (polled i) (never i (omega arith) (omega arith)) in
    let rest : wait_done rounds polled (i + 1) ≡ false =
      wait_done-false rounds polled (i + 1) (λ k from to. never k (omega arith) (omega arith)) in
    rw (==_eq (bit_and (polled i) status_dd) 0 here) rest

-- The driver after a frame was handed to the card, and `counted` of them counted.
abbrev pub Queued : Nic → Nic → ℕ → ℕ → ℕ → Type 0
Queued s t frame_at len counted =
    ((t.tx_descs s.tx_cur).address ≡ frame_at)
    × ((t.tx_descs s.tx_cur).length ≡ len)
    × ((t.tx_descs s.tx_cur).cmd ≡ tx_command)
    × ((t.tx_descs s.tx_cur).status ≡ 0)
    × ((i : ℕ) → s.tx_cur ≢ i → t.tx_descs i ≡ s.tx_descs i)
    × (t.tx_cur ≡ (s.tx_cur + 1) % num_tx_desc)
    × (t.written ≡ (reg_tdt, t.tx_cur) ∷ s.written)
    × (t.stat_tx ≡ (s.stat_tx + counted) % 2 ^ 32)

queue_frame-Queued :
    (s : Nic) (frame_at : ℕ) (len : ℕ)
    → s.stat_tx < 2 ^ 32
    → Queued s (queue_frame s frame_at len) frame_at len 0
      × Queued s
          (record (queue_frame s frame_at len) {
            stat_tx = ((queue_frame s frame_at len).stat_tx + 1) % 2 ^ 32;
          })
          frame_at
          len
          1
unfolding queue_frame
queue_frame-Queued s frame_at len h = rw (==_self s.tx_cur) (
  (refl, refl, refl, refl, λ i ne. rw (==_ne s.tx_cur i ne) refl, refl, refl, omega arith),
  (refl, refl, refl, refl, λ i ne. rw (==_ne s.tx_cur i ne) refl, refl, refl, omega arith),
)

send_done :
    (s : Nic) (frame_at : ℕ) (len : ℕ) (polled : ℕ → ℕ)
    → s.initialised ≡ true
    → len ≤ 1518
    → wait_done 100000 polled 0 ≡ true
    → send s frame_at len polled ≡ (
      some len,
      record (queue_frame s frame_at len) {
        stat_tx = ((queue_frame s frame_at len).stat_tx + 1) % 2 ^ 32;
      },
    )
unfolding send
send_done s frame_at len polled up small finished = ground (arith, up, finished)

send_timeout :
    (s : Nic) (frame_at : ℕ) (len : ℕ) (polled : ℕ → ℕ)
    → s.initialised ≡ true
    → len ≤ 1518
    → wait_done 100000 polled 0 ≡ false
    → send s frame_at len polled ≡ (none, queue_frame s frame_at len)
unfolding send
send_timeout s frame_at len polled up small late = ground (arith, up, late)

-- `e1000_send` of at most 1518 bytes hands the address of the frame to the card in the current
-- descriptor, moves on to the next one and tells the card, and changes no other descriptor. If one of the first 100000 polls
-- finds the descriptor done, it returns the length and counts the frame; if none does, it returns -1
-- and does not count it, though the card still has the address.
pub send_lem :
    (s : Nic) (frame_at : ℕ) (len : ℕ) (polled : ℕ → ℕ)
    → s.initialised ≡ true
    → len ≤ 1518
    → s.stat_tx < 2 ^ 32
    → ((k : ℕ)
        → k < 100000
        → IsDone (polled k)
        → ((send s frame_at len polled).0 ≡ some len)
          × Queued s (send s frame_at len polled).1 frame_at len 1)
      × (((k : ℕ) → k < 100000 → ¬ IsDone (polled k))
          → ((send s frame_at len polled).0 ≡ none)
            × Queued s (send s frame_at len polled).1 frame_at len 0)
send_lem s frame_at len polled up small count =
    let queued = queue_frame-Queued s frame_at len count in
    (
      λ k below finished.
          subst (λ r. (r.0 ≡ some len) × Queued s r.1 frame_at len 1)
            (sym (
              send_done s frame_at len polled up small
                (wait_done-true 100000 polled 0 k (omega arith) (omega arith) finished)))
            (refl, queued.1),
      λ never.
          subst (λ r. (r.0 ≡ none) × Queued s r.1 frame_at len 0)
            (sym (
              send_timeout s frame_at len polled up small
                (wait_done-false 100000 polled 0 (λ k from to. never k (omega arith)))))
            (refl, queued.0),
    )

-- Either way the address of the frame is in the descriptor.
pub send_queues :
    (s : Nic) (frame_at : ℕ) (len : ℕ) (polled : ℕ → ℕ)
    → s.initialised ≡ true
    → len ≤ 1518
    → (((send s frame_at len polled).1.tx_descs s.tx_cur).address ≡ frame_at)
      × (((send s frame_at len polled).1.tx_descs s.tx_cur).length ≡ len)
      × ((send s frame_at len polled).1.tx_cur ≡ (s.tx_cur + 1) % num_tx_desc)
unfolding queue_frame
send_queues s frame_at len polled up small = elim (Bool-cases (wait_done 100000 polled 0)) [
  | inl finished ↦
      rw (send_done s frame_at len polled up small finished, ==_self s.tx_cur) (refl, refl, refl)
  | inr late ↦
      rw (send_timeout s frame_at len polled up small late, ==_self s.tx_cur) (refl, refl, refl)
]
