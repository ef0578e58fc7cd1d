-- ===== src/E1000/Rings.antt =====
-- kernel/drivers/e1000.c: the receive ring is a queue of the frames that the card has finished.
use native.Mathlib.Decide.{ℕ_discrete}
use matryoshka_os.Prelude.{
  ℕ, suc, ◌+◌, ◌%◌, ◌<◌, ◌≤◌, ◌≡◌, ◌≢◌, inr, refl, sym, ap, ◌∙◌, subst, arith, bit_and, true, false,
  some, ltb, ◌==◌, if◌then◌else◌, ==_ne, ==_self,
}
use matryoshka_os.Net.{Bytes, copy}
use matryoshka_os.Net.Copy.{copy_inside, copy_outside}
use matryoshka_os.E1000.{Nic, num_rx_desc, status_dd, receive, release_frame}

-- The card is done with a descriptor.
abbrev pub IsDone : ℕ → Type 0
IsDone status = bit_and status status_dd ≢ 0

-- The `k`th descriptor from the current one on.
abbrev pub rx_slot : Nic → ℕ → ℕ
rx_slot s k = (s.rx_cur + k) % num_rx_desc

-- The card has finished the next `n` frames, and no more.
pub record Waiting (s : Nic) (n : ℕ) : Type 0 where
  pub current : s.rx_cur < num_rx_desc
  pub at_most : n ≤ num_rx_desc
  pub done : (k : ℕ) → k < n → IsDone (s.rx_descs (rx_slot s k)).status
  pub pending : n < num_rx_desc → ¬ IsDone (s.rx_descs (rx_slot s n)).status

pub not_done : (status : ℕ) → ¬ IsDone status → bit_and status status_dd ≡ 0
not_done status h = elim (ℕ_discrete (bit_and status status_dd) 0) [
  | yes e ↦ e
  | no ne ↦ absurd (h ne)
]

-- `e1000_receive` with nothing waiting returns 0 and changes nothing.
pub receive_empty :
    (s : Nic) (buf : Bytes) (size : ℕ)
    → s.initialised ≡ true
    → Waiting s 0
    → receive s buf size ≡ (some 0, buf, s)
unfolding receive
receive_empty s buf size up w =
    let slot : rx_slot s 0 ≡ s.rx_cur = omega (arith, w.current) in
    let status : bit_and (s.rx_descs s.rx_cur).status status_dd ≡ 0 =
      not_done (s.rx_descs s.rx_cur).status
        (subst (λ k. ¬ IsDone (s.rx_descs k).status) slot (w.pending (omega arith))) in
    ground (arith, up, status)

-- The length that `e1000_receive` returns: the frame is cut to the buffer.
abbrev pub received_length : Nic → ℕ → ℕ
received_length s size =
    if ltb size (s.rx_descs s.rx_cur).length then size else (s.rx_descs s.rx_cur).length

pub receive_ready :
    (s : Nic) (buf : Bytes) (size : ℕ)
    → s.initialised ≡ true
    → IsDone (s.rx_descs s.rx_cur).status
    → receive s buf size ≡ (
      some (received_length s size),
      copy buf 0 (s.rx_buffers s.rx_cur) 0 (received_length s size),
      release_frame s,
    )
unfolding receive
receive_ready s buf size up ready =
    let test : (bit_and (s.rx_descs s.rx_cur).status status_dd == 0) ≡ false =
      ==_ne (bit_and (s.rx_descs s.rx_cur).status status_dd) 0 ready in
    ground (arith, up, test)

-- The next descriptor but `k` is the one after, seen from the new current one.
slot_shift : (s : Nic) (k : ℕ) → rx_slot (release_frame s) k ≡ rx_slot s (suc k)
unfolding release_frame
slot_shift s k = omega arith

-- Of the other descriptors none is the one that was released.
slot_apart : (s : Nic) (k : ℕ) → s.rx_cur < num_rx_desc → k < 31 → s.rx_cur ≢ rx_slot s (suc k)
slot_apart s k h small e = omega arith

released_other : (s : Nic) (i : ℕ) → s.rx_cur ≢ i → (release_frame s).rx_descs i ≡ s.rx_descs i
unfolding release_frame
released_other s i ne = rw (==_ne s.rx_cur i ne) refl

released_current : (s : Nic) → (release_frame s).rx_cur < num_rx_desc
unfolding release_frame
released_current s = omega arith

released_status : (s : Nic) → ¬ IsDone ((release_frame s).rx_descs s.rx_cur).status
unfolding release_frame
released_status s = rw (==_self s.rx_cur) (λ h. h refl)

released_buffers : (s : Nic) (i : ℕ) → (release_frame s).rx_buffers i ≡ s.rx_buffers i
unfolding release_frame
released_buffers s i = refl

slot_kept :
    (s : Nic) (k : ℕ)
    → s.rx_cur < num_rx_desc
    → k < 31
    → (release_frame s).rx_descs (rx_slot (release_frame s) k) ≡ s.rx_descs (rx_slot s (suc k))
slot_kept s k h small =
    ap (release_frame s).rx_descs (slot_shift s k)
    ∙ released_other s (rx_slot s (suc k)) (slot_apart s k h small)

release_frame-Waiting : (s : Nic) (n : ℕ) → Waiting s (suc n) → Waiting (release_frame s) n
release_frame-Waiting s n w = record {
  current = released_current s;
  at_most = omega (arith, w.at_most);
  done = λ k h.
      subst (λ d. IsDone (d.status)) (sym (slot_kept s k w.current (omega (arith, w.at_most))))
        (w.done (suc k) (omega arith));
  pending = λ h. elim (ℕ_discrete n 31) [
    | yes e ↦
        let last : rx_slot s (suc n) ≡ s.rx_cur = omega (arith, w.current) in
        let same : (release_frame s).rx_descs (rx_slot (release_frame s) n)
            ≡ (release_frame s).rx_descs s.rx_cur =
          ap (release_frame s).rx_descs (slot_shift s n ∙ last) in
        subst (λ d. ¬ IsDone (d.status)) (sym same) (released_status s)
    | no ne ↦
        subst (λ d. ¬ IsDone (d.status)) (sym (slot_kept s n w.current (omega (arith, w.at_most))))
          (w.pending (omega arith))
  ];
}

-- `e1000_receive` with `n + 1` frames waiting takes the first: it returns its length, cut to the buffer,
-- puts that many of its bytes into the buffer and changes no byte behind them, and leaves the other
-- `n` frames waiting, in their order, with their lengths and bytes.
pub receive_lem :
    (s : Nic) (buf : Bytes) (size n : ℕ)
    → s.initialised ≡ true
    → Waiting s (suc n)
    → ((receive s buf size).0 ≡ some (received_length s size))
      × ((i : ℕ) → i < received_length s size → (receive s buf size).1 i ≡ s.rx_buffers s.rx_cur i)
      × ((i : ℕ) → received_length s size ≤ i → (receive s buf size).1 i ≡ buf i)
      × Waiting (receive s buf size).2 n
      × ((k : ℕ)
          → k < n
          → ((receive s buf size).2.rx_descs (rx_slot (receive s buf size).2 k)
              ≡ s.rx_descs (rx_slot s (suc k)))
            × ((receive s buf size).2.rx_buffers (rx_slot (receive s buf size).2 k)
                ≡ s.rx_buffers (rx_slot s (suc k))))
receive_lem s buf size n up w =
    let slot : rx_slot s 0 ≡ s.rx_cur = omega (arith, w.current) in
    let ready : IsDone (s.rx_descs s.rx_cur).status =
      subst (λ k. IsDone (s.rx_descs k).status) slot (w.done 0 (omega arith)) in
    let len : ℕ = received_length s size in
    subst
      (λ r.
        (r.0 ≡ some len)
        × ((i : ℕ) → i < len → r.1 i ≡ s.rx_buffers s.rx_cur i)
        × ((i : ℕ) → len ≤ i → r.1 i ≡ buf i)
        × Waiting r.2 n
        × ((k : ℕ)
            → k < n
            → (r.2.rx_descs (rx_slot r.2 k) ≡ s.rx_descs (rx_slot s (suc k)))
              × (r.2.rx_buffers (rx_slot r.2 k) ≡ s.rx_buffers (rx_slot s (suc k)))))
      (sym (receive_ready s buf size up ready))
      (
        refl,
        λ i h.
            let from_zero : 0 + i ≡ i = omega arith in
            rw from_zero at (copy_inside buf 0 (s.rx_buffers s.rx_cur) 0 len i h),
        λ i h. copy_outside buf 0 (s.rx_buffers s.rx_cur) 0 len i (inr (omega arith)),
        release_frame-Waiting s n w,
        λ k h. (
          slot_kept s k w.current (omega (arith, w.at_most)),
          released_buffers s (rx_slot (release_frame s) k) ∙ ap s.rx_buffers (slot_shift s k),
        ),
      )

-- What receiving leaves alone.
pub release_frame-sending :
    (s : Nic)
    → ((release_frame s).initialised ≡ s.initialised) × ((release_frame s).tx_cur ≡ s.tx_cur)
unfolding release_frame
release_frame-sending s = (refl, refl)
