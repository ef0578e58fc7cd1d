-- ===== src/E1000/Tests.antt =====
-- Runs of the rings, and their theorems at a concrete card.
use matryoshka_os.Prelude.{
  ◌^◌, ◌+◌, ◌*◌, ℕ, zero, suc, ◌<◌, ◌≤◌, ◌≡◌, refl, arith, true, none, some, [], ◌==◌,
  if◌then◌else◌,
}
use matryoshka_os.Net.{copy}
use matryoshka_os.E1000.{Nic, send, receive, get_mac, read_mac_ral}
use matryoshka_os.E1000.Init.{Seen, read_mac_eeprom, read_mac_from, wait_eeprom}
use matryoshka_os.E1000.Sending.{Queued, send_lem}
use matryoshka_os.E1000.Rings.{IsDone, Waiting, rx_slot, receive_lem}

-- Two frames wait, in the last descriptor and the first.
abbrev two_waiting : Nic
two_waiting = record {
  mac_addr = λ i. 0;
  initialised = true;
  rx_descs = λ k.
      if k == 31
      then record { length = 60; status = 3 }
      else if k == 0
      then record { length = 70; status = 3 }
      else record { length = 0; status = 0 };
  tx_descs = λ k. record { address = 0; length = 0; cmd = 0; status = 0 };
  rx_buffers = λ k i. k;
  rx_cur = 31;
  tx_cur = 7;
  stat_rx = 0;
  stat_tx = 4294967295;
  written = [];
}

both-IsDone : (k : ℕ) → k < 2 → IsDone (two_waiting.rx_descs (rx_slot two_waiting k)).status
both-IsDone zero h e = absurd (omega arith)
both-IsDone (suc zero) h e = absurd (omega arith)
both-IsDone (suc (suc k)) h e = absurd (omega arith)

two_waiting-Waiting : Waiting two_waiting 2
two_waiting-Waiting = record {
  current = omega arith;
  at_most = omega arith;
  done = both-IsDone;
  pending = λ h d. d refl;
}

takes_last : (receive two_waiting (λ i. 9) 2048).0 ≡ some 60
unfolding receive
takes_last = refl

mac_read : get_mac (read_mac_ral two_waiting 0x12005452 0x5634) (λ i. 0) 4 ≡ 0x34
unfolding get_mac read_mac_ral copy
mac_read = refl

receive_lem_example :
    ((receive two_waiting (λ i. 9) 64).0 ≡ some 60)
    × ((i : ℕ) → i < 60 → (receive two_waiting (λ i. 9) 64).1 i ≡ 31)
    × ((i : ℕ) → 60 ≤ i → (receive two_waiting (λ i. 9) 64).1 i ≡ 9)
    × Waiting (receive two_waiting (λ i. 9) 64).2 1
    × ((k : ℕ)
        → k < 1
        → ((receive two_waiting (λ i. 9) 64).2.rx_descs
              (rx_slot (receive two_waiting (λ i. 9) 64).2 k)
            ≡ two_waiting.rx_descs (rx_slot two_waiting (suc k)))
          × ((receive two_waiting (λ i. 9) 64).2.rx_buffers
                (rx_slot (receive two_waiting (λ i. 9) 64).2 k)
              ≡ two_waiting.rx_buffers (rx_slot two_waiting (suc k))))
receive_lem_example = receive_lem two_waiting (λ i. 9) 64 1 refl two_waiting-Waiting

send_lem_example :
    ((k : ℕ)
      → k < 100000
      → IsDone (if k == 3 then 1 else 0)
      → ((send two_waiting 0x9000 60 (λ j. if j == 3 then 1 else 0)).0 ≡ some 60)
        × Queued two_waiting
            (send two_waiting 0x9000 60 (λ j. if j == 3 then 1 else 0)).1
            0x9000
            60
            1)
    × (((k : ℕ) → k < 100000 → ¬ IsDone (if k == 3 then 1 else 0))
        → ((send two_waiting 0x9000 60 (λ j. if j == 3 then 1 else 0)).0 ≡ none)
          × Queued two_waiting
              (send two_waiting 0x9000 60 (λ j. if j == 3 then 1 else 0)).1
              0x9000
              60
              0)
send_lem_example =
    send_lem two_waiting 0x9000 60 (λ j. if j == 3 then 1 else 0) refl (omega arith) (omega arith)

abbrev answers : Seen
answers = record { ctrl_reset = 0; ctrl_link = 0; eeprom = λ k. 0; ral = 1; rah = 2 }

-- The address comes from the three words of the EEPROM.
reads_mac : (read_mac_eeprom two_waiting (λ k. 0x12340010 + k * 2 ^ 16)).1.mac_addr 2 ≡ 0x35
unfolding read_mac_eeprom read_mac_from wait_eeprom
reads_mac = refl
