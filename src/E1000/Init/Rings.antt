-- ===== src/E1000/Init/Rings.antt =====
-- kernel/drivers/e1000.c: the rings after `e1000_init`.
use matryoshka_os.Prelude.{ℕ, ◌<◌, ◌≡◌, true}
use matryoshka_os.Vmm.{Vmm}
use matryoshka_os.E1000.{Nic, TxDesc}
use matryoshka_os.E1000.Rings.{Waiting}

-- An empty descriptor.
abbrev pub no_frame : TxDesc
no_frame = record { address = 0; length = 0; cmd = 0; status = 0 }

-- The driver is ready: both rings are empty and start at their first descriptor.
pub record Ready (s : Nic) : Type 0 where
  pub up : s.initialised ≡ true
  pub none_waits : Waiting s 0
  pub rx_empty : (k : ℕ) → k < 32 → (s.rx_descs k).status ≡ 0
  pub tx_empty : (k : ℕ) → k < 8 → s.tx_descs k ≡ no_frame
  pub rx_first : s.rx_cur ≡ 0
  pub tx_first : s.tx_cur ≡ 0
  pub no_rx : s.stat_rx ≡ 0
  pub no_tx : s.stat_tx ≡ 0
