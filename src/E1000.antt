-- ===== src/E1000.antt =====
-- kernel/drivers/e1000.c: sending and receiving through the rings of descriptors. The card is a
-- parameter: what it puts into the descriptors shows in `Nic` when a function starts, and in the polls of
-- a function that waits. A descriptor of a frame to send holds the address of the caller's buffer;
-- what the card finds there depends on the memory at the time (`Net.Poll`).
pub mod Rings
pub mod Sending
pub mod Init
mod Tests
use matryoshka_os.Prelude.{
  ℕ, zero, suc, ◌+◌, ◌-◌, ◌*◌, ◌/◌, ◌%◌, ◌^◌, bit_and, bit_or, Bool, true, false, not, ◌||◌, Option,
  none, some, List, ◌∷◌, update, ltb, ◌==◌, if◌then◌else◌,
}
use matryoshka_os.Net.{Bytes, copy}

-- E1000_NUM_RX_DESC, E1000_NUM_TX_DESC, REG_RDT, REG_TDT
abbrev pub num_rx_desc : ℕ
num_rx_desc = 32

abbrev pub num_tx_desc : ℕ
num_tx_desc = 8

abbrev pub reg_rdt : ℕ
reg_rdt = 0x2818

abbrev pub reg_tdt : ℕ
reg_tdt = 0x3818

-- RDESC_STA_DD and TDESC_STA_DD
abbrev pub status_dd : ℕ
status_dd = 1

-- TDESC_CMD_EOP | TDESC_CMD_IFCS | TDESC_CMD_RS
abbrev pub tx_command : ℕ
tx_command = 0xB

-- The fields of the two kinds of descriptors that the driver uses.
pub record RxDesc : Type 0 where
  pub length : ℕ
  pub status : ℕ

pub record TxDesc : Type 0 where
  pub address : ℕ
  pub length : ℕ
  pub cmd : ℕ
  pub status : ℕ

-- `written` lists the writes to the registers, the latest first.
pub record Nic : Type 0 where
  pub mac_addr : Bytes
  pub initialised : Bool
  pub rx_descs : ℕ → RxDesc
  pub tx_descs : ℕ → TxDesc
  pub rx_buffers : ℕ → Bytes
  pub rx_cur : ℕ
  pub tx_cur : ℕ
  pub stat_rx : ℕ
  pub stat_tx : ℕ
  pub written : List (ℕ × ℕ)

-- `while (!(status & DD) && --timeout > 0)`: whether it ends by the status. `polled i` is the status
-- that the `i`th poll reads.
pub wait_done : ℕ → (ℕ → ℕ) → ℕ → Bool
wait_done zero polled i = false
wait_done (suc rounds) polled i =
    let rest = wait_done rounds polled (i + 1) in
    if not (bit_and (polled i) status_dd == 0) then true else rest

-- The descriptor of the frame at the address `frame_at` and the register are written.
pub queue_frame : Nic → ℕ → ℕ → Nic
queue_frame s frame_at len =
    let next = (s.tx_cur + 1) % num_tx_desc in
    record s {
      tx_descs =
          update s.tx_descs s.tx_cur
            (record { address = frame_at; length = len; cmd = tx_command; status = 0 });
      tx_cur = next;
      written = (reg_tdt, next) ∷ s.written;
    }

-- `none` stands for -1.
pub send : Nic → ℕ → ℕ → (ℕ → ℕ) → Option ℕ × Nic
send s frame_at len polled =
    let t = queue_frame s frame_at len in
    if not s.initialised || ltb 1518 len
    then (none, s)
    else if wait_done 100000 polled 0
    then (some len, record t { stat_tx = (t.stat_tx + 1) % 2 ^ 32 })
    else (none, t)

-- The current descriptor goes back to the card.
pub release_frame : Nic → Nic
release_frame s = record s {
  rx_descs = update s.rx_descs s.rx_cur (record (s.rx_descs s.rx_cur) { status = 0 });
  rx_cur = (s.rx_cur + 1) % num_rx_desc;
  written = (reg_rdt, s.rx_cur) ∷ s.written;
  stat_rx = (s.stat_rx + 1) % 2 ^ 32;
}

-- The result, the buffer and the driver.
pub receive : Nic → Bytes → ℕ → Option ℕ × Bytes × Nic
receive s buf buf_size =
    let desc = s.rx_descs s.rx_cur in
    let len = if ltb buf_size desc.length then buf_size else desc.length in
    if not s.initialised
    then (none, buf, s)
    else if bit_and desc.status status_dd == 0
    then (some 0, buf, s)
    else (some len, copy buf 0 (s.rx_buffers s.rx_cur) 0 len, release_frame s)

pub get_mac : Nic → Bytes → Bytes
get_mac s out = copy out 0 s.mac_addr 0 6

-- `status` is what REG_STATUS gives.
pub link_up : Nic → ℕ → Bool
link_up s status = if not s.initialised then false else not (bit_and status 0x02 == 0)

-- `read_mac_ral`, from the two registers.
pub read_mac_ral : Nic → ℕ → ℕ → Nic
read_mac_ral s lo hi = record s {
  mac_addr = λ i.
      if i == 0
      then lo % 2 ^ 8
      else if i == 1
      then lo / 2 ^ 8 % 2 ^ 8
      else if i == 2
      then lo / 2 ^ 16 % 2 ^ 8
      else if i == 3
      then lo / 2 ^ 24 % 2 ^ 8
      else if i == 4
      then hi % 2 ^ 8
      else if i == 5
      then hi / 2 ^ 8 % 2 ^ 8
      else s.mac_addr i;
}
