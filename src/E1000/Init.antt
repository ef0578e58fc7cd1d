-- ===== src/E1000/Init.antt =====
-- kernel/drivers/e1000.c: finding the card on the bus, its reset, its address and the set-up of the
-- rings. What the card's registers answer is the argument `Seen`; the busy loop after the reset does
-- nothing here.
pub mod Rings
use matryoshka_os.Prelude.{
  ℕ, zero, suc, ◌+◌, ◌-◌, ◌*◌, ◌/◌, ◌%◌, ◌^◌, bit_and, bit_or, Bool, true, false, not, Option, none,
  some, List, ◌∷◌, update, ◌==◌, if◌then◌else◌,
}
use matryoshka_os.Io.{Machine}
use matryoshka_os.Pci.{PciDevice, read16, write16, find_device}
use matryoshka_os.Vmm.{Vmm}
use matryoshka_os.Vmm
use matryoshka_os.E1000.{
  Nic, RxDesc, TxDesc, num_rx_desc, num_tx_desc, reg_rdt, reg_tdt, read_mac_ral,
}

-- E1000_VENDOR, E1000_DEVICE, PCI_COMMAND
abbrev pub e1000_vendor : ℕ
e1000_vendor = 0x8086

abbrev pub e1000_device : ℕ
e1000_device = 0x100E

abbrev pub pci_command : ℕ
pci_command = 0x04

-- A write of a register.
abbrev pub put : Nic → ℕ → ℕ → Nic
put s reg v = record s { written = (reg, v) ∷ s.written }

-- What the registers answer: CTRL at the reset and at the link, EEPROM at each poll, RAL0 and RAH0.
pub record Seen : Type 0 where
  pub ctrl_reset : ℕ
  pub ctrl_link : ℕ
  pub eeprom : ℕ → ℕ
  pub ral : ℕ
  pub rah : ℕ

-- `do { val = ... } while (!(val & (1 << 4)) && --timeout > 0)`: the value and the number of the next
-- poll, or `none` after a timeout.
unfoldable pub wait_eeprom : ℕ → (ℕ → ℕ) → ℕ → Option (ℕ × ℕ)
wait_eeprom zero seen k = none
wait_eeprom (suc timeout) seen k =
    let rest = wait_eeprom timeout seen (k + 1) in
    if not (bit_and (seen k) 0x10 == 0) then some (seen k, k + 1) else rest

-- Two bytes of the address, from the word `i`.
abbrev pub put_mac_word : Nic → ℕ → ℕ → Nic
put_mac_word s i val = record s {
  mac_addr =
      update (update s.mac_addr (i * 2) (val / 2 ^ 16 % 2 ^ 8)) (i * 2 + 1) (val / 2 ^ 24 % 2 ^ 8);
}

-- The loop of `read_mac_eeprom`, with `rounds` of 3 words left.
unfoldable pub read_mac_from : ℕ → Nic → (ℕ → ℕ) → ℕ → ℕ → Bool × Nic
unfolding wait_eeprom
read_mac_from zero s seen i k = (true, s)
read_mac_from (suc rounds) s seen i k =
    let t = put s 0x14 (bit_or 1 (i * 2 ^ 8)) in
    elim (wait_eeprom 10000 seen k) [
      | none ↦ (false, t)
      | some (val, k') ↦ read_mac_from rounds (put_mac_word t i val) seen (i + 1) k'
    ]

unfoldable pub read_mac_eeprom : Nic → (ℕ → ℕ) → Bool × Nic
unfolding read_mac_from
read_mac_eeprom s seen = read_mac_from 3 s seen 0 0

-- The loop of `init_rx`, with `rounds` descriptors left. The address of a buffer is its index.
pub reset_rx : (ℕ → RxDesc) → ℕ → ℕ → ℕ → RxDesc
reset_rx d zero i = d
reset_rx d (suc rounds) i = reset_rx (update d i (record (d i) { status = 0 })) rounds (i + 1)

-- `rx_at` is the address of `rx_descs`. The registers: RDBAL, RDBAH, RDLEN, RDH, RDT, RCTL.
pub init_rx : Nic → ℕ → Nic
unfolding reset_rx
init_rx s rx_at =
    let t = record s { rx_descs = reset_rx s.rx_descs num_rx_desc 0 } in
    let ring = put (put (put t 0x2800 rx_at) 0x2804 0) 0x2808 (num_rx_desc * 16) in
    let placed = put (put ring 0x2810 0) reg_rdt (num_rx_desc - 1) in
    put (record placed { rx_cur = 0 }) 0x0100 (2 ^ 1 + 2 ^ 15 + 2 ^ 26)

-- The loop of `memset` over the descriptors, with `rounds` left.
pub reset_tx : (ℕ → TxDesc) → ℕ → ℕ → ℕ → TxDesc
reset_tx d zero i = d
reset_tx d (suc rounds) i =
    reset_tx (update d i (record { address = 0; length = 0; cmd = 0; status = 0 })) rounds (i + 1)

-- `tx_at` is the address of `tx_descs`. The registers: TDBAL, TDBAH, TDLEN, TDH, TDT, TCTL.
pub init_tx : Nic → ℕ → Nic
unfolding reset_tx
init_tx s tx_at =
    let t = record s { tx_descs = reset_tx s.tx_descs num_tx_desc 0 } in
    let ring = put (put (put t 0x3800 tx_at) 0x3804 0) 0x3808 (num_tx_desc * 16) in
    let placed = put (put ring 0x3810 0) reg_tdt 0 in
    put (record placed { tx_cur = 0 }) 0x0400 (2 ^ 1 + 2 ^ 3 + 15 * 2 ^ 4 + 64 * 2 ^ 12)

-- The multicast table, with `rounds` of 128 words left.
pub clear_multicast : Nic → ℕ → ℕ → Nic
clear_multicast s zero i = s
clear_multicast s (suc rounds) i = clear_multicast (put s (0x5200 + i * 4) 0) rounds (i + 1)

-- The pages of the registers, with `rounds` of 32 left: present, writable, not cached.
pub map_registers : Vmm → ℕ → ℕ → ℕ → Vmm
map_registers v bar0 zero off = v
map_registers v bar0 (suc rounds) off =
    let at = (bar0 + off) % 2 ^ 32 in
    map_registers (Vmm.map v at at 0x13).1 bar0 rounds (off + 4096)

-- The card from its reset on: CTRL, IMC, the address, the rings, CTRL.
pub set_up_card : Nic → Seen → ℕ → ℕ → Nic
unfolding clear_multicast init_rx init_tx read_mac_eeprom
set_up_card s seen rx_at tx_at =
    let reset = put (put s 0 (bit_or seen.ctrl_reset (2 ^ 26))) 0x00D8 0xFFFFFFFF in
    let (found, named) = read_mac_eeprom reset seen.eeprom in
    let addressed = if not found then read_mac_ral named seen.ral seen.rah else named in
    let rings = init_tx (init_rx (clear_multicast addressed 128 0) rx_at) tx_at in
    record (put rings 0 (bit_or seen.ctrl_link (2 ^ 6))) {
      initialised = true;
      stat_rx = 0;
      stat_tx = 0;
    }

module _ (m : Machine) where
  -- `e1000_init` with the device, or without: whether it returns 0, the ports, the paging and the
  -- driver.
  pub init_device :
      m.State → Vmm → Nic → Seen → ℕ → ℕ → Option PciDevice → Bool × m.State × Vmm × Nic
  unfolding map_registers set_up_card
  init_device t v s seen rx_at tx_at none = (false, t, v, s)
  init_device t v s seen rx_at tx_at (some dev) =
      let cmd = read16 m t dev.bus dev.slot dev.func pci_command in
      let u = write16 m cmd.1 dev.bus dev.slot dev.func pci_command (bit_or cmd.0 (bit_or 2 4)) in
      (true, u, map_registers v dev.bar0 32 0, set_up_card s seen rx_at tx_at)

  pub e1000_init : m.State → Vmm → Nic → Seen → ℕ → ℕ → Bool × m.State × Vmm × Nic
  unfolding init_device
  e1000_init t v s seen rx_at tx_at =
      let r = find_device m t e1000_vendor e1000_device in init_device r.1 v s seen rx_at tx_at r.0
