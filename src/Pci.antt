-- ===== src/Pci.antt =====
-- kernel/drivers/pci.c: the configuration space of the devices on the bus, behind two ports of the
-- machine `m`: the first takes an address, the second reads and writes the register there.
pub mod Address
pub mod Registers
pub mod Find
mod Tests
use matryoshka_os.Prelude.{
  ℕ, zero, suc, ◌+◌, ◌-◌, ◌*◌, ◌/◌, ◌%◌, ◌^◌, bit_and, bit_or, ◌&&◌, Option, none, some, ◌==◌,
  if◌then◌else◌,
}
use matryoshka_os.Io.{Machine}

-- PCI_CONFIG_ADDR and PCI_CONFIG_DATA
abbrev pub config_addr : ℕ
config_addr = 0xCF8

abbrev pub config_data : ℕ
config_data = 0xCFC

-- PCI_VENDOR_ID, PCI_DEVICE_ID, PCI_BAR0, PCI_IRQ_LINE
abbrev pub vendor_id : ℕ
vendor_id = 0x00

abbrev pub device_id : ℕ
device_id = 0x02

abbrev pub bar0_at : ℕ
bar0_at = 0x10

abbrev pub irq_line_at : ℕ
irq_line_at = 0x3C

-- `pci_device_t`
pub record PciDevice : Type 0 where
  pub bus : ℕ
  pub slot : ℕ
  pub func : ℕ
  pub vendor : ℕ
  pub device : ℕ
  pub class_code : ℕ
  pub subclass : ℕ
  pub irq_line : ℕ
  pub bar0 : ℕ

pub pci_addr : ℕ → ℕ → ℕ → ℕ → ℕ
pci_addr bus slot func off =
    bit_or (bit_or (bit_or (bit_or 0x80000000 (bus * 2 ^ 16)) (slot * 2 ^ 11)) (func * 2 ^ 8))
      (bit_and off 0xFC)

-- `off & ~3` and `(off & 2) * 8`
abbrev pub aligned : ℕ → ℕ
aligned off = bit_and off (2 ^ 32 - 4)

abbrev pub shift_of : ℕ → ℕ
shift_of off = bit_and off 2 * 8

module _ (m : Machine) where
  open m use {State, outl, inl}

  pub read32 : State → ℕ → ℕ → ℕ → ℕ → ℕ × State
  read32 s bus slot func off = inl (outl s config_addr (pci_addr bus slot func off)) config_data

  pub read16 : State → ℕ → ℕ → ℕ → ℕ → ℕ × State
  read16 s bus slot func off =
      let r = read32 s bus slot func (aligned off) in (r.0 / 2 ^ shift_of off % 2 ^ 16, r.1)

  pub write32 : State → ℕ → ℕ → ℕ → ℕ → ℕ → State
  write32 s bus slot func off val =
      outl (outl s config_addr (pci_addr bus slot func off)) config_data val

  -- `~(0xFFFF << shift)` keeps the other half of the register.
  pub write16 : State → ℕ → ℕ → ℕ → ℕ → ℕ → State
  write16 s bus slot func off val =
      let r = read32 s bus slot func (aligned off) in
      let old = bit_and r.0 (2 ^ 32 - 1 - 0xFFFF * 2 ^ shift_of off) in
      write32 r.1 bus slot func (aligned off) (bit_or old (val * 2 ^ shift_of off))

  -- What is filled in once the ids match: four reads.
  pub describe : State → ℕ → ℕ → ℕ → ℕ → PciDevice × State
  describe s bus slot vid did =
      let class_reg = read32 s bus slot 0 0x08 in
      let subclass_reg = read32 class_reg.1 bus slot 0 0x08 in
      let bar0_reg = read32 subclass_reg.1 bus slot 0 bar0_at in
      let line_reg = read32 bar0_reg.1 bus slot 0 irq_line_at in
      (
        record {
          bus = bus % 2 ^ 8;
          slot = slot;
          func = 0;
          vendor = vid;
          device = did;
          class_code = class_reg.0 / 2 ^ 24 % 2 ^ 8;
          subclass = subclass_reg.0 / 2 ^ 16 % 2 ^ 8;
          irq_line = line_reg.0 % 2 ^ 8;
          bar0 = bit_and bar0_reg.0 (2 ^ 32 - 1 - 0xF);
        },
        line_reg.1,
      )

  -- One round of the inner loop of `pci_find_device`: the device, if it is the one that is sought.
  pub probe : State → ℕ → ℕ → ℕ → ℕ → Option PciDevice × State
  probe s vendor device bus slot =
      let vid = read16 s bus slot 0 vendor_id in
      let did = read16 vid.1 bus slot 0 device_id in
      let found = describe did.1 bus slot vid.0 did.0 in
      if vid.0 == 0xFFFF
      then (none, vid.1)
      else if (vid.0 == vendor) && (did.0 == device)
      then (some found.0, found.1)
      else (none, did.1)

  -- `return true` where a round found the device, and the next round where it did not.
  abbrev pub or_else :
      Option PciDevice × State → (State → Option PciDevice × State) → Option PciDevice × State
  or_else (none, t) next = next t
  or_else (some dev, t) next = (some dev, t)

  -- The inner loop, with `rounds` slots of the bus left.
  pub find_on_bus : State → ℕ → ℕ → ℕ → ℕ → ℕ → Option PciDevice × State
  find_on_bus s vendor device bus zero slot = (none, s)
  find_on_bus s vendor device bus (suc rounds) slot =
      or_else (probe s vendor device bus slot)
        (λ t. find_on_bus t vendor device bus rounds (slot + 1))

  -- The outer loop, with `rounds` buses left.
  pub find_from : State → ℕ → ℕ → ℕ → ℕ → Option PciDevice × State
  find_from s vendor device zero bus = (none, s)
  find_from s vendor device (suc rounds) bus =
      or_else (find_on_bus s vendor device bus 32 0)
        (λ t. find_from t vendor device rounds (bus + 1))

  -- `none` stands for `false`.
  pub find_device : State → ℕ → ℕ → Option PciDevice × State
  find_device s vendor device = find_from s vendor device 256 0
