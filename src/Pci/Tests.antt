-- ===== src/Pci/Tests.antt =====
-- Runs of the PCI driver on a small configuration space.
use matryoshka_os.Prelude.{ℕ, ◌%◌, ◌^◌, ◌≡◌, ◌≢◌, refl, arith, some, update, ◌==◌, if◌then◌else◌}
use matryoshka_os.Io.{Machine}
use matryoshka_os.Pci.{
  PciDevice, pci_addr, aligned, read32, read16, write16, describe, probe, find_on_bus, find_from,
  find_device,
}
use matryoshka_os.Pci.Registers.{ConfigSpace, read16-write16}
use matryoshka_os.Pci.Find.{FirstMatch, find_device_lem}

-- The address that was written last, and the registers.
record Bus : Type 0 where
  address : ℕ
  register : ℕ → ℕ

abbrev bus_machine : Machine
bus_machine = record {
  State = Bus;
  outb = λ s p v. s;
  inb = λ s p. (0, s);
  outl = λ s p v.
      if p == 0xCF8
      then record s { address = v }
      else if p == 0xCFC
      then record s { register = update s.register s.address v }
      else s;
  inl = λ s p. (s.register s.address % 2 ^ 32, s);
}

bus_space : ConfigSpace bus_machine
bus_space = record {
  config = λ s a. s.register a % 2 ^ 32;
  IsWritable = λ a. Unit {0};
  config_word = λ s a. omega arith;
  read_value = λ s a. refl;
  read_keeps = λ s a b. refl;
  write_value = λ s a b v w h. ground arith;
}

-- A network card in slot 3 of bus 0, and nothing else.
abbrev one_card : Bus
one_card = record {
  address = 0;
  register = λ a.
      if a == 0x80001800
      then 0x100E8086
      else if a == 0x80001810
      then 0xFEBC0004
      else if a == 0x8000183C
      then 11
      else 0xFFFFFFFF;
}

abbrev card : PciDevice
card = record {
  bus = 0;
  slot = 3;
  func = 0;
  vendor = 0x8086;
  device = 0x100E;
  class_code = 0xFF;
  subclass = 0xFF;
  irq_line = 11;
  bar0 = 0xFEBC0000;
}

finds_card : (find_device bus_machine one_card 0x8086 0x100E).0 ≡ some card
unfolding find_device find_from find_on_bus probe describe read16 read32 pci_addr
finds_card = refl

find_device_lem_example :
    FirstMatch bus_machine bus_space one_card 0x8086 0x100E 0 8192
      (find_device bus_machine one_card 0x8086 0x100E).0
    × ((a : ℕ)
        → bus_space.config (find_device bus_machine one_card 0x8086 0x100E).1 a
          ≡ bus_space.config one_card a)
find_device_lem_example = find_device_lem bus_machine bus_space one_card 0x8086 0x100E

read16-write16_example :
    ((read16 bus_machine (write16 bus_machine one_card 0 3 0 4 6) 0 3 0 4).0 ≡ 6)
    × ((read16 bus_machine (write16 bus_machine one_card 0 3 0 4 6) 0 3 0 6).0
        ≡ (read16 bus_machine one_card 0 3 0 6).0)
    × ((a : ℕ)
        → pci_addr 0 3 0 (aligned 4) ≢ a
        → bus_space.config (write16 bus_machine one_card 0 3 0 4 6) a ≡ bus_space.config one_card a)
unfolding bus_space
read16-write16_example =
    read16-write16 bus_machine bus_space one_card 0 3 0 4 6 6 tt (omega arith) refl (omega arith)
