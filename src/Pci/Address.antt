-- ===== src/Pci/Address.antt =====
-- kernel/drivers/pci.c: the address of a register in the configuration space.
use matryoshka_os.Prelude.{ℕ, ◌+◌, ◌*◌, ◌/◌, ◌^◌, ◌<◌, ◌≡◌, ◌%◌, ◌∙◌, sym, arith, bit_or, bit_and}
use matryoshka_os.Prelude.Bits.{bit_or-add}
use matryoshka_os.Prelude.Fields.{bit_and-field}
use matryoshka_os.Pci.{pci_addr}

pub pci_addr_sum :
    (bus slot func off : ℕ)
    → bus < 256
    → slot < 32
    → func < 8
    → off < 256
    → pci_addr bus slot func off
      ≡ 0x80000000 + bus * 2 ^ 16 + slot * 2 ^ 11 + func * 2 ^ 8 + off / 4 * 4
unfolding pci_addr
pci_addr_sum bus slot func off hb hs hf ho =
    let low : bit_and off 0xFC ≡ off / 2 ^ 2 % 2 ^ 6 * 2 ^ 2 = bit_and-field 2 6 off in
    let one : bit_or 0x80000000 (bus * 2 ^ 16) ≡ (0x8000 + bus) * 2 ^ 16 =
      bit_or-add 24 128 (bus * 2 ^ 16) (omega arith) ∙ omega arith in
    let two : bit_or ((0x8000 + bus) * 2 ^ 16) (slot * 2 ^ 11)
        ≡ ((0x8000 + bus) * 2 ^ 5 + slot) * 2 ^ 11 =
      bit_or-add 16 (0x8000 + bus) (slot * 2 ^ 11) (omega arith) ∙ omega arith in
    let three : bit_or (((0x8000 + bus) * 2 ^ 5 + slot) * 2 ^ 11) (func * 2 ^ 8)
        ≡ (((0x8000 + bus) * 2 ^ 5 + slot) * 2 ^ 3 + func) * 2 ^ 8 =
      bit_or-add 11 ((0x8000 + bus) * 2 ^ 5 + slot) (func * 2 ^ 8) (omega arith) ∙ omega arith in
    let four : bit_or ((((0x8000 + bus) * 2 ^ 5 + slot) * 2 ^ 3 + func) * 2 ^ 8) (bit_and off 0xFC)
        ≡ (((0x8000 + bus) * 2 ^ 5 + slot) * 2 ^ 3 + func) * 2 ^ 8 + bit_and off 0xFC =
      bit_or-add 8 (((0x8000 + bus) * 2 ^ 5 + slot) * 2 ^ 3 + func) (bit_and off 0xFC)
        (omega arith) in
    rw (one, two, three, four) (omega arith)

-- Registers of different functions, or of one function and four bytes apart, have different addresses.
pub pci_addr_injective :
    (bus slot off bus' slot' off' : ℕ)
    → bus < 256
    → slot < 32
    → off < 256
    → bus' < 256
    → slot' < 32
    → off' < 256
    → pci_addr bus slot 0 off ≡ pci_addr bus' slot' 0 off'
    → (bus ≡ bus') × (slot ≡ slot') × (off / 4 ≡ off' / 4)
pci_addr_injective bus slot off bus' slot' off' hb hs ho hb' hs' ho' e =
    let sums : 0x80000000 + bus * 2 ^ 16 + slot * 2 ^ 11 + 0 * 2 ^ 8 + off / 4 * 4
        ≡ 0x80000000 + bus' * 2 ^ 16 + slot' * 2 ^ 11 + 0 * 2 ^ 8 + off' / 4 * 4 =
      sym (pci_addr_sum bus slot 0 off hb hs (omega arith) ho)
      ∙ (e ∙ pci_addr_sum bus' slot' 0 off' hb' hs' (omega arith) ho') in
    (omega arith, omega arith, omega arith)
