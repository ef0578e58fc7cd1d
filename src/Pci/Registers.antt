-- ===== src/Pci/Registers.antt =====
-- kernel/drivers/pci.c: reads and writes of registers, given how the configuration space answers.
use native.Mathlib.Decide.{ℕ_discrete}
use matryoshka_os.Prelude.{
  ℕ, ◌+◌, ◌-◌, ◌*◌, ◌/◌, ◌%◌, ◌^◌, ◌<◌, ◌≡◌, ◌≢◌, sym, ap, ◌∙◌, arith, bit_and, bit_or,
  if◌then◌else◌, ◌==◌, ==_self, ==_ne,
}
use matryoshka_os.Prelude.Bits.{bit_or-add, bit_or_comm, bit_and-pow_two}
use matryoshka_os.Prelude.Fields.{bit_and-field, bit_and-ones}
use matryoshka_os.Io.{Machine}
use matryoshka_os.Pci.{
  config_addr, config_data, pci_addr, aligned, shift_of, read32, read16, write32, write16,
}

-- Behind the two ports stands a register of 32 bits for each address. A read gives the register at
-- the address that was written last, and changes none; a write sets it, if it is one that keeps what is
-- written (`IsWritable`), and changes no other.
pub record ConfigSpace (m : Machine) : Type 1 where
  pub config : m.State → ℕ → ℕ
  pub IsWritable : ℕ → Type 0
  pub config_word : (s : m.State) (a : ℕ) → config s a < 2 ^ 32
  pub read_value :
      (s : m.State) (a : ℕ) → (m.inl (m.outl s config_addr a) config_data).0 ≡ config s a
  pub read_keeps :
      (s : m.State) (a b : ℕ) → config (m.inl (m.outl s config_addr a) config_data).1 b ≡ config s b
  pub write_value :
      (s : m.State) (a b v : ℕ)
      → IsWritable a
      → v < 2 ^ 32
      → config (m.outl (m.outl s config_addr a) config_data v) b
        ≡ (if a == b then v else config s b)

pub aligned_lem : (off : ℕ) → off < 256 → aligned off ≡ off / 4 * 4
aligned_lem off h = bit_and-field 2 30 off ∙ omega arith

pub shift_of_lem : (off : ℕ) → shift_of off ≡ off / 2 % 2 * 16
shift_of_lem off = omega (arith, bit_and-pow_two off 1)

-- The half of the register at `off`, in a register `w`.
abbrev pub half : ℕ → ℕ → ℕ
half w off = w / 2 ^ shift_of off % 2 ^ 16

-- A new value for one half of a register.
abbrev pub with_half : ℕ → ℕ → ℕ → ℕ
with_half w off val =
    bit_or (bit_and w (2 ^ 32 - 1 - 0xFFFF * 2 ^ shift_of off)) (val * 2 ^ shift_of off)

-- The halves by number: `shift` is 0 for the lower half and 16 for the upper.
low_half :
    (w val : ℕ)
    → w < 2 ^ 32
    → val < 2 ^ 16
    → bit_or (bit_and w (2 ^ 32 - 1 - 0xFFFF)) val ≡ w / 2 ^ 16 * 2 ^ 16 + val
low_half w val hw hv =
    let kept : bit_and w (2 ^ 32 - 1 - 0xFFFF) ≡ w / 2 ^ 16 * 2 ^ 16 =
      bit_and-field 16 16 w ∙ omega arith in
    rw kept (bit_or-add 16 (w / 2 ^ 16) val hv)

high_half :
    (w val : ℕ)
    → w < 2 ^ 32
    → val < 2 ^ 16
    → bit_or (bit_and w 0xFFFF) (val * 2 ^ 16) ≡ val * 2 ^ 16 + w % 2 ^ 16
high_half w val hw hv =
    let kept : bit_and w 0xFFFF ≡ w % 2 ^ 16 = bit_and-ones 16 w in
    rw kept (bit_or_comm (w % 2 ^ 16) (val * 2 ^ 16) ∙ bit_or-add 16 val (w % 2 ^ 16) (omega arith))

-- Of the two halves `off` and `other` of one register, one takes the value and the other stays.
pub with_half_lem :
    (w val off other : ℕ)
    → w < 2 ^ 32
    → val < 2 ^ 16
    → off / 2 % 2 + other / 2 % 2 ≡ 1
    → (with_half w off val < 2 ^ 32)
      × (half (with_half w off val) off ≡ val)
      × (half (with_half w off val) other ≡ half w other)
with_half_lem w val off other hw hv sides = elim (ℕ_discrete (off / 2 % 2) 0) [
  | yes low ↦
      let s0 : shift_of off ≡ 0 = omega (arith, shift_of_lem off) in
      let s1 : shift_of other ≡ 16 = omega (arith, shift_of_lem other) in
      let whole : bit_or (bit_and w (2 ^ 32 - 1 - 0xFFFF * 2 ^ 0)) (val * 2 ^ 0)
          ≡ w / 2 ^ 16 * 2 ^ 16 + val * 2 ^ 0 =
        low_half w (val * 2 ^ 0) hw (omega arith) in
      rw (s0, s1, whole) (omega arith, omega arith, omega arith)
  | no high ↦
      let s0 : shift_of off ≡ 16 = omega (arith, shift_of_lem off) in
      let s1 : shift_of other ≡ 0 = omega (arith, shift_of_lem other) in
      let whole : bit_or (bit_and w (2 ^ 32 - 1 - 0xFFFF * 2 ^ 16)) (val * 2 ^ 16)
          ≡ val * 2 ^ 16 + w % 2 ^ 16 =
        high_half w val hw hv in
      rw (s0, s1, whole) (omega arith, omega arith, omega arith)
]

module _ (m : Machine) (c : ConfigSpace m) where
  pub read32_lem :
      (s : m.State) (bus slot func off : ℕ)
      → (read32 m s bus slot func off).0 ≡ c.config s (pci_addr bus slot func off)
  unfolding read32
  read32_lem s bus slot func off = c.read_value s (pci_addr bus slot func off)

  pub read32_keeps :
      (s : m.State) (bus slot func off a : ℕ)
      → c.config (read32 m s bus slot func off).1 a ≡ c.config s a
  unfolding read32
  read32_keeps s bus slot func off a = c.read_keeps s (pci_addr bus slot func off) a

  pub read16_lem :
      (s : m.State) (bus slot func off : ℕ)
      → (read16 m s bus slot func off).0
        ≡ half (c.config s (pci_addr bus slot func (aligned off))) off
  unfolding read16
  read16_lem s bus slot func off =
      ap (λ (w : ℕ). half w off) (read32_lem s bus slot func (aligned off))

  pub read16_keeps :
      (s : m.State) (bus slot func off a : ℕ)
      → c.config (read16 m s bus slot func off).1 a ≡ c.config s a
  unfolding read16
  read16_keeps s bus slot func off a = read32_keeps s bus slot func (aligned off) a

  -- What `pci_write16` leaves in the registers.
  write16_config :
      (s : m.State) (bus slot func off val a : ℕ)
      → c.IsWritable (pci_addr bus slot func (aligned off))
      → with_half (c.config s (pci_addr bus slot func (aligned off))) off val < 2 ^ 32
      → c.config (write16 m s bus slot func off val) a ≡ (
          if pci_addr bus slot func (aligned off) == a
          then with_half (c.config s (pci_addr bus slot func (aligned off))) off val
          else c.config s a)
  unfolding write16 write32
  write16_config s bus slot func off val a w small =
      let at : ℕ = pci_addr bus slot func (aligned off) in
      let t : m.State = (read32 m s bus slot func (aligned off)).1 in
      let old : (read32 m s bus slot func (aligned off)).0 ≡ c.config s at =
        read32_lem s bus slot func (aligned off) in
      let kept : c.config t a ≡ c.config s a = read32_keeps s bus slot func (aligned off) a in
      ap
        (λ (v : ℕ). c.config (m.outl (m.outl t config_addr at) config_data (with_half v off val)) a)
        old
      ∙ (c.write_value t at a (with_half (c.config s at) off val) w small
          ∙ ap (λ (v : ℕ). if at == a then with_half (c.config s at) off val else v) kept)

  -- On a configuration space behind the two ports, after a `pci_write16` of 16 bits to one half of a
  -- register that keeps what is written, `pci_read16` gives the value there and what stood before in the other half, and no other register changes.
  pub read16-write16 :
      (s : m.State) (bus slot func off other val : ℕ)
      → c.IsWritable (pci_addr bus slot func (aligned off))
      → val < 2 ^ 16
      → aligned other ≡ aligned off
      → off / 2 % 2 + other / 2 % 2 ≡ 1
      → ((read16 m (write16 m s bus slot func off val) bus slot func off).0 ≡ val)
        × ((read16 m (write16 m s bus slot func off val) bus slot func other).0
            ≡ (read16 m s bus slot func other).0)
        × ((a : ℕ)
            → pci_addr bus slot func (aligned off) ≢ a
            → c.config (write16 m s bus slot func off val) a ≡ c.config s a)
  read16-write16 s bus slot func off other val w hv same sides =
      let at : ℕ = pci_addr bus slot func (aligned off) in
      let t : m.State = write16 m s bus slot func off val in
      let halves = with_half_lem (c.config s at) val off other (c.config_word s at) hv sides in
      let now : c.config t at ≡ with_half (c.config s at) off val =
        write16_config s bus slot func off val at w halves.0
        ∙ ap (λ b. if b then with_half (c.config s at) off val else c.config s at) (==_self at) in
      let read_off : (read16 m t bus slot func off).0 ≡ half (c.config t at) off =
        read16_lem t bus slot func off in
      let other_at : pci_addr bus slot func (aligned other) ≡ at =
        ap (pci_addr bus slot func) same in
      let read_other : (read16 m t bus slot func other).0 ≡ half (c.config t at) other =
        read16_lem t bus slot func other ∙ ap (λ (a : ℕ). half (c.config t a) other) other_at in
      let before : (read16 m s bus slot func other).0 ≡ half (c.config s at) other =
        read16_lem s bus slot func other ∙ ap (λ (a : ℕ). half (c.config s a) other) other_at in
      (
        read_off ∙ (ap (λ (v : ℕ). half v off) now ∙ halves.1),
        read_other ∙ (ap (λ (v : ℕ). half v other) now ∙ (halves.2 ∙ sym before)),
        λ a ne.
            write16_config s bus slot func off val a w halves.0
            ∙ ap (λ b. if b then with_half (c.config s at) off val else c.config s a)
                (==_ne at a ne),
      )
