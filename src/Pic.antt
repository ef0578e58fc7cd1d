-- ===== src/Pic.antt =====
-- kernel/arch/x86_64/pic.c: the two interrupt controllers, behind the ports of the machine `m`.
pub mod Mask
mod Tests
use matryoshka_os.Prelude.{
  ℕ, ◌+◌, ◌-◌, ◌*◌, ◌/◌, ◌%◌, ◌^◌, bit_and, bit_or, List, [], ◌∷◌, ltb, leb, if◌then◌else◌,
}
use matryoshka_os.Io.{Machine, io_wait}

-- PIC1_COMMAND, PIC1_DATA, PIC2_COMMAND, PIC2_DATA, PIC_EOI
abbrev pub pic1_command : ℕ
pic1_command = 0x20

abbrev pub pic1_data : ℕ
pic1_data = 0x21

abbrev pub pic2_command : ℕ
pic2_command = 0xA0

abbrev pub pic2_data : ℕ
pic2_data = 0xA1

abbrev pub eoi : ℕ
eoi = 0x20

abbrev pub irq_offset : ℕ
irq_offset = 32

-- ICW1_INIT | ICW1_ICW4 is 0x11 and ICW4_8086 is 1.
abbrev pub init_words : List (ℕ × ℕ)
init_words =
    (pic1_command, 0x11)
    ∷ (pic2_command, 0x11)
    ∷ (pic1_data, irq_offset)
    ∷ (pic2_data, irq_offset + 8)
    ∷ (pic1_data, 0x04)
    ∷ (pic2_data, 0x02)
    ∷ (pic1_data, 0x01)
    ∷ (pic2_data, 0x01)
    ∷ []

-- The port and the bit of an interrupt line.
abbrev pub port_of : ℕ → ℕ
port_of irq = if ltb irq 8 then pic1_data else pic2_data

abbrev pub line_of : ℕ → ℕ
line_of irq = if ltb irq 8 then irq else irq - 8

module _ (m : Machine) where
  open m use {State, outb, inb}

  -- Each word is written to its port, and the bus is given time.
  pub write_words : State → List (ℕ × ℕ) → State
  write_words s [] = s
  write_words s ((port, value) ∷ rest) = write_words (io_wait m (outb s port value)) rest

  pub pic_init : State → State
  pic_init s = outb (outb (write_words s init_words) pic1_data 0xFF) pic2_data 0xFF

  pub send_eoi : State → ℕ → State
  send_eoi s irq = outb (if leb 8 irq then outb s pic2_command eoi else s) pic1_command eoi

  -- `1 << irq` has 32 bits, of which the port's value keeps 8.
  pub enable_irq : State → ℕ → State
  enable_irq s irq =
      let r = inb s (port_of irq) in
      outb r.1 (port_of irq) (bit_and r.0 (2 ^ 32 - 1 - 2 ^ line_of irq) % 2 ^ 8)

  pub disable_irq : State → ℕ → State
  disable_irq s irq =
      let r = inb s (port_of irq) in outb r.1 (port_of irq) (bit_or r.0 (2 ^ line_of irq) % 2 ^ 8)

  -- The second controller is read first.
  pub get_mask : State → ℕ × State
  get_mask s =
      let high = inb s pic2_data in
      let low = inb high.1 pic1_data in (bit_or (high.0 * 2 ^ 8) low.0 % 2 ^ 16, low.1)

  pub set_mask : State → ℕ → State
  set_mask s mask =
      outb (outb s pic1_data (bit_and mask 0xFF)) pic2_data (bit_and (mask / 2 ^ 8) 0xFF)
