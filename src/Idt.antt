-- ===== src/Idt.antt =====
-- kernel/arch/x86_64/idt.c: the table of gates. The dispatch of an interrupt stands in Interrupts.
pub mod Gates
mod Tests
use matryoshka_os.Prelude.{ℕ, zero, suc, ◌+◌, ◌/◌, ◌^◌, bit_and, bit_or, update, ltb, if◌then◌else◌}

-- `idt_entry_t`; the field `zero` is `reserved`.
pub record IdtEntry : Type 0 where
  pub base_low : ℕ
  pub selector : ℕ
  pub reserved : ℕ
  pub flags : ℕ
  pub base_high : ℕ

-- IDT_ENTRIES, IDT_GATE_INT32, IDT_FLAG_PRESENT, IDT_FLAG_DPL0, IDT_FLAG_DPL3
abbrev pub idt_entries : ℕ
idt_entries = 256

abbrev pub gate_int32 : ℕ
gate_int32 = 0xE

abbrev pub flag_present : ℕ
flag_present = 0x80

abbrev pub flag_dpl0 : ℕ
flag_dpl0 = 0x00

abbrev pub flag_dpl3 : ℕ
flag_dpl3 = 0x60

pub set_gate : (ℕ → IdtEntry) → ℕ → ℕ → ℕ → ℕ → ℕ → IdtEntry
set_gate idt num base selector flags = update idt num (record {
  base_low = bit_and base 0xFFFF;
  selector = selector;
  reserved = 0;
  flags = bit_or flags flag_present;
  base_high = bit_and (base / 2 ^ 16) 0xFFFF;
})

-- The first loop of `idt_init`, with `rounds` entries left.
pub clear_from : (ℕ → IdtEntry) → ℕ → ℕ → ℕ → IdtEntry
clear_from idt zero i = idt
clear_from idt (suc rounds) i =
    clear_from
      (update idt i (record { base_low = 0; selector = 0; reserved = 0; flags = 0; base_high = 0 }))
      rounds (i + 1)

-- The calls of `idt_set_gate` for the exceptions and the interrupt lines, in the order of their
-- numbers, with `rounds` of them left. `stub n` is the address of `isr`n or `irq`(n - 32).
pub set_stubs : (ℕ → IdtEntry) → (ℕ → ℕ) → ℕ → ℕ → ℕ → IdtEntry
set_stubs idt stub zero n = idt
set_stubs idt stub (suc rounds) n =
    set_stubs (set_gate idt n (stub n) 0x08 (bit_or flag_dpl0 gate_int32)) stub rounds (n + 1)

-- `idt_init`, up to the load of the table.
pub init : (ℕ → IdtEntry) → (ℕ → ℕ) → ℕ → IdtEntry
init idt stub =
    let stubs = set_stubs (clear_from idt idt_entries 0) stub 48 0 in
    let syscall = set_gate stubs 128 (stub 128) 0x08 (bit_or flag_dpl3 gate_int32) in
    set_gate syscall 129 (stub 129) 0x08 (bit_or flag_dpl0 gate_int32)
