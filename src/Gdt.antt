-- ===== src/Gdt.antt =====
-- kernel/arch/x86_64/gdt.c: the descriptors of the segments, and the task state segment with the stack
-- for interrupts from ring 3.
pub mod Segments
mod Tests
use matryoshka_os.Prelude.{ℕ, ◌+◌, ◌-◌, ◌*◌, ◌/◌, ◌%◌, ◌^◌, bit_and, bit_or, update}

-- `gdt_entry_t`
pub record GdtEntry : Type 0 where
  pub limit_low : ℕ
  pub base_low : ℕ
  pub base_middle : ℕ
  pub access : ℕ
  pub granularity : ℕ
  pub base_high : ℕ

-- `tss_entry_t`: three fields, and the words of all others.
pub record TssEntry : Type 0 where
  pub esp0 : ℕ
  pub ss0 : ℕ
  pub iomap_base : ℕ
  pub others : ℕ → ℕ

-- `tss_at` is the address of the static `tss`.
pub record Gdt : Type 0 where
  pub gdt : ℕ → GdtEntry
  pub tss : TssEntry
  pub tss_at : ℕ

-- GDT_KERNEL_DATA_SEL and sizeof(tss_entry_t)
abbrev pub kernel_data_sel : ℕ
kernel_data_sel = 0x10

abbrev pub tss_size : ℕ
tss_size = 104

pub set_gate : Gdt → ℕ → ℕ → ℕ → ℕ → ℕ → Gdt
set_gate s num base limit access gran = record s {
  gdt = update s.gdt num (record {
    limit_low = bit_and limit 0xFFFF;
    base_low = bit_and base 0xFFFF;
    base_middle = bit_and (base / 2 ^ 16) 0xFF;
    access = access;
    granularity = bit_or (bit_and (limit / 2 ^ 16) 0x0F) (bit_and gran 0xF0);
    base_high = bit_and (base / 2 ^ 24) 0xFF;
  });
}

pub write_tss : Gdt → ℕ → Gdt
unfolding set_gate
write_tss s num =
    let t = record s {
      tss = record { esp0 = 0; ss0 = kernel_data_sel; iomap_base = tss_size; others = λ i. 0 };
    } in
    set_gate t num t.tss_at (tss_size - 1) 0x89 0x00

-- `gdt_init`, up to the load of the table.
pub init : Gdt → Gdt
unfolding write_tss
init s =
    let null_seg = set_gate s 0 0 0 0 0 in
    let kernel_code = set_gate null_seg 1 0 0xFFFFF 0x9A 0xCF in
    let kernel_data = set_gate kernel_code 2 0 0xFFFFF 0x92 0xCF in
    let user_code = set_gate kernel_data 3 0 0xFFFFF 0xFA 0xCF in
    let user_data = set_gate user_code 4 0 0xFFFFF 0xF2 0xCF in write_tss user_data 5

pub tss_set_esp0 : Gdt → ℕ → Gdt
tss_set_esp0 s esp0 = record s { tss = record s.tss { esp0 = esp0 } }
