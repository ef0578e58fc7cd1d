-- ===== src/Gdt/Segments.antt =====
-- kernel/arch/x86_64/gdt.c: what the processor reads from the descriptors.
use matryoshka_os.Prelude.{
  ℕ, ◌+◌, ◌-◌, ◌*◌, ◌/◌, ◌%◌, ◌^◌, ◌<◌, ◌≡◌, ◌≢◌, refl, ◌∙◌, arith, bit_and, bit_or, ==_self, ==_ne,
}
use matryoshka_os.Prelude.Bits.{bit_or_comm, bit_or-add}
use matryoshka_os.Prelude.Fields.{bit_and-ones, bit_and-field}
use matryoshka_os.Gdt.{Gdt, GdtEntry, tss_size, set_gate, write_tss, init}
use matryoshka_os.Task.{kernel_code, kernel_data, user_code, user_data}

-- The segment that a descriptor stands for, as the processor puts its fields together.
abbrev pub base_of : GdtEntry → ℕ
base_of e = e.base_low + e.base_middle * 2 ^ 16 + e.base_high * 2 ^ 24

abbrev pub limit_of : GdtEntry → ℕ
limit_of e = e.limit_low + e.granularity % 2 ^ 4 * 2 ^ 16

abbrev pub flags_of : GdtEntry → ℕ
flags_of e = e.granularity / 2 ^ 4

-- The privilege of the segment is bits 5 and 6 of the access byte.
abbrev pub ring_of : GdtEntry → ℕ
ring_of e = e.access / 2 ^ 5 % 2 ^ 2

granularity_lem :
    (limit gran : ℕ)
    → limit < 2 ^ 20
    → gran < 2 ^ 8
    → bit_or (bit_and (limit / 2 ^ 16) 0x0F) (bit_and gran 0xF0)
      ≡ gran / 2 ^ 4 * 2 ^ 4 + limit / 2 ^ 16
granularity_lem limit gran hl hg =
    let low : bit_and (limit / 2 ^ 16) 0x0F ≡ limit / 2 ^ 16 =
      bit_and-ones 4 (limit / 2 ^ 16) ∙ omega arith in
    let high : bit_and gran 0xF0 ≡ gran / 2 ^ 4 * 2 ^ 4 = bit_and-field 4 4 gran ∙ omega arith in
    rw (low, high)
      (bit_or_comm (limit / 2 ^ 16) (gran / 2 ^ 4 * 2 ^ 4)
        ∙ bit_or-add 4 (gran / 2 ^ 4) (limit / 2 ^ 16) (omega arith))

-- `gdt_set_gate` of a base of 32 bits, a limit of 20 bits and two bytes: the processor reads the
-- base, the limit, the access byte and the upper four bits of the last byte back from entry `num`. No
-- other entry changes, and the task state segment stays.
pub set_gate_lem :
    (s : Gdt) (num base limit access gran : ℕ)
    → base < 2 ^ 32
    → limit < 2 ^ 20
    → gran < 2 ^ 8
    → (base_of ((set_gate s num base limit access gran).gdt num) ≡ base)
      × (limit_of ((set_gate s num base limit access gran).gdt num) ≡ limit)
      × (((set_gate s num base limit access gran).gdt num).access ≡ access)
      × (flags_of ((set_gate s num base limit access gran).gdt num) ≡ gran / 2 ^ 4)
      × ((i : ℕ) → num ≢ i → (set_gate s num base limit access gran).gdt i ≡ s.gdt i)
      × ((set_gate s num base limit access gran).tss ≡ s.tss)
unfolding set_gate
set_gate_lem s num base limit access gran hb hl hg =
    rw
      (
        ==_self num,
        granularity_lem limit gran hl hg,
        bit_and-ones 16 limit,
        bit_and-ones 16 base,
        bit_and-ones 8 (base / 2 ^ 16),
        bit_and-ones 8 (base / 2 ^ 24),
      )
      (omega arith, omega arith, refl, omega arith, λ i ne. rw (==_ne num i ne) refl, refl)

-- The segment that a selector chooses: its index is the selector over 8.
abbrev pub selected : Gdt → ℕ → GdtEntry
selected s selector = s.gdt (selector / 8)

-- A segment of all 4 GB, in pages, that the selector's privilege may load.
abbrev pub IsFlat : Gdt → ℕ → ℕ → Type 0
IsFlat s selector kind =
    (base_of (selected s selector) ≡ 0)
    × (limit_of (selected s selector) ≡ 0xFFFFF)
    × (flags_of (selected s selector) ≡ 0xC)
    × (ring_of (selected s selector) ≡ selector % 4)
    × ((selected s selector).access % 2 ^ 5 ≡ kind)

-- After `gdt_init`, from any table, the four selectors that the first frames of tasks load choose
-- segments of all of memory, with the privilege that the selector asks for: two of code (kind 0x1A)
-- and two of data (0x12). Entry 5 describes the task state segment at its address, which must be below
-- 2^32, with its size.
pub init_lem :
    (s : Gdt)
    → s.tss_at < 2 ^ 32
    → IsFlat (init s) kernel_code 0x1A
      × IsFlat (init s) kernel_data 0x12
      × IsFlat (init s) user_code 0x1A
      × IsFlat (init s) user_data 0x12
      × (base_of ((init s).gdt 5) ≡ s.tss_at)
      × (limit_of ((init s).gdt 5) ≡ tss_size - 1)
unfolding init write_tss set_gate
init_lem s h =
    let tss_entry =
      set_gate_lem s 5 s.tss_at (tss_size - 1) 0x89 0x00 h (omega arith) (omega arith) in
    (
      (refl, refl, refl, refl, refl),
      (refl, refl, refl, refl, refl),
      (refl, refl, refl, refl, refl),
      (refl, refl, refl, refl, refl),
      tss_entry.0,
      refl,
    )
