-- ===== src/Idt/Gates.antt =====
-- kernel/arch/x86_64/idt.c: what the processor reads from the gates.
use native.Mathlib.Decide.{ℕ_discrete}
use matryoshka_os.Prelude.{
  ℕ, zero, suc, ◌+◌, ◌*◌, ◌/◌, ◌%◌, ◌^◌, ◌<◌, ◌≤◌, ◌≡◌, ◌≢◌, ◌⊎◌, inl, inr, refl, sym, ap, subst,
  ◌∙◌, arith, bit_and, ==_ne, ==_eq, if◌then◌else◌, ◌==◌, ltb, leb, ◌&&◌,
}
use matryoshka_os.Prelude.Fields.{bit_and-ones}
use matryoshka_os.Idt.{IdtEntry, idt_entries, gate_int32, set_gate, clear_from, set_stubs, init}

-- The gate as the processor reads it: where the handler starts, whether the gate is present, and the
-- least privileged ring that may raise the interrupt.
abbrev pub base_of : IdtEntry → ℕ
base_of e = e.base_low + e.base_high * 2 ^ 16

abbrev pub present_of : IdtEntry → ℕ
present_of e = e.flags / 2 ^ 7 % 2

abbrev pub ring_of : IdtEntry → ℕ
ring_of e = e.flags / 2 ^ 5 % 2 ^ 2

abbrev pub kind_of : IdtEntry → ℕ
kind_of e = e.flags % 2 ^ 5

abbrev cleared : IdtEntry
cleared = record { base_low = 0; selector = 0; reserved = 0; flags = 0; base_high = 0 }

clear_from_lem :
    (idt : ℕ → IdtEntry) (rounds i n : ℕ)
    → clear_from idt rounds i n ≡ (if leb i n && ltb n (i + rounds) then cleared else idt n)
unfolding clear_from
clear_from_lem idt zero i n = ground arith
clear_from_lem idt (suc rounds) i n =
    clear_from_lem (λ k. if i == k then cleared else idt k) rounds (i + 1) n ∙ ground arith

-- The gate of stub `n` in ring 0.
abbrev kernel_gate : ℕ → IdtEntry
kernel_gate base = record {
  base_low = bit_and base 0xFFFF;
  selector = 0x08;
  reserved = 0;
  flags = 0x8E;
  base_high = bit_and (base / 2 ^ 16) 0xFFFF;
}

set_stubs_lem :
    (idt : ℕ → IdtEntry) (stub : ℕ → ℕ) (rounds i n : ℕ)
    → set_stubs idt stub rounds i n
      ≡ (if leb i n && ltb n (i + rounds) then kernel_gate (stub n) else idt n)
unfolding set_stubs set_gate
set_stubs_lem idt stub zero i n = ground arith
set_stubs_lem idt stub (suc rounds) i n =
    set_stubs_lem (λ k. if i == k then kernel_gate (stub i) else idt k) stub rounds (i + 1) n
    ∙ elim (ℕ_discrete i n) [
      | yes e ↦
          let same : kernel_gate (stub i) ≡ kernel_gate (stub n) =
            ap (λ (k : ℕ). kernel_gate (stub k)) e in
          rw (==_eq i n e, same) (ground arith)
      | no ne ↦ rw (==_ne i n ne) (ground arith)
    ]

-- A gate that is present, of a 32-bit interrupt in the kernel's code segment, and leads to `base`.
abbrev pub LeadsTo : IdtEntry → ℕ → ℕ → Type 0
LeadsTo e base ring =
    (base_of e ≡ base)
    × (e.selector ≡ 0x08)
    × (present_of e ≡ 1)
    × (ring_of e ≡ ring)
    × (kind_of e ≡ gate_int32)

-- The gate of the system call.
abbrev user_gate : ℕ → IdtEntry
user_gate base = record (kernel_gate base) { flags = 0xEE }

kernel_gate-LeadsTo : (base : ℕ) → base < 2 ^ 32 → LeadsTo (kernel_gate base) base 0
kernel_gate-LeadsTo base h =
    rw (bit_and-ones 16 base, bit_and-ones 16 (base / 2 ^ 16)) (omega arith, refl, refl, refl, refl)

user_gate-LeadsTo : (base : ℕ) → base < 2 ^ 32 → LeadsTo (user_gate base) base 3
user_gate-LeadsTo base h =
    rw (bit_and-ones 16 base, bit_and-ones 16 (base / 2 ^ 16)) (omega arith, refl, refl, refl, refl)

-- Each entry after `idt_init`, by its number.
init_entry :
    (idt : ℕ → IdtEntry) (stub : ℕ → ℕ) (n : ℕ)
    → init idt stub n ≡ (
        if 129 == n
        then kernel_gate (stub 129)
        else if 128 == n
        then user_gate (stub 128)
        else if leb 0 n && ltb n 48
        then kernel_gate (stub n)
        else if leb 0 n && ltb n 256
        then cleared
        else idt n)
unfolding init set_gate
init_entry idt stub n =
    rw (set_stubs_lem (clear_from idt idt_entries 0) stub 48 0 n, clear_from_lem idt 256 0 n) refl

init_stub :
    (idt : ℕ → IdtEntry) (stub : ℕ → ℕ) (n : ℕ) → n < 48 → init idt stub n ≡ kernel_gate (stub n)
init_stub idt stub n h = init_entry idt stub n ∙ ground arith

init_absent :
    (idt : ℕ → IdtEntry) (stub : ℕ → ℕ) (n : ℕ)
    → 48 ≤ n
    → n < 256
    → n ≢ 128
    → n ≢ 129
    → init idt stub n ≡ cleared
init_absent idt stub n from to not128 not129 = init_entry idt stub n ∙ ground arith

-- After `idt_init`, from any table, with the stubs below 2^32: each exception and each line (the gates
-- below 48), and the yield (129), leads to its stub and may be raised by ring 0 alone; the system call
-- (128) leads to its stub and may be raised by ring 3; no other of the 256 gates is present.
pub idt_init_lem :
    (idt : ℕ → IdtEntry) (stub : ℕ → ℕ) (n : ℕ)
    → n < 256
    → stub n < 2 ^ 32
    → (((n < 48) ⊎ (n ≡ 129)) → LeadsTo (init idt stub n) (stub n) 0)
      × (n ≡ 128 → LeadsTo (init idt stub n) (stub n) 3)
      × (48 ≤ n → n ≢ 128 → n ≢ 129 → present_of (init idt stub n) ≡ 0)
idt_init_lem idt stub n h hb =
    let yield_entry : init idt stub 129 ≡ kernel_gate (stub 129) = init_entry idt stub 129 in
    let syscall_entry : init idt stub 128 ≡ user_gate (stub 128) = init_entry idt stub 128 in
    let is_yield : n ≡ 129 → LeadsTo (init idt stub n) (stub n) 0 = λ e.
      subst (λ k. LeadsTo (init idt stub k) (stub k) 0) (sym e)
        (subst (λ g. LeadsTo g (stub 129) 0) (sym yield_entry)
          (kernel_gate-LeadsTo (stub 129) (subst (λ k. stub k < 2 ^ 32) e hb))) in
    let is_stub : n < 48 → LeadsTo (init idt stub n) (stub n) 0 = λ small.
      subst (λ g. LeadsTo g (stub n) 0) (sym (init_stub idt stub n small))
        (kernel_gate-LeadsTo (stub n) hb) in
    (
      λ which. elim which [ inl small ↦ is_stub small | inr e ↦ is_yield e ],
      λ e.
          subst (λ k. LeadsTo (init idt stub k) (stub k) 3) (sym e)
            (subst (λ g. LeadsTo g (stub 128) 3) (sym syscall_entry)
              (user_gate-LeadsTo (stub 128) (subst (λ k. stub k < 2 ^ 32) e hb))),
      λ from not128 not129. ap present_of (init_absent idt stub n from h not128 not129),
    )
