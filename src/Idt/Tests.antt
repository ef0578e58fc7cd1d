-- ===== src/Idt/Tests.antt =====
-- The gates at concrete tables.
use matryoshka_os.Prelude.{ℕ, ◌+◌, ◌*◌, ◌<◌, ◌≤◌, ◌≡◌, ◌≢◌, ◌⊎◌, arith}
use matryoshka_os.Idt.{IdtEntry, init}
use matryoshka_os.Idt.Gates.{LeadsTo, present_of, idt_init_lem}

abbrev filled : IdtEntry
filled = record { base_low = 1; selector = 2; reserved = 3; flags = 0xFF; base_high = 4 }

idt_init_lem_example :
    (((128 < 48) ⊎ (◌≡◌ {A = ℕ} 128 129))
      → LeadsTo (init (λ i. filled) (λ i. 0x100000 + i * 16) 128) 0x100800 0)
    × (◌≡◌ {A = ℕ} 128 128 → LeadsTo (init (λ i. filled) (λ i. 0x100000 + i * 16) 128) 0x100800 3)
    × (48 ≤ 128
        → ◌≢◌ {A = ℕ} 128 128
        → ◌≢◌ {A = ℕ} 128 129
        → present_of (init (λ i. filled) (λ i. 0x100000 + i * 16) 128) ≡ 0)
idt_init_lem_example =
    idt_init_lem (λ i. filled) (λ i. 0x100000 + i * 16) 128 (omega arith) (omega arith)
