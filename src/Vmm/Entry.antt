-- ===== src/Vmm/Entry.antt =====
-- Entries of a page directory or table (kernel/mm/vmm.c, kernel/include/matryoshka/vmm.h): the bits
-- of an entry as an address and flags.
use matryoshka_os.Prelude.{ℕ, ◌+◌, ◌*◌, ◌/◌, ◌%◌, ◌^◌, ◌<◌, ◌≡◌, ◌∙◌, bit_and, bit_or, true, arith}
use matryoshka_os.Prelude.Bits.{bit_or_step, bit_or-zero, bit_or-add}
use matryoshka_os.Prelude.Fields.{bit_and-ones, bit_and-field, div-bit_or}
use matryoshka_os.Vmm.{
  pd_index, pt_index, offset, is_present, pte_addr_mask, pte_present, pte_writable,
}

-- The address in an entry.
pub address_lem : (e : ℕ) → e < 2 ^ 32 → bit_and e pte_addr_mask ≡ e / 4096 * 4096
address_lem e lt = omega (arith, bit_and-field 12 20 e)

pub pd_index_lem : (va : ℕ) → va < 2 ^ 32 → pd_index va ≡ va / 2 ^ 22
pd_index_lem va lt = omega (arith, bit_and-ones 10 (va / 2 ^ 22))

pub pt_index_lem : (va : ℕ) → pt_index va ≡ va / 4096 % 1024
pt_index_lem va = bit_and-ones 10 (va / 2 ^ 12)

pub offset_lem : (va : ℕ) → offset va ≡ va % 4096
offset_lem va = bit_and-ones 12 va

-- An entry is present if it is odd.
pub is_present-odd : (e : ℕ) → e % 2 ≡ 1 → is_present e ≡ true
is_present-odd e odd = ground (arith, bit_and-ones 1 e)

pub is_present_iff : (e : ℕ) → is_present e ≡ true → e % 2 ≡ 1
is_present_iff e h = ground (arith, bit_and-ones 1 e)

-- Setting flags leaves the address, and setting none of the lowest bit leaves the presence.
pub div-flags : (e f : ℕ) → f < 4096 → bit_or e f / 4096 ≡ e / 4096
div-flags e f lt =
    let none_high : f / 4096 ≡ 0 = omega arith in
    div-bit_or 12 e f ∙ rw none_high (bit_or-zero (e / 4096))

pub mod-flags : (e f : ℕ) → bit_or e f % 2 ≡ 1 → f % 2 ≡ 0 → e % 2 ≡ 1
mod-flags e f odd even = ground (arith, bit_or_step e f)

pub odd-bit_or : (e f : ℕ) → (e % 2 ≡ 1) → bit_or e f % 2 ≡ 1
odd-bit_or e f odd = ground (arith, bit_or_step e f)

-- The entry of a page at a physical address, with flags.
pub entry_lem :
    (pa flags : ℕ)
    → pa < 2 ^ 32
    → bit_or (bit_and pa pte_addr_mask) (bit_and flags 0xFFF) ≡ pa / 4096 * 4096 + flags % 4096
entry_lem pa flags lt =
    rw (address_lem pa lt, bit_and-ones 12 flags)
      (bit_or-add 12 (pa / 4096) (flags % 4096) (omega arith))

-- The address that a page table entry and an offset give.
pub translate_lem :
    (e va : ℕ)
    → e < 2 ^ 32
    → bit_or (bit_and e pte_addr_mask) (offset va) ≡ e / 4096 * 4096 + va % 4096
translate_lem e va lt =
    rw (address_lem e lt, offset_lem va) (bit_or-add 12 (e / 4096) (va % 4096) (omega arith))

-- The entry of a new page table: its address and its presence.
pub table-address : (p : ℕ) → bit_or (bit_or p pte_present) pte_writable / 4096 ≡ p / 4096
table-address p = div-flags (bit_or p 1) 2 (omega arith) ∙ div-flags p 1 (omega arith)

pub table-odd : (p : ℕ) → bit_or (bit_or p pte_present) pte_writable % 2 ≡ 1
table-odd p = ground (arith, bit_or_step (bit_or p 1) 2, bit_or_step p 1)
