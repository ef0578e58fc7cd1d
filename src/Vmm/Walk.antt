-- ===== src/Vmm/Walk.antt =====
-- The walk through the tables (kernel/mm/vmm.c) as arithmetic on addresses.
use matryoshka_os.Prelude.{
  ℕ, ◌+◌, ◌*◌, ◌/◌, ◌%◌, ◌^◌, ◌<◌, ◌≡◌, refl, ap, ◌∙◌, Bool, true, false, not, arith, ◌==◌,
  if◌then◌else◌,
}
use matryoshka_os.Vmm.{Vmm, get_physical, pte_of, pt_index, slot, is_present}
use matryoshka_os.Vmm.Entry.{address_lem, pd_index_lem, pt_index_lem, translate_lem}
use matryoshka_os.Prelude.Fields.{bit_and-ones}

-- The directory entry for an address, and where the entry of its page stands.
abbrev pub pde_for : Vmm → ℕ → ℕ
pde_for s va = s.page_directory (va / 2 ^ 22)

abbrev pub entry_place : ℕ → ℕ → ℕ
entry_place pde va = pde / 4096 * 4096 + 4 * (va / 4096 % 1024)

-- The physical address that a virtual one has, given its directory entry and its page's entry, or 0.
abbrev pub physical : ℕ → ℕ → ℕ → ℕ
physical pde pte va =
    if pde % 2 == 0 then 0 else if pte % 2 == 0 then 0 else pte / 4096 * 4096 + va % 4096

-- Entries and words have 32 bits.
pub record HasWords (s : Vmm) : Type 0 where
  pub entries : (i : ℕ) → s.page_directory i < 2 ^ 32
  pub words : (a : ℕ) → s.word a < 2 ^ 32

pub slot_lem : (pde va : ℕ) → pde < 2 ^ 32 → slot pde (pt_index va) ≡ entry_place pde va
slot_lem pde va lt = rw (address_lem pde lt, pt_index_lem va) (omega arith)

present_test : (e : ℕ) → is_present e ≡ not (e % 2 == 0)
present_test e = rw (bit_and-ones 1 e) refl

pub pte_of_lem :
    (s : Vmm) (va : ℕ)
    → HasWords s
    → va < 2 ^ 32
    → pte_of s va ≡ s.word (entry_place (pde_for s va) va)
unfolding pte_of
pte_of_lem s va w lt =
    rw (pte_of, pd_index_lem va lt)
      (ap s.word (slot_lem (pde_for s va) va (w.entries (va / 2 ^ 22))))

double_negation : (x : Bool) (a b : ℕ) → (if not (not x) then a else b) ≡ (if x then a else b)
double_negation true a b = refl
double_negation false a b = refl

pub get_physical_lem :
    (s : Vmm) (va : ℕ)
    → HasWords s
    → va < 2 ^ 32
    → get_physical s va ≡ physical (pde_for s va) (s.word (entry_place (pde_for s va) va)) va
unfolding get_physical
get_physical_lem s va w lt =
    let pde : ℕ = pde_for s va in
    let pte : ℕ = s.word (entry_place pde va) in
    rw
      (
        pd_index_lem va lt,
        pte_of_lem s va w lt,
        bit_and-ones 1 pde,
        bit_and-ones 1 pte,
        translate_lem pte va (w.words (entry_place pde va)),
      )
      (double_negation (pde % 2 == 0) _ _
        ∙ ap (λ (x : ℕ). if pde % 2 == 0 then 0 else x) (double_negation (pte % 2 == 0) _ _))
