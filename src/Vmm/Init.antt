-- ===== src/Vmm/Init.antt =====
-- How many page tables `vmm_init` makes (kernel/mm/vmm.c).
use matryoshka_os.Prelude.{ℕ, ◌+◌, ◌/◌, ◌^◌, ◌≡◌, arith, ◌==◌, leb, if◌then◌else◌}
use matryoshka_os.Vmm.{num_pde}

-- For at most 0xFFC00000 bytes of memory `vmm_init` makes the least number of page tables that cover
-- the memory with 4 MB each, and one for no memory at all; above that the sum that rounds up wraps,
-- and it makes only one, which covers the first 4 MB.
pub num_pde_lem :
    (total : ℕ)
    → num_pde total ≡ (
        if leb total 0xFFC00000 then (if total == 0 then 1 else (total + 0x3FFFFF) / 2 ^ 22) else 1)
unfolding num_pde
num_pde_lem total = ground arith
