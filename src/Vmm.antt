-- ===== src/Vmm.antt =====
-- kernel/mm/vmm.c: two-level paging. `Vmm` holds the page directory, the statistics, the frame
-- allocator that gives the page tables, and `word`, the 32-bit word of physical memory at an address:
-- memory is mapped to itself, so a page table is read and written at its physical address. The
-- machine's CR0, CR3 and its TLB have no model, and neither has what is printed.
pub mod Entry
pub mod Walk
pub mod Map
pub mod Result
pub mod Init
mod Tests
use matryoshka_os.Prelude.{
  ℕ, zero, suc, ◌+◌, ◌-◌, ◌*◌, ◌/◌, ◌%◌, ◌^◌, bit_and, bit_or, Bool, true, false, not, ltb, leb,
  ◌==◌, if◌then◌else◌, update,
}
use matryoshka_os.Pmm.{Pmm, alloc_frame}

pub record Vmm : Type 0 where
  pub page_directory : ℕ → ℕ
  pub word : ℕ → ℕ
  pub mapped_pages : ℕ
  pub page_tables : ℕ
  pub identity_end : ℕ
  pub pmm : Pmm

-- PTE_PRESENT, PTE_WRITABLE, PTE_USER, PTE_ADDR_MASK
abbrev pub pte_present : ℕ
pte_present = 1

abbrev pub pte_writable : ℕ
pte_writable = 2

abbrev pub pte_user : ℕ
pte_user = 4

abbrev pub pte_addr_mask : ℕ
pte_addr_mask = 0xFFFFF000

-- VMM_PD_INDEX, VMM_PT_INDEX, VMM_OFFSET
abbrev pub pd_index : ℕ → ℕ
pd_index va = bit_and (va / 2 ^ 22) 0x3FF

abbrev pub pt_index : ℕ → ℕ
pt_index va = bit_and (va / 2 ^ 12) 0x3FF

abbrev pub offset : ℕ → ℕ
offset va = bit_and va 0xFFF

-- The test `entry & PTE_PRESENT`.
abbrev pub is_present : ℕ → Bool
is_present entry = not (bit_and entry pte_present == 0)

-- `pt[i]` for the page table that a directory entry names: its address.
abbrev pub slot : ℕ → ℕ → ℕ
slot pde i = (bit_and pde pte_addr_mask + 4 * i) % 2 ^ 32

-- The entry of the page table that a virtual address names.
pub pte_of : Vmm → ℕ → ℕ
pte_of s va = s.word (slot (s.page_directory (pd_index va)) (pt_index va))

pub set_pte : Vmm → ℕ → ℕ → Vmm
set_pte s va entry = record s {
  word = update s.word (slot (s.page_directory (pd_index va)) (pt_index va)) entry;
}

pub set_pde : Vmm → ℕ → ℕ → Vmm
set_pde s i entry = record s { page_directory = update s.page_directory i entry }

-- `memset(pt, 0, PAGE_SIZE)`, with `rounds` words left: the words of a page.
pub zero_page : (ℕ → ℕ) → ℕ → ℕ → ℕ → ℕ
zero_page word page zero = word
zero_page word page (suc rounds) = update (zero_page word page rounds) (page + 4 * rounds) 0

-- The page table that `vmm_map` makes in the frame at `pt_phys`.
pub add_table : Vmm → ℕ → ℕ → Vmm
add_table s pd_idx pt_phys =
    let t = record s { word = zero_page s.word (pt_phys % 2 ^ 32) 1024 } in
    record (set_pde t pd_idx (bit_or (bit_or (pt_phys % 2 ^ 32) pte_present) pte_writable)) {
      page_tables = (s.page_tables + 1) % 2 ^ 32;
    }

-- The rest of `vmm_map`, once the page table is there.
pub map_in_table : Vmm → ℕ → ℕ → ℕ → Vmm
map_in_table s virtual_addr physical_addr flags =
    let pd_idx = pd_index virtual_addr in
    let t =
      if not (bit_and flags pte_user == 0)
      then set_pde s pd_idx (bit_or (s.page_directory pd_idx) pte_user)
      else s in
    let u =
      set_pte t virtual_addr (bit_or (bit_and physical_addr pte_addr_mask) (bit_and flags 0xFFF)) in
    record u { mapped_pages = (s.mapped_pages + 1) % 2 ^ 32 }

-- True for the result 0 and false for -1.
pub map : Vmm → ℕ → ℕ → ℕ → Bool × Vmm
map s virtual_addr physical_addr flags =
    let pd_idx = pd_index virtual_addr in
    let (pt_phys, pmm) = alloc_frame s.pmm in
    let t = record s { pmm = pmm } in
    if not (is_present (s.page_directory pd_idx))
    then (if pt_phys == 0
        then (false, t)
        else (true, map_in_table (add_table t pd_idx pt_phys) virtual_addr physical_addr flags))
    else (true, map_in_table s virtual_addr physical_addr flags)

pub unmap : Vmm → ℕ → Bool × Vmm
unmap s virtual_addr =
    let t = set_pte s virtual_addr 0 in
    if not (is_present (s.page_directory (pd_index virtual_addr)))
    then (false, s)
    else if not (is_present (pte_of s virtual_addr))
    then (false, s)
    else (
      true,
      record t {
        mapped_pages = if ltb 0 s.mapped_pages then s.mapped_pages - 1 else s.mapped_pages;
      },
    )

pub get_physical : Vmm → ℕ → ℕ
get_physical s virtual_addr =
    if not (is_present (s.page_directory (pd_index virtual_addr)))
    then 0
    else if not (is_present (pte_of s virtual_addr))
    then 0
    else bit_or (bit_and (pte_of s virtual_addr) pte_addr_mask) (offset virtual_addr)

pub is_mapped : Vmm → ℕ → Bool
is_mapped s virtual_addr =
    if not (is_present (s.page_directory (pd_index virtual_addr)))
    then false
    else is_present (pte_of s virtual_addr)

pub set_user : Vmm → ℕ → Bool × Vmm
set_user s virtual_addr =
    let pd_idx = pd_index virtual_addr in
    let t = set_pde s pd_idx (bit_or (s.page_directory pd_idx) pte_user) in
    if not (is_present (s.page_directory pd_idx))
    then (false, s)
    else if not (is_present (pte_of t virtual_addr))
    then (false, t)
    else (true, set_pte t virtual_addr (bit_or (pte_of t virtual_addr) pte_user))

-- The number of page tables that `vmm_init` makes, from the memory that the frame allocator saw.
pub num_pde : ℕ → ℕ
num_pde total_memory =
    let mem_bytes = if ltb 0xFFFFFFFF total_memory then 0xFFFFFFFF else total_memory % 2 ^ 32 in
    let num = (mem_bytes + 0x3FFFFF) % 2 ^ 32 / 2 ^ 22 in
    let capped = if ltb 1024 num then 1024 else num in if capped == 0 then 1 else capped

-- The inner loop of `vmm_init`: page table `i` at `pt`, with `rounds` entries left.
pub identity_table : (ℕ → ℕ) → ℕ → ℕ → ℕ → ℕ → ℕ → ℕ
identity_table word pt i zero j = word
identity_table word pt i (suc rounds) j =
    let phys = bit_or (i * 2 ^ 22 % 2 ^ 32) (j * 2 ^ 12) in
    identity_table (update word (pt + 4 * j) (bit_or (bit_or phys pte_present) pte_writable)) pt i
      rounds (j + 1)

-- The outer loop, with `rounds` page tables left.
pub identity_tables : Vmm → ℕ → ℕ → Bool × Vmm
identity_tables s zero i = (true, s)
identity_tables s (suc rounds) i =
    let (pt_phys, pmm) = alloc_frame s.pmm in
    let pt = pt_phys % 2 ^ 32 in
    let t = record s { pmm = pmm; word = identity_table s.word pt i 1024 0 } in
    let u = record (set_pde t i (bit_or (bit_or pt pte_present) pte_writable)) {
      page_tables = (s.page_tables + 1) % 2 ^ 32;
    } in
    let rest = identity_tables u rounds (i + 1) in
    if pt_phys == 0 then (false, record s { pmm = pmm }) else rest

pub init : Vmm → Bool × Vmm
init s =
    let cleared = record s {
      page_directory = λ i. 0;
      mapped_pages = 0;
      page_tables = 0;
      identity_end = 0;
    } in
    let num = num_pde s.pmm.total_memory in
    let (ok, t) = identity_tables cleared num 0 in
    if ok
    then (
      true,
      record t { mapped_pages = num * 1024 % 2 ^ 32; identity_end = num * 2 ^ 22 % 2 ^ 32 },
    )
    else (false, t)
