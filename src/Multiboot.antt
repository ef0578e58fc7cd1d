-- ===== src/Multiboot.antt =====
-- kernel/arch/x86_64/multiboot2.c and include/matryoshka/multiboot2.h: the walk over the tags that
-- the boot loader left in memory.
-- `Memory` gives the byte at each physical address; pointers have 32 bits and NULL is 0. A loop whose
-- end depends on the memory takes fuel, and `none` means that the fuel ran out, or that
-- `entry_size` is 0 and the division by it faults.
pub mod Tags
pub mod Tests
use matryoshka_os.Prelude.{
  ℕ, zero, suc, ◌+◌, ◌-◌, ◌*◌, ◌/◌, ◌%◌, ◌^◌, Option, none, some, List, [], ◌∷◌, ◌==◌,
  if◌then◌else◌, ◌>>=◌,
}

abbrev pub Memory : Type 0
Memory = ℕ → ℕ

-- MULTIBOOT_TAG_TYPE_END, _BASIC_MEMINFO, _MMAP and MULTIBOOT_MEMORY_AVAILABLE
abbrev pub type_end : ℕ
type_end = 0

abbrev pub type_basic_meminfo : ℕ
type_basic_meminfo = 4

abbrev pub type_mmap : ℕ
type_mmap = 6

abbrev pub memory_available : ℕ
memory_available = 1

-- Little-endian reads of a `uint32_t` and a `uint64_t`.
unfoldable pub read_u32 : Memory → ℕ → ℕ
read_u32 m p = m p + m (p + 1) * 2 ^ 8 + m (p + 2) * 2 ^ 16 + m (p + 3) * 2 ^ 24

unfoldable pub read_u64 : Memory → ℕ → ℕ
unfolding read_u32
read_u64 m p = read_u32 m p + read_u32 m (p + 4) * 2 ^ 32

-- The fields `type` and `size` of `multiboot_tag_t`.
abbrev pub tag_type : Memory → ℕ → ℕ
tag_type m tag = read_u32 m tag

abbrev pub tag_size : Memory → ℕ → ℕ
tag_size m tag = read_u32 m (tag + 4)

-- `(uint8_t *)tag + ((tag->size + 7) & ~7)`
abbrev pub next_tag : Memory → ℕ → ℕ
next_tag m tag = (tag + (tag_size m tag + 7) % 2 ^ 32 / 8 * 8) % 2 ^ 32

-- The loop of `multiboot_find_tag`.
pub find_from : ℕ → Memory → ℕ → ℕ → Option ℕ
find_from zero m tag ty = none
find_from (suc fuel) m tag ty =
    let rest = find_from fuel m (next_tag m tag) ty in
    if tag_type m tag == type_end then some 0 else if tag_type m tag == ty then some tag else rest

pub find_tag : ℕ → Memory → ℕ → ℕ → Option ℕ
find_tag fuel m mbi ty = if mbi == 0 then some 0 else find_from fuel m ((mbi + 8) % 2 ^ 32) ty

pub get_mmap : ℕ → Memory → ℕ → Option ℕ
get_mmap fuel m mbi = if mbi == 0 then some 0 else find_tag fuel m mbi type_mmap

-- `multiboot_mmap_entry_t`
pub record MmapEntry : Type 0 where
  pub addr : ℕ
  pub len : ℕ
  pub kind : ℕ

unfoldable pub read_entry : Memory → ℕ → MmapEntry
unfolding read_u64
read_entry m p = record {
  addr = read_u64 m p;
  len = read_u64 m (p + 8);
  kind = read_u32 m (p + 16);
}

-- `entry_count` entries from `p` on, `entry_size` bytes apart.
unfoldable pub read_entries : Memory → ℕ → ℕ → ℕ → List MmapEntry
unfolding read_entry
read_entries m entry_size zero p = []
read_entries m entry_size (suc n) p =
    read_entry m p ∷ read_entries m entry_size n ((p + entry_size) % 2 ^ 32)

-- The entries that both loops over the memory map visit: `entries` stands 16 bytes into the tag, and
-- `(size - sizeof(multiboot_tag_mmap_t)) / entry_size` is unsigned.
unfoldable pub mmap_entries : Memory → ℕ → Option (List MmapEntry)
unfolding read_entries
mmap_entries m tag =
    let entry_size = read_u32 m (tag + 8) in
    if entry_size == 0
    then none
    else some (
        read_entries m entry_size ((tag_size m tag + 2 ^ 32 - 16) % 2 ^ 32 / entry_size) (tag + 16))

-- `total += entry->len` over the available entries.
pub sum_available : ℕ → List MmapEntry → ℕ
sum_available total [] = total
sum_available total (e ∷ es) =
    sum_available (if e.kind == memory_available then (total + e.len) % 2 ^ 64 else total) es

-- The fallback: kilobytes below 640 KB and above 1 MB, and the gap.
pub basic_total : Memory → ℕ → ℕ
basic_total m info =
    (read_u32 m (info + 8) * 1024 + read_u32 m (info + 12) * 1024 + 1024 * 1024) % 2 ^ 64

pub basic_memory : ℕ → Memory → ℕ → Option ℕ
basic_memory fuel m mbi = do
  info ← find_tag fuel m mbi type_basic_meminfo
  some (if info == 0 then 0 else basic_total m info)

pub mapped_memory : Memory → ℕ → Option ℕ
mapped_memory m mmap = do entries ← mmap_entries m mmap; some (sum_available 0 entries)

pub get_total_memory : ℕ → Memory → ℕ → Option ℕ
unfolding basic_memory mapped_memory
get_total_memory fuel m mbi = if mbi == 0 then some 0 else do
  mmap ← get_mmap fuel m mbi
  if mmap == 0 then basic_memory fuel m mbi else mapped_memory m mmap
