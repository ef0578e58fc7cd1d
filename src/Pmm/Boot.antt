-- ===== src/Pmm/Boot.antt =====
-- `pmm_init` of kernel/mm/pmm.c: the statics from the memory map of the boot loader.
-- The loops read the memory map twice, before and after the bitmap is placed: the model reads it
-- once, so it takes for granted that the bitmap does not lie over the map.
pub mod Regions
pub mod Result
use matryoshka_os.Prelude.{
  ℕ, zero, suc, ◌+◌, ◌-◌, ◌*◌, ◌/◌, ◌%◌, ◌^◌, Option, none, some, List, [], ◌∷◌, ltb, ◌==◌,
  if◌then◌else◌, ◌>>=◌, replicate,
}
use matryoshka_os.Multiboot.{Memory, MmapEntry, get_mmap, mmap_entries, memory_available}
use matryoshka_os.Pmm.{Pmm, frame_size, mark_free, reserve_region}

-- The first loop: the sum of the available regions, and their highest end.
pub measure : Pmm → List MmapEntry → Pmm
measure s [] = s
measure s (e ∷ es) =
    let end_addr = (e.addr + e.len) % 2 ^ 64 in
    let grown = record s {
      total_memory = (s.total_memory + e.len) % 2 ^ 64;
      highest_address = if ltb s.highest_address end_addr then end_addr else s.highest_address;
    } in
    measure (if e.kind == memory_available then grown else s) es

-- The number of frames up to the highest address, rounded up.
pub frames_up_to : ℕ → ℕ
frames_up_to highest = highest / frame_size + (if highest % frame_size == 0 then 0 else 1)

-- One bit for each frame, in whole 32-bit words: the size in bytes.
pub bitmap_bytes : ℕ → ℕ
bitmap_bytes total =
    let bytes = total / 8 + (if total % 8 == 0 then 0 else 1) in
    bytes + (if bytes % 4 == 0 then 0 else 4 - bytes % 4)

-- All frames are marked as used at first.
pub all_used : Pmm → Pmm
unfolding frames_up_to bitmap_bytes
all_used s =
    let total = frames_up_to s.highest_address in
    record s {
      total_frames = total;
      frame_bitmap = replicate (bitmap_bytes total / 4) 0xFFFFFFFF;
      used_frames = total;
    }

-- The frames of an available region: the first rounds down, and so does the end.
abbrev pub first_frame : MmapEntry → ℕ
first_frame e = e.addr / frame_size

abbrev pub last_frame : MmapEntry → ℕ
last_frame e = (e.addr + e.len) % 2 ^ 64 / frame_size

-- The inner loop of the second loop, with `rounds` frames left; it ends at the first frame that is
-- out of range.
pub free_run : Pmm → ℕ → ℕ → Pmm
free_run s zero frame = s
free_run s (suc rounds) frame =
    let rest = free_run (mark_free s frame) rounds (frame + 1) in
    if ltb frame s.total_frames then rest else s

pub free_available : Pmm → List MmapEntry → Pmm
unfolding free_run
free_available s [] = s
free_available s (e ∷ es) =
    free_available
      (if e.kind == memory_available
        then free_run s (last_frame e - first_frame e) (first_frame e)
        else s)
      es

-- What follows the two checks, for the entries of the map. `kernel_end` is the address
-- `bitmap_location`, where the linker's `_kernel_end` stands.
pub init_from : List MmapEntry → ℕ → Pmm → Pmm
unfolding measure all_used free_available
init_from entries kernel_end s =
    let cleared = free_available (all_used (measure s entries)) entries in
    reserve_region cleared 0 ((kernel_end + bitmap_bytes cleared.total_frames) % 2 ^ 64)

-- Without boot information or a memory map an error is printed, and nothing changes.
pub init : ℕ → Memory → ℕ → ℕ → Pmm → Option Pmm
unfolding init_from
init fuel m mbi kernel_end s = if mbi == 0 then some s else do
  mmap ← get_mmap fuel m mbi
  if mmap == 0
      then some s
      else (mmap_entries m mmap >>= λ entries. some (init_from entries kernel_end s))
