-- ===== src/Pmm.antt =====
-- kernel/mm/pmm.c: the physical memory manager, a bitmap with one bit for each 4 KB frame.
-- `Pmm` holds the file's static variables. `frame_bitmap` is the array of 32-bit words behind the
-- pointer of that name; an access is always to a frame below `total_frames`, which the array covers
-- (`Invariant.IsValid`). A function that changes the statics returns the new ones.
-- Counters and addresses are `uint64_t` and wrap; a `size_t` has 32 bits (the kernel is built with
-- `-m32`).
pub mod Bitmap
pub mod Invariant
pub mod Search
pub mod Alloc
pub mod Contiguous
pub mod Reserve
pub mod Release
pub mod Report
mod Tests
pub mod Boot
use matryoshka_os.Prelude.{
  ℕ, zero, suc, ◌+◌, ◌-◌, ◌*◌, ◌/◌, ◌%◌, ◌^◌, bit_and, bit_or, Bool, true, not, ◌&&◌, Option, none,
  some, List, ltb, leb, ◌==◌, if◌then◌else◌, get_or, set,
}

pub record Pmm : Type 0 where
  pub frame_bitmap : List ℕ
  pub total_frames : ℕ
  pub used_frames : ℕ
  pub total_memory : ℕ
  pub highest_address : ℕ

-- PMM_FRAME_SIZE
abbrev pub frame_size : ℕ
frame_size = 4096

-- PMM_ADDR_TO_FRAME
abbrev pub addr_to_frame : ℕ → ℕ
addr_to_frame addr = addr / frame_size

-- PMM_FRAME_TO_ADDR
abbrev pub frame_to_addr : ℕ → ℕ
frame_to_addr frame = frame * frame_size % 2 ^ 64

-- `x++` and `x--` on a `uint64_t`
abbrev pub inc64 : ℕ → ℕ
inc64 x = (x + 1) % 2 ^ 64

abbrev pub dec64 : ℕ → ℕ
dec64 x = (x + 2 ^ 64 - 1) % 2 ^ 64

-- (uint64_t)-1
abbrev pub no_frame : ℕ
no_frame = 2 ^ 64 - 1

-- The word of the bitmap that holds the bit of `frame`.
abbrev pub word_of : Pmm → ℕ → ℕ
word_of s frame = get_or s.frame_bitmap (frame / 32) 0

pub bitmap_set : Pmm → ℕ → Pmm
bitmap_set s frame =
    let index = frame / 32 in
    let bit = frame % 32 in
    record s { frame_bitmap = set s.frame_bitmap index (bit_or (word_of s frame) (2 ^ bit)) }

-- `~(1 << bit)` on 32 bits is `2 ^ 32 - 1 - 2 ^ bit`.
pub bitmap_clear : Pmm → ℕ → Pmm
bitmap_clear s frame =
    let index = frame / 32 in
    let bit = frame % 32 in
    record s {
      frame_bitmap = set s.frame_bitmap index (bit_and (word_of s frame) (2 ^ 32 - 1 - 2 ^ bit));
    }

pub bitmap_test : Pmm → ℕ → Bool
bitmap_test s frame = let bit = frame % 32 in not (bit_and (word_of s frame) (2 ^ bit) == 0)

-- The two statements by which the functions below take a frame and give it back.
pub mark_used : Pmm → ℕ → Pmm
mark_used s frame = record (bitmap_set s frame) { used_frames = inc64 s.used_frames }

pub mark_free : Pmm → ℕ → Pmm
mark_free s frame = record (bitmap_clear s frame) { used_frames = dec64 s.used_frames }

-- The inner loop of `find_free_frame`, with `rounds` values of `j` left.
pub find_in_word : Pmm → ℕ → ℕ → ℕ → Option ℕ
find_in_word s i zero j = none
find_in_word s i (suc rounds) j =
    let frame = i * 32 + j in
    let rest = find_in_word s i rounds (j + 1) in
    if ltb frame s.total_frames && not (bitmap_test s frame) then some frame else rest

-- The outer loop: a word of ones is skipped, and so is a word in which no frame was found.
pub find_in_words : Pmm → ℕ → ℕ → Option ℕ
find_in_words s zero i = none
find_in_words s (suc rounds) i =
    let rest = find_in_words s rounds (i + 1) in
    if not (get_or s.frame_bitmap i 0 == 0xFFFFFFFF)
    then (elim (find_in_word s i 32 0) [ some frame ↦ some frame | none ↦ rest ])
    else rest

pub find_free_frame : Pmm → ℕ
find_free_frame s = elim (find_in_words s (s.total_frames / 32) 0) [
  | some frame ↦ frame
  | none ↦ no_frame
]

-- The address of the frame, or 0.
pub alloc_frame : Pmm → ℕ × Pmm
alloc_frame s =
    let frame = find_free_frame s in
    if frame == no_frame then (0, s) else (frame_to_addr frame, mark_used s frame)

-- The loop of `pmm_alloc_frames` up to its `return`, with `rounds` values of `frame` left: the first
-- frame of a run of `count` free ones. `run` is `found_count`.
pub find_run : Pmm → ℕ → ℕ → ℕ → ℕ → ℕ → Option ℕ
find_run s count zero frame start run = none
find_run s count (suc rounds) frame start run =
    let start' = if run == 0 then frame else start in
    let more = find_run s count rounds (frame + 1) start' (run + 1) in
    let again = find_run s count rounds (frame + 1) start 0 in
    if not (bitmap_test s frame) then (if run + 1 == count then some start' else more) else again

-- The loop that marks `count` frames from `frame` on.
pub mark_frames : Pmm → ℕ → ℕ → Pmm
mark_frames s zero frame = s
mark_frames s (suc count) frame = mark_frames (mark_used s frame) count (frame + 1)

pub alloc_frames : Pmm → ℕ → ℕ × Pmm
alloc_frames s count =
    if count == 0 then (0, s) else (elim (find_run s count s.total_frames 0 0 0) [
      | some start ↦ (frame_to_addr start, mark_frames s count start)
      | none ↦ (0, s)
    ])

pub free_frame : Pmm → ℕ → Pmm
free_frame s addr =
    let frame = addr_to_frame addr in
    if leb s.total_frames frame
    then s
    else if not (bitmap_test s frame)
    then s
    else mark_free s frame

-- `i * PMM_FRAME_SIZE` is a `size_t`, and wraps at 32 bits before it is added to the address.
pub free_frames_from : Pmm → ℕ → ℕ → ℕ → Pmm
free_frames_from s addr zero i = s
free_frames_from s addr (suc rounds) i =
    free_frames_from (free_frame s ((addr + i * frame_size % 2 ^ 32) % 2 ^ 64)) addr rounds (i + 1)

pub free_frames : Pmm → ℕ → ℕ → Pmm
free_frames s addr count = free_frames_from s addr count 0

-- A frame out of range counts as allocated.
pub is_frame_allocated : Pmm → ℕ → Bool
is_frame_allocated s addr =
    let frame = addr_to_frame addr in if leb s.total_frames frame then true else bitmap_test s frame

pub record Stats : Type 0 where
  pub total_frames : ℕ
  pub used_frames : ℕ
  pub free_frames : ℕ
  pub total_memory : ℕ
  pub used_memory : ℕ
  pub free_memory : ℕ

pub get_stats : Pmm → Stats
get_stats s =
    let free = (s.total_frames + 2 ^ 64 - s.used_frames) % 2 ^ 64 in
    record {
      total_frames = s.total_frames;
      used_frames = s.used_frames;
      free_frames = free;
      total_memory = s.total_memory;
      used_memory = s.used_frames * frame_size % 2 ^ 64;
      free_memory = free * frame_size % 2 ^ 64;
    }

pub reserve_frame : Pmm → ℕ → Pmm
reserve_frame s addr =
    let frame = addr_to_frame addr in
    if leb s.total_frames frame
    then s
    else if not (bitmap_test s frame)
    then mark_used s frame
    else s

-- The loop of `pmm_reserve_region`, which ends at the first frame that is out of range.
pub reserve_frames : Pmm → ℕ → ℕ → Pmm
reserve_frames s zero frame = s
reserve_frames s (suc rounds) frame =
    let rest = reserve_frames (reserve_frame s (frame_to_addr frame)) rounds (frame + 1) in
    if ltb frame s.total_frames then rest else s

-- `frame <= end_frame`: one frame more than the region holds.
pub reserve_region : Pmm → ℕ → ℕ → Pmm
reserve_region s start end =
    let start_frame = addr_to_frame start in
    let end_frame = addr_to_frame end + (if end % frame_size == 0 then 0 else 1) in
    reserve_frames s (end_frame + 1 - start_frame) start_frame
