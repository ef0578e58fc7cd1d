-- ===== src/Heap.antt =====
-- kernel/mm/heap.c: the kernel heap, a list of blocks that is linked through the block headers.
-- `Heap` holds the statics of the file and the memory that the heap manages: `header` is the
-- `heap_block_t` that is read at an address, and `byte` the payload byte there. The two are kept
-- apart, so a write to a payload changes no header. Pointers and `size_t` have 32 bits (`-m32`), a
-- header takes 16 bytes, and NULL is 0. A walk along the list takes fuel; `none` means that it ran out.
-- What the functions print is left out: heap_init its progress, and find_free_block, on a corrupt header,
-- and kfree, on a bad magic number or a block that is free already, an error message in light red (they
-- leave the screen's color so).
pub mod Layout
pub mod Take
pub mod Alloc
pub mod Merge
pub mod Free
pub mod Roundtrip
pub mod Bytes
mod Tests
use matryoshka_os.Prelude.{
  ℕ, zero, suc, ◌+◌, ◌-◌, ◌*◌, ◌/◌, ◌%◌, ◌^◌, Bool, true, false, not, ◌&&◌, Option, none, some, ltb,
  leb, ◌==◌, if◌then◌else◌, ◌>>=◌, update,
}

-- `heap_block_t`
pub record Header : Type 0 where
  pub magic : ℕ
  pub size : ℕ
  pub is_free : Bool
  pub next : ℕ

pub record Heap : Type 0 where
  pub header : ℕ → Header
  pub byte : ℕ → ℕ
  pub heap_start : ℕ
  pub heap_total : ℕ
  pub heap_used : ℕ

-- HEAP_START, HEAP_INITIAL and HEAP_MAGIC
abbrev pub heap_base : ℕ
heap_base = 0x00200000

abbrev pub heap_initial : ℕ
heap_initial = 0x00100000

abbrev pub heap_magic : ℕ
heap_magic = 0xDEADBEEF

-- sizeof(heap_block_t)
abbrev pub header_size : ℕ
header_size = 16

-- `size_t` addition and subtraction
abbrev pub add32 : ℕ → ℕ → ℕ
add32 a b = (a + b) % 2 ^ 32

abbrev pub sub32 : ℕ → ℕ → ℕ
sub32 a b = (a + 2 ^ 32 - b) % 2 ^ 32

-- A write to a header.
pub set_header : Heap → ℕ → Header → Heap
set_header h p b = record h { header = update h.header p b }

unfoldable pub heap_init : Heap → Heap
unfolding set_header
heap_init h =
    set_header
      (record h { heap_start = heap_base; heap_total = heap_initial; heap_used = header_size })
      heap_base
      (record { magic = heap_magic; size = heap_initial - header_size; is_free = true; next = 0 })

-- The block that `find_free_block` returns, from `current` on; NULL too where a header is corrupt
-- (there the source also prints an error).
unfoldable pub find_block : ℕ → Heap → ℕ → ℕ → Option ℕ
find_block zero h size current = none
find_block (suc fuel) h size current =
    let b = h.header current in
    let rest = find_block fuel h size b.next in
    if current == 0
    then some 0
    else if not (b.magic == heap_magic)
    then some 0
    else if b.is_free && leb size b.size
    then some current
    else rest

unfoldable pub find_free_block : ℕ → Heap → ℕ → Option ℕ
unfolding find_block
find_free_block fuel h size = find_block fuel h size h.heap_start

unfoldable pub split_block : Heap → ℕ → ℕ → Heap
unfolding set_header
split_block h block size =
    let b = h.header block in
    let new_block = add32 block (add32 header_size size) in
    if leb (add32 (add32 size header_size) 16) b.size
    then set_header
        (set_header h new_block (record {
          magic = heap_magic;
          size = sub32 (sub32 b.size size) header_size;
          is_free = true;
          next = b.next;
        }))
        block (record b { size = size; next = new_block })
    else h

-- The loop of `merge_free_blocks`, from `current` on.
pub merge_from : ℕ → Heap → ℕ → Option Heap
merge_from zero h current = none
merge_from (suc fuel) h current =
    let b = h.header current in
    let c = h.header b.next in
    let joined = record b { size = add32 b.size (add32 header_size c.size); next = c.next } in
    let merged = merge_from fuel (set_header h current joined) current in
    let advanced = merge_from fuel h b.next in
    if current == 0
    then some h
    else if b.next == 0
    then some h
    else if b.is_free && c.is_free
    then merged
    else advanced

pub merge_free_blocks : ℕ → Heap → Option Heap
unfolding merge_from set_header
merge_free_blocks fuel h = merge_from fuel h h.heap_start

-- `(size + 7) & ~7` on a `size_t`
abbrev pub align8 : ℕ → ℕ
align8 size = add32 size 7 / 8 * 8

-- What `kmalloc` does with the block that was found.
unfoldable pub take_block : Heap → ℕ → ℕ → ℕ × Heap
unfolding split_block set_header
take_block h block size =
    let s = split_block h block size in
    let b = s.header block in
    let t = set_header s block (record b { is_free = false }) in
    (add32 block header_size, record t { heap_used = add32 t.heap_used (add32 header_size b.size) })

-- The pointer, or NULL, and the heap.
unfoldable pub kmalloc : ℕ → Heap → ℕ → Option (ℕ × Heap)
unfolding find_free_block take_block
kmalloc fuel h size = if size == 0 then some (0, h) else do
  block ← find_free_block fuel h (align8 size)
  some (if block == 0 then (0, h) else take_block h block (align8 size))

-- `for (i = 0; i < size; i++) bytes[i] = 0`, with `rounds` left.
pub zero_bytes : (ℕ → ℕ) → ℕ → ℕ → ℕ → ℕ → ℕ
zero_bytes bytes p zero i = bytes
zero_bytes bytes p (suc rounds) i = zero_bytes (update bytes (add32 p i) 0) p rounds (i + 1)

pub zeroed : ℕ → ℕ × Heap → ℕ × Heap
unfolding zero_bytes
zeroed size (ptr, h) =
    if ptr == 0 then (ptr, h) else (ptr, record h { byte = zero_bytes h.byte ptr size 0 })

pub kzalloc : ℕ → Heap → ℕ → Option (ℕ × Heap)
unfolding kmalloc zeroed
kzalloc fuel h size = do r ← kmalloc fuel h size; some (zeroed size r)

-- On a bad magic number and on a block that is free already the source prints an error, a different
-- one for each; the heap stays as it was.
pub kfree : ℕ → Heap → ℕ → Option Heap
unfolding merge_free_blocks set_header
kfree fuel h ptr =
    let block = sub32 ptr header_size in
    let b = h.header block in
    let t = set_header h block (record b { is_free = true }) in
    if ptr == 0
    then some h
    else if not (b.magic == heap_magic)
    then some h
    else if b.is_free
    then some h
    else merge_free_blocks fuel
        (record t { heap_used = sub32 t.heap_used (add32 header_size b.size) })

-- `for (i = 0; i < block->size && i < size; i++) dst[i] = src[i]`, with `rounds` left.
pub copy_bytes : (ℕ → ℕ) → ℕ → ℕ → ℕ → ℕ → ℕ → ℕ
copy_bytes bytes dst src zero i = bytes
copy_bytes bytes dst src (suc rounds) i =
    copy_bytes (update bytes (add32 dst i) (bytes (add32 src i))) dst src rounds (i + 1)

-- What `krealloc` does once the new block is there. `min` of the two bounds of the copying loop.
pub move_block : ℕ → ℕ → ℕ → ℕ × Heap → Option (ℕ × Heap)
unfolding kfree copy_bytes
move_block fuel ptr size (new_ptr, h) =
    let old = (h.header (sub32 ptr header_size)).size in
    let copied = record h {
      byte = copy_bytes h.byte new_ptr ptr (if ltb old size then old else size) 0;
    } in
    if new_ptr == 0 then some (0, h) else kfree fuel copied ptr >>= λ freed. some (new_ptr, freed)

pub krealloc : ℕ → Heap → ℕ → ℕ → Option (ℕ × Heap)
unfolding kmalloc kfree move_block
krealloc fuel h ptr size =
    if ptr == 0
    then kmalloc fuel h size
    else if size == 0
    then (kfree fuel h ptr >>= λ freed. some (0, freed))
    else if leb size (h.header (sub32 ptr header_size)).size
    then some (ptr, h)
    else kmalloc fuel h size >>= move_block fuel ptr size

-- The values behind the three pointers: the total, the used and the free bytes.
pub heap_get_stats : Heap → ℕ × ℕ × ℕ
heap_get_stats h = (h.heap_total, h.heap_used, sub32 h.heap_total h.heap_used)
