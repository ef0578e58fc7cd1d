-- ===== src/Vfs.antt =====
-- kernel/fs/vfs.c, and kernel/fs/ramfs.c, the one file system behind it. `Fs` holds the statics of
-- both files and the objects that their pointers name: `node` is the `vfs_node_t` at an address and
-- `file` the `ramfs_file_t` there; file contents and buffers are bytes of the heap's memory. A name or
-- a path is the list of its characters, without the 0. `has_ops` says that the node has an operations
-- table; the one table there is has every operation. NULL is 0. A walk along a list of children and a
-- search in the heap take fuel, and `none` means that it ran out.
pub mod Ramfs
pub mod Boot
pub mod Path
pub mod Grow
pub mod Data
mod Tests
use matryoshka_os.Prelude.{
  ℕ, zero, suc, ◌+◌, ◌-◌, ◌%◌, ◌^◌, bit_and, Bool, true, false, not, ◌&&◌, ◌||◌, Option, none, some,
  List, [], ◌∷◌, ◌++◌, ltb, leb, ◌==◌, if◌then◌else◌, ◌>>=◌, update, length, take,
}
use matryoshka_os.Heap.{Heap}

-- `vfs_node_t`
pub record Node : Type 0 where
  pub name : List ℕ
  pub flags : ℕ
  pub size : ℕ
  pub inode : ℕ
  pub has_ops : Bool
  pub fs_data : ℕ
  pub parent : ℕ
  pub children : ℕ
  pub next : ℕ

-- `ramfs_file_t`
pub record RamfsFile : Type 0 where
  pub data_at : ℕ
  pub capacity : ℕ

-- `fd_entry_t`
pub record FdEntry : Type 0 where
  pub fd_node : ℕ
  pub fd_offset : ℕ
  pub fd_flags : ℕ
  pub used : Bool

pub record Fs : Type 0 where
  pub node : ℕ → Node
  pub file : ℕ → RamfsFile
  pub heap : Heap
  pub next_inode : ℕ
  pub fd_table : ℕ → FdEntry
  pub root_node : ℕ

-- VFS_NAME_MAX, VFS_MAX_FDS, VFS_FILE, VFS_DIRECTORY, VFS_O_CREAT, VFS_O_TRUNC, VFS_O_APPEND
abbrev pub name_max : ℕ
name_max = 64

abbrev pub max_fds : ℕ
max_fds = 32

abbrev pub vfs_file : ℕ
vfs_file = 1

abbrev pub vfs_directory : ℕ
vfs_directory = 2

abbrev pub o_creat : ℕ
o_creat = 0x40

abbrev pub o_trunc : ℕ
o_trunc = 0x200

abbrev pub o_append : ℕ
o_append = 0x400

-- The test `flags & flag`.
abbrev pub has_flag : ℕ → ℕ → Bool
has_flag flags flag = not (bit_and flags flag == 0)

abbrev pub is_directory : Fs → ℕ → Bool
is_directory s p = has_flag (s.node p).flags vfs_directory

-- -1 for `int` results.
abbrev pub failed : ℕ
failed = 2 ^ 32 - 1

abbrev pub set_node : Fs → ℕ → Node → Fs
set_node s p n = record s { node = update s.node p n }

-- '/' is 47.
pub skip_slashes : List ℕ → List ℕ
skip_slashes [] = []
skip_slashes (c ∷ cs) = let rest = skip_slashes cs in if c == 47 then rest else c ∷ cs

-- At most `room` characters before a slash, and what follows them.
pub split_component : ℕ → List ℕ → List ℕ × List ℕ
split_component zero cs = ([], cs)
split_component (suc room) [] = ([], [])
split_component (suc room) (c ∷ cs) =
    let (comp, rest) = split_component room cs in if c == 47 then ([], c ∷ cs) else (c ∷ comp, rest)

-- `next_component`: the component and the cursor, if there is one.
pub component_of : ℕ → List ℕ → Option (List ℕ × List ℕ)
component_of max [] = none
component_of max (c ∷ cs) = some (split_component (max - 1) (c ∷ cs))

pub next_component : ℕ → List ℕ → Option (List ℕ × List ℕ)
next_component max cursor = component_of max (skip_slashes cursor)

pub alloc_fd_from : Fs → ℕ → ℕ → Option ℕ
alloc_fd_from s zero i = none
alloc_fd_from s (suc rounds) i =
    let rest = alloc_fd_from s rounds (i + 1) in if not (s.fd_table i).used then some i else rest

-- `alloc_fd`, with `none` for -1.
pub alloc_fd : Fs → Option ℕ
alloc_fd s = alloc_fd_from s max_fds 0

pub init : Fs → Fs
init s = record s {
  fd_table = λ i. record { fd_node = 0; fd_offset = 0; fd_flags = 0; used = false };
  root_node = 0;
}

pub set_root : Fs → ℕ → Fs
set_root s root = record s { root_node = root }

-- The guard `fd < 0 || fd >= VFS_MAX_FDS || !used`; a negative `fd` is above 2^31.
abbrev pub is_bad_fd : Fs → ℕ → Bool
is_bad_fd s fd = leb max_fds fd || not (s.fd_table fd).used

pub close : Fs → ℕ → ℕ × Fs
close s fd = if is_bad_fd s fd then (failed, s) else (
  0,
  record s {
    fd_table = update s.fd_table fd (record (s.fd_table fd) { used = false; fd_node = 0 });
  },
)

-- The index behind the last slash: `last_slash`, as a length of path before it, from `i` on.
pub last_slash : List ℕ → ℕ → ℕ → ℕ
last_slash [] i last = last
last_slash (c ∷ cs) i last = last_slash cs (i + 1) (if c == 47 then i else last)
