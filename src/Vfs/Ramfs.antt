-- ===== src/Vfs/Ramfs.antt =====
-- kernel/fs/ramfs.c, and the functions of kernel/fs/vfs.c that call it.
pub mod Directory
pub mod Create
use matryoshka_os.Prelude.{
  ℕ, zero, suc, ◌+◌, ◌-◌, ◌*◌, ◌%◌, ◌^◌, Bool, true, false, not, ◌&&◌, ◌||◌, Option, none, some,
  List, [], ◌∷◌, ltb, leb, ◌==◌, if◌then◌else◌, ◌>>=◌, update, length, take, drop,
}
use matryoshka_os.Heap.{Heap, kmalloc, kfree}
use matryoshka_os.Strings.{memcpy, memset}
use matryoshka_os.Vfs.{
  Fs, name_max, vfs_file, vfs_directory, o_creat, o_trunc, o_append, has_flag, is_directory, failed,
  set_node, next_component, alloc_fd, is_bad_fd, last_slash,
}

-- sizeof(vfs_node_t) and sizeof(ramfs_file_t)
abbrev pub node_size : ℕ
node_size = 96

abbrev pub file_size : ℕ
file_size = 8

-- The payload of a new node.
pub add_file : ℕ → Fs → ℕ → Option (ℕ × Fs)
add_file fuel s p = do
  r ← kmalloc fuel s.heap file_size
  some (
    p,
    record (set_node s p (record (s.node p) { fs_data = r.0 })) {
      heap = r.1;
      file = if r.0 == 0 then s.file else update s.file r.0 (record { data_at = 0; capacity = 0 });
    },
  )

-- `alloc_node`, with the heap that gave the node's memory at `p`.
unfoldable pub fill_node : ℕ → Fs → ℕ → List ℕ → ℕ → Option (ℕ × Fs)
fill_node fuel s p name flags =
    let t =
      record (set_node s p (record {
        name = take (name_max - 1) name;
        flags = flags;
        size = 0;
        inode = s.next_inode;
        has_ops = true;
        fs_data = 0;
        parent = 0;
        children = 0;
        next = 0;
      })) { next_inode = (s.next_inode + 1) % 2 ^ 32 } in
    if has_flag flags vfs_file then add_file fuel t p else some (p, t)

unfoldable pub alloc_node : ℕ → Fs → List ℕ → ℕ → Option (ℕ × Fs)
alloc_node fuel s name flags = do
  r ← kmalloc fuel s.heap node_size
  if r.0 == 0
      then some (0, record s { heap = r.1 })
      else fill_node fuel (record s { heap = r.1 }) r.0 name flags

-- `while (new_cap < needed) new_cap *= 2`
unfoldable pub grow : ℕ → ℕ → ℕ → Option ℕ
grow zero cap needed = none
grow (suc fuel) cap needed =
    let rest = grow fuel (cap * 2 % 2 ^ 32) needed in if ltb cap needed then rest else some cap

-- The new block becomes the data of the file, with zeros behind the old capacity.
pub install : Fs → Heap → ℕ → ℕ → ℕ → Bool × Fs
install s h f new_data new_cap =
    let cap = (s.file f).capacity in
    (
      true,
      record s {
        heap = record h { byte = memset h.byte (new_data + cap) 0 (new_cap - cap) };
        file = update s.file f (record { data_at = new_data; capacity = new_cap });
      },
    )

-- The rest of `ensure_capacity`, with the new block at `new_data`.
pub move_data : ℕ → Fs → ℕ → ℕ → ℕ → Option (Bool × Fs)
move_data fuel s f new_data new_cap =
    let old = s.file f in
    let copied = record s.heap { byte = memcpy s.heap.byte new_data old.data_at old.capacity } in
    if new_data == 0
    then some (false, s)
    else if old.data_at == 0
    then some (install s s.heap f new_data new_cap)
    else (kfree fuel copied old.data_at >>= λ h. some (install s h f new_data new_cap))

unfoldable pub ensure_capacity : ℕ → Fs → ℕ → ℕ → Option (Bool × Fs)
ensure_capacity fuel s f needed =
    let cap = (s.file f).capacity in
    if leb needed cap then some (true, s) else do
      new_cap ← grow fuel (if cap == 0 then 64 else cap) needed
      r ← kmalloc fuel s.heap new_cap
      move_data fuel (record s { heap = r.1 }) f r.0 new_cap

-- The number of bytes read, or -1, and the state, whose buffer at `buf` has them.
unfoldable pub read : Fs → ℕ → ℕ → ℕ → ℕ → ℕ × Fs
read s p off size buf =
    let n = s.node p in
    let f = s.file n.fs_data in
    let avail = n.size - off in
    let count = if ltb avail size then avail else size in
    let t = record s {
      heap = record s.heap { byte = memcpy s.heap.byte buf (f.data_at + off) count };
    } in
    if not (has_flag n.flags vfs_file)
    then (failed, s)
    else if n.fs_data == 0
    then (failed, s)
    else if leb n.size off
    then (0, s)
    else if not (f.data_at == 0)
    then (count, t)
    else (count, s)

-- The rest of `ramfs_write`, once the capacity is there.
unfoldable pub store : Fs → ℕ → ℕ → ℕ → ℕ → ℕ × Fs
store s p off size buf =
    let n = s.node p in
    let f = s.file n.fs_data in
    let end = (off + size) % 2 ^ 32 in
    (
      size,
      record (set_node s p (record n { size = if ltb n.size end then end else n.size })) {
        heap = record s.heap { byte = memcpy s.heap.byte (f.data_at + off) buf size };
      },
    )

unfoldable pub write : ℕ → Fs → ℕ → ℕ → ℕ → ℕ → Option (ℕ × Fs)
write fuel s p off size buf =
    let n = s.node p in
    if not (has_flag n.flags vfs_file)
    then some (failed, s)
    else if n.fs_data == 0
    then some (failed, s)
    else do
      r ← ensure_capacity fuel s n.fs_data ((off + size) % 2 ^ 32)
      some (if r.0 then store r.1 p off size buf else (failed, r.1))

-- `strcmp(a, b) == 0`
unfoldable pub same_name : List ℕ → List ℕ → Bool
same_name [] [] = true
same_name [] (d ∷ ds) = false
same_name (c ∷ cs) [] = false
same_name (c ∷ cs) (d ∷ ds) = (c == d) && same_name cs ds

unfoldable pub find_child : ℕ → Fs → ℕ → List ℕ → Option ℕ
find_child zero s c name = none
find_child (suc fuel) s c name =
    let rest = find_child fuel s (s.node c).next name in
    if c == 0 then some 0 else if same_name (s.node c).name name then some c else rest

unfoldable pub lookup : ℕ → Fs → ℕ → List ℕ → Option ℕ
lookup fuel s dir name =
    if not (is_directory s dir) then some 0 else find_child fuel s (s.node dir).children name

pub nth_child : ℕ → Fs → ℕ → ℕ → Option ℕ
nth_child zero s c index = none
nth_child (suc fuel) s c index =
    let rest = nth_child fuel s (s.node c).next (index - 1) in
    if c == 0 then some 0 else if index == 0 then some c else rest

-- The name and the type of the entry, or `none` inside for -1.
pub entry_at : Fs → ℕ → Option (List ℕ × ℕ)
entry_at s c = if c == 0 then none else some ((s.node c).name, (s.node c).flags)

pub readdir_node : ℕ → Fs → ℕ → ℕ → Option (Option (List ℕ × ℕ))
readdir_node fuel s dir index =
    if not (is_directory s dir)
    then some none
    else (nth_child fuel s (s.node dir).children index >>= λ c. some (entry_at s c))

-- A new node becomes the first child.
unfoldable pub link_child : ℕ → ℕ × Fs → ℕ × Fs
link_child parent (p, s) =
    let t = set_node s p (record (s.node p) { parent = parent; next = (s.node parent).children }) in
    if p == 0 then (p, s) else (p, set_node t parent (record (t.node parent) { children = p }))

unfoldable pub create : ℕ → Fs → ℕ → List ℕ → ℕ → Option (ℕ × Fs)
create fuel s parent name flags = if not (is_directory s parent) then some (0, s) else do
  found ← lookup fuel s parent name
  if not (found == 0)
      then some (0, s)
      else (alloc_node fuel s name flags >>= λ r. some (link_child parent r))

-- The loop of `vfs_resolve`.
pub resolve_from : ℕ → Fs → ℕ → List ℕ → Option ℕ
resolve_from zero s cur path = none
resolve_from (suc fuel) s cur path = elim (next_component name_max path) [
  | none ↦ some cur
  | some step ↦
      if not (is_directory s cur)
      then some 0
      else if not (s.node cur).has_ops
      then some 0
      else (lookup fuel s cur step.0 >>= λ c.
          if c == 0 then some 0 else resolve_from fuel s c step.1)
]

-- `path` is the string "/" if both tests hold: then the loop finds no component and returns the root.
pub resolve : ℕ → Fs → List ℕ → Option ℕ
resolve fuel s path = if s.root_node == 0 then some 0 else resolve_from fuel s s.root_node path

-- `resolve_parent`: the parent, or NULL, and the last name.
pub resolve_parent : ℕ → Fs → List ℕ → Option (ℕ × List ℕ)
resolve_parent fuel s [] = some (0, [])
resolve_parent fuel s (c ∷ cs) =
    let last = last_slash (c ∷ cs) 0 0 in
    let leaf = take (name_max - 1) (drop (last + 1) (c ∷ cs)) in
    if not (c == 47)
    then some (0, [])
    else if length leaf == 0
    then some (0, leaf)
    else if last == 0
    then some (s.root_node, leaf)
    else if leb 256 last
    then some (0, leaf)
    else (resolve fuel s (take last (c ∷ cs)) >>= λ p. some (p, leaf))

-- `vfs_mkdir` and `vfs_create_file`: the new node, or NULL.
pub create_at : ℕ → Fs → List ℕ → ℕ → Option (ℕ × Fs)
create_at fuel s path flags = do
  r ← resolve_parent fuel s path
  if (r.0 == 0) || not (is_directory s r.0) || not (s.node r.0).has_ops
      then some (0, s)
      else create fuel s r.0 r.1 flags

pub mkdir : ℕ → Fs → List ℕ → Option (ℕ × Fs)
mkdir fuel s path =
    create_at fuel s path vfs_directory >>= λ r. some (if r.0 == 0 then (failed, r.1) else (0, r.1))

-- The descriptor of an open node.
pub open_node : Fs → ℕ → ℕ → ℕ × Fs
open_node s p flags = elim (if p == 0 then none else alloc_fd s) [
  | none ↦ (failed, s)
  | some fd ↦
      let t = record s {
        fd_table = update s.fd_table fd (record {
          fd_node = p;
          fd_offset = if has_flag flags o_append then (s.node p).size else 0;
          fd_flags = flags;
          used = true;
        });
      } in
      (
        fd,
        if has_flag flags o_trunc && (s.node p).has_ops
            then set_node t p (record (t.node p) { size = 0 })
            else t,
      )
]

pub open_path : ℕ → Fs → List ℕ → ℕ → Option (ℕ × Fs)
open_path fuel s path flags = do
  p ← resolve fuel s path
  if (p == 0) && has_flag flags o_creat
      then (create_at fuel s path vfs_file >>= λ r. some (open_node r.1 r.0 flags))
      else some (open_node s p flags)

-- `if (n > 0) offset += n`, where -1 is not above 0.
pub advance : ℕ → ℕ × Fs → ℕ × Fs
advance fd (n, s) =
    let e = s.fd_table fd in
    (
      n,
      if ltb 0 n && ltb n (2 ^ 31)
          then record s {
            fd_table = update s.fd_table fd (record e { fd_offset = (e.fd_offset + n) % 2 ^ 32 });
          }
          else s,
    )

pub read_fd : Fs → ℕ → ℕ → ℕ → ℕ × Fs
read_fd s fd buf size =
    let e = s.fd_table fd in
    if is_bad_fd s fd
    then (failed, s)
    else if (e.fd_node == 0) || not (s.node e.fd_node).has_ops
    then (failed, s)
    else advance fd (read s e.fd_node e.fd_offset size buf)

pub write_fd : ℕ → Fs → ℕ → ℕ → ℕ → Option (ℕ × Fs)
write_fd fuel s fd buf size =
    let e = s.fd_table fd in
    if is_bad_fd s fd
    then some (failed, s)
    else if (e.fd_node == 0) || not (s.node e.fd_node).has_ops
    then some (failed, s)
    else (write fuel s e.fd_node e.fd_offset size buf >>= λ r. some (advance fd r))

pub readdir : ℕ → Fs → List ℕ → ℕ → Option (Option (List ℕ × ℕ))
readdir fuel s path index = do
  dir ← resolve fuel s path
  if (dir == 0) || not (is_directory s dir) || not (s.node dir).has_ops
      then some none
      else readdir_node fuel s dir index
