-- ===== src/Vfs/Boot.antt =====
-- kernel/fs/ramfs.c: `ramfs_init`, up to what it prints.
use matryoshka_os.Prelude.{ℕ, Option, some, List, ◌==◌, if◌then◌else◌, ◌>>=◌, length}
use matryoshka_os.Prelude.Text.{codes, place_text}
use matryoshka_os.Vfs.{Fs, vfs_file, vfs_directory, set_root}
use matryoshka_os.Vfs.Ramfs.{alloc_node, create, lookup, write}

-- `msg`
abbrev pub motd_text : List ℕ
motd_text = codes "Welcome to MatryoshkaOS!\n"

-- The welcome file in the directory `etc`; `at` is the address of its text.
pub write_motd : ℕ → Fs → ℕ → ℕ → Option Fs
write_motd fuel s etc at = if etc == 0 then some s else do
  motd ← create fuel s etc (codes "motd") vfs_file
  let t = record motd.1 {
    heap = record motd.1.heap { byte = place_text motd.1.heap.byte at motd_text };
  }
  if motd.0 == 0
      then some motd.1
      else (write fuel t motd.0 0 (length motd_text) at >>= λ r. some r.1)

-- `ramfs_init`; the walks of the heap and of the lists of children take fuel.
pub ramfs_init : ℕ → Fs → ℕ → Option Fs
unfolding write_motd
ramfs_init fuel s at = do
  root ← alloc_node fuel s (codes "/") vfs_directory
  if root.0 == 0 then some root.1 else do
    tmp ← create fuel (set_root root.1 root.0) root.0 (codes "tmp") vfs_directory
    dev ← create fuel tmp.1 root.0 (codes "dev") vfs_directory
    etc ← create fuel dev.1 root.0 (codes "etc") vfs_directory
    found ← lookup fuel etc.1 root.0 (codes "etc")
    write_motd fuel etc.1 found at
