-- ===== src/Shell/Files.antt =====
-- kernel/shell.c: the commands on files, and the one that starts a task. The walks of the file system
-- and of the heap take fuel, and `none` means that it ran out.
use matryoshka_os.Prelude.{
  ℕ, zero, suc, ◌+◌, ◌^◌, not, ◌&&◌, Option, none, some, List, [], ◌∷◌, ltb, ◌==◌, if◌then◌else◌,
  ◌>>=◌, length,
}
use matryoshka_os.Prelude.Text.{codes, place_text}
use matryoshka_os.Vga.{Vga, putchar, puts}
use matryoshka_os.Task.{create_user, no_task}
use matryoshka_os.Vfs.{Fs, vfs_directory, has_flag, is_directory, close}
use matryoshka_os.Vfs.Ramfs.{resolve, readdir, open_path, read_fd, write_fd, create_at, mkdir}
use matryoshka_os.Vfs
use matryoshka_os.Shell.{Session, grey, yellow, light_red, light_cyan, print_uint, skip_spaces}

-- VFS_O_RDONLY, and VFS_O_WRONLY | VFS_O_CREAT | VFS_O_TRUNC
abbrev pub o_rdonly : ℕ
o_rdonly = 0

abbrev pub o_rewrite : ℕ
o_rewrite = 0x241

-- The file system, on the kernel's heap; and a session after a change of it.
abbrev pub files : Session → Fs
files s = record s.fs { heap = s.kernel.heap }

abbrev pub with_files : Session → Fs → Session
with_files s f = record s { fs = f; kernel = record s.kernel { heap = f.heap } }

-- A red line of a text and a path.
pub complain : Session → List ℕ → List ℕ → Session
complain s text path = record s { vga = putchar (puts (puts (light_red s.vga) text) path) 10 }

-- The loop of `cmd_ls` from the entry `i` on.
pub list_from : ℕ → Fs → List ℕ → Vga → ℕ → Option Vga
list_from zero f path v i = none
list_from (suc fuel) f path v i = elim (readdir fuel f path i) [
  | none ↦ none
  | some none ↦ some v
  | some (some (name, kind)) ↦
      let shown =
        if has_flag kind vfs_directory
        then putchar (puts (light_cyan v) name) 47
        else puts (grey v) name in
      list_from fuel f path (puts shown (codes "  ")) (i + 1)
]

-- `cmd_ls` with the node that the path leads to.
pub list_node : ℕ → Session → List ℕ → ℕ → Option Session
unfolding list_from complain
list_node fuel s path dir =
    let f = files s in
    let size =
      puts (print_uint (puts (puts s.vga (f.node dir).name) (codes "  ")) (f.node dir).size)
        (codes " B\n") in
    let listed =
      list_from fuel f path s.vga 0 >>= λ v. some (record s { vga = putchar (grey v) 10 }) in
    if dir == 0
    then some (complain s (codes "ls: not found: ") path)
    else if not (is_directory f dir)
    then some (record s { vga = size })
    else listed

-- A path, or "/" where there is none.
abbrev pub or_root : List ℕ → List ℕ
or_root [] = codes "/"
or_root (c ∷ cs) = c ∷ cs

pub cmd_ls : ℕ → Session → List ℕ → Option Session
unfolding list_node
cmd_ls fuel s args =
    let path = or_root (skip_spaces args) in
    resolve fuel (files s) path >>= λ dir. list_node fuel s path dir

-- The characters from `p` on up to a 0, at most `n`.
pub text_from : (ℕ → ℕ) → ℕ → ℕ → List ℕ
text_from byte p zero = []
text_from byte p (suc n) =
    let rest = text_from byte (p + 1) n in if byte p == 0 then [] else byte p ∷ rest

-- The loop of `cmd_cat`: the file system and the screen when a read gives no more.
pub print_file : ℕ → Fs → Vga → ℕ → ℕ → Option (Fs × Vga)
unfolding text_from
print_file zero f v fd buf = none
print_file (suc fuel) f v fd buf =
    let r = read_fd f fd buf 127 in
    let rest = print_file fuel r.1 (puts v (text_from r.1.heap.byte buf r.0)) fd buf in
    if ltb 0 r.0 && ltb r.0 (2 ^ 31) then rest else some (r.1, v)

-- `cmd_cat` with the descriptor.
pub print_open : ℕ → Session → List ℕ → ℕ × Fs → Option Session
unfolding print_file complain
print_open fuel s path (fd, f) =
    let printed = print_file fuel f (grey s.vga) fd s.frame_at >>= λ r.
    some (record (with_files s (close r.0 fd).1) { vga = r.1 }) in
    if fd == Vfs.failed
    then some (complain (with_files s f) (codes "cat: not found: ") path)
    else printed

pub cmd_cat : ℕ → Session → List ℕ → Option Session
unfolding print_open
cmd_cat fuel s args =
    let path = skip_spaces args in
    let opened = open_path fuel (files s) path o_rdonly >>= λ r. print_open fuel s path r in
    if length path == 0
    then some (record s { vga = puts s.vga (codes "Usage: cat <path>\n") })
    else opened

pub cmd_mkdir : ℕ → Session → List ℕ → Option Session
unfolding complain
cmd_mkdir fuel s args =
    let path = skip_spaces args in
    let made = mkdir fuel (files s) path >>= λ r. some (
      if r.0 == Vfs.failed
      then complain (with_files s r.1) (codes "mkdir: failed: ") path
      else with_files s r.1) in
    if length path == 0
    then some (record s { vga = puts s.vga (codes "Usage: mkdir <path>\n") })
    else made

pub cmd_touch : ℕ → Session → List ℕ → Option Session
unfolding complain
cmd_touch fuel s args =
    let path = skip_spaces args in
    let made = create_at fuel (files s) path Vfs.vfs_file >>= λ r. some (
      if r.0 == 0
      then complain (with_files s r.1) (codes "touch: failed: ") path
      else with_files s r.1) in
    if length path == 0
    then some (record s { vga = puts s.vga (codes "Usage: touch <path>\n") })
    else made

-- The loop of `cmd_write` that takes the path, with `room` characters left in its array: the path and
-- the rest of the line.
unfoldable pub first_token : ℕ → List ℕ → List ℕ × List ℕ
first_token room [] = ([], [])
first_token zero (c ∷ cs) = ([], c ∷ cs)
first_token (suc room) (c ∷ cs) =
    let r = first_token room cs in if c == 32 then ([], c ∷ cs) else (c ∷ r.0, r.1)

abbrev pub place_in : Fs → ℕ → List ℕ → Fs
place_in f p text = record f { heap = record f.heap { byte = place_text f.heap.byte p text } }

-- `cmd_write` with the descriptor. The text is in the line that was read, and the newline a constant.
pub write_open : ℕ → Session → List ℕ → List ℕ → ℕ × Fs → Option Session
unfolding complain
write_open fuel s path text (fd, f) =
    let written = (do
      a ← write_fd fuel (place_in f s.line_at text) fd s.line_at (length text)
      b ← write_fd fuel (place_in a.1 s.frame_at (10 ∷ [])) fd s.frame_at 1
      some (with_files s (close b.1 fd).1)) in
    if fd == Vfs.failed
    then some (complain (with_files s f) (codes "write: cannot open: ") path)
    else written

pub cmd_write : ℕ → Session → List ℕ → Option Session
unfolding first_token write_open
cmd_write fuel s args =
    let p = skip_spaces args in
    let token = first_token 127 p in
    let text = skip_spaces token.1 in
    let usage = record s { vga = puts s.vga (codes "Usage: write <path> <text>\n") } in
    let opened =
      open_path fuel (files s) token.0 o_rewrite >>= λ r. write_open fuel s token.0 text r in
    if length p == 0 then some usage else if length text == 0 then some usage else opened

-- `cmd_syscall`, for the addresses of the task's function and of its name.
pub cmd_syscall : ℕ → Session → ℕ → ℕ → Option Session
unfolding print_uint
cmd_syscall fuel s user_demo_entry name =
    let title = grey (puts (yellow s.vga) (codes "Spawning user-mode (ring 3) task...\n")) in
    create_user fuel s.kernel user_demo_entry name >>= λ r. some (record s {
      kernel = r.1;
      vga =
          if r.0 == no_task
          then puts (light_red title) (codes "  ERROR: failed to create user task\n")
          else puts (print_uint (puts title (codes "  Task created (id=")) r.0)
              (codes "), will run on next schedule tick\n");
    })
