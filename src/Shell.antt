-- ===== src/Shell.antt =====
-- kernel/shell.c: the printing of numbers, and the commands that only print. Strings are lists of
-- characters without the final 0; what the shell calls is the state of the parts in `Session`. The
-- commands on files are in `Shell.Files`, the reading of a line and the dispatch in `Shell.Line` and
-- `Shell.Execute`.
pub mod Files
pub mod Line
pub mod Execute
pub mod Digits
mod Tests
use matryoshka_os.Prelude.{
  ℕ, zero, suc, ◌+◌, ◌-◌, ◌*◌, ◌/◌, ◌%◌, ◌^◌, Option, none, some, List, [], ◌∷◌, ◌++◌, ltb, leb,
  ◌==◌, if◌then◌else◌, length,
}
use matryoshka_os.Prelude.Text.{codes}
use matryoshka_os.Vga.{Vga, putchar, put_chars, puts, set_color, clear}
use matryoshka_os.Pmm.{Stats, get_stats}
use matryoshka_os.Heap.{heap_get_stats}
use matryoshka_os.Timer.{get_uptime_sec}
use matryoshka_os.Task.{TaskState, ready, running, terminated, Scheduler, Kernel, get_info}
use matryoshka_os.Vfs.{Fs}
use matryoshka_os.Net.Poll.{Stack}
use matryoshka_os.E1000.{get_mac, link_up}
use matryoshka_os.Interrupts.{hex_text}

-- What the commands read and change. `text_at` gives the string at an address, `nic_status` is the
-- card's status register; `line_at` and `frame_at` are the addresses of the line that was read and of
-- the arrays of a command. The heap of the file system is the kernel's.
pub record Session : Type 0 where
  pub vga : Vga
  pub kernel : Kernel
  pub fs : Fs
  pub ticks : ℕ
  pub stack : Stack
  pub nic_status : ℕ
  pub cr3 : ℕ
  pub text_at : ℕ → List ℕ
  pub line_at : ℕ
  pub frame_at : ℕ

-- The commands, in the order of the table.
pub data Command : Type 0 where
  help : Command
  clear_screen : Command
  meminfo : Command
  uptime : Command
  ps : Command
  virt : Command
  ls : Command
  cat : Command
  make_directory : Command
  touch : Command
  write_text : Command
  net : Command
  syscall_demo : Command
  echo : Command
  reboot : Command

-- `commands`: the name, the description and the handler.
pub record ShellCmd : Type 0 where
  pub name : List ℕ
  pub desc : List ℕ
  pub handler : Command

abbrev row : List ℕ → List ℕ → Command → ShellCmd
row name desc handler = record { name = name; desc = desc; handler = handler }

abbrev pub commands : List ShellCmd
commands =
    row (codes "help") (codes "Show available commands") help
    ∷ row (codes "clear") (codes "Clear the screen") clear_screen
    ∷ row (codes "meminfo") (codes "Display memory statistics") meminfo
    ∷ row (codes "uptime") (codes "Show system uptime") uptime
    ∷ row (codes "ps") (codes "List kernel tasks") ps
    ∷ row (codes "virt") (codes "Virtual memory info") virt
    ∷ row (codes "ls") (codes "List directory [path]") ls
    ∷ row (codes "cat") (codes "Show file contents") cat
    ∷ row (codes "mkdir") (codes "Create directory") make_directory
    ∷ row (codes "touch") (codes "Create empty file") touch
    ∷ row (codes "write") (codes "Write text: write PATH text") write_text
    ∷ row (codes "net") (codes "Network status") net
    ∷ row (codes "syscall") (codes "Run user-mode syscall demo") syscall_demo
    ∷ row (codes "echo") (codes "Print text to screen") echo
    ∷ row (codes "reboot") (codes "Restart the system") reboot
    ∷ []

-- Colors of the screen, on black.
abbrev pub grey : Vga → Vga
grey v = set_color v 7 0

abbrev pub yellow : Vga → Vga
yellow v = set_color v 14 0

abbrev pub light_red : Vga → Vga
light_red v = set_color v 12 0

abbrev pub light_green : Vga → Vga
light_green v = set_color v 10 0

abbrev pub light_cyan : Vga → Vga
light_cyan v = set_color v 11 0

abbrev pub white : Vga → Vga
white v = set_color v 15 0

-- The first loop of `print_uint`: the digits in `buf`, the last one stored first; 64 bits have at most
-- 20.
pub digits_of : ℕ → ℕ → List ℕ → List ℕ
digits_of zero n buf = buf
digits_of (suc fuel) n buf =
    let rest = digits_of fuel (n / 10) ((48 + n % 10) ∷ buf) in if n == 0 then buf else rest

pub print_uint : Vga → ℕ → Vga
unfolding digits_of
print_uint v n = if n == 0 then putchar v 48 else put_chars v (digits_of 20 n [])

pub print_size : Vga → ℕ → Vga
unfolding print_uint
print_size v bytes =
    if leb (1024 * 1024 * 1024) bytes
    then puts (print_uint v (bytes / (1024 * 1024 * 1024))) (codes " GB")
    else if leb (1024 * 1024) bytes
    then puts (print_uint v (bytes / (1024 * 1024))) (codes " MB")
    else if leb 1024 bytes
    then puts (print_uint v (bytes / 1024)) (codes " KB")
    else puts (print_uint v bytes) (codes " B")

pub skip_spaces : List ℕ → List ℕ
skip_spaces [] = []
skip_spaces (c ∷ cs) = let rest = skip_spaces cs in if c == 32 then rest else c ∷ cs

-- `while (pad--) vga_putchar(' ')`
pub print_pad : Vga → ℕ → Vga
print_pad v zero = v
print_pad v (suc pad) = print_pad (putchar v 32) pad

-- A text, and then a number or a size.
abbrev pub labelled : Vga → List ℕ → ℕ → Vga
labelled v label n = print_uint (puts v label) n

abbrev pub sized : Vga → List ℕ → ℕ → Vga
sized v label bytes = putchar (print_size (puts v label) bytes) 10

-- The loop of `cmd_help`.
pub help_lines : Vga → List ShellCmd → Vga
unfolding print_pad
help_lines v [] = v
help_lines v (c ∷ cs) =
    let named = puts (white (puts v (codes "  "))) c.name in
    let padded = print_pad named ((10 + 2 ^ 32 - length c.name) % 2 ^ 32) in
    help_lines (putchar (puts (grey padded) c.desc) 10) cs

pub cmd_help : Vga → Vga
unfolding help_lines
cmd_help v = help_lines (grey (puts (yellow v) (codes "Available commands:\n"))) commands

pub cmd_clear : Vga → Vga
cmd_clear v = clear v 7 0

pub cmd_meminfo : Session → Vga
unfolding print_size
cmd_meminfo s =
    let p = get_stats s.kernel.vmm.pmm in
    let h = heap_get_stats s.kernel.heap in
    let v1 = grey (puts (yellow s.vga) (codes "Physical Memory:\n")) in
    let v2 = sized v1 (codes "  Total: ") p.total_memory in
    let v3 = sized v2 (codes "  Free:  ") p.free_memory in
    let v4 = sized v3 (codes "  Used:  ") p.used_memory in
    let v5 = grey (puts (yellow v4) (codes "Kernel Heap:\n")) in
    let v6 = sized v5 (codes "  Total: ") h.0 in
    let v7 = sized v6 (codes "  Used:  ") h.1 in sized v7 (codes "  Free:  ") h.2

pub cmd_uptime : Session → Vga
unfolding print_uint
cmd_uptime s =
    let sec = get_uptime_sec s.ticks in
    let days = puts (labelled (grey s.vga) (codes "Uptime: ") (sec / 86400)) (codes "d ") in
    let hours = puts (print_uint days (sec % 86400 / 3600)) (codes "h ") in
    let minutes = puts (print_uint hours (sec % 86400 % 3600 / 60)) (codes "m ") in
    let seconds = puts (print_uint minutes (sec % 86400 % 3600 % 60)) (codes "s (") in
    puts (print_uint seconds s.ticks) (codes " ticks)\n")

-- The name of a state in its color.
pub print_state : Vga → TaskState → Vga
print_state v running = puts (light_green v) (codes "RUNNING    ")
print_state v ready = puts (light_cyan v) (codes "READY      ")
print_state v terminated = puts (set_color v 8 0) (codes "TERMINATED ")

-- One line of `cmd_ps`.
pub ps_line : (ℕ → List ℕ) → Vga → Option (ℕ × ℕ × TaskState) → Vga
unfolding print_uint print_pad print_state
ps_line text v none = v
ps_line text v (some (id, name, state)) =
    let numbered = labelled v (codes "  ") id in
    let padded = print_pad numbered (5 - (if leb 10 id then 2 else 1)) in
    putchar (puts (grey (print_state padded state)) (text name)) 10

-- The loop of `cmd_ps`, with `rounds` tasks left.
pub ps_lines : (ℕ → List ℕ) → Scheduler → Vga → ℕ → ℕ → Vga
unfolding ps_line
ps_lines text t v zero i = v
ps_lines text t v (suc rounds) i = ps_lines text t (ps_line text v (get_info t i)) rounds (i + 1)

pub cmd_ps : Session → Vga
unfolding ps_lines
cmd_ps s =
    let title = grey (puts (yellow s.vga) (codes "  PID  STATE       NAME\n")) in
    ps_lines s.text_at s.kernel.scheduler title s.kernel.scheduler.count 0

pub print_hex32 : Vga → ℕ → Vga
print_hex32 v n = puts v (hex_text n 8)

pub cmd_virt : Session → Vga
unfolding print_uint print_size print_hex32
cmd_virt s =
    let m = s.kernel.vmm in
    let title = grey (puts (yellow s.vga) (codes "Virtual Memory (32-bit paging)\n")) in
    let v1 = puts (labelled title (codes "  Mapped pages:   ") m.mapped_pages) (codes " (") in
    let v2 = puts (print_size v1 (m.mapped_pages * 4096 % 2 ^ 64)) (codes ")\n") in
    let v3 = putchar (labelled v2 (codes "  Page tables:    ") m.page_tables) 10 in
    let v4 = putchar (print_hex32 (puts v3 (codes "  Identity end:   0x")) m.identity_end) 10 in
    putchar (print_hex32 (puts v4 (codes "  CR3:            0x")) s.cr3) 10

-- The bytes of the address, with `rounds` of 6 left.
pub print_mac : Vga → (ℕ → ℕ) → ℕ → Vga
print_mac v mac zero = v
print_mac v mac (suc rounds) =
    let shown = puts v (hex_text (mac (5 - rounds)) 2) in
    print_mac (if rounds == 0 then shown else putchar shown 58) mac rounds

-- The parts of the address, with `rounds` of 4 left.
pub print_ip : Vga → (ℕ → ℕ) → ℕ → Vga
unfolding print_uint
print_ip v ip zero = v
print_ip v ip (suc rounds) =
    let shown = print_uint v (ip (3 - rounds)) in
    print_ip (if rounds == 0 then shown else putchar shown 46) ip rounds

pub cmd_net : Session → Vga
unfolding print_uint print_mac print_ip
cmd_net s =
    let nic = s.stack.nic in
    let title = grey (puts (yellow s.vga) (codes "Network Status\n")) in
    let v1 = putchar (print_mac (puts title (codes "  MAC:    ")) (get_mac nic (λ i. 0)) 6) 10 in
    let v2 = putchar (print_ip (puts v1 (codes "  IP:     ")) s.stack.net.our_ip 4) 10 in
    let v3 = puts v2 (codes "  Link:   ") in
    let v4 =
      if link_up nic s.nic_status
      then puts (light_green v3) (codes "UP")
      else puts (light_red v3) (codes "DOWN") in
    let v5 = putchar (grey v4) 10 in
    let v6 = puts (labelled v5 (codes "  RX:     ") nic.stat_rx) (codes " packets\n") in
    puts (labelled v6 (codes "  TX:     ") nic.stat_tx) (codes " packets\n")

pub cmd_echo : Vga → List ℕ → Vga
cmd_echo v args = putchar (puts (grey v) args) 10

pub shell_prompt : Vga → Vga
shell_prompt v = white (puts (light_green v) (codes "mshka> "))
