-- ===== src/Shell/Execute.antt =====
-- kernel/shell.c: the dispatch on a line.
pub mod Dispatch
use matryoshka_os.Prelude.{
  ℕ, zero, suc, ◌+◌, ◌-◌, ◌^◌, Bool, true, false, not, ◌&&◌, Option, none, some, List, [], ◌∷◌, ltb,
  ◌==◌, if◌then◌else◌, ◌>>=◌, length,
}
use matryoshka_os.Prelude.Text.{codes}
use matryoshka_os.Vga.{Vga, putchar, puts}
use matryoshka_os.Shell.{
  Session, Command, ShellCmd, commands, grey, light_red, skip_spaces, cmd_help, cmd_clear,
  cmd_meminfo, cmd_uptime, cmd_ps, cmd_virt, cmd_net, cmd_echo, shell_prompt, light_cyan,
}
use matryoshka_os.Shell.Files.{
  cmd_ls, cmd_cat, cmd_mkdir, cmd_touch, cmd_write, cmd_syscall, text_from,
}
use matryoshka_os.Shell.Line.{LineBuffer, cmd_max, shell_readline}

-- How a command ends: with the prompt, with the machine's restart, or it has not ended when the fuel
-- runs out.
pub data Ending : Type 0 where
  finished : Session → Ending
  restarted : Vga → Ending
  unfinished : Ending

abbrev pub ending : Option Session → Ending
ending none = unfinished
ending (some s) = finished s

-- The addresses of the demo task and of its name are arguments.
pub run : ℕ → Command → Session → List ℕ → ℕ → ℕ → Ending
run fuel Command.help s args demo name = finished (record s { vga = cmd_help s.vga })
run fuel Command.clear_screen s args demo name = finished (record s { vga = cmd_clear s.vga })
run fuel Command.meminfo s args demo name = finished (record s { vga = cmd_meminfo s })
run fuel Command.uptime s args demo name = finished (record s { vga = cmd_uptime s })
run fuel Command.ps s args demo name = finished (record s { vga = cmd_ps s })
run fuel Command.virt s args demo name = finished (record s { vga = cmd_virt s })
run fuel Command.ls s args demo name = ending (cmd_ls fuel s args)
run fuel Command.cat s args demo name = ending (cmd_cat fuel s args)
run fuel Command.make_directory s args demo name = ending (cmd_mkdir fuel s args)
run fuel Command.touch s args demo name = ending (cmd_touch fuel s args)
run fuel Command.write_text s args demo name = ending (cmd_write fuel s args)
run fuel Command.net s args demo name = finished (record s { vga = cmd_net s })
run fuel Command.syscall_demo s args demo name = ending (cmd_syscall fuel s demo name)
run fuel Command.echo s args demo name = finished (record s { vga = cmd_echo s.vga args })
run fuel Command.reboot s args demo name = restarted (puts s.vga (codes "Rebooting...\n"))

-- The characters up to a space, and the rest.
pub split_word : List ℕ → List ℕ × List ℕ
split_word [] = ([], [])
split_word (c ∷ cs) = let r = split_word cs in if c == 32 then ([], c ∷ cs) else (c ∷ r.0, r.1)

-- `strncmp(name, word, n) == 0`, for a word that is followed by a space or the end.
unfoldable pub same_start : ℕ → List ℕ → List ℕ → Bool
same_start zero a b = true
same_start (suc n) [] [] = true
same_start (suc n) [] (y ∷ b) = false
same_start (suc n) (x ∷ a) [] = false
same_start (suc n) (x ∷ a) (y ∷ b) = let rest = same_start n a b in x == y && rest

-- The loop over the table.
unfoldable pub find_command : List ShellCmd → List ℕ → Option Command
unfolding same_start
find_command [] word = none
find_command (c ∷ cs) word =
    let rest = find_command cs word in
    if length c.name == length word && same_start (length word) c.name word
    then some c.handler
    else rest

-- The end of `shell_execute` with the handler, or without.
pub perform : ℕ → Session → List ℕ → List ℕ → ℕ → ℕ → Option Command → Ending
unfolding run
perform fuel s word args demo name none = finished (record s {
  vga =
      puts (grey (putchar (puts (puts (light_red s.vga) (codes "Unknown command: ")) word) 10))
        (codes "Type 'help' for available commands.\n");
})
perform fuel s word args demo name (some c) = run fuel c s args demo name

pub shell_execute : ℕ → Session → List ℕ → ℕ → ℕ → Ending
unfolding split_word find_command perform
shell_execute fuel s line demo name =
    let p = skip_spaces line in
    let r = split_word p in
    if length p == 0
    then finished s
    else perform fuel s r.0 (skip_spaces r.1) demo name (find_command commands r.0)

-- What `shell_run` prints first, and one turn of its loop: the ending, the line and the keys that are
-- left, or `none` while it waits for keys.
pub shell_banner : Vga → Vga
shell_banner v =
    puts (grey (puts (light_cyan v) (codes "MatryoshkaOS Shell v0.1\n")))
      (codes "Type 'help' for available commands.\n\n")

pub shell_turn : ℕ → LineBuffer → Session → List ℕ → ℕ → ℕ → Option (Ending × LineBuffer × List ℕ)
shell_turn fuel l s keys demo name = do
  r ← shell_readline l (shell_prompt s.vga) keys
  some (
    shell_execute fuel (record s { vga = r.0.1 }) (text_from r.0.0.line_buf 0 cmd_max) demo name,
    r.0.0,
    r.1,
  )
