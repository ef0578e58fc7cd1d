-- ===== src/Shell/Tests.antt =====
-- Runs of the shell, and its theorems at concrete states.
use matryoshka_os.Prelude.{
  ℕ, ◌≤◌, ◌≡◌, ◌≢◌, refl, arith, false, Option, none, some, List, [], ◌∷◌, ◌++◌, length,
}
use matryoshka_os.Prelude.Text.{codes}
use matryoshka_os.Vga.{Vga, put_chars}
use matryoshka_os.System.Sample.{system}
use matryoshka_os.Shell.{Session, Command, commands, print_uint, digits_of}
use matryoshka_os.Shell.Digits.{AllDigits, NoZeroFirst, decimal_value, print_uint_lem}
use matryoshka_os.Shell.Line.{LineBuffer, shell_readline}
use matryoshka_os.Shell.Line.Editing.{Holds, edited, shell_readline_lem}
use matryoshka_os.Shell.Files.{first_token}
use matryoshka_os.Shell.Execute.{finished, run, same_start, find_command, shell_execute}
use matryoshka_os.Shell.Execute.Dispatch.{FirstNamed, shell_execute_lem}

abbrev blank : LineBuffer
blank = record { line_buf = λ i. 7; line_len = 99 }

-- "lsx", a backspace, and the end of the line.
abbrev keys : List ℕ
keys = 108 ∷ 115 ∷ 120 ∷ 8 ∷ []

keeps_ls : edited [] keys ≡ 115 ∷ 108 ∷ []
keeps_ls = refl

digits : digits_of 20 90210 [] ≡ codes "90210"
unfolding digits_of
digits = refl

finds_cat : find_command commands (codes "cat") ≡ some Command.cat
unfolding find_command same_start
finds_cat = refl

splits : first_token 127 (codes "/etc/motd Hi\n") ≡ (codes "/etc/motd", 32 ∷ 72 ∷ 105 ∷ 10 ∷ [])
unfolding first_token
splits = refl

abbrev session : Session
session = record {
  vga = system.vga;
  kernel = system.kernel;
  fs = record {
    node = λ p. record {
      name = [];
      flags = 0;
      size = 0;
      inode = 0;
      has_ops = false;
      fs_data = 0;
      parent = 0;
      children = 0;
      next = 0;
    };
    file = λ p. record { data_at = 0; capacity = 0 };
    heap = system.kernel.heap;
    next_inode = 1;
    fd_table = λ i. record { fd_node = 0; fd_offset = 0; fd_flags = 0; used = false };
    root_node = 0;
  };
  ticks = 700;
  stack = record {
    net = record { our_mac = λ i. 0; our_ip = λ i. 10; reply = λ i. 0 };
    nic = record {
      mac_addr = λ i. 0;
      initialised = false;
      rx_descs = λ k. record { length = 0; status = 0 };
      tx_descs = λ k. record { address = 0; length = 0; cmd = 0; status = 0 };
      rx_buffers = λ k i. 0;
      rx_cur = 0;
      tx_cur = 0;
      stat_rx = 0;
      stat_tx = 0;
      written = [];
    };
    buf = λ i. 0;
  };
  nic_status = 0;
  cr3 = 0;
  text_at = λ p. [];
  line_at = 0x9000;
  frame_at = 0xA000;
}

print_uint_lem_example :
    (ds : List ℕ) × (print_uint system.vga 1024 ≡ put_chars system.vga ds)
    × AllDigits ds
    × (decimal_value 0 ds ≡ 1024)
    × (length ds ≤ 21)
    × ((◌≡◌ {A = ℕ} 1024 0 → ds ≡ 48 ∷ []) × (◌≢◌ {A = ℕ} 1024 0 → NoZeroFirst ds))
print_uint_lem_example = print_uint_lem system.vga 1024 (omega arith)

shell_readline_lem_example :
    (l : LineBuffer) × (v : Vga) × (shell_readline blank system.vga (keys ++ 10 ∷ 99 ∷ [])
      ≡ some ((l, v), 99 ∷ []))
    × Holds blank.line_buf l (115 ∷ 108 ∷ [])
    × (l.line_buf l.line_len ≡ 0)
shell_readline_lem_example =
    shell_readline_lem blank system.vga keys (99 ∷ [])
      (omega arith, (omega arith, (omega arith, (omega arith, _))))

-- "  echo hi"
shell_execute_lem_example :
    (shell_execute 9 session (32 ∷ 32 ∷ []) 0 0 ≡ finished session)
    × ((r : Option Command) × FirstNamed commands (codes "echo") r
        × ((c : Command)
            → r ≡ some c
            → shell_execute 9 session (codes "  echo hi") 0 0 ≡ run 9 c session (codes "hi") 0 0)
        × (r ≡ none
            → (v : Vga) × (shell_execute 9 session (codes "  echo hi") 0 0
                ≡ finished (record session { vga = v }))))
shell_execute_lem_example =
    shell_execute_lem 9 session 0 0 2 1 (codes "echo") (codes "hi")
      (omega arith, (omega arith, (omega arith, (omega arith, _)))) (omega arith) (omega arith)
      (λ e. absurd (omega arith))
