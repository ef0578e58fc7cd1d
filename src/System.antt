-- ===== src/System.antt =====
-- What the interrupt handlers touch: the statics of the drivers, the scheduler, the heap and the
-- paging, and the ports of the machine `m`.
pub mod Sample
use matryoshka_os.Prelude.{ℕ, Option}
use matryoshka_os.Io.{Machine}
use matryoshka_os.Vga.{Vga}
use matryoshka_os.Keyboard.{Keyboard}
use matryoshka_os.Task.{Kernel}

-- The functions that the kernel registers as handlers.
pub data Handler : Type 0 where
  page_fault : Handler
  timer : Handler
  keyboard : Handler
  syscall : Handler
  yield : Handler

-- The fields of `interrupt_frame_t` that the kernel reads or writes.
pub record Frame : Type 0 where
  pub eax : ℕ
  pub ebx : ℕ
  pub ecx : ℕ
  pub edx : ℕ
  pub int_no : ℕ
  pub err_code : ℕ
  pub eip : ℕ

-- `interrupt_handlers`, with `none` for NULL, and the others. The memory that system calls read and
-- write is that of the heap.
pub record System (m : Machine) : Type 0 where
  pub ports : m.State
  pub vga : Vga
  pub keyboard : Keyboard
  pub kernel : Kernel
  pub ticks : ℕ
  pub interrupt_handlers : ℕ → Option Handler
