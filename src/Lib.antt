-- ===== src/Lib.antt =====
-- MatryoshkaOS, a small 32-bit x86 kernel in C: a verification library of its core.
--
-- The kernel is booted by a Multiboot2 loader. It finds the memory map, gives the free frames to the
-- physical memory manager, turns on paging, builds a heap, and then runs tasks that a timer
-- interrupt or a yield switches. Keyboard and screen are drivers; a virtual file system with one
-- file system in memory stands on the heap. Each part is a C file with static variables. Here it is a
-- module with a record of those variables, and a C function is a function of the module that
-- takes the record and returns the new one, with the result where there is one. A function keeps its C
-- name without the prefix of its file: `Pmm.alloc_frame` is `pmm_alloc_frame`.
--
-- Which file models which part (paths from the repository's root):
--   Multiboot   kernel/arch/x86_64/multiboot2.c: the tags of the boot information, read from a byte
--               memory, the memory map and the total memory
--   Pmm         kernel/mm/pmm.c: the bitmap of frames, allocation of one frame or a run, freeing,
--               reserving, and `Pmm.Boot` for pmm_init, which uses Multiboot
--   Heap        kernel/mm/heap.c: kmalloc, kzalloc, kfree and krealloc on the linked blocks
--   Vmm         kernel/mm/vmm.c: page directory and tables, with frames from Pmm
--   Task        kernel/proc/task.c: the table of tasks, the choice of the next one, the switch, the
--               creation of tasks (stacks from Heap, pages opened to ring 3 by Vmm) and their end
--   Keyboard    kernel/drivers/keyboard.c: the interrupt handler, the ring of characters, and the loop
--               that waits for one
--   Vga         kernel/drivers/vga.c: the text screen, its cursor and its scrolling
--   Strings     kernel/string.c: strings and blocks of memory
--   Interrupts  kernel/arch/x86_64/idt.c: what isr_handler does, and the handlers that are registered
--               (System has the state that they share, and System.Sample a state for runs)
--   Syscall     kernel/syscall/syscall.c: the system calls on that state
--   Idt, Gdt    kernel/arch/x86_64/idt.c and gdt.c: the descriptors
--   Pic, Timer, Serial, Pci
--               kernel/arch/x86_64/pic.c, kernel/drivers/timer.c, serial.c and pci.c, over the ports of a
--               machine (Io)
--   E1000       kernel/drivers/e1000.c: the rings of the network card, and `E1000.Init` for e1000_init
--   Net         kernel/net/net.c: ARP and ping, and `Net.Poll` for a poll through both
--   Shell       kernel/shell.c: the printing of numbers and states, the commands on files (`Shell.Files`),
--               the line editor (`Shell.Line`) and the dispatch on a command (`Shell.Execute`)
--   Vfs         kernel/fs/vfs.c: descriptors and paths; and `Vfs.Ramfs` for kernel/fs/ramfs.c, whose
--               buffers come from Heap and are copied by Strings
--   Kernel      kernel/kernel.c: the text of a size of memory
--   Prelude     what they share: Boolean tests, lists as arrays, bits and fields of machine words
-- In each, the definitions stand in the file of the part, the proofs in its child modules, and runs
-- on small states in its module Tests.
--
-- Numbers are native naturals. A `uint32_t`, `size_t` or pointer has 32 bits (the kernel is built
-- with -m32), a `uint64_t` 64, and the wrap-around is written out where the code may meet it; an array
-- index is left as it is, since the guards of the code keep it in range. NULL is 0, and -1 is the
-- largest number of its width, or false where 0 is the only other result.
--
-- Loops that count are structural recursions. Walks whose length the data decides take fuel and
-- return `none` when it runs out: the tags (`Multiboot.Tags` proves that one more than their number is
-- enough), the blocks of the heap (the theorems on kmalloc and kfree take more fuel than there are
-- blocks, and prove that a result comes), the doubling of a capacity (33 rounds), the strings
-- and the lists of children, and what the shell prints of a file or a directory.
--
-- The abstract views are these. The heap is a list of blocks with a size and a free mark
-- (`Heap.Layout.Holds`), allocation is first fit with splitting, freeing joins every run of free
-- blocks. The bitmap is the set of used frames with its count (`Pmm.Invariant.IsValid`). The
-- tables of paging are a map from addresses to addresses. The ring is a queue of at most 255
-- characters. The table of tasks has one running task (`Task.Switch.IsValid`).
--
-- Hardware is a parameter. `Io.Machine` has the four port instructions; what the theorems rely on
-- is a record of laws over it: two masks behind the controllers' ports (`Pic.Mask.Controllers`), a
-- configuration space behind the two ports of PCI (`Pci.Registers.ConfigSpace`), a transmitter that
-- becomes free after a bounded number of polls (`Serial.Output.Transmitter`). Each has an
-- instance in the tests. The card's descriptors and the timer's counter are what a function reads:
-- functions of the poll.
--
-- What is not modelled: what the initialisations print; the error messages of find_free_block
-- and kfree on the screen and the color that they set; the lines that task_create_user and net.c write on
-- the serial line (klog); registers and the processor's control
-- state. Interrupts are calls of `isr_handler`, one after another: the handlers run with interrupts
-- off. Boot information is read in one go before the frames are freed, so that it is taken not to lie in
-- the bitmap's memory. The headers of heap blocks, the payload bytes and the 32-bit words that hold page
-- tables and first stack frames are three memories, and so are the buffers of the network, so a
-- stray write through one of them to another is out of reach. kernel_main, its
-- tasks and the shell's demo in ring 3 have no model.
pub mod E1000
pub mod Gdt
pub mod Heap
pub mod Idt
pub mod Interrupts
pub mod Io
pub mod Kernel
pub mod Keyboard
pub mod Multiboot
pub mod Net
pub mod Pci
pub mod Pic
pub mod Pmm
pub mod Prelude
pub mod Serial
pub mod Shell
pub mod Strings
pub mod Syscall
pub mod System
pub mod Task
pub mod Timer
pub mod Vfs
pub mod Vga
pub mod Vmm
