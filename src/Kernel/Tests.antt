-- ===== src/Kernel/Tests.antt =====
-- Runs of the start of the kernel, and its theorem at a concrete size.
use matryoshka_os.Prelude.{◌*◌, ◌≡◌, refl}
use matryoshka_os.Prelude.Text.{codes}
use matryoshka_os.Kernel.{format_memory_size}

half : format_memory_size 536870912 ≡ codes "512 MB"
unfolding format_memory_size
half = refl

-- Of 100 GB the first character is no digit.
hundred : format_memory_size (100 * 1073741824) ≡ codes ":0 GB"
unfolding format_memory_size
hundred = refl
