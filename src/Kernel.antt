-- ===== src/Kernel.antt =====
-- kernel/kernel.c: the text of a size of memory.
pub mod Sizes
mod Tests
use matryoshka_os.Prelude.{ℕ, ◌+◌, ◌*◌, ◌/◌, ◌%◌, List, [], ◌∷◌, leb, if◌then◌else◌}

-- `format_memory_size`: the buffer without its final 0.
pub format_memory_size : ℕ → List ℕ
format_memory_size bytes =
    let gb = bytes / (1024 * 1024 * 1024) in
    let mb = bytes / (1024 * 1024) in
    let kb = bytes / 1024 in
    if leb (1024 * 1024 * 1024) bytes
    then (48 + gb / 10) ∷ (48 + gb % 10) ∷ 32 ∷ 71 ∷ 66 ∷ []
    else if leb (1024 * 1024) bytes
    then (if leb 1000 mb
        then (48 + mb / 1000)
          ∷ (48 + mb / 100 % 10)
          ∷ (48 + mb / 10 % 10)
          ∷ (48 + mb % 10)
          ∷ 32
          ∷ 77
          ∷ 66
          ∷ []
        else if leb 100 mb
        then (48 + mb / 100) ∷ (48 + mb / 10 % 10) ∷ (48 + mb % 10) ∷ 32 ∷ 77 ∷ 66 ∷ []
        else (48 + mb / 10) ∷ (48 + mb % 10) ∷ 32 ∷ 77 ∷ 66 ∷ [])
    else (48 + kb / 1000)
      ∷ (48 + kb / 100 % 10)
      ∷ (48 + kb / 10 % 10)
      ∷ (48 + kb % 10)
      ∷ 32
      ∷ 75
      ∷ 66
      ∷ []
