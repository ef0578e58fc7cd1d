-- ===== src/Multiboot/Tests.antt =====
-- Runs of the tag walk over a boot loader's memory with two memory regions.
use matryoshka_os.Prelude.{
  ℕ, ◌+◌, ◌-◌, ◌/◌, ◌%◌, ◌^◌, ◌≡◌, refl, some, List, [], ◌∷◌, ◌++◌, arith, get_or,
}
use matryoshka_os.Multiboot.{
  Memory, MmapEntry, type_mmap, read_u32, mmap_entries, find_from, find_tag, get_mmap,
  sum_available, get_total_memory,
}
use matryoshka_os.Multiboot.Tags.{TagsAt, first_of, find_tag_lem}

abbrev pub bytes32 : ℕ → List ℕ
bytes32 x = x % 256 ∷ x / 256 % 256 ∷ x / 65536 % 256 ∷ x / 16777216 % 256 ∷ []

abbrev pub entry_bytes : ℕ → ℕ → ℕ → List ℕ
entry_bytes addr len kind =
    bytes32 addr ++ (bytes32 0 ++ (bytes32 len ++ (bytes32 0 ++ (bytes32 kind ++ bytes32 0))))

-- A bootloader name tag, a memory map with two regions, and the end tag.
abbrev pub boot_bytes : List ℕ
boot_bytes =
    bytes32 96
    ++ (bytes32 0
        ++ (bytes32 2
            ++ (bytes32 10
                ++ (bytes32 0
                    ++ (bytes32 0
                        ++ (bytes32 6
                            ++ (bytes32 64
                                ++ (bytes32 24
                                    ++ (bytes32 0
                                        ++ (entry_bytes 0 0x40000 1
                                            ++ (entry_bytes 0x40000 0x5000 2
                                                ++ (bytes32 0 ++ bytes32 8))))))))))))

abbrev pub boot_memory : Memory
boot_memory p = get_or boot_bytes (p - 0x9000) 0

abbrev pub boot_tags : List (ℕ × ℕ)
boot_tags = (0x9008, 2) ∷ (0x9018, 6) ∷ []

pub boot_tags-TagsAt : TagsAt boot_memory ((0x9000 + 8) % 2 ^ 32) boot_tags
unfolding read_u32
boot_tags-TagsAt = omega arith

abbrev pub boot_entries : List MmapEntry
boot_entries =
    record { addr = 0; len = 0x40000; kind = 1 }
    ∷ record { addr = 0x40000; len = 0x5000; kind = 2 }
    ∷ []

pub read_boot_entries : mmap_entries boot_memory (first_of type_mmap boot_tags) ≡ some boot_entries
unfolding mmap_entries
read_boot_entries = refl

boot_total : get_total_memory 9 boot_memory 0x9000 ≡ some 0x40000
unfolding get_total_memory get_mmap find_tag find_from mmap_entries sum_available
boot_total = refl

find_tag_lem_example :
    (find_tag 3 boot_memory 0x9000 2 ≡ some 0x9008) × (get_mmap 3 boot_memory 0x9000 ≡ some 0x9018)
find_tag_lem_example =
    find_tag_lem boot_tags 3 boot_memory 0x9000 2 (omega arith) boot_tags-TagsAt (omega arith)
