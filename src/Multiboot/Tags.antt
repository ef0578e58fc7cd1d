-- ===== src/Multiboot/Tags.antt =====
-- The walk of `multiboot_find_tag` over a well-formed list of tags (kernel/arch/x86_64/multiboot2.c).
use matryoshka_os.Prelude.{
  ℕ, zero, suc, ◌+◌, ◌%◌, ◌^◌, ◌<◌, ◌≡◌, ◌≢◌, some, List, [], ◌∷◌, ◌==◌, if◌then◌else◌, arith,
  length, ==_eq, ==_ne, Bool-cases, inl, inr,
}
use matryoshka_os.Multiboot.{
  Memory, type_end, type_mmap, tag_type, next_tag, find_from, find_tag, get_mmap,
}

-- The tags from `p` on, by address and type, up to the end tag.
abbrev pub TagsAt : Memory → ℕ → List (ℕ × ℕ) → Type 0
TagsAt m p [] = tag_type m p ≡ type_end
TagsAt m p ((a, ty) ∷ ts) =
    (a ≡ p) × (tag_type m p ≡ ty) × (ty ≢ type_end) × TagsAt m (next_tag m p) ts

-- The address of the first tag of a type, or NULL.
abbrev pub first_of : ℕ → List (ℕ × ℕ) → ℕ
first_of ty [] = 0
first_of ty ((a, t) ∷ ts) = if t == ty then a else first_of ty ts

find_from-eq-first_of :
    (ts : List (ℕ × ℕ)) (fuel : ℕ) (m : Memory) (p ty : ℕ)
    → TagsAt m p ts
    → length ts < fuel
    → find_from fuel m p ty ≡ some (first_of ty ts)
unfolding find_from
find_from-eq-first_of ts zero m p ty h k = absurd (omega arith)
find_from-eq-first_of [] (suc fuel) m p ty h k = rw (==_eq (tag_type m p) type_end h)
find_from-eq-first_of ((a, t) ∷ ts) (suc fuel) m p ty (at, is, ne, rest) k =
    rw
      (
        is,
        ==_ne t type_end ne,
        find_from-eq-first_of ts fuel m (next_tag m p) ty rest (omega arith),
        at,
      )
      (elim (Bool-cases (t == ty)) [ inl hit ↦ rw hit | inr miss ↦ rw miss ])

-- On a list of tags that ends with the end tag, with more fuel than tags, `multiboot_find_tag` ends,
-- and returns the address of the first tag of the type, or NULL where there is none; so
-- `multiboot_get_mmap` returns the first memory map.
pub find_tag_lem :
    (ts : List (ℕ × ℕ)) (fuel : ℕ) (m : Memory) (mbi ty : ℕ)
    → mbi ≢ 0
    → TagsAt m ((mbi + 8) % 2 ^ 32) ts
    → length ts < fuel
    → (find_tag fuel m mbi ty ≡ some (first_of ty ts))
      × (get_mmap fuel m mbi ≡ some (first_of type_mmap ts))
unfolding find_tag get_mmap
find_tag_lem ts fuel m mbi ty ne h k =
    let walk = find_from-eq-first_of ts fuel m ((mbi + 8) % 2 ^ 32) in
    (rw (==_ne mbi 0 ne) (walk ty h k), rw (==_ne mbi 0 ne) (walk type_mmap h k))
