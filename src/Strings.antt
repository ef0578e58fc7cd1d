-- ===== src/Strings.antt =====
-- kernel/string.c: the functions on strings and blocks of memory, over a memory of bytes. A function
-- that writes returns the new memory (its C result is always the first argument). A search for the
-- end of a string takes fuel, and `none` means that it ran out; the other loops count down.
-- C leaves a pointer that runs past the end of the address space undefined: addresses do not wrap.
pub mod Move
pub mod Copy
mod Tests
use matryoshka_os.Prelude.{
  ℕ, zero, suc, ◌+◌, ◌-◌, ◌%◌, ◌^◌, Bool, true, false, not, ◌&&◌, Option, none, some, ltb, leb,
  ◌==◌, if◌then◌else◌, ◌>>=◌, update,
}

-- A C `int` that is a difference of two bytes.
pub data ℤ : Type 0 where
  pos : ℕ → ℤ
  negsuc : ℕ → ℤ

pub minus : ℕ → ℕ → ℤ
minus a b = if leb b a then pos (a - b) else negsuc (b - a - 1)

-- The loop of `strlen`, from the `n`th character on.
pub strlen_from : ℕ → (ℕ → ℕ) → ℕ → ℕ → Option ℕ
strlen_from zero m s n = none
strlen_from (suc fuel) m s n =
    let rest = strlen_from fuel m s (n + 1) in if not (m (s + n) == 0) then rest else some n

pub strlen : ℕ → (ℕ → ℕ) → ℕ → Option ℕ
strlen fuel m s = strlen_from fuel m s 0

pub strcmp : ℕ → (ℕ → ℕ) → ℕ → ℕ → Option ℤ
strcmp zero m a b = none
strcmp (suc fuel) m a b =
    let rest = strcmp fuel m (a + 1) (b + 1) in
    if not (m a == 0) && (m a == m b) then rest else some (minus (m a) (m b))

-- The loop of `strncmp`, with `--n` counting down `rounds`.
pub strncmp_from : (ℕ → ℕ) → ℕ → ℕ → ℕ → ℤ
strncmp_from m a b zero = minus (m a) (m b)
strncmp_from m a b (suc rounds) =
    let rest = strncmp_from m (a + 1) (b + 1) rounds in
    if not (m a == 0) && (m a == m b) then rest else minus (m a) (m b)

pub strncmp : (ℕ → ℕ) → ℕ → ℕ → ℕ → ℤ
strncmp m a b zero = pos 0
strncmp m a b (suc n) = strncmp_from m a b n

pub strcpy : ℕ → (ℕ → ℕ) → ℕ → ℕ → Option (ℕ → ℕ)
strcpy zero m d src = none
strcpy (suc fuel) m d src =
    let m' = update m d (m src) in
    let rest = strcpy fuel m' (d + 1) (src + 1) in if not (m src == 0) then rest else some m'

pub memset : (ℕ → ℕ) → ℕ → ℕ → ℕ → ℕ → ℕ
memset m p c zero = m
memset m p c (suc n) = memset (update m p (c % 2 ^ 8)) (p + 1) c n

-- `while (n--) *d++ = '\0'` is `memset`. The first loop leaves `n` as it is at the character that
-- ends the string.
pub strncpy : (ℕ → ℕ) → ℕ → ℕ → ℕ → ℕ → ℕ
strncpy m d src zero = m
strncpy m d src (suc n) =
    let m' = update m d (m src) in
    let rest = strncpy m' (d + 1) (src + 1) n in
    if not (m src == 0) then rest else memset m' (d + 1) 0 (suc n)

pub memcpy : (ℕ → ℕ) → ℕ → ℕ → ℕ → ℕ → ℕ
memcpy m d s zero = m
memcpy m d s (suc n) = memcpy (update m d (m s)) (d + 1) (s + 1) n

-- The second loop of `memmove`: from the end down.
pub memcpy_down : (ℕ → ℕ) → ℕ → ℕ → ℕ → ℕ → ℕ
memcpy_down m d s zero = m
memcpy_down m d s (suc n) = memcpy_down (update m (d + n) (m (s + n))) d s n

pub memmove : (ℕ → ℕ) → ℕ → ℕ → ℕ → ℕ → ℕ
memmove m d s n = if ltb d s then memcpy m d s n else memcpy_down m d s n

pub memcmp : (ℕ → ℕ) → ℕ → ℕ → ℕ → ℤ
memcmp m a b zero = pos 0
memcmp m a b (suc n) =
    let rest = memcmp m (a + 1) (b + 1) n in if not (m a == m b) then minus (m a) (m b) else rest
