-- ===== src/Vfs/Path.antt =====
-- Path components and descriptors (kernel/fs/vfs.c).
use native.Mathlib.Decide.{ℕ_discrete}
use matryoshka_os.Prelude.{
  ℕ, zero, suc, ◌+◌, ◌-◌, ◌≤◌, ◌<◌, ◌≡◌, ◌≢◌, refl, sym, ap, ◌∙◌, inl, inr, true, false, Bool-cases,
  arith, Option, none, some, List, [], ◌∷◌, ◌++◌, length, ==_ne, ==_eq, subst,
}
use matryoshka_os.Vfs.{
  Fs, alloc_fd, alloc_fd_from, next_component, component_of, split_component, skip_slashes,
}

-- The result of `alloc_fd` from `i` on: the least free descriptor, or none if all are in use.
abbrev pub LeastFree : Fs → ℕ → ℕ → Option ℕ → Type 0
LeastFree s i rounds none = (j : ℕ) → i ≤ j → j < i + rounds → (s.fd_table j).used ≡ true
LeastFree s i rounds (some fd) =
    ((s.fd_table fd).used ≡ false)
    × ((fd < i + rounds) × ((j : ℕ) → i ≤ j → j < fd → (s.fd_table j).used ≡ true))

alloc_fd_from-LeastFree : (s : Fs) (rounds i : ℕ) → LeastFree s i rounds (alloc_fd_from s rounds i)
unfolding alloc_fd_from
alloc_fd_from-LeastFree s zero i = λ j from to. absurd (omega arith)
alloc_fd_from-LeastFree s (suc rounds) i = elim (Bool-cases (s.fd_table i).used) [
  | inl busy ↦
      rw busy
        (widen busy (alloc_fd_from s rounds (i + 1)) (alloc_fd_from-LeastFree s rounds (i + 1)))
  | inr free ↦ rw free (free, (omega arith, λ j from to. absurd (omega arith)))
]
  where
    at_or_after :
        {limit : ℕ}
        → (s.fd_table i).used ≡ true
        → ((j : ℕ) → i + 1 ≤ j → j < limit → (s.fd_table j).used ≡ true)
        → (j : ℕ) → i ≤ j
        → j < limit
        → (s.fd_table j).used ≡ true
    at_or_after busy later j from to = elim (ℕ_discrete i j) [
      | yes e ↦ subst (λ (x : ℕ). (s.fd_table x).used ≡ true) e busy
      | no ne ↦ later j (omega arith) to
    ]

    widen :
        (s.fd_table i).used ≡ true
        → (o : Option ℕ) → LeastFree s (i + 1) rounds o
        → LeastFree s i (suc rounds) o
    widen busy none all = λ j from to. at_or_after busy all j from (omega arith)
    widen busy (some fd) (free, (lt, earlier)) = (free, (omega arith, at_or_after busy earlier))

-- `alloc_fd` returns the least descriptor below 32 that is not in use, and -1 only if all are.
pub alloc_fd_lem : (s : Fs) → LeastFree s 0 32 (alloc_fd s)
unfolding alloc_fd
alloc_fd_lem s = alloc_fd_from-LeastFree s 32 0

-- No character is a slash.
abbrev pub HasNoSlash : List ℕ → Type 0
HasNoSlash [] = Unit {0}
HasNoSlash (c ∷ cs) = (c ≢ 47) × HasNoSlash cs

-- Every character is a slash.
abbrev pub AreSlashes : List ℕ → Type 0
AreSlashes [] = Unit {0}
AreSlashes (c ∷ cs) = (c ≡ 47) × AreSlashes cs

split_component_lem :
    (room : ℕ) (cs : List ℕ)
    → (cs ≡ (split_component room cs).0 ++ (split_component room cs).1)
      × (HasNoSlash (split_component room cs).0 × (length (split_component room cs).0 ≤ room))
unfolding split_component
split_component_lem zero cs = (refl, (tt, omega arith))
split_component_lem (suc room) [] = (refl, (tt, omega arith))
split_component_lem (suc room) (c ∷ cs) = elim (ℕ_discrete c 47) [
  | yes e ↦ rw (==_eq c 47 e) (refl, (tt, omega arith))
  | no ne ↦
      let (whole, (clean, short)) = split_component_lem room cs in
      rw (==_ne c 47 ne) (ap (λ (l : List ℕ). c ∷ l) whole, ((ne, clean), omega (arith, short)))
]

-- What `skip_slashes` leaves begins with no slash.
abbrev pub StartsClean : List ℕ → Type 0
StartsClean [] = Unit {0}
StartsClean (c ∷ cs) = c ≢ 47

skip_slashes_lem :
    (cs : List ℕ)
    → (slashes : List ℕ) × (AreSlashes slashes
        × ((cs ≡ slashes ++ skip_slashes cs) × StartsClean (skip_slashes cs)))
unfolding skip_slashes
skip_slashes_lem [] = ([], (tt, (refl, tt)))
skip_slashes_lem (c ∷ cs) = elim (ℕ_discrete c 47) [
  | yes e ↦
      let (slashes, (all, (whole, clean))) = skip_slashes_lem cs in
      rw (==_eq c 47 e) (c ∷ slashes, ((e, all), (ap (λ (l : List ℕ). c ∷ l) whole, clean)))
  | no ne ↦ rw (==_ne c 47 ne) ([], (tt, (refl, ne)))
]

-- What `next_component` finds in a path.
abbrev pub Component : ℕ → List ℕ → Option (List ℕ × List ℕ) → Type 0
Component max path none = AreSlashes path
Component max path (some step) =
    (slashes : List ℕ) × (AreSlashes slashes
      × ((path ≡ slashes ++ (step.0 ++ step.1))
          × (HasNoSlash step.0 × ((0 < length step.0) × (length step.0 < max)))))

append_nil : (xs : List ℕ) → xs ++ [] ≡ xs
append_nil [] = refl
append_nil (x ∷ xs) = ap (λ (l : List ℕ). x ∷ l) (append_nil xs)

split_component_pos :
    (room c : ℕ) (cs : List ℕ) → 0 < room → c ≢ 47 → 0 < length (split_component room (c ∷ cs)).0
unfolding split_component
split_component_pos zero c cs pos ne = absurd (omega arith)
split_component_pos (suc room) c cs pos ne = rw (==_ne c 47 ne) (omega arith)

component_of_lem :
    (max : ℕ) (slashes left path : List ℕ)
    → 1 < max
    → AreSlashes slashes
    → path ≡ slashes ++ left
    → StartsClean left
    → Component max path (component_of max left)
unfolding component_of
component_of_lem max slashes [] path big all whole clean =
    subst AreSlashes (sym (whole ∙ append_nil slashes)) all
component_of_lem max slashes (c ∷ cs) path big all whole clean =
    let (split, (no_slash, short)) = split_component_lem (max - 1) (c ∷ cs) in
    (
      slashes,
      (
        all,
        (
          whole ∙ ap (λ (l : List ℕ). slashes ++ l) split,
          (
            no_slash,
            (split_component_pos (max - 1) c cs (omega arith) clean, omega (arith, short, big)),
          ),
        ),
      ),
    )

-- `next_component` fails exactly on a path of slashes; otherwise the path is some slashes, the
-- component, and the new cursor: the component has no slash, is not empty, and fits with its 0 into
-- a buffer of `max` characters (at least 2).
pub next_component_lem :
    (max : ℕ) (path : List ℕ) → 1 < max → Component max path (next_component max path)
unfolding next_component
next_component_lem max path big =
    let (slashes, (all, (whole, clean))) = skip_slashes_lem path in
    component_of_lem max slashes (skip_slashes path) path big all whole clean
