-- ===== src/Shell/Execute/Dispatch.antt =====
-- kernel/shell.c: which command a line runs, and with which arguments.
use matryoshka_os.Prelude.{
  ℕ, zero, suc, ◌≡◌, ◌≢◌, refl, sym, ap, ◌∙◌, subst, arith, Bool, true, ◌&&◌, Option, none, some,
  List, [], ◌∷◌, ◌++◌, length, ==_ne, ==_self, ◌==◌, Bool-cases, inl, inr, ◌⊎◌,
}
use matryoshka_os.Vga.{Vga}
use matryoshka_os.Shell.{Session, Command, ShellCmd, commands, skip_spaces}
use matryoshka_os.Shell.Execute.{
  finished, run, split_word, same_start, find_command, perform, shell_execute,
}

abbrev pub spaces : ℕ → List ℕ
spaces zero = []
spaces (suc n) = 32 ∷ spaces n

-- A word: no spaces, and not empty where that is said.
abbrev pub IsWord : List ℕ → Type 0
IsWord [] = Unit
IsWord (c ∷ cs) = (c ≢ 32) × IsWord cs

-- The first character is no space.
abbrev pub Starts : List ℕ → Type 0
Starts [] = Unit
Starts (c ∷ cs) = c ≢ 32

skip_spaces-spaces : (n : ℕ) (cs : List ℕ) → Starts cs → skip_spaces (spaces n ++ cs) ≡ cs
unfolding skip_spaces
skip_spaces-spaces zero [] h = refl
skip_spaces-spaces zero (c ∷ cs) h = rw (==_ne c 32 h) refl
skip_spaces-spaces (suc n) cs h = skip_spaces-spaces n cs h

-- The word ends at a space or with the line.
split_word-tail :
    (word tail : List ℕ)
    → IsWord word
    → ((tail ≡ []) ⊎ ((rest : List ℕ) × (tail ≡ 32 ∷ rest)))
    → split_word (word ++ tail) ≡ (word, tail)
unfolding split_word
split_word-tail [] tail h (inl e) = rw e refl
split_word-tail [] tail h (inr (rest, e)) = rw e refl
split_word-tail (c ∷ cs) tail (other, h) ends =
    rw (==_ne c 32 other, split_word-tail cs tail h ends) refl

tail_ends :
    (n : ℕ) (args : List ℕ)
    → (n ≡ 0 → args ≡ [])
    → ((spaces n ++ args ≡ []) ⊎ ((rest : List ℕ) × (spaces n ++ args ≡ 32 ∷ rest)))
tail_ends zero args alone = inl (alone refl)
tail_ends (suc n) args alone = inr (spaces n ++ args, refl)

same_start_lem : (a b : List ℕ) → length a ≡ length b → same_start (length b) a b ≡ true → a ≡ b
unfolding same_start
same_start_lem [] [] e h = refl
same_start_lem [] (y ∷ b) e h = absurd (omega (arith, e))
same_start_lem (x ∷ a) [] e h = absurd (omega (arith, e))
same_start_lem (x ∷ a) (y ∷ b) e h =
    let head : x ≡ y = ground (arith, h) in
    let later : same_start (length b) a b ≡ true = ground (arith, h) in
    let tails : a ≡ b = same_start_lem a b (omega (arith, e)) later in
    ap (λ (z : ℕ). z ∷ a) head ∙ ap (λ (l : List ℕ). y ∷ l) tails

same_start_self : (a : List ℕ) → same_start (length a) a a ≡ true
unfolding same_start
same_start_self [] = refl
same_start_self (x ∷ a) = rw (==_self x) (same_start_self a)

-- The test of the loop.
abbrev is_named : ShellCmd → List ℕ → Bool
is_named c word = length c.name == length word && same_start (length word) c.name word

is_named_lem : (c : ShellCmd) (word : List ℕ) → is_named c word ≡ true → c.name ≡ word
is_named_lem c word h =
    let long : length c.name ≡ length word = ground (arith, h) in
    let start : same_start (length word) c.name word ≡ true = ground (arith, h) in
    same_start_lem c.name word long start

is_named_self : (c : ShellCmd) (word : List ℕ) → c.name ≡ word → is_named c word ≡ true
is_named_self c word e =
    subst (λ (w : List ℕ). (length w == length word && same_start (length word) w word) ≡ true)
      (sym e) (rw (==_self (length word), same_start_self word) refl)

-- The handler of the first row with the name, or none.
abbrev pub FirstNamed : List ShellCmd → List ℕ → Option Command → Type 0
FirstNamed [] word r = r ≡ none
FirstNamed (c ∷ cs) word r =
    ((c.name ≡ word) × (r ≡ some c.handler)) ⊎ ((c.name ≢ word) × FirstNamed cs word r)

find_command-FirstNamed :
    (cs : List ShellCmd) (word : List ℕ) → FirstNamed cs word (find_command cs word)
unfolding find_command
find_command-FirstNamed [] word = refl
find_command-FirstNamed (c ∷ cs) word = elim (Bool-cases (is_named c word)) [
  | inl named ↦ inl (is_named_lem c word named, rw named refl)
  | inr other ↦ inr (
    λ e. ground (arith, is_named_self c word e, other),
    rw other (find_command-FirstNamed cs word),
  )
]

Starts-word : (word rest : List ℕ) → length word ≢ 0 → IsWord word → Starts (word ++ rest)
Starts-word [] rest some_left h = absurd (some_left refl)
Starts-word (c ∷ cs) rest some_left h = h.0

length-word : (word rest : List ℕ) → length word ≢ 0 → length (word ++ rest) ≢ 0
length-word [] rest some_left = absurd (some_left refl)
length-word (c ∷ cs) rest some_left = λ e. omega (arith, e)

module _ (fuel : ℕ) (s : Session) (demo name : ℕ) where
  execute_blank : (lead : ℕ) → shell_execute fuel s (spaces lead) demo name ≡ finished s
  unfolding shell_execute skip_spaces
  execute_blank zero = refl
  execute_blank (suc lead) = execute_blank lead

  execute_word :
      (lead n : ℕ) (word args : List ℕ)
      → IsWord word
      → length word ≢ 0
      → Starts args
      → (n ≡ 0 → args ≡ [])
      → shell_execute fuel s (spaces lead ++ (word ++ (spaces n ++ args))) demo name
        ≡ perform fuel s word args demo name (find_command commands word)
  unfolding shell_execute
  execute_word lead n word args is_word some_left starts alone =
      let tail : List ℕ = spaces n ++ args in
      let p : skip_spaces (spaces lead ++ (word ++ tail)) ≡ word ++ tail =
        skip_spaces-spaces lead (word ++ tail) (Starts-word word tail some_left is_word) in
      let r : split_word (word ++ tail) ≡ (word, tail) =
        split_word-tail word tail is_word (tail_ends n args alone) in
      let a : skip_spaces tail ≡ args = skip_spaces-spaces n args starts in
      rw (p, ==_ne (length (word ++ tail)) 0 (length-word word tail some_left), r, a) refl

  -- `shell_execute` of a line of spaces alone does nothing. Of a line with a word, after any spaces and
  -- before the arguments, if there are some, it runs the handler of the first command whose name is the
  -- word, with the arguments from their first character that is no space; if no command has the name
  -- only the screen changes.
  pub shell_execute_lem :
      (lead n : ℕ) (word args : List ℕ)
      → IsWord word
      → length word ≢ 0
      → Starts args
      → (n ≡ 0 → args ≡ [])
      → (shell_execute fuel s (spaces lead) demo name ≡ finished s)
        × ((r : Option Command) × FirstNamed commands word r
            × ((c : Command)
                → r ≡ some c
                → shell_execute fuel s (spaces lead ++ (word ++ (spaces n ++ args))) demo name
                  ≡ run fuel c s args demo name)
            × (r ≡ none
                → (v : Vga) × (shell_execute fuel s
                      (spaces lead ++ (word ++ (spaces n ++ args)))
                      demo
                      name
                    ≡ finished (record s { vga = v }))))
  unfolding perform
  shell_execute_lem lead n word args is_word some_left starts alone =
      let executed = execute_word lead n word args is_word some_left starts alone in
      (
        execute_blank lead,
        (
          find_command commands word,
          find_command-FirstNamed commands word,
          λ c e. executed ∙ ap (perform fuel s word args demo name) e,
          λ e. (_, executed ∙ ap (perform fuel s word args demo name) e),
        ),
      )
