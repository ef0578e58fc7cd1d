-- ===== src/Shell/Line/Editing.antt =====
-- kernel/shell.c: the line that `shell_readline` reads, and the bounds of its buffer.
use native.Mathlib.Decide.{ℕ_discrete}
use matryoshka_os.Prelude.{
  ℕ, ◌+◌, ◌<◌, ◌≤◌, ◌≡◌, ◌≢◌, refl, sym, ap, subst, arith, true, false, some, List, [], ◌∷◌, ◌++◌,
  length, ltb, leb, ◌&&◌, ◌==◌, ==_eq, ==_ne, ==_self, if◌then◌else◌, update, Bool-cases, inl, inr,
}
use matryoshka_os.Vga.{Vga}
use matryoshka_os.Shell.Line.{LineBuffer, type_char, end_line, read_keys, shell_readline}

-- The text without its newest character.
abbrev pub drop_last : List ℕ → List ℕ
drop_last [] = []
drop_last (c ∷ cs) = cs

-- What a key does to the text, the newest character first: a backspace takes the last character away,
-- a printable character is added while there are fewer than 255, and nothing else counts.
abbrev pub edit : List ℕ → ℕ → List ℕ
edit cs c =
    if c == 8
    then drop_last cs
    else if leb 32 c && leb c 126 && ltb (length cs) 255
    then c ∷ cs
    else cs

abbrev pub edited : List ℕ → List ℕ → List ℕ
edited cs [] = cs
edited cs (k ∷ ks) = edited (edit cs k) ks

-- The buffer holds the text from its start.
abbrev pub Spells : (ℕ → ℕ) → List ℕ → Type 0
Spells buf [] = Unit
Spells buf (c ∷ cs) = (buf (length cs) ≡ c) × Spells buf cs

-- No key of the list ends the line.
abbrev pub NoNewline : List ℕ → Type 0
NoNewline [] = Unit
NoNewline (k ∷ ks) = (k ≢ 10) × NoNewline ks

-- The line holds the text, which has at most 255 characters; `first` is the buffer when it began.
pub record Holds (first : ℕ → ℕ) (l : LineBuffer) (cs : List ℕ) : Type 0 where
  pub long : l.line_len ≡ length cs
  pub short : length cs ≤ 255
  pub spells : Spells l.line_buf cs
  pub behind : (i : ℕ) → 255 < i → l.line_buf i ≡ first i

-- A write behind the text.
Spells-update :
    (buf : ℕ → ℕ) (cs : List ℕ) (i v : ℕ)
    → length cs ≤ i
    → Spells buf cs
    → Spells (update buf i v) cs
Spells-update buf [] i v behind h = _
Spells-update buf (c ∷ cs) i v behind (now, rest) =
    (rw (==_ne i (length cs) (omega arith)) now, Spells-update buf cs i v (omega arith) rest)

erase :
    (first : ℕ → ℕ) (l : LineBuffer) (v : Vga) (cs : List ℕ)
    → Holds first l cs
    → Holds first (type_char l v 8).0 (drop_last cs)
unfolding type_char
erase first l v [] h =
    let none_left : ltb 0 l.line_len ≡ false = ground (arith, h.long) in rw none_left h
erase first l v (c ∷ cs) h =
    let some_left : ltb 0 l.line_len ≡ true = ground (arith, h.long) in
    rw some_left (record {
      long = omega (arith, h.long);
      short = omega (arith, h.short);
      spells = h.spells.1;
      behind = h.behind;
    })

insert :
    (first : ℕ → ℕ) (l : LineBuffer) (cs : List ℕ) (c : ℕ)
    → Holds first l cs
    → length cs < 255
    → Holds first
        (record l { line_buf = update l.line_buf l.line_len c; line_len = l.line_len + 1 })
        (c ∷ cs)
insert first l cs c h room = record {
  long = omega (arith, h.long);
  short = omega arith;
  spells = (
    rw (==_eq l.line_len (length cs) h.long) refl,
    Spells-update l.line_buf cs l.line_len c (omega (arith, h.long)) h.spells,
  );
  behind = λ i far. rw (==_ne l.line_len i (omega (arith, h.long))) (h.behind i far);
}

type_char-Holds :
    (first : ℕ → ℕ) (l : LineBuffer) (v : Vga) (cs : List ℕ) (c : ℕ)
    → Holds first l cs
    → Holds first (type_char l v c).0 (edit cs c)
unfolding type_char
type_char-Holds first l v cs c h = elim (ℕ_discrete c 8) [
  | yes e ↦
      let same : edit cs c ≡ drop_last cs = rw (==_eq c 8 e) refl in
      subst (λ (d : ℕ). Holds first (type_char l v d).0 (edit cs c)) (sym e)
        (subst (Holds first (type_char l v 8).0) (sym same) (erase first l v cs h))
  | no ne ↦
      let test : ltb l.line_len 255 ≡ ltb (length cs) 255 = ap (λ (n : ℕ). ltb n 255) h.long in
      elim (Bool-cases (leb 32 c && leb c 126 && ltb (length cs) 255)) [
        | inl adds ↦
            let room : length cs < 255 = ground (arith, adds) in
            rw (==_ne c 8 ne, test, adds) (insert first l cs c h room)
        | inr other ↦ rw (==_ne c 8 ne, test, other) h
      ]
]

-- The keys before the end of the line.
read_keys-Holds :
    (first : ℕ → ℕ) (l : LineBuffer) (v : Vga) (cs ks rest : List ℕ)
    → NoNewline ks
    → Holds first l cs
    → (l' : LineBuffer) × (v' : Vga) × (read_keys l v (ks ++ 10 ∷ rest)
        ≡ some (end_line l' v', rest))
      × Holds first l' (edited cs ks)
unfolding read_keys
read_keys-Holds first l v cs [] rest none_ends h = (l, v, refl, h)
read_keys-Holds first l v cs (k ∷ ks) rest (other, none_ends) h =
    let (l', v', e, h') =
      read_keys-Holds first (type_char l v k).0 (type_char l v k).1 (edit cs k) ks rest none_ends
        (type_char-Holds first l v cs k h) in
    (l', v', rw (==_ne k 10 other) e, h')

-- `shell_readline`, when the keys have come up to a newline: it returns with the later keys left, the
-- buffer holds the text that the keys make by editing, at most 255 characters with a 0 behind them, and
-- no byte behind the 256 of the buffer has changed.
pub shell_readline_lem :
    (l : LineBuffer) (v : Vga) (ks rest : List ℕ)
    → NoNewline ks
    → (l' : LineBuffer) × (v' : Vga) × (shell_readline l v (ks ++ 10 ∷ rest)
        ≡ some ((l', v'), rest))
      × Holds l.line_buf l' (edited [] ks)
      × (l'.line_buf l'.line_len ≡ 0)
unfolding shell_readline end_line
shell_readline_lem l v ks rest none_ends =
    let start : Holds l.line_buf (record l { line_len = 0 }) [] = record {
      long = refl;
      short = omega arith;
      spells = _;
      behind = λ i far. refl;
    } in
    let (l', v', e, h) =
      read_keys-Holds l.line_buf (record l { line_len = 0 }) v [] ks rest none_ends start in
    let text : List ℕ = edited [] ks in
    (
      (end_line l' v').0,
      (end_line l' v').1,
      e,
      record {
        long = h.long;
        short = h.short;
        spells = Spells-update l'.line_buf text l'.line_len 0 (omega (arith, h.long)) h.spells;
        behind =
            λ i far. rw (==_ne l'.line_len i (omega (arith, h.long, h.short))) (h.behind i far);
      },
      rw (==_self l'.line_len) refl,
    )
