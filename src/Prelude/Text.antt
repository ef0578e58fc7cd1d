-- ===== src/Prelude/Text.antt =====
-- Texts as lists of bytes.
use Prim.Native.Char.{code}
use Prim.Native.String.{String}
use Prim.Native.Nat.{ℕ, ◌+◌}
use matryoshka_os.Prelude.Tests.{update}
use mathlib.Core.List.{List, [], ◌∷◌}

-- The bytes of an ASCII text.
abbrev pub codes : String → List ℕ
codes String.[] = []
codes (String.◌∷◌ c s) = code c ∷ codes s

-- A memory in which the text stands from `p` on.
abbrev pub place_text : (ℕ → ℕ) → ℕ → List ℕ → ℕ → ℕ
place_text byte p [] = byte
place_text byte p (c ∷ cs) = place_text (update byte p c) (p + 1) cs
