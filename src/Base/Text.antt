-- ===== src/Base/Text.antt =====
-- Python's operations on texts that the program uses.
use Prim.Native.Char.{code}
use Prim.Native.String.{String, ◌++◌ as append}
use mathlib.Core.Option.{Option, none, some}
use Prim.Native.Nat.{ℕ}
use mathlib.Core.Bool.{Bool, false, ◌&&◌}
use mathlib.Core.List.{List, [], ◌∷◌}
use polymarket_market_discov.Base.Lists.{length}
use polymarket_market_discov.Base.Tests.{eqb, if◌then◌else◌}

-- An f-string, by its parts.
abbrev pub f_string : List String → String
f_string [] = ""
f_string (part ∷ parts) = append part (f_string parts)

-- `separator.join(texts)`
abbrev pub join : String → List String → String
join separator [] = ""
join separator (t ∷ []) = t
join separator (t ∷ u ∷ texts) = append t (append separator (join separator (u ∷ texts)))

-- `text[:-1]` where `text.endswith("Z")`, and none where it does not.
abbrev pub strip_z : String → Option String
strip_z String.[] = none
strip_z (String.◌∷◌ c String.[]) = if eqb (code c) b'Z' then some "" else none
strip_z (String.◌∷◌ c (String.◌∷◌ d text)) = elim (strip_z (String.◌∷◌ d text)) [
  | none ↦ none
  | some rest ↦ some (String.◌∷◌ c rest)
]

-- The code points of a text, and `len(text)`.
abbrev pub codes : String → List ℕ
codes String.[] = []
codes (String.◌∷◌ c text) = code c ∷ codes text

abbrev pub text_length : String → ℕ
text_length text = length (codes text)

-- `text.startswith("0x")`, and `text[2:]`.
abbrev pub begins_0x : String → Bool
begins_0x (String.◌∷◌ c (String.◌∷◌ d text)) = eqb (code c) b'0' && eqb (code d) b'x'
begins_0x _ = false

abbrev pub behind_0x : String → String
behind_0x (String.◌∷◌ c (String.◌∷◌ d text)) = text
behind_0x _ = ""
