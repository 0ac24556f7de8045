-- ===== src/Base/Split.antt =====
-- `text.split(",")`, which undoes `",".join(texts)` where no text holds a comma.
use Prim.Native.Char.{Char, code}
use Prim.Native.String.{String, ◌++◌ as append}
use mathlib.Core.Path.{◌≡◌, refl, ap, ◌∙◌}
use mathlib.Core.Bool.{Bool, false, ◌||◌}
use mathlib.Core.List.{List, [], ◌∷◌}
use native.Mathlib.Omega.{arith}
use text.Mathlib.TextLemmas.{nil-append, cons-append}
use polymarket_market_discov.Base.Lists.{All}
use polymarket_market_discov.Base.Tests.{eqb, if◌then◌else◌}
use polymarket_market_discov.Base.Text.{join}

-- A character in front of the first piece.
abbrev extend : Char → List String → List String
extend c [] = []
extend c (piece ∷ pieces) = String.◌∷◌ c piece ∷ pieces

unfoldable pub split_comma : String → List String
split_comma String.[] = "" ∷ []
split_comma (String.◌∷◌ c text) =
    let pieces = split_comma text in if eqb (code c) b',' then "" ∷ pieces else extend c pieces

abbrev pub has_comma : String → Bool
has_comma String.[] = false
has_comma (String.◌∷◌ c text) = eqb (code c) b',' || has_comma text

split_comma-plain : (text : String) → has_comma text ≡ false → split_comma text ≡ text ∷ []
unfolding split_comma
split_comma-plain String.[] plain = refl
split_comma-plain (String.◌∷◌ c text) plain = ground (arith, split_comma-plain text)

split_comma-append :
    (text rest : String)
    → has_comma text ≡ false
    → split_comma (append text (append "," rest)) ≡ text ∷ split_comma rest
unfolding split_comma
split_comma-append String.[] rest plain = rw (nil-append (append "," rest)) (rw comma refl)
  where
    comma : append "," rest ≡ String.◌∷◌ "," rest
    comma = cons-append "," "" rest ∙ ap (String.◌∷◌ ",") (nil-append rest)
split_comma-append (String.◌∷◌ c text) rest plain =
    rw cons-append (ground (arith, split_comma-append text rest))

-- What `join` has put together, `split` takes apart.
pub split_comma-join :
    (text : String) (texts : List String)
    → All (λ piece. has_comma piece ≡ false) (text ∷ texts)
    → split_comma (join "," (text ∷ texts)) ≡ text ∷ texts
split_comma-join text [] (plain, _) = split_comma-plain text plain
split_comma-join text (next ∷ texts) (plain, rest) =
    ground
      (arith, split_comma-append text (join "," (next ∷ texts)), split_comma-join next texts rest)
