-- ===== src/Base/Json.antt =====
-- The values that `response.json()` returns, which the program's annotations call `Any`.
use Prim.Native.String.{String}
use mathlib.Core.Bool.{Bool}
use mathlib.Core.List.{List, [], ◌∷◌}
use polymarket_market_discov.Base.Tests.{◌==◌, if◌then◌else◌}
use polymarket_market_discov.Base.Int.{ℤ}

-- `null` is `None`. A float is given by what `repr` prints of it.
mutual
  pub data Json : Type 0 where
    null : Json
    bool : Bool → Json
    int : ℤ → Json
    float : String → Json
    string : String → Json
    list : Items → Json
    dict : Fields → Json

  pub data Items : Type 0 where
    nil : Items
    cons : Json → Items → Items

  pub data Fields : Type 0 where
    end : Fields
    field : String → Json → Fields → Fields

-- A list of JSON values, and a `dict[str, Any]`.
abbrev pub elements : Items → List Json
elements nil = []
elements (cons x xs) = x ∷ elements xs

-- `row.get(key)`: a missing key and a null are both `None`.
abbrev pub get : Fields → String → Json
get end key = null
get (field k v row) key = if k == key then v else get row key
