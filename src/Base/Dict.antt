-- ===== src/Base/Dict.antt =====
-- Python's `set` and `dict` over text keys, as lists that keep the order of insertion.
use Prim.Native.String.{String}
use mathlib.Core.Path.{◌≡◌, refl, ap₂}
use mathlib.Core.Bool.{Bool, true, false, not, ◌&&◌, ◌||◌}
use mathlib.Core.List.{List, [], ◌∷◌, ◌++◌, map}
use mathlib.Core.Option.{Option, none, some}
use native.Mathlib.Omega.{arith}
use text.Mathlib.TextEquality.{eq_iff}
use mathlib.Core.Logic.{inl, inr}
use polymarket_market_discov.Base.Lists.{keep_if}
use polymarket_market_discov.Base.Tests.{Bool-cases, ◌==◌, if◌then◌else◌, is_some}

-- `k in xs`
abbrev pub contains : String → List String → Bool
contains k [] = false
contains k (x ∷ xs) = (x == k) || contains k xs

-- `set(xs)`, and `dict.fromkeys(xs)`: each key once, at its first place.
abbrev pub distinct_from : List String → List String → List String
distinct_from seen [] = []
distinct_from seen (x ∷ xs) =
    let rest = distinct_from seen xs in
    let next = x ∷ distinct_from (x ∷ seen) xs in if contains x seen then rest else next

abbrev pub distinct : List String → List String
distinct = distinct_from []

-- `len(xs) == len(set(xs))`
abbrev pub is_distinct : List String → Bool
is_distinct [] = true
is_distinct (x ∷ xs) = not (contains x xs) && is_distinct xs

contains-distinct_from :
    (k : String) (seen xs : List String)
    → contains k seen || contains k (distinct_from seen xs) ≡ contains k seen || contains k xs
contains-distinct_from k seen [] = refl
contains-distinct_from k seen (x ∷ xs) = elim (Bool-cases (contains x seen)) [
  | inl old ↦ ground (arith, contains-distinct_from k seen xs, eq_iff x k)
  | inr new ↦ ground (arith, contains-distinct_from k (x ∷ seen) xs, eq_iff x k)
]

pub contains-distinct : (k : String) (xs : List String) → contains k (distinct xs) ≡ contains k xs
contains-distinct k xs = contains-distinct_from k [] xs

module _ {ℓ} {V : Type ℓ} where
  -- `d.get(k)`
  abbrev pub lookup : String → List (String × V) → Option V
  lookup k [] = none
  lookup k ((j, v) ∷ d) = if j == k then some v else lookup k d

  -- `d[k] = v`: an old key keeps its place.
  abbrev pub insert : (key : String) (value : V) → List (String × V) → List (String × V)
  insert key value [] = (key, value) ∷ []
  insert key value ((old, kept) ∷ d) =
      if old == key then (old, value) ∷ d else (old, kept) ∷ insert key value d

  abbrev pub keys : List (String × V) → List String
  keys [] = []
  keys ((k, v) ∷ d) = k ∷ keys d

  abbrev pub values : List (String × V) → List V
  values [] = []
  values ((k, v) ∷ d) = v ∷ values d

  pub lookup-insert :
      (k j : String) (v : V) (d : List (String × V))
      → lookup j (insert k v d) ≡ (if k == j then some v else lookup j d)
  lookup-insert k j v [] = refl
  lookup-insert k j v ((i, w) ∷ d) =
      ground (arith, eq_iff k j, eq_iff i k, eq_iff i j, lookup-insert k j v d)

  pub contains-keys :
      (k : String) (d : List (String × V)) → contains k (keys d) ≡ is_some (lookup k d)
  contains-keys k [] = refl
  contains-keys k ((j, v) ∷ d) = ground (arith, contains-keys k d)

pub contains-append :
    (k : String) (xs ys : List String) → contains k (xs ++ ys) ≡ contains k xs || contains k ys
contains-append k [] ys = refl
contains-append k (x ∷ xs) ys = ground (arith, contains-append k xs ys)

pub is_distinct-append_one :
    (xs : List String) (y : String)
    → is_distinct (xs ++ y ∷ []) ≡ is_distinct xs && not (contains y xs)
is_distinct-append_one [] y = refl
is_distinct-append_one (x ∷ xs) y =
    ground
      (arith, is_distinct-append_one xs y, contains-append x xs (y ∷ []), eq_iff x y, eq_iff y x)

-- A set is what it holds: of two with the same elements, the same keys are new.
pub distinct_from-contains :
    (seen seen' xs : List String)
    → ((k : String) → contains k seen ≡ contains k seen')
    → distinct_from seen xs ≡ distinct_from seen' xs
distinct_from-contains seen seen' [] same = refl
distinct_from-contains seen seen' (x ∷ xs) same = ground (
  arith,
  same x,
  distinct_from-contains seen seen' xs same,
  distinct_from-contains (x ∷ seen) (x ∷ seen') xs (λ k. ground (arith, same k)),
)

contains-distinct_from_old :
    (k : String) (seen xs : List String)
    → contains k seen ≡ true
    → contains k (distinct_from seen xs) ≡ false
contains-distinct_from_old k seen [] old = refl
contains-distinct_from_old k seen (x ∷ xs) old = ground (
  arith,
  eq_iff x k,
  contains-distinct_from_old k seen xs old,
  contains-distinct_from_old k (x ∷ seen) xs (ground arith),
)

is_distinct-distinct_from : (seen xs : List String) → is_distinct (distinct_from seen xs) ≡ true
is_distinct-distinct_from seen [] = refl
is_distinct-distinct_from seen (x ∷ xs) = ground (
  arith,
  is_distinct-distinct_from seen xs,
  is_distinct-distinct_from (x ∷ seen) xs,
  contains-distinct_from_old x (x ∷ seen) xs (ground (arith, eq_iff x x)),
)

pub is_distinct-distinct : (xs : List String) → is_distinct (distinct xs) ≡ true
is_distinct-distinct xs = is_distinct-distinct_from [] xs

module _ {ℓ} {V : Type ℓ} where
  pub keys-insert :
      (k : String) (v : V) (d : List (String × V))
      → keys (insert k v d) ≡ (if contains k (keys d) then keys d else keys d ++ k ∷ [])
  keys-insert k v [] = refl
  keys-insert k v ((j, w) ∷ d) = ground (arith, eq_iff j k, keys-insert k v d)

  pub lookup-contains :
      (k : String) (v : V) (d : List (String × V))
      → lookup k d ≡ some v
      → contains k (keys d) ≡ true
  lookup-contains k v d found = ground (arith, contains-keys k d)

  -- A dictionary is its keys, each with its value.
  pub map-keys :
      (f : String → V) (d : List (String × V))
      → is_distinct (keys d) ≡ true
      → ((k : String) (v : V) → lookup k d ≡ some v → f k ≡ v)
      → map (λ k. (k, f k)) (keys d) ≡ d
  map-keys f [] once values = refl
  map-keys f ((j, w) ∷ d) once values =
      ap₂ (λ (v : V) (rest : List (String × V)). (j, v) ∷ rest)
        (values j w (ground (arith, eq_iff j j)))
        (map-keys f d (ground arith)
          (λ k v found. values k v (ground (arith, eq_iff j k, lookup-contains k v d found))))

pub contains-keep_if :
    (p : String → Bool) (k : String) (xs : List String)
    → contains k (keep_if p xs) ≡ p k && contains k xs
contains-keep_if p k [] = ground arith
contains-keep_if p k (x ∷ xs) = elim (Bool-cases (x == k)) [
  | inl e ↦
      let same = (eq_iff x k).0 e in rw same (ground (arith, contains-keep_if p k xs, eq_iff k k))
  | inr e ↦ ground (arith, contains-keep_if p k xs)
]

pub is_distinct-keep_if :
    (p : String → Bool) (xs : List String)
    → is_distinct xs ≡ true
    → is_distinct (keep_if p xs) ≡ true
is_distinct-keep_if p [] once = refl
is_distinct-keep_if p (x ∷ xs) once =
    ground (arith, is_distinct-keep_if p xs, contains-keep_if p x xs)

pub is_distinct-insert {ℓ} :
    {V : Type ℓ} (k : String) (v : V) (d : List (String × V))
    → is_distinct (keys d) ≡ true
    → is_distinct (keys (insert k v d)) ≡ true
is_distinct-insert k v d once = elim (Bool-cases (contains k (keys d))) [
  | inl old ↦ rw (keys-insert k v d) (rw old once)
  | inr new ↦ rw (keys-insert k v d) (rw new (ground (arith, is_distinct-append_one (keys d) k)))
]
