-- ===== src/Base/Sort.antt =====
-- Python's `sorted`, and `sorted(set(xs))` for texts.
use Prim.Native.String.{String, compare}
use mathlib.Core.Path.{◌≡◌, refl}
use mathlib.Core.Bool.{Bool, true, false, ◌||◌}
use mathlib.Core.List.{List, [], ◌∷◌, Perm}
use mathlib.Core.List.Perm
use native.Mathlib.Omega.{arith}
use text.Mathlib.Text.{is_le}
use polymarket_market_discov.Base.Tests.{◌==◌, if◌then◌else◌}
use polymarket_market_discov.Base.Dict.{contains, distinct, contains-distinct}

-- Texts are compared by their code points.
unfoldable pub leb_text : String → String → Bool
leb_text s t = is_le (compare s t)

module _ {ℓ} {A : Type ℓ} (before : A → A → Bool) where
  -- `before` is the test `<=` on the keys. Equal keys keep their order, so the sort is stable.
  unfoldable pub insert_sorted : A → List A → List A
  insert_sorted x [] = x ∷ []
  insert_sorted x (y ∷ ys) = if before x y then x ∷ y ∷ ys else y ∷ insert_sorted x ys

  unfoldable pub sort_by : List A → List A
  unfolding insert_sorted
  sort_by [] = []
  sort_by (x ∷ xs) = insert_sorted x (sort_by xs)

  pub insert_sorted-perm : (x : A) (ys : List A) → Perm (insert_sorted x ys) (x ∷ ys)
  unfolding insert_sorted
  insert_sorted-perm x [] = Perm.refl (x ∷ [])
  insert_sorted-perm x (y ∷ ys) =
      elim (before x y)
        as (λ b. Perm (if b then x ∷ y ∷ ys else y ∷ insert_sorted x ys) (x ∷ y ∷ ys)) [
          | true ↦ Perm.refl _
          | false ↦ Perm.trans (Perm.cons y (insert_sorted-perm x ys)) (Perm.swap x y ys)
        ]

  pub sort_by-perm : (xs : List A) → Perm (sort_by xs) xs
  unfolding sort_by
  sort_by-perm [] = Perm.refl []
  sort_by-perm (x ∷ xs) =
      Perm.trans (insert_sorted-perm x (sort_by xs)) (Perm.cons x (sort_by-perm xs))

unfoldable pub sorted_set : List String → List String
unfolding leb_text sort_by
sorted_set xs = sort_by leb_text (distinct xs)

contains-insert_sorted :
    (k x : String) (ys : List String)
    → contains k (insert_sorted leb_text x ys) ≡ ((x == k) || contains k ys)
unfolding insert_sorted
contains-insert_sorted k x [] = refl
contains-insert_sorted k x (y ∷ ys) = ground (arith, contains-insert_sorted k x ys)

contains-sort_by :
    (k : String) (xs : List String) → contains k (sort_by leb_text xs) ≡ contains k xs
unfolding sort_by
contains-sort_by k [] = refl
contains-sort_by k (x ∷ xs) =
    ground (arith, contains-insert_sorted k x (sort_by leb_text xs), contains-sort_by k xs)

-- Sorting a set keeps its elements.
pub contains-sorted_set :
    (k : String) (xs : List String) → contains k (sorted_set xs) ≡ contains k xs
unfolding sorted_set
contains-sorted_set k xs = ground (arith, contains-sort_by k (distinct xs), contains-distinct k xs)
