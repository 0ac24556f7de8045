-- ===== src/Base/Batches.antt =====
-- `_batches`, of `markets/service.py` and, in the same words, of `orderbooks/service.py`.
use polymarket_market_discov.Base.Lists.{length, take, drop, All, take-append-drop}
use Prim.Native.Nat.{ℕ, zero, suc, ◌≤◌, ◌<◌}
use mathlib.Core.Path.{◌≡◌, refl, ap, ◌∙◌}
use mathlib.Core.List.{List, [], ◌∷◌, ◌++◌}
use native.Mathlib.Omega.{arith}

module _ {ℓ} {A : Type ℓ} where
  -- The slices at `index = 0, size, 2 * size, ...`, at most `fuel` of them.
  unfoldable pub batches_from : ℕ → ℕ → List A → List (List A)
  batches_from zero size items = []
  batches_from (suc fuel) size [] = []
  batches_from (suc fuel) size (x ∷ xs) =
      take size (x ∷ xs) ∷ batches_from fuel size (drop size (x ∷ xs))

  -- The length is fuel enough, since no slice is empty: `batches_partition`.
  unfoldable pub batches : List A → ℕ → List (List A)
  unfolding batches_from
  batches items size = batches_from (length items) size items

  abbrev pub concat : List (List A) → List A
  concat [] = []
  concat (l ∷ ls) = l ++ concat ls

  abbrev pub IsBatch : ℕ → List A → Type 0
  IsBatch size l = (0 < length l) × (length l ≤ size)

module _ {ℓ} {A : Type ℓ} where
  length-drop-le : (n : ℕ) (xs : List A) → length (drop n xs) ≤ length xs
  length-drop-le zero xs = omega arith
  length-drop-le (suc n) [] = omega arith
  length-drop-le (suc n) (x ∷ xs) = omega (arith, length-drop-le n xs)

  length-take-le : (n : ℕ) (xs : List A) → length (take n xs) ≤ n
  length-take-le zero xs = omega arith
  length-take-le (suc n) [] = omega arith
  length-take-le (suc n) (x ∷ xs) = omega (arith, length-take-le n xs)

  concat-batches_from :
      (fuel size : ℕ) (items : List A)
      → length items ≤ fuel
      → 0 < size
      → concat (batches_from fuel size items) ≡ items
  unfolding batches_from
  concat-batches_from zero size [] h p = refl
  concat-batches_from zero size (x ∷ xs) h p = absurd (omega arith)
  concat-batches_from (suc fuel) size [] h p = refl
  concat-batches_from (suc fuel) zero (x ∷ xs) h p = absurd (omega arith)
  concat-batches_from (suc fuel) (suc size) (x ∷ xs) h p =
      ap (λ rest. take (suc size) (x ∷ xs) ++ rest)
        (concat-batches_from fuel (suc size) (drop size xs) (omega (arith, length-drop-le size xs))
          p)
      ∙ take-append-drop (suc size) (x ∷ xs)

  All-batches_from :
      (fuel size : ℕ) (items : List A)
      → 0 < size
      → All (IsBatch size) (batches_from fuel size items)
  unfolding batches_from
  All-batches_from zero size items p = tt
  All-batches_from (suc fuel) size [] p = tt
  All-batches_from (suc fuel) zero (x ∷ xs) p = absurd (omega arith)
  All-batches_from (suc fuel) (suc size) (x ∷ xs) p = (
    (omega arith, omega (arith, length-take-le size xs)),
    All-batches_from fuel (suc size) (drop size xs) p,
  )

  -- For a positive size the batches are the items in their order, cut into pieces that are not
  -- empty and hold at most `size` items.
  pub batches_partition :
      (items : List A) (size : ℕ)
      → 0 < size
      → (concat (batches items size) ≡ items) × All (IsBatch size) (batches items size)
  unfolding batches
  batches_partition items size p = (
    concat-batches_from (length items) size items (omega arith) p,
    All-batches_from (length items) size items p,
  )
