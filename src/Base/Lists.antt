-- ===== src/Base/Lists.antt =====
-- Lists measured by native numbers, and Python's list operations that the program uses.
use Prim.Native.Nat.{ℕ, zero, suc, ◌+◌, ◌≤◌}
use mathlib.Core.Path.{◌≡◌, refl, ap}
use mathlib.Core.Bool.{Bool, true, false, ◌||◌}
use mathlib.Core.Option.{Option, none, some}
use mathlib.Core.List.{List, [], ◌∷◌, ◌++◌, map}
use native.Mathlib.Omega.{arith}
use polymarket_market_discov.Base.Tests.{if◌then◌else◌, is_some}

module _ {ℓ} {A : Type ℓ} where
  abbrev pub length : List A → ℕ
  length [] = 0
  length (x ∷ xs) = suc (length xs)

  abbrev pub take : ℕ → List A → List A
  take zero xs = []
  take (suc n) [] = []
  take (suc n) (x ∷ xs) = x ∷ take n xs

  abbrev pub drop : ℕ → List A → List A
  drop zero xs = xs
  drop (suc n) [] = []
  drop (suc n) (x ∷ xs) = drop n xs

  -- `[x for x in xs if p(x)]`
  abbrev pub keep_if : (A → Bool) → List A → List A
  keep_if p [] = []
  keep_if p (x ∷ xs) = let rest = keep_if p xs in if p x then x ∷ rest else rest

  -- `all(P(x) for x in items)`, as a type
  abbrev pub All {κ} : (P : A → Type κ) → (items : List A) → Type κ
  All P [] = Unit
  All P (item ∷ rest) = P item × All P rest

module _ {ℓ} {A : Type ℓ} where
  pub length-append : (xs ys : List A) → length (xs ++ ys) ≡ length xs + length ys
  length-append [] ys = omega arith
  length-append (x ∷ xs) ys = omega (arith, length-append xs ys)

  pub take-append-drop : (n : ℕ) (xs : List A) → take n xs ++ drop n xs ≡ xs
  take-append-drop zero xs = refl
  take-append-drop (suc n) [] = refl
  take-append-drop (suc n) (x ∷ xs) = rw (take-append-drop n xs)

  pub All-append {κ} :
      (P : A → Type κ) (front back : List A) → All P front → All P back → All P (front ++ back)
  All-append P [] back none_left all_back = all_back
  All-append P (item ∷ front) back (this, all_front) all_back =
      (this, All-append P front back all_front all_back)

  pub length-map {κ} : {B : Type κ} (f : A → B) (xs : List A) → length (map f xs) ≡ length xs
  length-map f [] = refl
  length-map f (x ∷ xs) = ap suc (length-map f xs)

  pub All-keep_if {κ} :
      (P : A → Type κ) (p : A → Bool) (items : List A) → All P items → All P (keep_if p items)
  All-keep_if P p [] all = tt
  All-keep_if P p (item ∷ rest) (this, all) =
      let kept = All-keep_if P p rest all in
      elim (p item) as (λ b. All P (if b then item ∷ keep_if p rest else keep_if p rest)) [
        | true ↦ (this, kept)
        | false ↦ kept
      ]

  pub length-keep_if-le : (p : A → Bool) (xs : List A) → length (keep_if p xs) ≤ length xs
  length-keep_if-le p [] = omega arith
  length-keep_if-le p (x ∷ xs) = ground (arith, length-keep_if-le p xs)

module _ {ℓ} {A : Type ℓ} where
  -- `update(...).where(test).values(...)`
  abbrev pub update_where : (A → Bool) → (A → A) → List A → List A
  update_where test values [] = []
  update_where test values (x ∷ xs) = (if test x then values x else x) ∷ update_where test values xs

  -- `any(test(x) for x in xs)`
  abbrev pub any_of : (A → Bool) → List A → Bool
  any_of test [] = false
  any_of test (x ∷ xs) = test x || any_of test xs

  -- The first row that passes the test: a look-up by a key that is unique.
  abbrev pub find : (A → Bool) → List A → Option A
  find test [] = none
  find test (x ∷ xs) = if test x then some x else find test xs

  pub update_where-none :
      (test : A → Bool) (values : A → A) (xs : List A)
      → any_of test xs ≡ false
      → update_where test values xs ≡ xs
  update_where-none test values [] h = refl
  update_where-none test values (x ∷ xs) h = ground (arith, update_where-none test values xs)

  pub any_of-update_where :
      (test other : A → Bool) (values : A → A) (xs : List A)
      → ((x : A) → test x ≡ true → other (values x) ≡ false)
      → ((x : A) → test x ≡ false → other x ≡ false)
      → any_of other (update_where test values xs) ≡ false
  any_of-update_where test other values [] hit miss = refl
  any_of-update_where test other values (x ∷ xs) hit miss =
      ground (arith, any_of-update_where test other values xs hit miss, hit x, miss x)

  pub length-update_where :
      (test : A → Bool) (values : A → A) (xs : List A)
      → length (update_where test values xs) ≡ length xs
  length-update_where test values [] = refl
  length-update_where test values (x ∷ xs) = ap suc (length-update_where test values xs)

  pub any_of-find : (test : A → Bool) (xs : List A) → any_of test xs ≡ is_some (find test xs)
  any_of-find test [] = refl
  any_of-find test (x ∷ xs) = ground (arith, any_of-find test xs)
