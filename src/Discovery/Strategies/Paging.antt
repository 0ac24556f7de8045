-- ===== src/Discovery/Strategies/Paging.antt =====
-- The `while` loops over the pages of an API, in `discovery/strategies/whale_leaderboard.py`: a test
-- of the offset and of what is found so far, a round that asks for a page, and `offset += limit`.
use polymarket_market_discov.Base.{
  ℕ, zero, suc, ◌+◌, ◌*◌, ◌<◌, Bool, true, false, Option, none, some, ◌≡◌, refl, arith, Bool-cases,
  inl, inr, subst,
}
use polymarket_market_discov.Base.Result.{api_error, Result, ok, raise}

-- What a round says of the loop: an exception, or what is found and whether the loop goes on.
abbrev pub after_round {ℓ} :
    {S : Type ℓ} → Result (S × Bool) → (S → Option (Result S)) → Option (Result S)
after_round (raise exc) next = some (raise exc)
after_round (ok (found, true)) next = next found
after_round (ok (found, false)) next = some (ok found)

after_round-some {ℓ} :
    {S : Type ℓ} (ended : Result (S × Bool)) (next : S → Option (Result S))
    → ((found : S) → (result : Result S) × (next found ≡ some result))
    → (result : Result S) × (after_round ended next ≡ some result)
after_round-some (raise exc) next ends = (raise exc, refl)
after_round-some (ok (found, true)) next ends = ends found
after_round-some (ok (found, false)) next ends = (ok found, refl)

after_round-keeps {ℓ κ} :
    {S : Type ℓ} (P : S → Type κ) (ended : Result (S × Bool)) (next : S → Option (Result S))
    (last : S)
    → ((found : S) (more : Bool) → ended ≡ ok (found, more) → P found)
    → ((found : S) → P found → next found ≡ some (ok last) → P last)
    → after_round ended next ≡ some (ok last)
    → P last
after_round-keeps P (raise exc) next last now later ends = cc
after_round-keeps P (ok (found, true)) next last now later ends =
    later found (now found true refl) ends
after_round-keeps P (ok (found, false)) next last now later ends =
    let same : found ≡ last = cc in subst P same (now found false refl)

after_round-more {ℓ} :
    {S : Type ℓ} (ended : Result (S × Bool)) (next next' : S → Option (Result S))
    (result : Result S)
    → ((found : S) → next found ≡ some result → next' found ≡ some result)
    → after_round ended next ≡ some result
    → after_round ended next' ≡ some result
after_round-more (raise exc) next next' result more ends = ends
after_round-more (ok (found, true)) next next' result more ends = more found ends
after_round-more (ok (found, false)) next next' result more ends = ends

module _ {ℓ} {S : Type ℓ} (wants : ℕ → S → Bool) (round : ℕ → S → Result (S × Bool))
    (limit : ℕ) where
  -- The loop, with fuel; `none` says that the fuel ran out.
  unfoldable pub pages : ℕ → ℕ → S → Option (Result S)
  pages zero offset state = none
  pages (suc fuel) offset state = elim (wants offset state) [
    | false ↦ some (ok state)
    | true ↦ after_round (round offset state) (pages fuel (offset + limit))
  ]

  module _ (fuel offset : ℕ) (state : S) where
    pages_stop : wants offset state ≡ false → pages (suc fuel) offset state ≡ some (ok state)
    unfolding pages
    pages_stop stop = rw (stop, pages) refl

    pages_go :
        wants offset state ≡ true
        → pages (suc fuel) offset state
          ≡ after_round (round offset state) (pages fuel (offset + limit))
    unfolding pages
    pages_go more = rw (more, pages) refl

  -- A loop whose test fails behind the offset `last` ends within the rounds that lead there.
  pub pages_enough :
      (last : ℕ)
      → ((offset : ℕ) (state : S) → last < offset → wants offset state ≡ false)
      → (rounds offset : ℕ) (state : S) → last < offset + limit * rounds
      → (result : Result S) × (pages (suc rounds) offset state ≡ some result)
  pages_enough last ends zero offset state enough =
      let stop = ends offset state (omega arith) in (ok state, pages_stop zero offset state stop)
  pages_enough last ends (suc rounds) offset state enough = elim (Bool-cases (wants offset state)) [
    | inl more ↦ rw (pages_go (suc rounds) offset state more) (
        after_round-some (round offset state) (pages (suc rounds) (offset + limit))
          (λ found. pages_enough last ends rounds (offset + limit) found (grind arith)))
    | inr stop ↦ (ok state, pages_stop (suc rounds) offset state stop)
  ]

  -- What every round keeps holds of the result.
  pub pages_keeps {κ} :
      (P : S → Type κ)
      → ((offset : ℕ) (state found : S) (more : Bool)
          → P state
          → wants offset state ≡ true
          → round offset state ≡ ok (found, more)
          → P found)
      → (fuel offset : ℕ) (state last : S) → P state
      → pages fuel offset state ≡ some (ok last)
      → P last
  unfolding pages
  pages_keeps P keep zero offset state last holds ends = cc
  pages_keeps P keep (suc fuel) offset state last holds ends =
      elim (Bool-cases (wants offset state)) [
        | inl more ↦
            let ends' = rw (pages_go fuel offset state more) at ends in
            after_round-keeps P (round offset state) (pages fuel (offset + limit)) last
              (λ found goes. keep offset state found goes holds more)
              (λ found here. pages_keeps P keep fuel (offset + limit) found last here) ends'
        | inr stop ↦
            let ends' = rw (pages_stop fuel offset state stop) at ends in
            let same : state ≡ last = cc in subst P same holds
      ]

  -- More fuel changes nothing.
  pub pages_more :
      (fuel offset : ℕ) (state : S) (result : Result S)
      → pages fuel offset state ≡ some result
      → pages (suc fuel) offset state ≡ some result
  unfolding pages
  pages_more zero offset state result ends = cc
  pages_more (suc fuel) offset state result ends = elim (Bool-cases (wants offset state)) [
    | inl more ↦
        let ends' = rw (pages_go fuel offset state more) at ends in
        rw (pages_go (suc fuel) offset state more) (
          after_round-more (round offset state) _ _ result
            (λ found. pages_more fuel (offset + limit) found result) ends')
    | inr stop ↦
        let ends' = rw (pages_stop fuel offset state stop) at ends in
        rw (pages_stop (suc fuel) offset state stop) ends'
  ]

-- What a loop has ended with. The theorems on the fuel show that the first case is not met.
abbrev pub finished {ℓ} : {S : Type ℓ} → Option (Result S) → Result S
finished none = raise (api_error "out of fuel")
finished (some result) = result
