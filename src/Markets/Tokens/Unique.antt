-- ===== src/Markets/Tokens/Unique.antt =====
-- Token identifiers stay unique, as the primary key of the table asks.
use mathlib.Core.List.{map-append}
use polymarket_market_discov.Base.{
  String, ◌≡◌, refl, sym, ◌∙◌, ap, true, Option, none, some, List, [], ◌∷◌, ◌++◌, map, arith,
  any_of, find, any_of-find,
}
use polymarket_market_discov.Base.Dict.{contains, is_distinct, is_distinct-append_one}
use polymarket_market_discov.Base.Result.{ok, >>=-eq-ok}
use polymarket_market_discov.Core.Models.{PolymarketToken}
use polymarket_market_discov.Core.Time.{Timestamp}
use polymarket_market_discov.Markets.Domain.{MarketTokenPayload}
use polymarket_market_discov.Markets.Tokens.{
  is_token, create_token, create_tokens, update_tokens, new_token,
}
use polymarket_market_discov.Markets.Tokens.Identity.{
  TokenIdentity, identities, update_tokens-identities,
}

abbrev pub token_keys : List PolymarketToken → List String
token_keys tokens = map (λ token. token.token_id) tokens

abbrev identity_keys : List TokenIdentity → List String
identity_keys tokens = map (λ token. token.token_id) tokens

token_keys-identities :
    (tokens : List PolymarketToken) → identity_keys (identities tokens) ≡ token_keys tokens
token_keys-identities [] = refl
token_keys-identities (t ∷ tokens) = ap (λ l. t.token_id ∷ l) (token_keys-identities tokens)

any_of-token_keys :
    (id : String) (tokens : List PolymarketToken)
    → contains id (token_keys tokens) ≡ any_of (is_token id) tokens
any_of-token_keys id [] = refl
any_of-token_keys id (t ∷ tokens) = ground (arith, any_of-token_keys id tokens)

create_token-distinct :
    (condition_id : String) (checked_at : Timestamp) (payload : MarketTokenPayload)
    (tokens result : List PolymarketToken)
    → create_token condition_id checked_at payload (find (is_token payload.token_id) tokens) tokens
      ≡ ok result
    → is_distinct (token_keys tokens) ≡ true
    → is_distinct (token_keys result) ≡ true
create_token-distinct condition_id checked_at payload tokens result h d =
    go (find (is_token payload.token_id) tokens) refl h
  where
    go :
        (found : Option PolymarketToken)
        → find (is_token payload.token_id) tokens ≡ found
        → create_token condition_id checked_at payload found tokens ≡ ok result
        → is_distinct (token_keys result) ≡ true
    go (some t) f h = ground arith
    go none f h =
        let e : result ≡ tokens ++ new_token condition_id checked_at payload ∷ [] = ground arith in
        rw
          (
            e,
            map-append (λ (t : PolymarketToken). t.token_id) tokens
                (new_token condition_id checked_at payload ∷ []),
          )
          (ground (
            arith,
            is_distinct-append_one (token_keys tokens) payload.token_id,
            any_of-token_keys payload.token_id tokens,
            any_of-find (is_token payload.token_id) tokens,
          ))

pub create_tokens-distinct :
    (condition_id : String) (checked_at : Timestamp) (payloads : List MarketTokenPayload)
    (tokens result : List PolymarketToken)
    → create_tokens condition_id checked_at payloads tokens ≡ ok result
    → is_distinct (token_keys tokens) ≡ true
    → is_distinct (token_keys result) ≡ true
unfolding create_tokens
create_tokens-distinct condition_id checked_at [] tokens result h d =
    let e : result ≡ tokens = cc in rw e d
create_tokens-distinct condition_id checked_at (p ∷ ps) tokens result h d =
    let (next, first, rest) = >>=-eq-ok (create_token condition_id checked_at p _ tokens) _ h in
    create_tokens-distinct condition_id checked_at ps next result rest
      (create_token-distinct condition_id checked_at p tokens next first d)

pub update_tokens-distinct :
    (condition_id : String) (checked_at : Timestamp) (payloads : List MarketTokenPayload)
    (tokens result : List PolymarketToken)
    → update_tokens condition_id checked_at payloads tokens ≡ ok result
    → is_distinct (token_keys tokens) ≡ true
    → is_distinct (token_keys result) ≡ true
update_tokens-distinct condition_id checked_at payloads tokens result h d =
    let same = update_tokens-identities condition_id checked_at payloads tokens result h in
    let keys_same =
      sym (token_keys-identities result) ∙ ap identity_keys same ∙ token_keys-identities tokens in
    rw keys_same d
