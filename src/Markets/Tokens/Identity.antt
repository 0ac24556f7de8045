-- ===== src/Markets/Tokens/Identity.antt =====
-- What a sync does to the token rows: an old row keeps its identity, and new rows come at the end.
use polymarket_market_discov.Base.{
  ℕ, String, ◌≡◌, refl, sym, ◌∙◌, ap, Option, none, some, List, [], ◌∷◌, ◌++◌, map, arith,
  update_where,
}
use polymarket_market_discov.Base.Result.{ok, >>=-eq-ok}
use polymarket_market_discov.Core.Models.{PolymarketToken}
use polymarket_market_discov.Core.Time.{Timestamp}
use polymarket_market_discov.Markets.Domain.{MarketTokenPayload}
use polymarket_market_discov.Markets.Tokens.{
  is_token, see_again, create_token, create_tokens, update_token, update_tokens, new_token,
}
use mathlib.Core.List.{append_assoc, append-nil, map-append}

-- A token row without the time at which it was last seen.
pub record TokenIdentity : Type 0 where
  pub token_id : String
  pub condition_id : String
  pub outcome : String
  pub outcome_index : ℕ
  pub first_seen_at : Timestamp

abbrev pub identity : PolymarketToken → TokenIdentity
identity token = record {
  token_id = token.token_id;
  condition_id = token.condition_id;
  outcome = token.outcome;
  outcome_index = token.outcome_index;
  first_seen_at = token.first_seen_at;
}

abbrev pub identities : List PolymarketToken → List TokenIdentity
identities tokens = map identity tokens

-- The identities that the tokens of a new market get.
abbrev pub new_identity : String → Timestamp → MarketTokenPayload → TokenIdentity
new_identity condition_id checked_at payload = record {
  token_id = payload.token_id;
  condition_id = condition_id;
  outcome = payload.outcome;
  outcome_index = payload.outcome_index;
  first_seen_at = checked_at;
}

abbrev pub new_identities : String → Timestamp → List MarketTokenPayload → List TokenIdentity
new_identities condition_id checked_at payloads =
    map (new_identity condition_id checked_at) payloads

identities-see_again :
    (id : String) (checked_at : Timestamp) (tokens : List PolymarketToken)
    → identities (update_where (is_token id) (see_again checked_at) tokens) ≡ identities tokens
identities-see_again id checked_at [] = refl
identities-see_again id checked_at (t ∷ tokens) =
    ground (arith, identities-see_again id checked_at tokens)

update_token-identities :
    (condition_id : String) (checked_at : Timestamp) (payload : MarketTokenPayload)
    (found : Option PolymarketToken) (tokens result : List PolymarketToken)
    → update_token condition_id checked_at payload found tokens ≡ ok result
    → identities result ≡ identities tokens
update_token-identities condition_id checked_at payload none tokens result h = cc
update_token-identities condition_id checked_at payload (some t) tokens result h =
    ground (arith, identities-see_again payload.token_id checked_at tokens)

-- Checking a stored market again changes no token's identity.
pub update_tokens-identities :
    (condition_id : String) (checked_at : Timestamp) (payloads : List MarketTokenPayload)
    (tokens result : List PolymarketToken)
    → update_tokens condition_id checked_at payloads tokens ≡ ok result
    → identities result ≡ identities tokens
unfolding update_tokens
update_tokens-identities condition_id checked_at [] tokens result h = cc
update_tokens-identities condition_id checked_at (p ∷ ps) tokens result h =
    let (next, first, rest) = >>=-eq-ok (update_token condition_id checked_at p _ tokens) _ h in
    update_tokens-identities condition_id checked_at ps next result rest
    ∙ update_token-identities condition_id checked_at p _ tokens next first

create_token-identities :
    (condition_id : String) (checked_at : Timestamp) (payload : MarketTokenPayload)
    (found : Option PolymarketToken) (tokens result : List PolymarketToken)
    → create_token condition_id checked_at payload found tokens ≡ ok result
    → identities result ≡ identities tokens ++ new_identity condition_id checked_at payload ∷ []
create_token-identities condition_id checked_at payload none tokens result h =
    let e : result ≡ tokens ++ new_token condition_id checked_at payload ∷ [] = ground arith in
    rw e (map-append identity tokens (new_token condition_id checked_at payload ∷ []))
create_token-identities condition_id checked_at payload (some t) tokens result h = ground arith

-- A new market adds the rows of its tokens at the end, as the payload names them.
pub create_tokens-identities :
    (condition_id : String) (checked_at : Timestamp) (payloads : List MarketTokenPayload)
    (tokens result : List PolymarketToken)
    → create_tokens condition_id checked_at payloads tokens ≡ ok result
    → identities result ≡ identities tokens ++ new_identities condition_id checked_at payloads
unfolding create_tokens
create_tokens-identities condition_id checked_at [] tokens result h =
    let e : result ≡ tokens = cc in rw e (sym (append-nil _))
create_tokens-identities condition_id checked_at (p ∷ ps) tokens result h =
    let (next, first, rest) = >>=-eq-ok (create_token condition_id checked_at p _ tokens) _ h in
    create_tokens-identities condition_id checked_at ps next result rest
    ∙ ap (λ l. l ++ new_identities condition_id checked_at ps)
        (create_token-identities condition_id checked_at p _ tokens next first)
    ∙ append_assoc (identities tokens) (new_identity condition_id checked_at p ∷ [])
        (new_identities condition_id checked_at ps)
