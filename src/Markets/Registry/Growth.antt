-- ===== src/Markets/Registry/Growth.antt =====
-- What the loop over the payloads does to the rows: markets and tokens are only added, and none of
-- them changes its identity.
pub mod Round
pub mod Loop
use mathlib.Core.List.{append_assoc, append-nil, map-append}
use polymarket_market_discov.Base.{
  ℕ, suc, ◌+◌, String, ◌≡◌, refl, sym, ◌∙◌, ap, ap₂, Bool, true, false, not, ◌&&◌, ◌||◌, Option,
  none, some, List, [], ◌∷◌, ◌++◌, map, length, length-append, arith, eq_iff, inl, inr, ◌==◌,
  if◌then◌else◌, update_where, any_of, Option-cases, Bool-cases, keep_if,
}
use polymarket_market_discov.Base.Result.{Result, ok, raise, ◌>>=◌, >>=-eq-ok}
use polymarket_market_discov.Core.Models.{
  MarketDiscoveryObservation, PolymarketMarket, MarketStatusSnapshot,
}
use polymarket_market_discov.Core.Time.{Timestamp}
use polymarket_market_discov.Markets.Domain.{PolymarketMarketPayload}
use polymarket_market_discov.Markets.Tokens.{create_tokens, update_tokens}
use polymarket_market_discov.Markets.Tokens.Identity.{
  TokenIdentity, identities, new_identities, create_tokens-identities, update_tokens-identities,
}
use polymarket_market_discov.Markets.Registry.{
  Registry, is_market, write_payload, new_market, discovered_again, status_snapshot, seen_bounds,
  create_market, update_market, sync_market_row, add_snapshot, sync_market, sync_markets,
}

-- A market row's key and the time of its first discovery.
abbrev pub birth : PolymarketMarket → String × Option Timestamp
birth market = (market.condition_id, some market.first_discovered_at)

abbrev pub births : List PolymarketMarket → List (String × Option Timestamp)
births markets = map birth markets

abbrev pub first_seen : Option (Timestamp × Timestamp) → Option Timestamp
first_seen none = none
first_seen (some (first, last)) = some first

-- The birth of the row that a payload makes: the first of its observations.
abbrev pub observed_birth :
    List MarketDiscoveryObservation → PolymarketMarketPayload → String × Option Timestamp
observed_birth observations payload =
    (payload.condition_id, first_seen (seen_bounds payload.condition_id observations))

abbrev pub payload_identities : Timestamp → List PolymarketMarketPayload → List TokenIdentity
payload_identities checked_at [] = []
payload_identities checked_at (p ∷ ps) =
    new_identities p.condition_id checked_at p.tokens ++ payload_identities checked_at ps

-- The payloads that no stored row has the condition identifier of.
abbrev pub is_new : List PolymarketMarket → PolymarketMarketPayload → Bool
is_new markets payload = not (any_of (is_market payload.condition_id) markets)

abbrev pub new_payloads :
    List PolymarketMarket → List PolymarketMarketPayload → List PolymarketMarketPayload
new_payloads markets payloads = keep_if (is_new markets) payloads

payload_identities-append :
    (checked_at : Timestamp) (ps qs : List PolymarketMarketPayload)
    → payload_identities checked_at (ps ++ qs)
      ≡ payload_identities checked_at ps ++ payload_identities checked_at qs
payload_identities-append checked_at [] qs = refl
payload_identities-append checked_at (p ∷ ps) qs =
    ap (λ l. new_identities p.condition_id checked_at p.tokens ++ l)
      (payload_identities-append checked_at ps qs)
    ∙ sym (
        append_assoc (new_identities p.condition_id checked_at p.tokens)
          (payload_identities checked_at ps) (payload_identities checked_at qs))

append_trans {ℓ} :
    {A : Type ℓ} {y z : List A} (x xs ys : List A) → y ≡ x ++ xs → z ≡ y ++ ys → z ≡ x ++ (xs ++ ys)
append_trans x xs ys h k = k ∙ ap (λ l. l ++ ys) h ∙ append_assoc x xs ys

module _ (run_id : String) (observations : List MarketDiscoveryObservation)
    (checked_at : Timestamp) where
  -- The registry `after` has what `before` had, and the rows that the payloads `created` and
  -- `checked` make, at the end of each table.
  pub record Growth (created checked : List PolymarketMarketPayload) (before after : Registry)
      : Type 0 where
    pub markets_grow :
        births after.markets ≡ births before.markets ++ map (observed_birth observations) created
    pub tokens_grow :
        identities after.tokens ≡ identities before.tokens ++ payload_identities checked_at created
    pub snapshots_grow :
        after.snapshots ≡ before.snapshots ++ map (status_snapshot run_id checked_at) checked
    pub created_counts : after.created ≡ before.created + length created
    pub all_counts :
        after.created + after.updated ≡ before.created + before.updated + length checked

  pub Growth-refl : (r : Registry) → Growth [] [] r r
  Growth-refl r = record {
    markets_grow = sym (append-nil _);
    tokens_grow = sym (append-nil _);
    snapshots_grow = sym (append-nil _);
    created_counts = omega arith;
    all_counts = omega arith;
  }

  pub Growth-trans :
      (cs ps cs' ps' : List PolymarketMarketPayload) (a b c : Registry)
      → Growth cs ps a b
      → Growth cs' ps' b c
      → Growth (cs ++ cs') (ps ++ ps') a c
  Growth-trans cs ps cs' ps' a b c f g = record {
    markets_grow =
        rw (map-append (observed_birth observations) cs cs')
          (append_trans (births a.markets) _ _ f.markets_grow g.markets_grow);
    tokens_grow =
        rw (payload_identities-append checked_at cs cs')
          (append_trans (identities a.tokens) _ _ f.tokens_grow g.tokens_grow);
    snapshots_grow =
        rw (map-append (status_snapshot run_id checked_at) ps ps')
          (append_trans a.snapshots _ _ f.snapshots_grow g.snapshots_grow);
    created_counts = omega (arith, f.created_counts, g.created_counts, length-append cs cs');
    all_counts = omega (arith, f.all_counts, g.all_counts, length-append ps ps');
  }
