-- ===== src/Markets/Registry.antt =====
-- The loop of `complete_market_sync_run` in `markets/repository.py`: one round for each payload.
pub mod Growth
use polymarket_market_discov.Base.{
  ℕ, suc, ◌+◌, max, min, String, Bool, true, false, not, ◌&&◌, ◌||◌, Option, none, some, List, [],
  ◌∷◌, ◌++◌, map, length, eqb, ltb, ◌==◌, if◌then◌else◌, keep_if, update_where, any_of, find,
  is_some,
}
use polymarket_market_discov.Base.Dict.{contains, is_distinct}
use polymarket_market_discov.Base.Result.{
  Exception, Result, ok, raise, value_error, raise_if, Exec, ◌>>=◌, ◌>>◌,
}
use polymarket_market_discov.Base.Sort.{sort_by, sorted_set, leb_text}
use polymarket_market_discov.Base.Text.{f_string}
use polymarket_market_discov.Core.Models.{
  Database, MarketDiscoveryRun, MarketDiscoveryObservation, MarketRegistrySyncRun, PolymarketMarket,
  PolymarketToken, MarketStatusSnapshot,
}
use polymarket_market_discov.Core.Session.{transaction, constraint}
use polymarket_market_discov.Core.Status.{Status, running, completed, failed, status_eq}
use polymarket_market_discov.Core.Time.{Timestamp}
use polymarket_market_discov.Markets.Domain.{MarketTokenPayload, PolymarketMarketPayload, token_ids}
use polymarket_market_discov.Markets.Retrieval.{condition_ids}
use polymarket_market_discov.Markets.Tokens.{
  create_tokens, update_tokens, same_set, stored_token_ids,
}

-- `min(observed_at)` and `max(observed_at)` over the observations of a market.
abbrev widen : Timestamp → Option (Timestamp × Timestamp) → Timestamp × Timestamp
widen t none = (t, t)
widen t (some (first, last)) = (min t first, max t last)

unfoldable pub seen_bounds :
    String → List MarketDiscoveryObservation → Option (Timestamp × Timestamp)
seen_bounds id [] = none
seen_bounds id (o ∷ observations) =
    let rest = seen_bounds id observations in
    if o.condition_id == id then some (widen o.observed_at rest) else rest

abbrev pub is_market : String → PolymarketMarket → Bool
is_market id market = market.condition_id == id

-- The assignments that end the loop body.
abbrev pub write_payload : Timestamp → PolymarketMarketPayload → PolymarketMarket → PolymarketMarket
write_payload checked_at payload market = record market {
  event_id = payload.event_id;
  slug = payload.slug;
  title = payload.title;
  question = payload.question;
  end_date = payload.end_date;
  active = payload.active;
  closed = payload.closed;
  archived = payload.archived;
  enable_order_book = payload.enable_order_book;
  status_checked_at = checked_at;
  raw_latest_payload = payload.raw_payload;
  updated_at = checked_at;
}

abbrev pub new_market :
    Timestamp → PolymarketMarketPayload → Timestamp × Timestamp → PolymarketMarket
new_market checked_at payload (first_seen, last_seen) = record {
  condition_id = payload.condition_id;
  event_id = payload.event_id;
  slug = payload.slug;
  title = payload.title;
  question = payload.question;
  end_date = payload.end_date;
  active = payload.active;
  closed = payload.closed;
  archived = payload.archived;
  enable_order_book = payload.enable_order_book;
  first_discovered_at = first_seen;
  last_discovered_at = last_seen;
  status_checked_at = checked_at;
  raw_latest_payload = payload.raw_payload;
  updated_at = checked_at;
}

-- `max(market.last_discovered_at, last_seen)`, where the market was observed.
abbrev pub discovered_again : Option (Timestamp × Timestamp) → PolymarketMarket → PolymarketMarket
discovered_again none market = market
discovered_again (some (first_seen, last_seen)) market = record market {
  last_discovered_at = max market.last_discovered_at last_seen;
}

abbrev pub status_snapshot : String → Timestamp → PolymarketMarketPayload → MarketStatusSnapshot
status_snapshot run_id checked_at payload = record {
  sync_run_id = run_id;
  condition_id = payload.condition_id;
  checked_at = checked_at;
  active = payload.active;
  closed = payload.closed;
  archived = payload.archived;
  enable_order_book = payload.enable_order_book;
  end_date = payload.end_date;
  raw_payload = payload.raw_payload;
}

-- The counters and the rows that the loop over the payloads changes.
pub record Registry : Type 0 where
  pub created : ℕ
  pub updated : ℕ
  pub markets : List PolymarketMarket
  pub tokens : List PolymarketToken
  pub snapshots : List MarketStatusSnapshot

abbrev pub create_market :
    Timestamp
    → PolymarketMarketPayload
    → Option (Timestamp × Timestamp)
    → Registry
    → Result Registry
create_market checked_at payload none r =
    raise
      (value_error (f_string ("Cannot create undiscovered market " ∷ payload.condition_id ∷ [])))
create_market checked_at payload (some bounds) r = do
  tokens' ← create_tokens payload.condition_id checked_at payload.tokens r.tokens
  ok (record r {
    created = r.created + 1;
    markets = r.markets ++ new_market checked_at payload bounds ∷ [];
    tokens = tokens';
  })

abbrev pub update_market :
    Timestamp
    → PolymarketMarketPayload
    → Option (Timestamp × Timestamp)
    → Registry
    → Result Registry
update_market checked_at payload bounds r = do
  raise_if
      (not (same_set (stored_token_ids payload.condition_id r.tokens) (token_ids payload.tokens)))
      (value_error (f_string ("Token set changed for market " ∷ payload.condition_id ∷ [])))
  tokens' ← update_tokens payload.condition_id checked_at payload.tokens r.tokens
  ok (record r {
    updated = r.updated + 1;
    markets =
        update_where (is_market payload.condition_id)
          (λ m. write_payload checked_at payload (discovered_again bounds m)) r.markets;
    tokens = tokens';
  })

abbrev pub sync_market_row :
    List MarketDiscoveryObservation
    → Timestamp
    → PolymarketMarketPayload
    → Registry
    → Result Registry
sync_market_row observations checked_at payload r =
    let bounds = seen_bounds payload.condition_id observations in
    if any_of (is_market payload.condition_id) r.markets
    then update_market checked_at payload bounds r
    else create_market checked_at payload bounds r

abbrev pub is_snapshot_of : String → String → MarketStatusSnapshot → Bool
is_snapshot_of run_id condition_id snapshot =
    snapshot.sync_run_id == run_id && snapshot.condition_id == condition_id

-- `session.add(MarketStatusSnapshot(...))`, under the table's constraints.
abbrev pub add_snapshot :
    String → Bool → Timestamp → PolymarketMarketPayload → Registry → Result Registry
add_snapshot run_id known_run checked_at payload r = do
  constraint (not known_run) "market_status_snapshots_sync_run_id_fkey"
  constraint (any_of (is_snapshot_of run_id payload.condition_id) r.snapshots)
      "uq_market_status_snapshot_run_condition"
  ok (record r { snapshots = r.snapshots ++ status_snapshot run_id checked_at payload ∷ [] })

module _ (run_id : String) (known_run : Bool) (observations : List MarketDiscoveryObservation)
    (checked_at : Timestamp) where
  -- The body of the loop over the payloads.
  unfoldable pub sync_market : PolymarketMarketPayload → Registry → Result Registry
  sync_market payload r = do
    r' ← sync_market_row observations checked_at payload r
    add_snapshot run_id known_run checked_at payload r'

  unfoldable pub sync_markets : List PolymarketMarketPayload → Registry → Result Registry
  sync_markets [] r = ok r
  sync_markets (payload ∷ payloads) r = do r' ← sync_market payload r; sync_markets payloads r'

abbrev pub registry_of : Database → Registry
registry_of db = record {
  created = 0;
  updated = 0;
  markets = db.markets;
  tokens = db.tokens;
  snapshots = db.status_snapshots;
}
