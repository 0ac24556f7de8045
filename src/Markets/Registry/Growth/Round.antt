-- ===== src/Markets/Registry/Growth/Round.antt =====
-- One round of the loop over the payloads.
use mathlib.Core.List.{append-nil, map-append}
use polymarket_market_discov.Base.{
  ◌+◌, String, ◌≡◌, refl, sym, ◌∙◌, ap, Bool, not, Option, none, some, List, [], ◌∷◌, ◌++◌, map,
  length, arith, inl, inr, update_where, any_of, Bool-cases,
}
use polymarket_market_discov.Base.Result.{ok, >>=-eq-ok, raise_if, value_error}
use polymarket_market_discov.Base.Text.{f_string}
use polymarket_market_discov.Core.Models.{MarketDiscoveryObservation, PolymarketMarket}
use polymarket_market_discov.Core.Time.{Timestamp}
use polymarket_market_discov.Markets.Domain.{PolymarketMarketPayload, token_ids}
use polymarket_market_discov.Markets.Tokens.{
  create_tokens, update_tokens, same_set, stored_token_ids,
}
use polymarket_market_discov.Markets.Tokens.Identity.{
  identities, new_identities, create_tokens-identities, update_tokens-identities,
}
use polymarket_market_discov.Markets.Registry.{
  Registry, is_market, write_payload, new_market, discovered_again, status_snapshot, seen_bounds,
  create_market, update_market, sync_market_row, sync_market,
}
use polymarket_market_discov.Markets.Registry.Growth.{
  birth, births, first_seen, observed_birth, payload_identities, new_payloads, Growth,
}

module _ (run_id : String) (observations : List MarketDiscoveryObservation)
    (checked_at : Timestamp) where
  births-update :
      (payload : PolymarketMarketPayload) (bounds : Option (Timestamp × Timestamp))
      (markets : List PolymarketMarket)
      → births (
          update_where
            (is_market payload.condition_id)
            (λ m. write_payload checked_at payload (discovered_again bounds m))
            markets)
        ≡ births markets
  births-update payload bounds [] = refl
  births-update payload none (m ∷ ms) = ground (arith, births-update payload none ms)
  births-update payload (some b) (m ∷ ms) = ground (arith, births-update payload (some b) ms)

  -- One row's part of a round: the counters, the market rows and the token rows.
  record RowGrowth (created : List PolymarketMarketPayload) (before after : Registry) : Type 0 where
    markets_grow :
        births after.markets ≡ births before.markets ++ map (observed_birth observations) created
    tokens_grow :
        identities after.tokens ≡ identities before.tokens ++ payload_identities checked_at created
    same_snapshots : after.snapshots ≡ before.snapshots
    created_counts : after.created ≡ before.created + length created
    all_counts : after.created + after.updated ≡ before.created + before.updated + 1

  update_market-RowGrowth :
      (payload : PolymarketMarketPayload) (bounds : Option (Timestamp × Timestamp))
      (r result : Registry)
      → update_market checked_at payload bounds r ≡ ok result
      → RowGrowth [] r result
  update_market-RowGrowth payload bounds r result h =
      let (u, checked, later) =
        >>=-eq-ok
          (raise_if
            (not (
              same_set (stored_token_ids payload.condition_id r.tokens) (token_ids payload.tokens)))
            (value_error (f_string ("Token set changed for market " ∷ payload.condition_id ∷ []))))
          _ h in
      let (tokens', stored, last) =
        >>=-eq-ok (update_tokens payload.condition_id checked_at payload.tokens r.tokens) _ later in
      let e : result ≡ record r {
        updated = r.updated + 1;
        markets =
            update_where (is_market payload.condition_id)
              (λ m. write_payload checked_at payload (discovered_again bounds m)) r.markets;
        tokens = tokens';
      } =
        cc in
      rw e (record {
        markets_grow = births-update payload bounds r.markets ∙ sym (append-nil _);
        tokens_grow =
            update_tokens-identities payload.condition_id checked_at payload.tokens r.tokens tokens'
              stored
            ∙ sym (append-nil _);
        same_snapshots = refl;
        created_counts = omega arith;
        all_counts = omega arith;
      })

  create_market-RowGrowth :
      (payload : PolymarketMarketPayload) (bounds : Option (Timestamp × Timestamp))
      (r result : Registry)
      → seen_bounds payload.condition_id observations ≡ bounds
      → create_market checked_at payload bounds r ≡ ok result
      → RowGrowth (payload ∷ []) r result
  create_market-RowGrowth payload none r result seen h = cc
  create_market-RowGrowth payload (some (first, last)) r result seen h =
      let (tokens', stored, last_step) =
        >>=-eq-ok (create_tokens payload.condition_id checked_at payload.tokens r.tokens) _ h in
      let e : result ≡ record r {
        created = r.created + 1;
        markets = r.markets ++ new_market checked_at payload (first, last) ∷ [];
        tokens = tokens';
      } =
        cc in
      rw e (record {
        markets_grow =
            map-append birth r.markets (new_market checked_at payload (first, last) ∷ [])
            ∙ ap (λ b. births r.markets ++ (payload.condition_id, first_seen b) ∷ []) (sym seen);
        tokens_grow =
            create_tokens-identities payload.condition_id checked_at payload.tokens r.tokens tokens'
              stored
            ∙ ap (λ l. identities r.tokens ++ l)
                (sym (append-nil (new_identities payload.condition_id checked_at payload.tokens)));
        same_snapshots = refl;
        created_counts = omega arith;
        all_counts = omega arith;
      })

  sync_market_row-RowGrowth :
      (payload : PolymarketMarketPayload) (r result : Registry)
      → sync_market_row observations checked_at payload r ≡ ok result
      → RowGrowth (new_payloads r.markets (payload ∷ [])) r result
  sync_market_row-RowGrowth payload r result h =
      elim (Bool-cases (any_of (is_market payload.condition_id) r.markets)) [
        | inl old ↦ let h' = rw old at h in rw old (update_market-RowGrowth payload _ r result h')
        | inr new ↦
            let h' = rw new at h in rw new (create_market-RowGrowth payload _ r result refl h')
      ]

  pub sync_market-Growth :
      (known_run : Bool) (payload : PolymarketMarketPayload) (r result : Registry)
      → sync_market run_id known_run observations checked_at payload r ≡ ok result
      → Growth run_id observations checked_at
          (new_payloads r.markets (payload ∷ []))
          (payload ∷ [])
          r
          result
  unfolding sync_market
  sync_market-Growth known_run payload r result h =
      let (row, synced, later) =
        >>=-eq-ok (sync_market_row observations checked_at payload r) _ h in
      let grown = sync_market_row-RowGrowth payload r row synced in
      let e : result ≡ record row {
        snapshots = row.snapshots ++ status_snapshot run_id checked_at payload ∷ [];
      } =
        ground arith in
      rw e (record {
        markets_grow = grown.markets_grow;
        tokens_grow = grown.tokens_grow;
        snapshots_grow =
            ap (λ l. l ++ status_snapshot run_id checked_at payload ∷ []) grown.same_snapshots;
        created_counts = grown.created_counts;
        all_counts = omega (arith, grown.all_counts);
      })
