-- ===== src/Markets/Retrieval/Complete.antt =====
-- A batch is retrieved as a whole: one payload for each requested market, in the order of request.
use polymarket_market_discov.Base.{
  String, ◌≡◌, refl, sym, ◌∙◌, Bool, true, false, some, List, [], ◌∷◌, arith, eq_iff, inl, inr, All,
  Option-cases, Bool-cases, ap₂, ◌==◌,
}
use polymarket_market_discov.Base.Dict.{lookup, insert, keys}
use polymarket_market_discov.Base.Json.{Fields}
use polymarket_market_discov.Base.Result.{ok, >>=-eq-ok}
use polymarket_market_discov.Base.Runtime.{Runtime}
use polymarket_market_discov.Markets.Domain.{PolymarketMarketPayload}
use polymarket_market_discov.Markets.Gamma.{parse_gamma_market}
use polymarket_market_discov.Markets.Gamma.Contract.{IsBinary, parse_gamma_market-IsBinary}
use polymarket_market_discov.Markets.Retrieval.{
  Gamma, Index, condition_ids, difference, index_loop, index_gamma_payloads, parse_rows,
  update_index, collect, fetch, fetch_missing, retrieve_market_batch,
}

-- Each entry is stored under its own identifier, and its market has the binary contract.
abbrev IsEntry : String × PolymarketMarketPayload → Type 0
IsEntry (k, v) = (v.condition_id ≡ k) × IsBinary v

insert-All :
    (k : String) (v : PolymarketMarketPayload) (d : Index)
    → v.condition_id ≡ k
    → IsBinary v
    → All IsEntry d
    → All IsEntry (insert k v d)
insert-All k v [] e b all = ((e, b), tt)
insert-All k v ((j, w) ∷ d) e b all = elim (Bool-cases (j == k)) [
  | inl same ↦ rw same ((e ∙ sym ((eq_iff j k).0 same), b), all.1)
  | inr other ↦ rw other (all.0, insert-All k v d e b all.1)
]

lookup-IsEntry :
    (k : String) (d : Index) (v : PolymarketMarketPayload)
    → All IsEntry d
    → lookup k d ≡ some v
    → IsEntry (k, v)
lookup-IsEntry k [] v all h = cc
lookup-IsEntry k ((j, w) ∷ d) v all h = elim (Bool-cases (j == k)) [
  | inl same ↦ let w=v : w ≡ v = ground arith in rw (← w=v, ← (eq_iff j k).0 same) all.0
  | inr other ↦ lookup-IsEntry k d v all.1 (rw other at h)
]

module _ (py : Runtime) (gamma : Gamma) where
  parse_rows-All :
      (rows : List Fields) (payloads : List PolymarketMarketPayload)
      → parse_rows py gamma rows ≡ ok payloads
      → All IsBinary payloads
  unfolding parse_rows
  parse_rows-All [] payloads h = let e : payloads ≡ [] = cc in rw e tt
  parse_rows-All (row ∷ rows) payloads h =
      let (p, parsed, h') = >>=-eq-ok (parse_gamma_market py row) _ h in
      let (ps, others, done) = >>=-eq-ok (parse_rows py gamma rows) _ h' in
      let e : payloads ≡ p ∷ ps = cc in
      rw e ((parse_gamma_market-IsBinary py row parsed).0, parse_rows-All rows ps others)

  index_loop-All :
      (payloads : List PolymarketMarketPayload) (indexed result : Index)
      → All IsBinary payloads
      → All IsEntry indexed
      → index_loop py gamma payloads indexed ≡ ok result
      → All IsEntry result
  unfolding index_loop
  index_loop-All [] indexed result binary all h = let e : result ≡ indexed = cc in rw e all
  index_loop-All (p ∷ ps) indexed result binary all h =
      elim (Option-cases (lookup p.condition_id indexed)) [
        | inl new ↦
            index_loop-All ps (insert p.condition_id p indexed) result binary.1
              (insert-All p.condition_id p indexed refl binary.0 all) (rw new at h)
        | inr (old, found) ↦ ground arith
      ]

  fetch-All :
      (ids : List String) (closed : Bool) (result : Index)
      → fetch py gamma ids closed ≡ ok result
      → All IsEntry result
  unfolding fetch index_gamma_payloads
  fetch-All ids closed result h =
      let (rows, answered, h1) = >>=-eq-ok (gamma.get_gamma_markets ids closed) _ h in
      let (payloads, parsed, h2) = >>=-eq-ok (parse_rows py gamma rows) _ h1 in
      let indexed : index_loop py gamma payloads [] ≡ ok result = ground arith in
      index_loop-All payloads [] result (parse_rows-All rows payloads parsed) tt indexed

  update_index-All :
      (indexed other : Index)
      → All IsEntry indexed
      → All IsEntry other
      → All IsEntry (update_index py gamma indexed other)
  unfolding update_index
  update_index-All indexed [] all new = all
  update_index-All indexed ((k, v) ∷ other) all new =
      update_index-All (insert k v indexed) other (insert-All k v indexed new.0.0 new.0.1 all) new.1

  fetch_missing-All :
      (ids : List String) (indexed : Index) (missing : List String) (result : Index)
      → All IsEntry indexed
      → fetch_missing py gamma ids indexed missing ≡ ok result
      → All IsEntry result
  unfolding fetch_missing
  fetch_missing-All ids indexed [] result all h = let e : result ≡ indexed = cc in rw e all
  fetch_missing-All ids indexed (id ∷ missing) result all h =
      let (closed, answered, h1) = >>=-eq-ok (fetch py gamma (id ∷ missing) true) _ h in
      let e : result ≡ update_index py gamma indexed closed = ground arith in
      rw e (update_index-All indexed closed all (fetch-All (id ∷ missing) true closed answered))

  collect-eq-ok :
      (indexed : Index) (ids : List String) (payloads : List PolymarketMarketPayload)
      → All IsEntry indexed
      → collect py gamma indexed ids ≡ ok payloads
      → (condition_ids payloads ≡ ids) × All IsBinary payloads
  unfolding collect
  collect-eq-ok indexed [] payloads all h = let e : payloads ≡ [] = cc in rw e (refl, tt)
  collect-eq-ok indexed (id ∷ ids) payloads all h = elim (Option-cases (lookup id indexed)) [
    | inl absent ↦ ground arith
    | inr (p, found) ↦
        let (ps, others, done) =
          >>=-eq-ok (collect py gamma indexed ids) _ (rw (found, collect) at h) in
        let e : payloads ≡ p ∷ ps = cc in
        let (named, binary) = lookup-IsEntry id indexed p all found in
        let (rest, all_binary) = collect-eq-ok indexed ids ps all others in
        rw e (ap₂ ◌∷◌ named rest, (binary, all_binary))
  ]

  -- A batch that is retrieved has one payload for each requested market, in the order of request,
  -- each with the binary contract: none is missing, added, doubled or swapped.
  pub retrieve_market_batch_lem :
      (ids : List String) (payloads : List PolymarketMarketPayload)
      → retrieve_market_batch py gamma ids ≡ ok payloads
      → (condition_ids payloads ≡ ids) × All IsBinary payloads
  unfolding retrieve_market_batch
  retrieve_market_batch_lem ids payloads h =
      let (found, answered, h1) = >>=-eq-ok (fetch py gamma ids false) _ h in
      let (indexed, completed, h2) =
        >>=-eq-ok (fetch_missing py gamma ids found (difference ids (keys found))) _ h1 in
      collect-eq-ok indexed ids payloads
        (fetch_missing-All ids found _ indexed (fetch-All ids false found answered) completed) h2
