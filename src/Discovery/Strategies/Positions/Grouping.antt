-- ===== src/Discovery/Strategies/Positions/Grouping.antt =====
-- What the grouping of the positions by market gives, and why its observations are never refused.
use polymarket_market_discov.Base.{
  String, true, false, Option, List, [], ◌∷◌, ◌++◌, map, All, ◌≡◌, refl, ap, arith, ◌==◌,
  if◌then◌else◌, eq_iff, Bool-cases, inl, inr, sym, ◌∙◌,
}
use polymarket_market_discov.Base.Dict.{
  contains, distinct, distinct_from, is_distinct, lookup, insert, keys, keys-insert, lookup-insert,
  map-keys, is_distinct-distinct, distinct_from-contains, contains-append,
}
use polymarket_market_discov.Base.Result.{ok}
use polymarket_market_discov.Core.Time.{Timestamp}
use polymarket_market_discov.Discovery.Domain.{
  DiscoveryEvidenceItem, MarketDiscoveryObservationPayload,
}
use polymarket_market_discov.Discovery.Strategies.Positions.{
  Row, Evidence, add_evidence, group_rows, group_results, or_empty, is_empty, observation,
  observations,
}
use mathlib.Core.List.{append_assoc, append-nil, map-map}

abbrev pub ids : List Row → List String
ids [] = []
ids ((condition_id, item) ∷ rows) = condition_id ∷ ids rows

-- The items of the rows of one market, in the order of the rows.
abbrev pub items_of : String → List Row → List DiscoveryEvidenceItem
items_of condition_id [] = []
items_of condition_id ((id, item) ∷ rows) =
    let rest = items_of condition_id rows in if id == condition_id then item ∷ rest else rest

abbrev pub all_rows : List (List Row) → List Row
all_rows [] = []
all_rows (result ∷ results) = result ++ all_rows results

group_rows-append :
    (front back : List Row) (evidence : Evidence)
    → group_rows (front ++ back) evidence ≡ group_rows back (group_rows front evidence)
unfolding group_rows
group_rows-append [] back evidence = refl
group_rows-append (row ∷ front) back evidence =
    group_rows-append front back (add_evidence row evidence)

group_results-eq :
    (results : List (List Row)) (evidence : Evidence)
    → group_results results evidence ≡ group_rows (all_rows results) evidence
unfolding group_results group_rows
group_results-eq [] evidence = refl
group_results-eq (result ∷ results) evidence =
    group_results-eq results (group_rows result evidence)
    ∙ sym (group_rows-append result (all_rows results) evidence)

keys-group_rows :
    (rows : List Row) (evidence : Evidence)
    → keys (group_rows rows evidence) ≡ keys evidence ++ distinct_from (keys evidence) (ids rows)
unfolding group_rows
keys-group_rows [] evidence = sym (append-nil (keys evidence))
keys-group_rows ((id, item) ∷ rows) evidence = elim (Bool-cases (contains id (keys evidence))) [
  | inl old ↦
      let same : keys (add_evidence (id, item) evidence) ≡ keys evidence =
        ground (arith, keys-insert id (or_empty (lookup id evidence) ++ item ∷ []) evidence) in
      rw old (rw (← same) (keys-group_rows rows (add_evidence (id, item) evidence)))
  | inr new ↦
      let same : keys (add_evidence (id, item) evidence) ≡ keys evidence ++ id ∷ [] =
        ground (arith, keys-insert id (or_empty (lookup id evidence) ++ item ∷ []) evidence) in
      let rest = rw same at (keys-group_rows rows (add_evidence (id, item) evidence)) in
      rw new (
        rest
        ∙ append_assoc (keys evidence) (id ∷ []) _
        ∙ ap (λ (t : List String). keys evidence ++ id ∷ t)
            (distinct_from-contains (keys evidence ++ id ∷ []) (id ∷ keys evidence) (ids rows)
              (λ k. ground (arith, contains-append k (keys evidence) (id ∷ [])))))
]

lookup-group_rows :
    (id : String) (rows : List Row) (evidence : Evidence)
    → or_empty (lookup id (group_rows rows evidence))
      ≡ or_empty (lookup id evidence) ++ items_of id rows
unfolding group_rows
lookup-group_rows id [] evidence = sym (append-nil _)
lookup-group_rows id ((k, item) ∷ rows) evidence =
    let items = or_empty (lookup k evidence) ++ item ∷ [] in
    lookup-group_rows id rows (add_evidence (k, item) evidence)
    ∙ ap (λ (found : Option (List DiscoveryEvidenceItem)). or_empty found ++ items_of id rows)
        (lookup-insert k id items evidence)
    ∙ elim (Bool-cases (k == id)) [
      | inl e ↦
          let same : k ≡ id = (eq_iff k id).0 e in rw e (rw same (append_assoc _ (item ∷ []) _))
      | inr e ↦ rw e refl
    ]

-- The evidence, market by market: each market once, in the order of its first row, with the items
-- of its rows.
group_rows-eq :
    (rows : List Row)
    → map (λ id. (id, items_of id rows)) (distinct (ids rows)) ≡ group_rows rows []
group_rows-eq rows =
    let order : keys (group_rows rows []) ≡ distinct (ids rows) = keys-group_rows rows [] in
    let once : is_distinct (keys (group_rows rows [])) ≡ true =
      rw order (is_distinct-distinct (ids rows)) in
    rw (← order) (
      map-keys (λ id. items_of id rows) (group_rows rows []) once
        (λ id items found.
          let e = lookup-group_rows id rows [] in let e' = rw found at e in sym e'))

-- No text is empty, and no list of items.
abbrev IsFilled : String × List DiscoveryEvidenceItem → Type 0
IsFilled (id, items) = ((id == "") ≡ false) × (is_empty items ≡ false)

abbrev pub HasId : Row → Type 0
HasId (id, item) = (id == "") ≡ false

IsFilled-insert :
    (id : String) (items : List DiscoveryEvidenceItem) (evidence : Evidence)
    → (id == "") ≡ false
    → is_empty items ≡ false
    → All IsFilled evidence
    → All IsFilled (insert id items evidence)
IsFilled-insert id items [] named filled all = ((named, filled), tt)
IsFilled-insert id items ((old, kept) ∷ evidence) named filled (this, all) =
    elim (Bool-cases (old == id)) [
      | inl e ↦ rw e ((this.0, filled), all)
      | inr e ↦ rw e (this, IsFilled-insert id items evidence named filled all)
    ]

is_empty-append :
    (items : List DiscoveryEvidenceItem) (item : DiscoveryEvidenceItem)
    → is_empty (items ++ item ∷ []) ≡ false
is_empty-append [] item = refl
is_empty-append (first ∷ items) item = refl

IsFilled-group_rows :
    (rows : List Row) (evidence : Evidence)
    → All HasId rows
    → All IsFilled evidence
    → All IsFilled (group_rows rows evidence)
unfolding group_rows
IsFilled-group_rows [] evidence named all = all
IsFilled-group_rows ((id, item) ∷ rows) evidence (this, named) all =
    IsFilled-group_rows rows (add_evidence (id, item) evidence) named (
      IsFilled-insert id _ evidence this (is_empty-append (or_empty (lookup id evidence)) item) all)

abbrev pub observed :
    Timestamp → String → List DiscoveryEvidenceItem → MarketDiscoveryObservationPayload
observed observed_at id items = record {
  condition_id = id;
  observed_at = observed_at;
  evidence_json = record { schema_version = 1; items = items };
}

observations-ok :
    (observed_at : Timestamp) (evidence : Evidence)
    → All IsFilled evidence
    → observations observed_at evidence
      ≡ ok (map (λ entry. observed observed_at entry.0 entry.1) evidence)
unfolding observations observation
observations-ok observed_at [] all = refl
observations-ok observed_at ((id, items) ∷ evidence) ((named, filled), all) =
    rw filled (rw named (rw (observations-ok observed_at evidence all) refl))

-- The observations of rows that have an id are never refused: each market that a row names has one,
-- in the order of the first rows, and its items are those of the rows that name it, in their order.
pub observations-group_results :
    (observed_at : Timestamp) (results : List (List Row))
    → All HasId (all_rows results)
    → observations observed_at (group_results results [])
      ≡ ok (
          map
            (λ id. observed observed_at id (items_of id (all_rows results)))
            (distinct (ids (all_rows results))))
observations-group_results observed_at results named =
    let rows = all_rows results in
    let filled = IsFilled-group_rows rows [] named tt in
    rw (group_results-eq results []) (
      observations-ok observed_at (group_rows rows []) filled
      ∙ ap
          (λ (evidence : Evidence).
            ok (map (λ entry. observed observed_at entry.0 entry.1) evidence))
          (sym (group_rows-eq rows))
      ∙ ap ok (map-map _ _ (distinct (ids rows))))
