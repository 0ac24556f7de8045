-- ===== src/Pipeline/Verdict.antt =====
-- `_aggregate_status` against a description of the status by layers.
use polymarket_market_discov.Base.{
  String, ◌≡◌, ◌⊎◌, Bool, false, not, ◌||◌, Option, none, some, arith, if◌then◌else◌, is_some,
}
use polymarket_market_discov.Base.Result.{ok}
use polymarket_market_discov.Core.Status.{Status, completed, partial, failed, skipped, status_eq}
use polymarket_market_discov.Core.Time.{Timestamp}
use polymarket_market_discov.Pipeline.{
  Layers, LayerTrigger, Runners, Cycle, PipelineRunResult, aggregate_status, run_cycle,
  finish_cycle,
}
use polymarket_market_discov.Pipeline.Cascade.{run_cycle-finish}

-- The statuses that a layer's result may have.
abbrev pub IsOutcome : Option Status → Type 0
IsOutcome none = Unit
IsOutcome (some s) = (s ≡ completed) ⊎ ((s ≡ partial) ⊎ ((s ≡ failed) ⊎ (s ≡ skipped)))

abbrev pub succeeded : Option Status → Bool
succeeded none = false
succeeded (some s) = status_eq s completed || status_eq s partial

abbrev pub went_wrong : Option Status → Option String → Bool
went_wrong none error = is_some error
went_wrong (some s) error = is_some error || status_eq s failed || status_eq s partial

-- The statuses of a result's layers.
abbrev pub layer_statuses : PipelineRunResult → Layers (Option Status)
layer_statuses r = record {
  discovery = elim r.discovery [ none ↦ none | some d ↦ some d.status ];
  markets = elim r.markets [ none ↦ none | some m ↦ some m.status ];
  orderbooks = elim r.orderbooks [ none ↦ none | some o ↦ some o.status ];
}

abbrev pub any_succeeded : PipelineRunResult → Bool
any_succeeded r =
    let l = layer_statuses r in
    succeeded l.discovery || succeeded l.markets || succeeded l.orderbooks

abbrev pub any_went_wrong : PipelineRunResult → Bool
any_went_wrong r =
    let l = layer_statuses r in
    went_wrong l.discovery r.errors.discovery
    || went_wrong l.markets r.errors.markets
    || went_wrong l.orderbooks r.errors.orderbooks

abbrev pub any_result : PipelineRunResult → Bool
any_result r =
    let l = layer_statuses r in is_some l.discovery || is_some l.markets || is_some l.orderbooks

abbrev pub HasOutcomes : PipelineRunResult → Type 0
HasOutcomes r =
    let l = layer_statuses r in IsOutcome l.discovery × IsOutcome l.markets × IsOutcome l.orderbooks

finish_cycle-status {ℓ} :
    {S : Type ℓ} (now : Timestamp) (c : Cycle S)
    → HasOutcomes (finish_cycle now c)
    → let r = finish_cycle now c in
      r.status ≡ (
        if any_went_wrong r
        then (if any_succeeded r then partial else failed)
        else if any_succeeded r || not (any_result r)
        then completed
        else skipped)
unfolding aggregate_status
finish_cycle-status now c h = ground arith

-- If every layer's result is completed, partial, failed or skipped, a cycle's status is: partial
-- where one layer went wrong (it raised, failed or was partial) and one succeeded at least in part;
-- failed where one went wrong and none succeeded; completed where none went wrong and one succeeded
-- or there is no result at all; skipped where all results are skips.
pub run_cycle-status {ℓ} :
    {S : Type ℓ} (runners : Runners S) (due : Layers Bool) (default : LayerTrigger)
    (now : Timestamp) (s : S) (r : PipelineRunResult) (c : Cycle S)
    → run_cycle runners due default now s ≡ ok (r, c)
    → HasOutcomes r
    → r.status ≡ (
        if any_went_wrong r
        then (if any_succeeded r then partial else failed)
        else if any_succeeded r || not (any_result r)
        then completed
        else skipped)
run_cycle-status runners due default now s r c h outcomes =
    let e = run_cycle-finish runners due default now s r c h in
    rw e (finish_cycle-status now c (rw e at outcomes))
