-- ===== src/Tests/Proposals.antt =====
-- The theorems on proposals.py and scheduler.py at concrete inputs.
use electa.System.{run}
use electa.System.Final.{get_result-run, force_close_once-run}
use electa.System.Once.{cast_vote_after_force_close-run}
use electa.Tests.System.{deployment, evening}
use electa.Base.{ℕ, ◌≡◌, refl, some, none, true, if◌then◌else◌}
use electa.Base.Filter.{find?}
use electa.Float.Fixed.{fixed}
use mathlib.Core.Option
use electa.Settings.{defaults}
use electa.Http.{HttpError, http_exception, returned, raised}
use electa.Model.Schemas.{ProposalResult}
use electa.Model.Db.{get_user, get_proposal_row}
use electa.Engine.{close_and_compute}
use electa.Votes.{cast_vote}
use electa.Proposals.{
  get_or_404, check_close, get_result, force_close, update_status, create_proposal, nobody,
}
use electa.Proposals.Patching.{Patches, update_status-Patches, patched_closed_has_no_result}
use electa.Proposals.Creator.{create_proposal_without_creator}
use electa.Scheduler.{is_expired, tick}
use electa.Scheduler.Rows.{HasUniqueIds, closed_row}
use electa.Scheduler.Tick.{tick-row}
use electa.Tests.Data.{
  app, company, proposal, no_crypto, at, closing, creating, votes_yes, new_resolution,
}

abbrev merger_result : ProposalResult ℕ
merger_result = (close_and_compute defaults 1_000 (proposal "merger" 2_000) company).1

force_close-merger : (force_close defaults closing "merger" app).0 ≡ returned merger_result
unfolding force_close check_close get_or_404 find?
force_close-merger = refl

find_merger : get_proposal_row company "merger" ≡ some (proposal "merger" 2_000)
unfolding find?
find_merger = refl

company-HasUniqueIds : HasUniqueIds company.proposals
unfolding find?
company-HasUniqueIds = (refl, (refl, tt))

company-nobody : get_user company nobody ≡ none
unfolding find?
company-nobody = refl

get_result-run_example :
    get_result "merger" (run deployment evening (force_close defaults closing "merger" app).1).db
    ≡ returned (record merger_result { total_eligible_weight = none; participation_pct = none })
get_result-run_example =
    get_result-run deployment defaults closing "merger" app merger_result evening force_close-merger
      (refl, (refl, (refl, tt)))

cast_vote_after_force_close-run_example :
    let after = run deployment evening (force_close defaults closing "merger" app).1 in
    (e : HttpError) × (cast_vote no_crypto defaults (at 1_500) votes_yes after ≡ (raised e, after))
cast_vote_after_force_close-run_example =
    cast_vote_after_force_close-run deployment no_crypto defaults closing (at 1_500) votes_yes app
      merger_result evening force_close-merger (refl, (refl, (refl, tt)))

force_close_once-run_example :
    let after = run deployment evening (force_close defaults closing "merger" app).1 in
    force_close defaults closing "merger" after
    ≡ (raised (http_exception 409 "Proposal is already closed."), after)
force_close_once-run_example =
    force_close_once-run deployment defaults closing closing "merger" app merger_result evening
      force_close-merger (refl, (refl, (refl, tt)))

update_status-Patches_example :
    Patches "merger" "cancelled" app (update_status "merger" "cancelled" app)
update_status-Patches_example = update_status-Patches "merger" "cancelled" app

create_proposal_without_creator_example :
    (e : HttpError) × (create_proposal true creating new_resolution none app ≡ (raised e, app))
create_proposal_without_creator_example =
    create_proposal_without_creator creating new_resolution app company-nobody

patched_closed_has_no_result_example :
    let after = (update_status "merger" "closed" app).1 in
    (r : ProposalResult ℕ) × (get_result "merger" after.db ≡ returned r)
    × (r.passed ≡ none)
    × (r.computed_at ≡ none)
    × (force_close defaults closing "merger" after
        ≡ (raised (http_exception 409 "Proposal is already closed."), after))
patched_closed_has_no_result_example =
    patched_closed_has_no_result defaults closing "merger" app (proposal "merger" 2_000) find_merger
      refl refl

-- At 1000 the budget, which ended at 500, is closed.
tick-row_example :
    get_proposal_row (tick defaults (λ id. closing) 1_000 app).db "budget"
    ≡ Option.map
        (λ p. if is_expired 1_000 p then closed_row defaults 1_000 company p else p)
        (get_proposal_row company "budget")
tick-row_example = tick-row defaults (λ id. closing) 1_000 app "budget" company-HasUniqueIds
