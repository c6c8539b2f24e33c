-- ===== src/Tests/Admin.antt =====
-- The theorems on the listings, on admin.py and on cli.py at concrete inputs.
use mathlib.Core.List.{Perm}
use electa.Base.{ℕ, ◌≡◌, ◌≤◌, ◌*◌, refl, some, List, [], length, map, arith}
use electa.Base.Filter.{filter, find?}
use electa.Float.Fixed.{fixed}
use electa.Settings.{defaults}
use electa.Http.{returned}
use electa.Query.{IsAscendingBy}
use electa.Query.Sorting.{stable, stable-OrderByLaws}
use electa.Query.Pages.{gather}
use electa.Model.Tables.{Vote}
use electa.Model.Db.{get_proposal_row, votes_on}
use electa.Model.Schemas.{vote_response}
use electa.Engine.{tally_proposal}
use electa.Proposals.{force_close}
use electa.Scheduler.{tick}
use electa.Votes.Listing.{list_votes}
use electa.Votes.Pages.{list_votes-pages}
use electa.Admin.{overdue_proposals}
use electa.Admin.Overdue.{overdue_proposals-tick}
use electa.Admin.Participation.{ParticipationReport, participation_report}
use electa.Admin.Report.{IsReportOn, participation_report_lem}
use electa.Votes.Unique.{IsUnique}
use native.Mathlib.Nat.{ℕ_set}
use electa.Cli.{finished, close_proposal}
use electa.Cli.Closing.{close_proposal-force_close}
use electa.Tests.Data.{app, company, closing, proposal}

find_merger : get_proposal_row company "merger" ≡ some (proposal "merger" 2_000)
unfolding find?
find_merger = refl

few_votes : length (votes_on company "merger") ≤ 2 * 1
unfolding filter
few_votes = omega arith

list_votes-pages_example :
    (votes : List (Vote ℕ)) × Perm votes (votes_on company "merger")
    × IsAscendingBy (λ v. v.timestamp) votes
    × (gather (λ skip. list_votes stable "merger" skip 1 company) 1 2 0
        ≡ returned (map vote_response votes))
list_votes-pages_example =
    list_votes-pages stable stable-OrderByLaws "merger" 1 2 company (proposal "merger" 2_000)
      find_merger few_votes

overdue_proposals-tick_example :
    overdue_proposals stable 1_000 (tick defaults (λ id. closing) 1_000 app).db
    ≡ record { count = 0; proposals = [] }
unfolding find?
overdue_proposals-tick_example =
    overdue_proposals-tick defaults stable stable-OrderByLaws (λ id. closing) 1_000 app
      (refl, (refl, tt))

company-IsUnique : IsUnique company.votes
unfolding find?
company-IsUnique = (refl, (refl, tt))

participation_report_lem_example :
    (report : ParticipationReport ℕ) × (participation_report stable "merger" company
      ≡ returned report)
    × IsReportOn company "merger" (proposal "merger" 2_000) report
participation_report_lem_example =
    participation_report_lem stable stable-OrderByLaws ℕ_set company company-IsUnique "merger"
      (proposal "merger" 2_000) find_merger

close_proposal-force_close_example : close_proposal defaults 1_000 "merger" company ≡ (
  finished (tally_proposal defaults company (proposal "merger" 2_000)),
  record (force_close defaults closing "merger" app).1.db { audit_logs = [] },
)
close_proposal-force_close_example =
    close_proposal-force_close defaults closing "merger" app (proposal "merger" 2_000) find_merger
      refl
