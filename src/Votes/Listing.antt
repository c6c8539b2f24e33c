-- ===== src/Votes/Listing.antt =====
-- `list_votes` and `get_proposal_audit` of votes.py.
use electa.Base.{ℕ, String, not, List, map, is_some, option_eq}
use electa.Base.Filter.{filter}
use electa.Query.{OrderBy, page}
use electa.Http.{Result, returned, raise_if, ◌>>◌}
use electa.Model.Tables.{Vote, AuditLog}
use electa.Model.Db.{Db, get_proposal_row, votes_on}
use electa.Model.Schemas.{VoteResponse, vote_response}
use electa.Model.Endpoints.{AuditLogEntry, audit_log_entry}

module _ {F : Type 0} where
  unfoldable pub list_votes :
      OrderBy → String → (skip limit : ℕ) → Db F → Result (List (VoteResponse F))
  list_votes order proposal_id skip limit db = do
    raise_if (not (is_some (get_proposal_row db proposal_id))) 404 "Proposal not found."
    returned (
        map vote_response
          (page skip limit (order.asc (Vote F) (λ v. v.timestamp) (votes_on db proposal_id))))

  unfoldable pub get_proposal_audit :
      OrderBy → String → (skip limit : ℕ) → Db F → List (AuditLogEntry F)
  get_proposal_audit order proposal_id skip limit db = map audit_log_entry (
      page skip limit (
        order.asc (AuditLog F) (λ a. a.timestamp)
          (filter (λ a. option_eq a.proposal_id proposal_id) db.audit_logs)))
