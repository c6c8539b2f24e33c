-- ===== src/Proposals/Listing.antt =====
-- `list_proposals` and `get_proposal` of proposals.py.
use Prim.Native.String
use electa.Base.{ℕ, String, ◌==◌, ◌&&◌, Bool, true, Option, none, some, List, map, if◌then◌else◌}
use electa.Base.Filter.{filter}
use electa.Query.{OrderBy, page, given_or_any}
use electa.Http.{Result, returned, or_raise, ◌>>=◌}
use electa.Model.Enums.{ProposalStatus, parse_proposal_status, status_eq}
use electa.Model.Tables.{Proposal}
use electa.Model.Db.{Db}
use electa.Model.Schemas.{ProposalResponse}
use electa.Proposals.{get_or_404, to_response}

-- The second `where`, or the answer to a text that names no status.
unfoldable pub status_filter : Option String → Result (ProposalStatus → Bool)
status_filter none = returned (λ s. true)
status_filter (some text) =
    let given = do
      status ←
          or_raise (parse_proposal_status text) 422
            (String.◌++◌ "Invalid status '" (String.◌++◌ text "'."))
      returned (status_eq status)
    in if text == "" then returned (λ s. true) else given

module _ {F : Type 0} where
  unfoldable pub list_proposals :
      OrderBy
      → (entity_id status : Option String) → (skip limit : ℕ) → Db F
      → Result (List (ProposalResponse F))
  unfolding status_filter
  list_proposals order entity_id status skip limit db = do
    has_status ← status_filter status
    returned (
        map to_response (
          page skip limit (
            order.desc (Proposal F) (λ p. p.created_at)
              (filter (λ p. given_or_any entity_id (some p.entity_id) && has_status p.status)
                db.proposals))))

  unfoldable pub get_proposal : String → Db F → Result (ProposalResponse F)
  get_proposal proposal_id db = do
    proposal ← get_or_404 proposal_id db
    returned (to_response proposal)
