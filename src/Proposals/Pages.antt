-- ===== src/Proposals/Pages.antt =====
-- The pages of `list_proposals` in proposals.py.
use mathlib.Core.List.{Perm}
use electa.Base.{ℕ, ◌*◌, ◌≤◌, ◌≡◌, refl, ◌&&◌, String, Bool, Option, some, List, map, length}
use electa.Base.Filter.{filter}
use electa.Query.{OrderBy, OrderByLaws, IsDescendingBy, given_or_any}
use electa.Query.Pages.{gather, gather-all, length-Perm}
use electa.Http.{returned}
use electa.Model.Enums.{ProposalStatus}
use electa.Model.Tables.{Proposal}
use electa.Model.Db.{Db}
use electa.Proposals.{to_response}
use electa.Proposals.Listing.{status_filter, list_proposals}

module _ {F : Type 0} where
  -- The rows that a listing is about.
  abbrev selected : Option String → (ProposalStatus → Bool) → Db F → List (Proposal F)
  selected entity_id has_status db =
      filter (λ p. given_or_any entity_id (some p.entity_id) && has_status p.status) db.proposals

  -- A client that lists proposals page by page, with any limit and any filter whose status the code
  -- knows, gets after enough pages every proposal that passes the filter exactly once, and none
  -- else, the newest first. The proposals stay the same between the calls, and the database orders
  -- rows that tie the same way in each.
  pub list_proposals-pages :
      (order : OrderBy)
      → OrderByLaws order
      → (entity_id status : Option String) (has_status : ProposalStatus → Bool) (limit n : ℕ)
      → (db : Db F) → status_filter status ≡ returned has_status
      → length (selected entity_id has_status db) ≤ n * limit
      → (proposals : List (Proposal F)) × Perm proposals (selected entity_id has_status db)
        × IsDescendingBy (λ p. p.created_at) proposals
        × (gather (λ skip. list_proposals order entity_id status skip limit db) limit n 0
            ≡ returned (map to_response proposals))
  unfolding list_proposals
  list_proposals-pages order laws entity_id status has_status limit n db known enough =
      let rows = selected entity_id has_status db in
      let proposals = order.desc (Proposal F) (λ p. p.created_at) rows in
      let perm = laws.desc_perm (Proposal F) (λ p. p.created_at) rows in
      (
        proposals,
        perm,
        laws.desc_sorted (Proposal F) (λ p. p.created_at) rows,
        gather-all (λ skip. list_proposals order entity_id status skip limit db) to_response limit n
            proposals (λ skip. rw known refl) (rw (length-Perm perm) enough),
      )
