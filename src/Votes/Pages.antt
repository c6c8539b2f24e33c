-- ===== src/Votes/Pages.antt =====
-- The pages of `list_votes` in votes.py.
use mathlib.Core.List.{Perm}
use electa.Base.{ℕ, ◌*◌, ◌≤◌, ◌≡◌, refl, String, some, List, map, length}
use electa.Query.{OrderBy, OrderByLaws, IsAscendingBy}
use electa.Query.Pages.{gather, gather-all, length-Perm}
use electa.Http.{returned}
use electa.Model.Tables.{Vote, Proposal}
use electa.Model.Db.{Db, get_proposal_row, votes_on}
use electa.Model.Schemas.{vote_response}
use electa.Votes.Listing.{list_votes}

module _ {F : Type 0} where
  -- A client that reads the votes on a proposal page by page, with any limit, gets after enough
  -- pages every vote on it exactly once, and none else, by ascending time. The proposal exists, the
  -- votes stay the same between the calls, and the database orders rows as SQL promises, those that
  -- tie the same way in each call.
  pub list_votes-pages :
      (order : OrderBy)
      → OrderByLaws order
      → (proposal_id : String) (limit n : ℕ) (db : Db F) (p : Proposal F)
      → get_proposal_row db proposal_id ≡ some p
      → length (votes_on db proposal_id) ≤ n * limit
      → (votes : List (Vote F)) × Perm votes (votes_on db proposal_id)
        × IsAscendingBy (λ v. v.timestamp) votes
        × (gather (λ skip. list_votes order proposal_id skip limit db) limit n 0
            ≡ returned (map vote_response votes))
  unfolding list_votes
  list_votes-pages order laws proposal_id limit n db p found enough =
      let votes = order.asc (Vote F) (λ v. v.timestamp) (votes_on db proposal_id) in
      let perm = laws.asc_perm (Vote F) (λ v. v.timestamp) (votes_on db proposal_id) in
      (
        votes,
        perm,
        laws.asc_sorted (Vote F) (λ v. v.timestamp) (votes_on db proposal_id),
        gather-all (λ skip. list_votes order proposal_id skip limit db) vote_response limit n votes
            (λ skip. rw found refl) (rw (length-Perm perm) enough),
      )
