-- ===== src/Votes/Unique.antt =====
-- One vote for a voter on a proposal: the unique constraint of db_models.py, which `cast_vote` of
-- votes.py keeps by its own check.
use electa.Base.{
  ◌≡◌, ◌≢◌, refl, ap, ◌∙◌, false, Bool, String, Option, none, some, List, [], ◌∷◌, ◌++◌, arith,
  eq_iff,
}
use electa.Base.Filter.{find?, update_where, find?-append_none, find?-update_where}
use electa.Float.{Float}
use electa.Settings.{Settings}
use electa.Http.{HttpError, Result, returned, raised}
use electa.Handler.{App}
use electa.Model.Tables.{Vote}
use electa.Model.Db.{Db, is_vote_of, get_vote}
use electa.Model.Schemas.{VoteCast, VoteResponse}
use electa.Engine.{get_voter_weight}
use electa.Votes.{Crypto, CastContext, cast_vote, credit_target}
use electa.Votes.Cast.{Casts, votes_before, get_vote-credit_target}
use electa.Votes.Outcome.{cast_vote-Casts}

module _ {F : Type 0} where
  -- No two rows are of one voter on one proposal.
  abbrev pub IsUnique : List (Vote F) → Type 0
  IsUnique [] = Unit
  IsUnique (v ∷ votes) = (find? (is_vote_of v.proposal_id v.voter_id) votes ≡ none) × IsUnique votes

  is_vote_of_symm :
      (u v : Vote F)
      → is_vote_of u.proposal_id u.voter_id v ≡ false
      → is_vote_of v.proposal_id v.voter_id u ≡ false
  is_vote_of_symm u v h = ground (
    arith,
    eq_iff u.proposal_id v.proposal_id,
    eq_iff v.proposal_id u.proposal_id,
    eq_iff u.voter_id v.voter_id,
    eq_iff v.voter_id u.voter_id,
  )

  IsUnique-append :
      (votes : List (Vote F)) (row : Vote F)
      → IsUnique votes
      → find? (is_vote_of row.proposal_id row.voter_id) votes ≡ none
      → IsUnique (votes ++ row ∷ [])
  unfolding find?
  IsUnique-append [] row h k = (refl, tt)
  IsUnique-append (v ∷ votes) row h k =
      let other : is_vote_of row.proposal_id row.voter_id v ≡ false = ground arith in
      (
        find?-append_none (is_vote_of v.proposal_id v.voter_id) votes (row ∷ []) h.0
            ∙ ground (arith, is_vote_of_symm row v),
        IsUnique-append votes row h.1 (ground arith),
      )

module _ {F : Type 0} ⦃fl : Float F⦄ where
  IsUnique-update_where :
      (p : Vote F → Bool) (w : F) (votes : List (Vote F))
      → IsUnique votes
      → IsUnique (update_where p (λ v. record v { weight = fl.add v.weight w }) votes)
  unfolding update_where
  IsUnique-update_where p w [] h = tt
  IsUnique-update_where p w (v ∷ votes) h = ground (
    arith,
    find?-update_where (is_vote_of v.proposal_id v.voter_id) p
        (λ (x : Vote F). record x { weight = fl.add x.weight w }) votes (λ x. refl),
    IsUnique-update_where p w votes h.1,
  )

  credit_target-IsUnique :
      (proposal_id : String) (target : Option String) (w : F) (db : Db F)
      → IsUnique db.votes
      → IsUnique (credit_target proposal_id target w db).votes
  unfolding credit_target
  credit_target-IsUnique proposal_id none w db h = h
  credit_target-IsUnique proposal_id (some target) w db h =
      IsUnique-update_where (is_vote_of proposal_id target) w db.votes h

  votes_before-IsUnique :
      (body : VoteCast F) (w : F) (db : Db F)
      → IsUnique db.votes
      → IsUnique (votes_before body w db)
  votes_before-IsUnique body w db h =
      ground (arith, credit_target-IsUnique body.proposal_id body.delegate_to_id w db h)

  votes_before_unvoted :
      (body : VoteCast F) (w : F) (db : Db F) (p v : String)
      → get_vote db p v ≡ none
      → find? (is_vote_of p v) (votes_before body w db) ≡ none
  votes_before_unvoted body w db p v h =
      ground (arith, get_vote-credit_target body.proposal_id body.delegate_to_id w db p v h)

  Casts-IsUnique :
      (ctx : CastContext) (body : VoteCast F) (app : App F) (out : Result (VoteResponse F) × App F)
      → Casts ctx body app out
      → IsUnique app.db.votes
      → IsUnique out.1.db.votes
  Casts-IsUnique ctx body app (raised e, app') same h = rw same h
  Casts-IsUnique ctx body app (returned response, app') (m, row, _, row_p, row_v, appended, _, _)
        h =
      let w = get_voter_weight app.db body.voter_id m.proposal.entity_id in
      rw appended (
        IsUnique-append (votes_before body w app.db) row (votes_before-IsUnique body w app.db h) (
          rw (row_p, row_v)
            (votes_before_unvoted body w app.db body.proposal_id body.voter_id m.has_not_voted)))

  -- A call of `cast_vote`, whether it returns or raises, keeps at most one row for a voter and a
  -- proposal.
  pub cast_vote-IsUnique :
      (crypto : Crypto) (settings : Settings F) (ctx : CastContext) (body : VoteCast F)
      (app : App F)
      → IsUnique app.db.votes
      → IsUnique (cast_vote crypto settings ctx body app).1.db.votes
  cast_vote-IsUnique crypto settings ctx body app h =
      Casts-IsUnique ctx body app (cast_vote crypto settings ctx body app)
        (cast_vote-Casts crypto settings ctx body app) h

  pub Casts-get_vote :
      (ctx : CastContext) (body : VoteCast F) (app : App F) (out : Result (VoteResponse F) × App F)
      (response : VoteResponse F)
      → Casts ctx body app out
      → out.0 ≡ returned response
      → get_vote out.1.db body.proposal_id body.voter_id ≢ none
  unfolding find?
  Casts-get_vote ctx body app (raised e, app') response c h = cc
  Casts-get_vote ctx body app (returned r, app') response (m, row, _, row_p, row_v, appended, _, _)
        h =
      let w = get_voter_weight app.db body.voter_id m.proposal.entity_id in
      ground (
        arith,
        eq_iff row.proposal_id body.proposal_id,
        eq_iff row.voter_id body.voter_id,
        find?-append_none (is_vote_of body.proposal_id body.voter_id) (votes_before body w app.db)
            (row ∷ [])
            (votes_before_unvoted body w app.db body.proposal_id body.voter_id m.has_not_voted),
      )

  pub Casts-voted :
      (ctx : CastContext) (body : VoteCast F) (app : App F) (out : Result (VoteResponse F) × App F)
      → Casts ctx body app out
      → get_vote app.db body.proposal_id body.voter_id ≢ none
      → (e : HttpError) × (out ≡ (raised e, app))
  Casts-voted ctx body app (raised e, app') same h = (e, ap (λ a. (raised e, a)) same)
  Casts-voted ctx body app (returned r, app') c h = absurd (h c.0.has_not_voted)
