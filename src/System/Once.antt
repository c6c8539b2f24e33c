-- ===== src/System/Once.antt =====
-- Votes that no later operation can repeat or slip in.
use electa.Base.{
  ◌≡◌, ◌≢◌, refl, true, false, Bool, String, none, List, [], ◌∷◌, All, arith, inl, inr,
  Option-cases,
}
use electa.Base.Filter.{find?, any}
use electa.Base.Present.{any-Grown, any_of_find}
use electa.Float.{Float}
use electa.Settings.{Settings}
use electa.Http.{HttpError, returned, raised}
use electa.Handler.{App}
use electa.Model.Db.{Db, is_vote_of, get_vote}
use electa.Model.Schemas.{VoteCast, VoteResponse, ProposalResult}
use electa.Engine.{with_result, tally_proposal}
use electa.Proposals.{CloseContext, force_close}
use electa.Proposals.Results.{force_close-row}
use electa.Proposals.Lifecycle.{Casts-not_open}
use electa.Votes.{Crypto, CastContext, cast_vote}
use electa.Votes.Outcome.{cast_vote-Casts}
use electa.Votes.Unique.{Casts-voted, Casts-get_vote}
use electa.System.{Deployment, Operation, run}
use electa.System.Growth.{Grows, vote_view}
use electa.System.History.{run-Grows}
use electa.System.Final.{patches, run-Keeps}

module _ {ℓ} {A : Type ℓ} where
  find?-any : (q : A → Bool) (xs : List A) → any q xs ≡ true → find? q xs ≢ none
  unfolding any find?
  find?-any q [] h e = cc
  find?-any q (x ∷ xs) h e = ground (arith, find?-any q xs)

module _ {F : Type 0} ⦃fl : Float F⦄ where
  -- A voter who has voted on a proposal stays one who has.
  get_vote-Grows :
      (p v : String) (db db' : Db F)
      → Grows db db'
      → get_vote db p v ≢ none
      → get_vote db' p v ≢ none
  get_vote-Grows p v db db' g h = elim (Option-cases (get_vote db p v)) [
    | inl e ↦ absurd (h e)
    | inr (row, e) ↦ find?-any (is_vote_of p v) db'.votes (
        any-Grown vote_view (is_vote_of p v) db.votes db'.votes g.votes
          (any_of_find (is_vote_of p v) db.votes row e))
  ]

  -- After a call of cast_vote that returns, whatever operations follow, every later call for the
  -- same voter and proposal, whatever its action and whenever it is made, raises and changes nothing.
  pub cast_vote_once-run :
      (d : Deployment F) (crypto : Crypto) (settings : Settings F) (ctx later : CastContext)
      (body again : VoteCast F) (app : App F) (response : VoteResponse F)
      (operations : List (Operation F))
      → again.proposal_id ≡ body.proposal_id
      → again.voter_id ≡ body.voter_id
      → (cast_vote crypto settings ctx body app).0 ≡ returned response
      → let after = run d operations (cast_vote crypto settings ctx body app).1 in
        (e : HttpError) × (cast_vote crypto settings later again after ≡ (raised e, after))
  cast_vote_once-run d crypto settings ctx later body again app response operations same_p same_v
        h =
      let out = cast_vote crypto settings ctx body app in
      let after = run d operations out.1 in
      Casts-voted later again after (cast_vote crypto settings later again after)
        (cast_vote-Casts crypto settings later again after)
        (rw (same_p, same_v)
          (get_vote-Grows body.proposal_id body.voter_id out.1.db after.db
            (run-Grows d operations out.1)
            (Casts-get_vote ctx body app out response (cast_vote-Casts crypto settings ctx body app)
              h)))

  -- No vote is taken on a proposal after force_close has closed it, whatever operations follow, if
  -- none of them patches the status of the proposal: a later call of cast_vote raises and changes
  -- nothing, whoever votes and whenever.
  pub cast_vote_after_force_close-run :
      (d : Deployment F) (crypto : Crypto) (settings : Settings F) (ctx : CloseContext)
      (later : CastContext) (body : VoteCast F) (app : App F) (result : ProposalResult F)
      (operations : List (Operation F))
      → (force_close settings ctx body.proposal_id app).0 ≡ returned result
      → All (λ o. patches body.proposal_id o ≡ false) operations
      → let after = run d operations (force_close settings ctx body.proposal_id app).1 in
        (e : HttpError) × (cast_vote crypto settings later body after ≡ (raised e, after))
  cast_vote_after_force_close-run d crypto settings ctx later body app result operations h quiet =
      let (q, _, _, _, stored) = force_close-row settings ctx body.proposal_id app result h in
      let p = with_result ctx.result_time (tally_proposal settings app.db q) q in
      let closed = (force_close settings ctx body.proposal_id app).1 in
      let after = run d operations closed in
      Casts-not_open later body after (cast_vote crypto settings later body after) p
        (cast_vote-Casts crypto settings later body after)
        (run-Keeps d body.proposal_id p refl operations closed quiet stored) (λ e. cc e)
