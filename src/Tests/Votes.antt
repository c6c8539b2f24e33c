-- ===== src/Tests/Votes.antt =====
-- The theorems on votes.py at concrete inputs.
use electa.System.{run}
use electa.System.Once.{cast_vote_once-run}
use electa.Tests.System.{deployment, day}
use electa.Base.{ℕ, ◌≡◌, refl, some, none}
use electa.Base.Filter.{filter, find?, update_where}
use electa.Float.Fixed.{fixed}
use electa.Settings.{defaults}
use electa.Http.{HttpError, http_exception, returned, raised}
use electa.Model.Db.{get_vote, votes_on}
use electa.Model.Schemas.{VoteResponse}
use electa.Model.Enums.{parse_vote_choice, parse_action_type, yes_vote}
use electa.Engine.{get_voter_weight, weight_for}
use electa.Votes.{
  cast_vote, check_voter, check_target, check_signature, check_choice, action_of, delegate_vote,
  record_vote, credit_target, delegated_weight, delegate_to,
}
use electa.Votes.Cast.{Casts}
use electa.Votes.Outcome.{cast_vote-Casts}
use electa.Votes.Unique.{IsUnique}
use electa.Votes.Delegation.{delegation_to_delegator_lost}
use electa.Tests.Data.{
  app, company, no_crypto, at, votes_yes, delegates, bobs_ballot, carols_delegation,
}

abbrev alices_response : VoteResponse ℕ
alices_response = record {
  id = "v9";
  proposal_id = "merger";
  voter_id = "alice";
  action_type = "vote";
  choice = some "YES";
  weight = 6_000_000;
  delegated_from_id = none;
  signature_verified = none;
  timestamp = 1_000;
}

abbrev delegation_response : VoteResponse ℕ
delegation_response = record alices_response { action_type = "delegate"; choice = none }

votes_yes-response :
    (cast_vote no_crypto defaults (at 1_000) votes_yes app).0 ≡ returned alices_response
unfolding cast_vote check_voter record_vote check_signature check_choice action_of delegated_weight
    get_voter_weight find? parse_vote_choice parse_action_type filter delegate_to
votes_yes-response = refl

delegates-response :
    ((cast_vote no_crypto defaults (at 1_000) (delegates "bob") app).0
      ≡ returned delegation_response)
    × ((cast_vote no_crypto defaults (at 1_000) (delegates "carol") app).0
        ≡ returned delegation_response)
unfolding cast_vote check_voter check_target delegate_vote credit_target get_voter_weight find?
    update_where
delegates-response = (refl, refl)

company-IsUnique : IsUnique company.votes
unfolding find?
company-IsUnique = (refl, (refl, tt))

find_bob : get_vote company "merger" "bob" ≡ some bobs_ballot
unfolding find?
find_bob = refl

find_carol : get_vote company "merger" "carol" ≡ some carols_delegation
unfolding find?
find_carol = refl

-- After the deadline a voter is refused.
votes_late :
    (cast_vote no_crypto defaults (at 2_001) votes_yes app).0
    ≡ raised (http_exception 409 "Voting period has ended.")
unfolding cast_vote check_voter find?
votes_late = refl

cast_vote-Casts_example :
    Casts (at 1_000) votes_yes app (cast_vote no_crypto defaults (at 1_000) votes_yes app)
cast_vote-Casts_example = cast_vote-Casts no_crypto defaults (at 1_000) votes_yes app

cast_vote_once-run_example :
    let after = run deployment day (cast_vote no_crypto defaults (at 1_000) votes_yes app).1 in
    (e : HttpError) × (cast_vote no_crypto defaults (at 1_500) (delegates "bob") after
      ≡ (raised e, after))
cast_vote_once-run_example =
    cast_vote_once-run deployment no_crypto defaults (at 1_000) (at 1_500) votes_yes
      (delegates "bob") app alices_response day refl refl votes_yes-response

delegation_to_delegator_lost_example :
    weight_for yes_vote
      (votes_on (cast_vote no_crypto defaults (at 1_000) (delegates "carol") app).1.db "merger")
    ≡ weight_for yes_vote (votes_on company "merger")
delegation_to_delegator_lost_example =
    delegation_to_delegator_lost no_crypto defaults (at 1_000) (delegates "carol") app
      delegation_response "carol" carols_delegation yes_vote "merger" company-IsUnique refl refl
      find_carol refl delegates-response.1
