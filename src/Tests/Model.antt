-- ===== src/Tests/Model.antt =====
-- The theorems on db_models.py and schemas.py at concrete inputs.
use electa.Base.{◌≡◌, refl, some, none, ℕ}
use electa.Base.Filter.{find?, filter}
use electa.Float.Fixed.{fixed}
use electa.Settings.{defaults}
use electa.Http.{returned}
use electa.Model.Enums.{parse_action_type, parse_vote_choice}
use electa.Model.Schemas.{VoteCast, VoteResponse, validate_choice_and_delegation}
use electa.Engine.{get_voter_weight}
use electa.Votes.{
  cast_vote, check_voter, check_signature, check_choice, action_of, record_vote, delegated_weight,
  delegate_to,
}
use electa.Tests.Data.{app, no_crypto, at, votes_yes}

-- A rejection that was sent with the choice YES.
abbrev sent : VoteCast ℕ
sent = record votes_yes { action_type = "reject" }

abbrev rejection : VoteCast ℕ
rejection = record sent { choice = some "NO" }

abbrev rejection_response : VoteResponse ℕ
rejection_response = record {
  id = "v9";
  proposal_id = "merger";
  voter_id = "alice";
  action_type = "reject";
  choice = some "NO";
  weight = 6_000_000;
  delegated_from_id = none;
  signature_verified = none;
  timestamp = 1_000;
}

validated : validate_choice_and_delegation sent ≡ some rejection
unfolding validate_choice_and_delegation
validated = refl

rejection-response :
    (cast_vote no_crypto defaults (at 1_000) rejection app).0 ≡ returned rejection_response
unfolding cast_vote check_voter record_vote check_signature check_choice action_of delegated_weight
    get_voter_weight find? parse_vote_choice parse_action_type filter delegate_to
rejection-response = refl
