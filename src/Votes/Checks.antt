-- ===== src/Votes/Checks.antt =====
-- The checks of votes.py that only read the database, in their order.
use Prim.Native.String
use electa.Base.{
  ℕ, String, Bool, false, not, ◌&&◌, Option, none, some, if◌then◌else◌, is_some, truthy, text_of,
  option_eq, ltb, nat_eq,
}
use electa.Float.{Float}
use electa.Settings.{Settings}
use electa.Http.{Result, returned, raise_if, or_raise, ◌>>=◌, ◌>>◌}
use electa.Model.Enums.{
  ActionType, vote, VoteChoice, is_open, parse_vote_choice, parse_action_type,
  proposal_status_value,
}
use electa.Model.Tables.{User, Proposal}
use electa.Model.Db.{Db, get_user, get_proposal_row, get_vote}
use electa.Model.Schemas.{VoteCast}
use electa.Engine.{get_voter_weight}

-- `canonical_vote_payload` and `verify_signature` of crypto.py, which call libraries.
pub record Crypto : Type 0 where
  pub canonical_vote_payload : String → String → Option String → ℕ → String
  pub verify_signature : String → String → String → Bool

-- `if proposal.closes_at and now > proposal.closes_at`
abbrev pub has_ended : ℕ → Option ℕ → Bool
has_ended now none = false
has_ended now (some closes_at) = not (nat_eq closes_at 0) && ltb closes_at now

module _ {F : Type 0} where
  -- `user and user.is_active`
  abbrev pub is_active_user : Option (User F) → Bool
  is_active_user none = false
  is_active_user (some u) = u.is_active

  -- `db.get(User, id)` of an optional id
  abbrev pub get_user_opt : Db F → Option String → Option (User F)
  get_user_opt db none = none
  get_user_opt db (some id) = get_user db id

  -- The guards of a delegation: an active target, other than the voter.
  unfoldable pub check_target : VoteCast F → Db F → Result (Unit {0})
  check_target body db = do
    raise_if (not (is_active_user (get_user_opt db body.delegate_to_id))) 404
        "Delegation target not found."
    raise_if (option_eq body.delegate_to_id body.voter_id) 422 "Cannot delegate to yourself."
    returned tt

  -- `signature_verified`, or the refusal of a wrong signature.
  unfoldable pub check_signature :
      Crypto → Settings F → ℕ → VoteCast F → User F → Result (Option Bool)
  check_signature crypto settings now body voter =
      let verified =
        crypto.verify_signature (text_of voter.public_key) (text_of body.signature)
          (crypto.canonical_vote_payload body.proposal_id body.voter_id body.choice now) in
      let checked = do
        raise_if (not verified && settings.require_crypto_signatures) 403
            "Cryptographic signature verification failed."
        returned (some verified)
      in if truthy body.signature && truthy voter.public_key then checked else returned none

  -- `VoteChoice(body.choice)` and `ActionType(body.action_type)`
  unfoldable pub check_choice : VoteCast F → Result VoteChoice
  check_choice body = or_raise (parse_vote_choice body.choice) 422 (
      String.◌++◌ "Invalid choice '"
        (String.◌++◌ (text_of body.choice) "'. Valid: YES, NO, ABSTAIN"))

  unfoldable pub action_of : VoteCast F → ActionType
  action_of body = elim (parse_action_type body.action_type) [ none ↦ vote | some a ↦ a ]

module _ {F : Type 0} ⦃fl : Float F⦄ where
  -- The checks that open `cast_vote`, up to the base weight.
  unfoldable pub check_voter : ℕ → VoteCast F → Db F → Result (Proposal F × User F × F)
  check_voter now body db = do
    proposal ← or_raise (get_proposal_row db body.proposal_id) 404 "Proposal not found."
    raise_if (not (is_open proposal.status)) 409 (
        String.◌++◌ "Proposal is not open for voting (status: "
          (String.◌++◌ (proposal_status_value proposal.status) ")."))
    raise_if (has_ended now proposal.closes_at) 409 "Voting period has ended."
    voter ← or_raise (get_user db body.voter_id) 404 "Voter not found or inactive."
    raise_if (not voter.is_active) 404 "Voter not found or inactive."
    raise_if (is_some (get_vote db body.proposal_id body.voter_id)) 409
        "This voter has already cast a vote on this proposal."
    let weight = get_voter_weight db body.voter_id proposal.entity_id
    raise_if (fl.le weight fl.nought) 403 "Voter has no ownership stake in this entity."
    returned (proposal, voter, weight)
