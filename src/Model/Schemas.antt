-- ===== src/Model/Schemas.antt =====
-- The request and response models of schemas.py that the modelled routers use, with the
-- validators that pydantic runs before a handler is called.
use electa.Base.{
  ℕ, String, Bool, not, ◌==◌, ◌&&◌, ◌||◌, Option, none, some, if◌then◌else◌, truthy, is_some,
}
use electa.Model.Tables.{Dict, Vote}
use electa.Model.Enums.{action_type_value, vote_choice_value}
use mathlib.Core.Option

pub record VoteCast (F : Type 0) : Type 0 where
  pub proposal_id : String
  pub voter_id : String
  pub action_type : String
  pub choice : Option String
  pub delegate_to_id : Option String
  pub signature : Option String
  pub metadata : Option (Dict F)

pub record ProposalCreate (F : Type 0) : Type 0 where
  pub id : Option String
  pub entity_id : String
  pub title : String
  pub description : Option String
  pub proposal_type : String
  pub threshold_type : String
  pub custom_threshold_pct : Option F
  pub quorum_pct : F
  pub opens_at : Option ℕ
  pub closes_at : Option ℕ
  pub metadata : Option (Dict F)

pub record ProposalResult (F : Type 0) : Type 0 where
  pub proposal_id : String
  pub status : String
  pub yes_weight : Option F
  pub no_weight : Option F
  pub abstain_weight : Option F
  pub total_weight : Option F
  pub total_eligible_weight : Option F
  pub participation_pct : Option F
  pub quorum_met : Option Bool
  pub passed : Option Bool
  pub computed_at : Option ℕ

pub record ProposalResponse (F : Type 0) : Type 0 where
  pub id : String
  pub entity_id : String
  pub title : String
  pub description : Option String
  pub proposal_type : String
  pub status : String
  pub threshold_type : String
  pub custom_threshold_pct : Option F
  pub quorum_pct : F
  pub opens_at : ℕ
  pub closes_at : Option ℕ
  pub created_by : String
  pub created_at : ℕ
  pub result : Option (ProposalResult F)

pub record VoteResponse (F : Type 0) : Type 0 where
  pub id : String
  pub proposal_id : String
  pub voter_id : String
  pub action_type : String
  pub choice : Option String
  pub weight : F
  pub delegated_from_id : Option String
  pub signature_verified : Option Bool
  pub timestamp : ℕ

-- `GovernanceEvent`
pub record GovernanceEvent (F : Type 0) : Type 0 where
  pub event : String
  pub entity : String
  pub proposal_id : String
  pub actor : Option String
  pub vote : Option String
  pub weight : Option F
  pub details : Option (Dict F)
  pub timestamp : ℕ

module _ {F : Type 0} where
  -- `VoteCast.validate_choice_and_delegation`; `none` is the `ValueError`, answered with 422.
  unfoldable pub validate_choice_and_delegation : VoteCast F → Option (VoteCast F)
  validate_choice_and_delegation b =
      if b.action_type == "delegate"
      then if truthy b.delegate_to_id then some b else none
      else if (b.action_type == "vote")
          || ((b.action_type == "approve") || (b.action_type == "reject"))
      then if not (is_some b.choice)
        then none
        else if b.action_type == "approve"
        then some (record b { choice = some "YES" })
        else if b.action_type == "reject"
        then some (record b { choice = some "NO" })
        else some b
      else some b

  -- `VoteResponse.model_validate(vote)`
  abbrev pub vote_response : Vote F → VoteResponse F
  vote_response v = record {
    id = v.id;
    proposal_id = v.proposal_id;
    voter_id = v.voter_id;
    action_type = action_type_value v.action_type;
    choice = Option.map vote_choice_value v.choice;
    weight = v.weight;
    delegated_from_id = v.delegated_from_id;
    signature_verified = v.signature_verified;
    timestamp = v.timestamp;
  }

  -- `ProposalCreate.validate_custom_threshold`
  abbrev pub validate_custom_threshold : ProposalCreate F → Option (ProposalCreate F)
  validate_custom_threshold b =
      if (b.threshold_type == "custom") && not (is_some b.custom_threshold_pct)
      then none
      else some b
