-- ===== src/Model/Tables.antt =====
-- The rows of the tables of db_models.py, one record a class, with the attributes in the class's
-- order. Floats are the parameter `F`; timestamps are Unix seconds and not negative; the
-- relationships are found by their ids.
use electa.Base.{ℕ, String, Bool, Option, List}
use electa.Model.Enums.{
  UserRole, ProposalStatus, ProposalType, ThresholdType, VoteChoice, ActionType, AuditAction,
}

-- A JSON value; the text of an array or an object is kept whole, since no code reads into one.
pub data Json (F : Type 0) : Type 0 where
  null : Json F
  bool : Bool → Json F
  int : ℕ → Json F
  float : F → Json F
  str : String → Json F
  nested : String → Json F

-- `Dict[str, Any]`
abbrev pub Dict : Type 0 → Type 0
Dict F = List (String × Json F)

pub record User (F : Type 0) : Type 0 where
  pub id : String
  pub external_id : Option String
  pub name : String
  pub role : UserRole
  pub public_key : Option String
  pub api_key_hash : Option String
  pub is_active : Bool
  pub created_at : ℕ
  pub metadata : Option (Dict F)

pub record Entity (F : Type 0) : Type 0 where
  pub id : String
  pub ticker : Option String
  pub name : String
  pub lei : Option String
  pub jurisdiction : Option String
  pub total_shares : F
  pub is_active : Bool
  pub created_at : ℕ
  pub metadata : Option (Dict F)

pub record Ownership (F : Type 0) : Type 0 where
  pub id : String
  pub user_id : String
  pub entity_id : String
  pub shares : F
  pub role_weight_multiplier : F
  pub updated_at : ℕ

pub record Proposal (F : Type 0) : Type 0 where
  pub id : String
  pub entity_id : String
  pub title : String
  pub description : Option String
  pub proposal_type : ProposalType
  pub status : ProposalStatus
  pub threshold_type : ThresholdType
  pub custom_threshold_pct : Option F
  pub quorum_pct : F
  pub opens_at : ℕ
  pub closes_at : Option ℕ
  pub created_by : String
  pub created_at : ℕ
  pub metadata : Option (Dict F)
  pub result_yes_weight : Option F
  pub result_no_weight : Option F
  pub result_abstain_weight : Option F
  pub result_total_weight : Option F
  pub result_quorum_met : Option Bool
  pub result_passed : Option Bool
  pub result_computed_at : Option ℕ

pub record Vote (F : Type 0) : Type 0 where
  pub id : String
  pub proposal_id : String
  pub voter_id : String
  pub action_type : ActionType
  pub choice : Option VoteChoice
  pub weight : F
  pub delegated_from_id : Option String
  pub signature : Option String
  pub signature_verified : Option Bool
  pub timestamp : ℕ
  pub ip_address : Option String
  pub metadata : Option (Dict F)

pub record AuditLog (F : Type 0) : Type 0 where
  pub id : String
  pub action : AuditAction
  pub actor_id : Option String
  pub entity_id : Option String
  pub proposal_id : Option String
  pub vote_id : Option String
  pub payload : Option (Dict F)
  pub timestamp : ℕ
  pub ip_address : Option String

pub record WebhookEndpoint (F : Type 0) : Type 0 where
  pub id : String
  pub owner_id : String
  pub url : String
  pub secret : Option String
  pub event_filter : Option String
  pub is_active : Bool
  pub created_at : ℕ
  pub last_delivery_at : Option ℕ
  pub delivery_failures : ℕ
  pub metadata : Option (Dict F)

pub record WebhookDelivery (F : Type 0) : Type 0 where
  pub id : String
  pub endpoint_id : String
  pub event_type : String
  pub payload : Dict F
  pub http_status : Option ℕ
  pub success : Bool
  pub attempt_number : ℕ
  pub attempted_at : ℕ
  pub error_message : Option String
