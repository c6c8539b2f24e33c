-- ===== src/Model/Accounts.antt =====
-- The request and response models of schemas.py for users, entities and ownership.
use electa.Base.{ℕ, String, Bool, Option, none}
use electa.Model.Enums.{user_role_value}
use electa.Model.Tables.{Dict, Json, User, Entity, Ownership}

pub record UserCreate (F : Type 0) : Type 0 where
  pub name : String
  pub role : String
  pub external_id : Option String
  pub public_key : Option String
  pub metadata : Option (Dict F)

pub record UserResponse : Type 0 where
  pub id : String
  pub name : String
  pub role : String
  pub external_id : Option String
  pub public_key : Option String
  pub is_active : Bool
  pub created_at : ℕ
  pub api_key : Option String

pub record EntityCreate (F : Type 0) : Type 0 where
  pub name : String
  pub ticker : Option String
  pub lei : Option String
  pub jurisdiction : Option String
  pub total_shares : F
  pub metadata : Option (Dict F)

pub record EntityResponse (F : Type 0) : Type 0 where
  pub id : String
  pub name : String
  pub ticker : Option String
  pub lei : Option String
  pub jurisdiction : Option String
  pub total_shares : F
  pub is_active : Bool
  pub created_at : ℕ

pub record OwnershipSet (F : Type 0) : Type 0 where
  pub user_id : String
  pub entity_id : String
  pub shares : F
  pub role_weight_multiplier : F

pub record OwnershipResponse (F : Type 0) : Type 0 where
  pub id : String
  pub user_id : String
  pub entity_id : String
  pub shares : F
  pub role_weight_multiplier : F
  pub updated_at : ℕ

pub record MessageResponse (F : Type 0) : Type 0 where
  pub message : String
  pub detail : Json F

module _ {F : Type 0} where
  -- `model_validate` of each response on its row
  abbrev pub user_response : User F → UserResponse
  user_response u = record {
    id = u.id;
    name = u.name;
    role = user_role_value u.role;
    external_id = u.external_id;
    public_key = u.public_key;
    is_active = u.is_active;
    created_at = u.created_at;
    api_key = none;
  }

  abbrev pub entity_response : Entity F → EntityResponse F
  entity_response e = record {
    id = e.id;
    name = e.name;
    ticker = e.ticker;
    lei = e.lei;
    jurisdiction = e.jurisdiction;
    total_shares = e.total_shares;
    is_active = e.is_active;
    created_at = e.created_at;
  }

  abbrev pub ownership_response : Ownership F → OwnershipResponse F
  ownership_response o = record {
    id = o.id;
    user_id = o.user_id;
    entity_id = o.entity_id;
    shares = o.shares;
    role_weight_multiplier = o.role_weight_multiplier;
    updated_at = o.updated_at;
  }
