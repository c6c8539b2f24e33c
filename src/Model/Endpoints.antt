-- ===== src/Model/Endpoints.antt =====
-- The request and response models of schemas.py for webhooks and for entries of the audit log.
use electa.Base.{ℕ, String, Bool, Option}
use electa.Model.Enums.{audit_action_value}
use electa.Model.Tables.{Dict, WebhookEndpoint, AuditLog}

pub record WebhookCreate (F : Type 0) : Type 0 where
  pub owner_id : String
  pub url : String
  pub secret : Option String
  pub event_filter : Option String
  pub metadata : Option (Dict F)

pub record WebhookResponse : Type 0 where
  pub id : String
  pub owner_id : String
  pub url : String
  pub event_filter : Option String
  pub is_active : Bool
  pub created_at : ℕ
  pub last_delivery_at : Option ℕ
  pub delivery_failures : ℕ

pub record AuditLogEntry (F : Type 0) : Type 0 where
  pub id : String
  pub action : String
  pub actor_id : Option String
  pub entity_id : Option String
  pub proposal_id : Option String
  pub vote_id : Option String
  pub payload : Option (Dict F)
  pub timestamp : ℕ

module _ {F : Type 0} where
  -- `model_validate` of each response on its row
  abbrev pub webhook_response : WebhookEndpoint F → WebhookResponse
  webhook_response e = record {
    id = e.id;
    owner_id = e.owner_id;
    url = e.url;
    event_filter = e.event_filter;
    is_active = e.is_active;
    created_at = e.created_at;
    last_delivery_at = e.last_delivery_at;
    delivery_failures = e.delivery_failures;
  }

  abbrev pub audit_log_entry : AuditLog F → AuditLogEntry F
  audit_log_entry a = record {
    id = a.id;
    action = audit_action_value a.action;
    actor_id = a.actor_id;
    entity_id = a.entity_id;
    proposal_id = a.proposal_id;
    vote_id = a.vote_id;
    payload = a.payload;
    timestamp = a.timestamp;
  }
