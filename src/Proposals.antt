-- ===== src/Proposals.antt =====
-- proposals.py: creating a proposal, changing its status, closing it and reading its result.
mod Checks
pub mod Results
pub mod Lifecycle
pub mod Patching
pub mod Creator
pub mod Listing
pub mod Pages
unfoldable pub use Checks.*
use Prim.Native.String
use electa.Base.{
  ℕ, String, Bool, true, false, not, ◌&&◌, ◌++◌, Option, none, some, List, [], ◌∷◌, if◌then◌else◌,
  is_some, nat_eq,
}
use electa.Float.{Float}
use electa.Settings.{Settings}
use electa.Http.{returned, integrity_error, or_raise}
use electa.Handler.{
  Handler, App, reading, modify_db, pure, raise, publish, append_audit, ◌>>=◌, ◌>>◌,
}
use electa.Model.Enums.{
  opened, proposal_created, result_computed, is_closed, parse_proposal_status,
  proposal_status_value, proposal_type_value, threshold_type_value,
}
use electa.Model.Tables.{Json, null, bool, int, str, float, Dict, Proposal, AuditLog}
use electa.Model.Db.{Db, get_user, set_proposal}
use electa.Model.Schemas.{ProposalCreate, ProposalResult, ProposalResponse, GovernanceEvent}
use electa.Engine.{close_and_compute, build_result_event}

-- The times that a call reads and the ids that it draws.
pub record CreateContext : Type 0 where
  pub opens_time : ℕ
  pub row_time : ℕ
  pub audit_time : ℕ
  pub event_time : ℕ
  pub auto_id : String
  pub audit_id : String
  pub client_host : Option String

pub record CloseContext : Type 0 where
  pub result_time : ℕ
  pub audit_time : ℕ
  pub event_time : ℕ
  pub audit_id : String
  pub client_host : Option String

module _ {F : Type 0} where
  -- `_to_response`
  unfoldable pub to_response : Proposal F → ProposalResponse F
  to_response p = record {
    id = p.id;
    entity_id = p.entity_id;
    title = p.title;
    description = p.description;
    proposal_type = proposal_type_value p.proposal_type;
    status = proposal_status_value p.status;
    threshold_type = threshold_type_value p.threshold_type;
    custom_threshold_pct = p.custom_threshold_pct;
    quorum_pct = p.quorum_pct;
    opens_at = p.opens_at;
    closes_at = p.closes_at;
    created_by = p.created_by;
    created_at = p.created_at;
    result =
        if is_closed p.status && has_time p.result_computed_at
        then some (stored_result p)
        else none;
  }

  -- `db.add(proposal)` and the flush. A database that enforces foreign keys, as PostgreSQL does,
  -- wants the creator among the users.
  abbrev pub add_proposal : Bool → Proposal F → Handler F (Unit {0})
  add_proposal enforces_foreign_keys p app =
      if enforces_foreign_keys && not (is_some (get_user app.db p.created_by))
      then raise integrity_error app
      else modify_db (λ db. record db { proposals = db.proposals ++ p ∷ [] }) app

  abbrev pub new_proposal : CreateContext → ProposalCreate F → Creation F → Proposal F
  new_proposal ctx body c = record {
    id = c.pid;
    entity_id = body.entity_id;
    title = body.title;
    description = body.description;
    proposal_type = c.proposal_type;
    status = opened;
    threshold_type = c.threshold_type;
    custom_threshold_pct = body.custom_threshold_pct;
    quorum_pct = body.quorum_pct;
    opens_at = time_or body.opens_at ctx.opens_time;
    closes_at = body.closes_at;
    created_by = c.creator;
    created_at = ctx.row_time;
    metadata = body.metadata;
    result_yes_weight = none;
    result_no_weight = none;
    result_abstain_weight = none;
    result_total_weight = none;
    result_quorum_met = none;
    result_passed = none;
    result_computed_at = none;
  }

  abbrev optional_int : Option ℕ → Json F
  optional_int none = null
  optional_int (some n) = int n

  abbrev pub creation_event : CreateContext → ProposalCreate F → Creation F → GovernanceEvent F
  creation_event ctx body c = record {
    event = "governance.proposal.created";
    entity = c.entity.name;
    proposal_id = c.pid;
    actor = some c.creator;
    vote = none;
    weight = none;
    details = some (
        ("title", str body.title)
        ∷ ("proposal_type", str (proposal_type_value c.proposal_type))
        ∷ ("threshold_type", str (threshold_type_value c.threshold_type))
        ∷ ("closes_at", optional_int body.closes_at)
        ∷ []);
    timestamp = ctx.event_time;
  }

  abbrev pub creation_audit : CreateContext → ProposalCreate F → Creation F → AuditLog F
  creation_audit ctx body c = record {
    id = ctx.audit_id;
    action = proposal_created;
    actor_id = some c.creator;
    entity_id = some body.entity_id;
    proposal_id = some c.pid;
    vote_id = none;
    payload = some (("proposal_id", str c.pid) ∷ ("title", str body.title) ∷ []);
    timestamp = ctx.audit_time;
    ip_address = ctx.client_host;
  }

  unfoldable pub create_proposal :
      Bool → CreateContext → ProposalCreate F → Option String → Handler F (ProposalResponse F)
  create_proposal enforces_foreign_keys ctx body creator_id = do
    c ← reading (check_create ctx.auto_id body creator_id)
    add_proposal enforces_foreign_keys (new_proposal ctx body c)
    append_audit (creation_audit ctx body c)
    publish (creation_event ctx body c)
    pure (to_response (new_proposal ctx body c))

  unfoldable pub update_status : String → String → Handler F (ProposalResponse F)
  update_status proposal_id new_status = do
    proposal ← reading (get_or_404 proposal_id)
    status ← reading (λ db.
        or_raise (parse_proposal_status new_status) 422
          (String.◌++◌ "Invalid status '" (String.◌++◌ new_status "'.")))
    modify_db (set_proposal proposal.id (λ p. record p { status = status }))
    pure (to_response (record proposal { status = status }))

  -- `result.model_dump()`
  abbrev optional_float : Option F → Json F
  optional_float none = null
  optional_float (some x) = float x

  abbrev optional_flag : Option Bool → Json F
  optional_flag none = null
  optional_flag (some b) = bool b

  abbrev pub result_dump : ProposalResult F → Dict F
  result_dump r =
      ("proposal_id", str r.proposal_id)
      ∷ ("status", str r.status)
      ∷ ("yes_weight", optional_float r.yes_weight)
      ∷ ("no_weight", optional_float r.no_weight)
      ∷ ("abstain_weight", optional_float r.abstain_weight)
      ∷ ("total_weight", optional_float r.total_weight)
      ∷ ("total_eligible_weight", optional_float r.total_eligible_weight)
      ∷ ("participation_pct", optional_float r.participation_pct)
      ∷ ("quorum_met", optional_flag r.quorum_met)
      ∷ ("passed", optional_flag r.passed)
      ∷ ("computed_at", optional_int r.computed_at)
      ∷ []

  abbrev pub result_audit : CloseContext → Proposal F → Dict F → AuditLog F
  result_audit ctx p payload = record {
    id = ctx.audit_id;
    action = result_computed;
    actor_id = none;
    entity_id = some p.entity_id;
    proposal_id = some p.id;
    vote_id = none;
    payload = some payload;
    timestamp = ctx.audit_time;
    ip_address = ctx.client_host;
  }

module _ {F : Type 0} ⦃fl : Float F⦄ where
  unfoldable pub force_close : Settings F → CloseContext → String → Handler F (ProposalResult F)
  force_close settings ctx proposal_id = do
    proposal ← reading (check_close proposal_id)
    closing ← reading (λ db. returned (close_and_compute settings ctx.result_time proposal db))
    modify_db (λ _. closing.2)
    append_audit (result_audit ctx proposal (result_dump closing.1))
    event ← reading (λ db. returned (build_result_event ctx.event_time db proposal closing.0))
    publish event
    pure closing.1
