-- ===== src/Admin.antt =====
-- admin.py: the statistics, the search of the audit log, the check of the shares of an entity, the
-- overdue proposals, the manual tick of the scheduler and the report on a proposal's voters.
pub mod Ballots
pub mod Participation
pub mod Overdue
pub mod Report
use electa.Base.{
  ℕ, String, Bool, true, false, not, ◌==◌, ◌&&◌, Option, none, some, List, [], ◌∷◌, map, length,
  if◌then◌else◌, leb, ltb, nat_eq, ◌-◌, option_eq,
}
use electa.Base.Filter.{filter}
use electa.Float.{Float, float_or}
use electa.Settings.{Settings}
use electa.Query.{OrderBy, page, given_or_any}
use electa.Text.{starts_with}
use electa.Http.{Result, returned, or_raise, ◌>>=◌}
use electa.Handler.{App}
use electa.Bus
use electa.Bus.{Bus}
use electa.Model.Enums.{AuditAction, is_open, is_closed}
use electa.Model.Tables.{Proposal, AuditLog}
use electa.Model.Db.{Db, get_entity}
use electa.Model.Schemas.{GovernanceEvent}
use electa.Model.Endpoints.{AuditLogEntry, audit_log_entry}
use electa.Engine.{sum_query}
use electa.Scheduler.{tick}
use electa.Proposals.{CloseContext}

pub record SystemStats (F : Type 0) : Type 0 where
  pub timestamp : ℕ
  pub entities : ℕ
  pub users : ℕ
  pub open_proposals : ℕ
  pub closed_proposals : ℕ
  pub passed_proposals : ℕ
  pub votes_cast : ℕ
  pub total_weight_cast : F
  pub audit_log_entries : ℕ
  pub active_webhooks : ℕ
  pub event_bus_subscribers : ℕ

pub record OwnershipValidation (F : Type 0) : Type 0 where
  pub entity_id : String
  pub entity_name : String
  pub total_shares : F
  pub total_assigned : F
  pub unassigned : F
  pub over_cap : Bool
  pub pct_assigned : F
  pub valid : Bool

pub record OverdueEntry : Type 0 where
  pub id : String
  pub title : String
  pub entity_id : String
  pub closes_at : Option ℕ
  pub overdue_by_seconds : ℕ

pub record OverdueReport : Type 0 where
  pub count : ℕ
  pub proposals : List OverdueEntry

-- The answer of `admin_recent_events`.
pub record RecentEvents (F : Type 0) : Type 0 where
  pub count : ℕ
  pub subscriber_count : ℕ
  pub events : List (GovernanceEvent F)

-- The conditions of `search_audit` that the caller may give.
pub record AuditSearch : Type 0 where
  pub action : Option String
  pub actor_id : Option String
  pub entity_id : Option String
  pub proposal_id : Option String
  pub since : Option ℕ
  pub until : Option ℕ

-- `result_passed == True`
abbrev pub has_passed : Option Bool → Bool
has_passed (some true) = true
has_passed _ = false

-- `if since:` and `if until:`: no bound is given, or zero, or the test holds.
abbrev pub bounded : (ℕ → Bool) → Option ℕ → Bool
bounded test none = true
bounded test (some t) = if nat_eq t 0 then true else test t

-- `closes_at != None, closes_at < now`
abbrev pub is_past : ℕ → Option ℕ → Bool
is_past now none = false
is_past now (some closes_at) = ltb closes_at now

-- The seconds since the deadline, and the key of the ordering.
abbrev pub time_of : Option ℕ → ℕ
time_of none = 0
time_of (some t) = t

module _ {F : Type 0} where
  -- The conditions of the query of `search_audit`. How SQLAlchemy compares the column of an
  -- enumeration with a text is a parameter.
  unfoldable pub is_found : (AuditAction → String → Bool) → AuditSearch → AuditLog F → Bool
  is_found enum_eq search entry =
      (elim search.action [
        | none ↦ true
        | some action ↦ if action == "" then true else enum_eq entry.action action
      ])
      && (given_or_any search.actor_id entry.actor_id
          && (given_or_any search.entity_id entry.entity_id
              && (given_or_any search.proposal_id entry.proposal_id
                  && (bounded (λ since. leb since entry.timestamp) search.since
                      && bounded (λ until. leb entry.timestamp until) search.until))))

  unfoldable pub search_audit :
      OrderBy
      → (AuditAction → String → Bool)
      → AuditSearch
      → (skip limit : ℕ) → Db F
      → List (AuditLogEntry F)
  search_audit order enum_eq search skip limit db = map audit_log_entry (
      page skip limit (
        order.desc (AuditLog F) (λ a. a.timestamp)
          (filter (is_found enum_eq search) db.audit_logs)))

  -- The rows that `overdue_proposals` selects.
  abbrev pub is_overdue : ℕ → Proposal F → Bool
  is_overdue now p = is_open p.status && is_past now p.closes_at

  abbrev pub overdue_entry : ℕ → Proposal F → OverdueEntry
  overdue_entry now p = record {
    id = p.id;
    title = p.title;
    entity_id = p.entity_id;
    closes_at = p.closes_at;
    overdue_by_seconds = now - time_of p.closes_at;
  }

  unfoldable pub overdue_proposals : OrderBy → ℕ → Db F → OverdueReport
  overdue_proposals order now db =
      let overdue =
        order.asc (Proposal F) (λ p. time_of p.closes_at) (filter (is_overdue now) db.proposals) in
      record { count = length overdue; proposals = map (overdue_entry now) overdue }

  -- `if filter: …`
  abbrev pub with_prefix : Option String → List (GovernanceEvent F) → List (GovernanceEvent F)
  with_prefix none events = events
  with_prefix (some prefix) events =
      if prefix == "" then events else filter (λ e. starts_with e.event prefix) events

  unfoldable pub admin_recent_events : ℕ → Option String → Bus (GovernanceEvent F) → RecentEvents F
  admin_recent_events limit prefix bus =
      let events = with_prefix prefix (Bus.recent_events limit bus) in
      record { count = length events; subscriber_count = Bus.subscriber_count bus; events = events }

module _ {F : Type 0} ⦃fl : Float F⦄ where
  unfoldable pub system_stats : ℕ → App F → SystemStats F
  system_stats now app = record {
    timestamp = now;
    entities = length app.db.entities;
    users = length app.db.users;
    open_proposals = length (filter (λ p. is_open p.status) app.db.proposals);
    closed_proposals = length (filter (λ p. is_closed p.status) app.db.proposals);
    passed_proposals = length (filter (λ p. has_passed p.result_passed) app.db.proposals);
    votes_cast = length app.db.votes;
    total_weight_cast = float_or (sum_query (map (λ v. v.weight) app.db.votes)) fl.nought;
    audit_log_entries = length app.db.audit_logs;
    active_webhooks = length (filter (λ e. e.is_active) app.db.webhook_endpoints);
    event_bus_subscribers = Bus.subscriber_count app.bus;
  }

  -- `max(x, y)` of Python: the first, unless the second is greater
  abbrev py_max : F → F → F
  py_max x y = if fl.lt x y then y else x

  -- `round(part / whole * 100, 2) if whole > 0 else 0.0`
  abbrev pub pct : F → F → F
  pct part whole =
      if fl.lt fl.nought whole
      then fl.round (fl.mul (fl.div part whole) fl.hundred) 2
      else fl.nought

  unfoldable pub validate_ownership : String → Db F → Result (OwnershipValidation F)
  validate_ownership entity_id db = do
    entity ← or_raise (get_entity db entity_id) 404 "Entity not found."
    let total_assigned =
        float_or
          (sum_query (map (λ o. o.shares) (filter (λ o. o.entity_id == entity_id) db.ownership)))
          fl.nought
    let over_cap = fl.lt entity.total_shares total_assigned
    returned (record {
      entity_id = entity_id;
      entity_name = entity.name;
      total_shares = entity.total_shares;
      total_assigned = total_assigned;
      unassigned = py_max (fl.sub entity.total_shares total_assigned) fl.nought;
      over_cap = over_cap;
      pct_assigned = pct total_assigned entity.total_shares;
      valid = not over_cap;
    })

  -- `trigger_scheduler`: the tick before the answer
  abbrev pub trigger_scheduler : Settings F → (String → CloseContext) → ℕ → App F → App F
  trigger_scheduler settings contexts now app = tick settings contexts now app
