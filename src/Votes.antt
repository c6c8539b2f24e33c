-- ===== src/Votes.antt =====
-- votes.py: casting and delegating a vote, and the lists of a proposal's votes and audit entries.
mod Checks
pub mod Listing
pub mod Pages
pub mod Cast
pub mod Outcome
pub mod Delegation
pub mod Unique
pub mod Validated
unfoldable pub use Checks.*
use electa.Base.{
  ℕ, String, Bool, ◌&&◌, ◌++◌, ◌==◌, Option, none, some, List, [], ◌∷◌, map, if◌then◌else◌,
  option_eq,
}
use electa.Base.Filter.{filter, find?, update_where}
use electa.Float.{Float, float_or}
use electa.Settings.{Settings}
use electa.Http.{returned, integrity_error}
use electa.Handler.{
  Handler, App, reading, modify_db, pure, raise, publish, append_audit, ◌>>=◌, ◌>>◌,
}
use electa.Model.Enums.{
  delegate, VoteChoice, vote_cast, vote_delegated, is_delegate, vote_choice_value,
  action_type_value,
}
use electa.Model.Tables.{Json, null, bool, str, float, Dict, User, Proposal, Vote, AuditLog}
use electa.Model.Db.{Db, is_vote_of, get_vote}
use electa.Model.Schemas.{VoteCast, VoteResponse, vote_response}
use electa.Engine.{get_voter_weight, sum_query, build_vote_event}

-- What a call takes from its surroundings: `now` is read first, the other times as each row and
-- event is made; the ids are those of `uuid4`.
pub record CastContext : Type 0 where
  pub now : ℕ
  pub row_time : ℕ
  pub audit_time : ℕ
  pub event_time : ℕ
  pub vote_id : String
  pub audit_id : String
  pub client_host : Option String

abbrev pub optional_str : {F : Type 0} → Option String → Json F
optional_str none = null
optional_str (some s) = str s

abbrev pub optional_bool : {F : Type 0} → Option Bool → Json F
optional_bool none = null
optional_bool (some b) = bool b

-- `metadata["delegate_to"].as_string()`
unfoldable pub delegate_to : {F : Type 0} → Dict F → Option String
delegate_to [] = none
delegate_to ((key, str value) ∷ rest) =
    if key == "delegate_to" then some value else delegate_to rest
delegate_to ((key, _) ∷ rest) = if key == "delegate_to" then none else delegate_to rest

abbrev pub delegate_of : {F : Type 0} → Vote F → Option String
delegate_of v = elim v.metadata [ none ↦ none | some d ↦ delegate_to d ]

module _ {F : Type 0} ⦃fl : Float F⦄ where
  -- `db.add(vote)` and the flush, under the unique constraint on proposal and voter.
  abbrev pub add_vote : Vote F → Handler F (Unit {0})
  add_vote v app = elim (get_vote app.db v.proposal_id v.voter_id) [
    | some _ ↦ raise integrity_error app
    | none ↦ modify_db (λ db. record db { votes = db.votes ++ v ∷ [] }) app
  ]

  -- The rows that delegate to a voter on a proposal.
  abbrev pub delegates_to : String → String → Vote F → Bool
  delegates_to proposal_id voter_id v =
      (v.proposal_id == proposal_id)
      && (is_delegate v.action_type && option_eq (delegate_of v) voter_id)

  -- `SELECT SUM(weight)` over those rows, with `or 0.0`
  unfoldable pub delegated_weight : Db F → String → String → F
  unfolding sum_query
  delegated_weight db proposal_id voter_id =
      float_or
        (sum_query (map (λ v. v.weight) (filter (delegates_to proposal_id voter_id) db.votes)))
        fl.nought

  -- `target_vote.weight = float(target_vote.weight) + weight`, if the target has a row
  unfoldable pub credit_target : String → Option String → F → Db F → Db F
  credit_target proposal_id none weight db = db
  credit_target proposal_id (some target_id) weight db = record db {
    votes =
        update_where (is_vote_of proposal_id target_id)
          (λ v. record v { weight = fl.add v.weight weight }) db.votes;
  }

  abbrev pub delegation_row : CastContext → VoteCast F → F → Vote F
  delegation_row ctx body weight = record {
    id = ctx.vote_id;
    proposal_id = body.proposal_id;
    voter_id = body.voter_id;
    action_type = delegate;
    choice = none;
    weight = weight;
    delegated_from_id = none;
    signature = none;
    signature_verified = none;
    timestamp = ctx.row_time;
    ip_address = none;
    metadata = some (("delegate_to", optional_str body.delegate_to_id) ∷ []);
  }

  abbrev pub delegation_audit : CastContext → VoteCast F → F → AuditLog F
  delegation_audit ctx body weight = record {
    id = ctx.audit_id;
    action = vote_delegated;
    actor_id = some body.voter_id;
    entity_id = none;
    proposal_id = some body.proposal_id;
    vote_id = some ctx.vote_id;
    payload = some (
        ("voter_id", str body.voter_id)
        ∷ ("delegate_to", optional_str body.delegate_to_id)
        ∷ ("weight", float weight)
        ∷ []);
    timestamp = ctx.audit_time;
    ip_address = none;
  }

  -- The branch of `cast_vote` for the action "delegate".
  unfoldable pub delegate_vote :
      CastContext → VoteCast F → Proposal F → User F → F → Handler F (VoteResponse F)
  delegate_vote ctx body proposal voter weight = do
    reading (check_target body)
    modify_db (credit_target body.proposal_id body.delegate_to_id weight)
    add_vote (delegation_row ctx body weight)
    append_audit (delegation_audit ctx body weight)
    event ← reading (λ db.
        returned (build_vote_event ctx.event_time db proposal voter.name none weight "delegate"))
    publish event
    pure (vote_response (delegation_row ctx body weight))

  abbrev pub vote_row : CastContext → VoteCast F → VoteChoice → F → Option Bool → Vote F
  vote_row ctx body choice weight verified = record {
    id = ctx.vote_id;
    proposal_id = body.proposal_id;
    voter_id = body.voter_id;
    action_type = action_of body;
    choice = some choice;
    weight = weight;
    delegated_from_id = none;
    signature = body.signature;
    signature_verified = verified;
    timestamp = ctx.now;
    ip_address = ctx.client_host;
    metadata = body.metadata;
  }

  abbrev pub vote_audit : CastContext → VoteCast F → VoteChoice → F → Option Bool → AuditLog F
  vote_audit ctx body choice weight verified = record {
    id = ctx.audit_id;
    action = vote_cast;
    actor_id = some body.voter_id;
    entity_id = none;
    proposal_id = some body.proposal_id;
    vote_id = some ctx.vote_id;
    payload = some (
        ("vote_id", str ctx.vote_id)
        ∷ ("voter_id", str body.voter_id)
        ∷ ("choice", str (vote_choice_value choice))
        ∷ ("weight", float weight)
        ∷ ("signature_verified", optional_bool verified)
        ∷ []);
    timestamp = ctx.audit_time;
    ip_address = ctx.client_host;
  }

  -- The rest of `cast_vote`, for every other action.
  unfoldable pub record_vote :
      Crypto
      → Settings F
      → CastContext
      → VoteCast F
      → Proposal F
      → User F
      → F
      → Handler F (VoteResponse F)
  record_vote crypto settings ctx body proposal voter base = do
    delegated ← reading (λ db. returned (delegated_weight db body.proposal_id body.voter_id))
    let weight = fl.add base delegated
    verified ← reading (λ db. check_signature crypto settings ctx.now body voter)
    choice ← reading (λ db. check_choice body)
    let row = vote_row ctx body choice weight verified
    add_vote row
    append_audit (vote_audit ctx body choice weight verified)
    event ← reading (λ db. returned (
        build_vote_event ctx.event_time db proposal voter.name (some (vote_choice_value choice))
          weight (action_type_value (action_of body))))
    publish event
    pure (vote_response row)

  unfoldable pub cast_vote :
      Crypto → Settings F → CastContext → VoteCast F → Handler F (VoteResponse F)
  cast_vote crypto settings ctx body = do
    checked ← reading (check_voter ctx.now body)
    let recorded = record_vote crypto settings ctx body checked.0 checked.1 checked.2
    let delegated = delegate_vote ctx body checked.0 checked.1 checked.2
    if body.action_type == "delegate" then delegated else recorded
