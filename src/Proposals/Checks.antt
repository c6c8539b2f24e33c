-- ===== src/Proposals/Checks.antt =====
-- The reads and checks of proposals.py, in their order.
use Prim.Native.String
use electa.Base.{
  ℕ, String, Bool, true, false, not, ◌==◌, Option, none, some, if◌then◌else◌, is_some, nat_eq,
}
use electa.Http.{Result, returned, raise_if, or_raise, ◌>>=◌, ◌>>◌}
use electa.Model.Enums.{
  ProposalStatus, cancelled, ProposalType, ThresholdType, is_closed, parse_proposal_type,
  parse_threshold_type, proposal_status_value,
}
use electa.Model.Tables.{Entity, Proposal}
use electa.Model.Db.{Db, get_user, get_entity, get_proposal_row}
use electa.Model.Schemas.{ProposalCreate, ProposalResult}

-- `body.id or _auto_id()`
abbrev pub text_or : Option String → String → String
text_or none other = other
text_or (some s) other = if s == "" then other else s

-- `body.opens_at or int(time.time())`
abbrev pub time_or : Option ℕ → ℕ → ℕ
time_or none other = other
time_or (some t) other = if nat_eq t 0 then other else t

abbrev pub is_cancelled : ProposalStatus → Bool
is_cancelled cancelled = true
is_cancelled _ = false

-- The truth of an optional time.
abbrev pub has_time : Option ℕ → Bool
has_time none = false
has_time (some t) = not (nat_eq t 0)

-- The id of the creator when the request names none.
abbrev pub nobody : String
nobody = "00000000-0000-0000-0000-000000000000"

pub record Creation (F : Type 0) : Type 0 where
  pub entity : Entity F
  pub creator : String
  pub proposal_type : ProposalType
  pub threshold_type : ThresholdType
  pub pid : String

module _ {F : Type 0} where
  -- `_get_or_404`
  unfoldable pub get_or_404 : String → Db F → Result (Proposal F)
  get_or_404 proposal_id db =
      or_raise (get_proposal_row db proposal_id) 404
        (String.◌++◌ "Proposal '" (String.◌++◌ proposal_id "' not found."))

  -- `if creator_id: … else: …`
  unfoldable pub check_creator : Option String → Db F → Result String
  check_creator none db = returned nobody
  check_creator (some id) db =
      let given = do
        raise_if (not (is_some (get_user db id))) 404 "Creator user not found."
        returned id
      in if id == "" then returned nobody else given

  -- The checks of `create_proposal`; `auto_id` is what `_auto_id` would draw.
  unfoldable pub check_create :
      String → ProposalCreate F → Option String → Db F → Result (Creation F)
  check_create auto_id body creator_id db = do
    entity ← or_raise (get_entity db body.entity_id) 404 "Entity not found."
    creator ← check_creator creator_id db
    proposal_type ← or_raise (parse_proposal_type body.proposal_type) 422 "not a valid ProposalType"
    threshold_type ←
        or_raise (parse_threshold_type body.threshold_type) 422 "not a valid ThresholdType"
    let pid = text_or body.id auto_id
    raise_if (is_some (get_proposal_row db pid)) 409
        (String.◌++◌ "Proposal ID '" (String.◌++◌ pid "' already exists."))
    returned (record {
      entity = entity;
      creator = creator;
      proposal_type = proposal_type;
      threshold_type = threshold_type;
      pid = pid;
    })

  -- The guards of `force_close`.
  unfoldable pub check_close : String → Db F → Result (Proposal F)
  unfolding get_or_404
  check_close proposal_id db = do
    proposal ← get_or_404 proposal_id db
    raise_if (is_closed proposal.status) 409 "Proposal is already closed."
    raise_if (is_cancelled proposal.status) 409 "Proposal is cancelled and cannot be closed."
    returned proposal

  -- The `ProposalResult` that `_to_response` and `get_result` build from the columns of a row.
  abbrev pub stored_result : Proposal F → ProposalResult F
  stored_result p = record {
    proposal_id = p.id;
    status = "closed";
    yes_weight = p.result_yes_weight;
    no_weight = p.result_no_weight;
    abstain_weight = p.result_abstain_weight;
    total_weight = p.result_total_weight;
    total_eligible_weight = none;
    participation_pct = none;
    quorum_met = p.result_quorum_met;
    passed = p.result_passed;
    computed_at = p.result_computed_at;
  }

  -- `get_result`
  unfoldable pub get_result : String → Db F → Result (ProposalResult F)
  unfolding get_or_404
  get_result proposal_id db = do
    proposal ← get_or_404 proposal_id db
    raise_if (not (is_closed proposal.status)) 400 (
        String.◌++◌ "Results only available after close. Current: "
          (proposal_status_value proposal.status))
    returned (stored_result proposal)
