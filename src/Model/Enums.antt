-- ===== src/Model/Enums.antt =====
-- The enumerations of db_models.py. Each is a `str` enumeration: `parse_…` is the call of the
-- class on a text (`none` where Python raises `ValueError`), `…_value` the attribute `value`.
use electa.Base.{String, Bool, true, false, Option, none, some, ◌==◌, if◌then◌else◌}

pub data UserRole : Type 0 where
  shareholder board regulator admin : UserRole

pub data ProposalStatus : Type 0 where
  pending opened closed cancelled : ProposalStatus

pub data ProposalType : Type 0 where
  resolution election bylaw_amendment merger other : ProposalType

pub data ThresholdType : Type 0 where
  simple_majority supermajority unanimous custom : ThresholdType

pub data VoteChoice : Type 0 where
  yes_vote no_vote abstain : VoteChoice

pub data ActionType : Type 0 where
  vote approve reject delegate : ActionType

pub data AuditAction : Type 0 where
  proposal_created proposal_closed proposal_cancelled vote_cast vote_delegated : AuditAction
  quorum_reached result_computed webhook_delivered webhook_failed : AuditAction

abbrev pub user_role_value : UserRole → String
user_role_value shareholder = "shareholder"
user_role_value board = "board"
user_role_value regulator = "regulator"
user_role_value admin = "admin"

unfoldable pub parse_user_role : String → Option UserRole
parse_user_role s =
    if s == "shareholder"
    then some shareholder
    else if s == "board"
    then some board
    else if s == "regulator"
    then some regulator
    else if s == "admin"
    then some admin
    else none

abbrev pub proposal_status_value : ProposalStatus → String
proposal_status_value pending = "pending"
proposal_status_value opened = "open"
proposal_status_value closed = "closed"
proposal_status_value cancelled = "cancelled"

unfoldable pub parse_proposal_status : String → Option ProposalStatus
parse_proposal_status s =
    if s == "pending"
    then some pending
    else if s == "open"
    then some opened
    else if s == "closed"
    then some closed
    else if s == "cancelled"
    then some cancelled
    else none

abbrev pub proposal_type_value : ProposalType → String
proposal_type_value resolution = "resolution"
proposal_type_value election = "election"
proposal_type_value bylaw_amendment = "bylaw_amendment"
proposal_type_value merger = "merger"
proposal_type_value other = "other"

unfoldable pub parse_proposal_type : String → Option ProposalType
parse_proposal_type s =
    if s == "resolution"
    then some resolution
    else if s == "election"
    then some election
    else if s == "bylaw_amendment"
    then some bylaw_amendment
    else if s == "merger"
    then some merger
    else if s == "other"
    then some other
    else none

abbrev pub threshold_type_value : ThresholdType → String
threshold_type_value simple_majority = "simple_majority"
threshold_type_value supermajority = "supermajority"
threshold_type_value unanimous = "unanimous"
threshold_type_value custom = "custom"

unfoldable pub parse_threshold_type : String → Option ThresholdType
parse_threshold_type s =
    if s == "simple_majority"
    then some simple_majority
    else if s == "supermajority"
    then some supermajority
    else if s == "unanimous"
    then some unanimous
    else if s == "custom"
    then some custom
    else none

abbrev pub vote_choice_value : VoteChoice → String
vote_choice_value yes_vote = "YES"
vote_choice_value no_vote = "NO"
vote_choice_value abstain = "ABSTAIN"

-- The call on an optional text: `VoteChoice(None)` raises too.
unfoldable pub parse_vote_choice : Option String → Option VoteChoice
parse_vote_choice none = none
parse_vote_choice (some s) =
    if s == "YES"
    then some yes_vote
    else if s == "NO"
    then some no_vote
    else if s == "ABSTAIN"
    then some abstain
    else none

abbrev pub action_type_value : ActionType → String
action_type_value vote = "vote"
action_type_value approve = "approve"
action_type_value reject = "reject"
action_type_value delegate = "delegate"

unfoldable pub parse_action_type : String → Option ActionType
parse_action_type s =
    if s == "vote"
    then some vote
    else if s == "approve"
    then some approve
    else if s == "reject"
    then some reject
    else if s == "delegate"
    then some delegate
    else none

-- `==` and `!=` between members, as the code uses them.
abbrev pub is_open : ProposalStatus → Bool
is_open opened = true
is_open _ = false

abbrev pub is_closed : ProposalStatus → Bool
is_closed closed = true
is_closed _ = false

abbrev pub is_delegate : ActionType → Bool
is_delegate delegate = true
is_delegate _ = false

abbrev pub choice_eq : VoteChoice → Option VoteChoice → Bool
choice_eq yes_vote (some yes_vote) = true
choice_eq no_vote (some no_vote) = true
choice_eq abstain (some abstain) = true
choice_eq _ _ = false

abbrev pub audit_action_value : AuditAction → String
audit_action_value proposal_created = "proposal.created"
audit_action_value proposal_closed = "proposal.closed"
audit_action_value proposal_cancelled = "proposal.cancelled"
audit_action_value vote_cast = "vote.cast"
audit_action_value vote_delegated = "vote.delegated"
audit_action_value quorum_reached = "quorum.reached"
audit_action_value result_computed = "result.computed"
audit_action_value webhook_delivered = "webhook.delivered"
audit_action_value webhook_failed = "webhook.failed"

abbrev pub status_eq : ProposalStatus → ProposalStatus → Bool
status_eq pending pending = true
status_eq opened opened = true
status_eq closed closed = true
status_eq cancelled cancelled = true
status_eq _ _ = false
